-- ===== src/Server/Invariant.antt =====
-- The invariant of a server, and how one state of it evolves into another.
use my_raft.Prelude.{
  ℕ, zero, suc, ◌+◌, ◌/◌, ◌≤◌, ◌≡◌, refl, sym, ap, ◌∙◌, ◌⊎◌, false, List, [], ◌∷◌, ◌++◌, length,
  take, arith, length-take,
}
use my_raft.Prelude.Int.{ℤ, pos, ◌≤ℤ◌, to_unsigned}
use my_raft.Prelude.Outcome.{ok, >>=-eq-ok, ok-injective}
use my_raft.Wire.{Entry}
use my_raft.Entry
use my_raft.Entry.{Entries, log}
use my_raft.Entry.Insert.{insert-log}
use my_raft.Server.State.{Env, Server}
use my_raft.Server.Handlers.{is_primary, insert_entry}
use my_raft.Server.Frames.{Sends}

-- Each entry carries its position, the first the position `n`.
abbrev pub IsNumbered : ℕ → List Entry → Type 0
IsNumbered n [] = Unit
IsNumbered n (e ∷ es) = (e.index ≡ pos n) × IsNumbered (suc n) es

pub IsNumbered-take : (n k : ℕ) (es : List Entry) → IsNumbered n es → IsNumbered n (take k es)
IsNumbered-take n zero es h = tt
IsNumbered-take n (suc k) [] h = tt
IsNumbered-take n (suc k) (e ∷ es) h = (h.0, IsNumbered-take (suc n) k es h.1)

pub IsNumbered-append :
    (n : ℕ) (es : List Entry) (e : Entry)
    → IsNumbered n es
    → e.index ≡ pos (n + length es)
    → IsNumbered n (es ++ e ∷ [])
IsNumbered-append n [] e h at_end = (rw at_end (ap pos (omega arith)), tt)
IsNumbered-append n (x ∷ es) e h at_end =
    (h.0, IsNumbered-append (suc n) es e h.1 (rw at_end (ap pos (omega arith))))

-- The log in memory reaches to `size_` and its entries carry their positions; the majority is more
-- than half of the configuration; a server is primary only while it counts a majority of votes.
pub record IsWellFormed (s : Server) : Type 0 where
  pub stored : s.entries.size ≤ length s.entries.entries
  pub numbered : IsNumbered 0 (log s.entries)
  pub quorum : s.majority ≡ length s.configuration / 2 + 1
  pub elected : (is_primary s.state ≡ false) ⊎ (s.majority ≤ s.winned_votes)

pub record Evolves (s s' : Server) : Type 0 where
  pub term_le : s.term ≤ℤ s'.term
  pub ip : s'.ip ≡ s.ip
  pub port : s'.port ≡ s.port
  pub configuration : s'.configuration ≡ s.configuration
  pub majority : s'.majority ≡ s.majority
  pub retry_timers : s'.retry_timers ≡ s.retry_timers
  pub keeps : IsWellFormed s → IsWellFormed s'

pub Evolves-refl : (s : Server) → Evolves s s
Evolves-refl s = record {
  term_le = omega arith;
  ip = refl;
  port = refl;
  configuration = refl;
  majority = refl;
  retry_timers = refl;
  keeps = λ h. h;
}

pub Evolves-trans : {s t u : Server} → Evolves s t → Evolves t u → Evolves s u
Evolves-trans p q = record {
  term_le = omega (arith, p.term_le, q.term_le);
  ip = cc (p.ip, q.ip);
  port = cc (p.port, q.port);
  configuration = cc (p.configuration, q.configuration);
  majority = cc (p.majority, q.majority);
  retry_timers = cc (p.retry_timers, q.retry_timers);
  keeps = λ h. q.keeps (p.keeps h);
}

-- The part of a server that the invariant and `Evolves` are about.
pub record Same (s s' : Server) : Type 0 where
  pub term : s'.term ≡ s.term
  pub ip : s'.ip ≡ s.ip
  pub port : s'.port ≡ s.port
  pub configuration : s'.configuration ≡ s.configuration
  pub majority : s'.majority ≡ s.majority
  pub retry_timers : s'.retry_timers ≡ s.retry_timers
  pub state : s'.state ≡ s.state
  pub winned_votes : s'.winned_votes ≡ s.winned_votes
  pub entries : s'.entries ≡ s.entries

pub Same-Evolves : {s s' : Server} → Same s s' → Evolves s s'
Same-Evolves {s} {s'} e = record {
  term_le = rw e.term (omega arith);
  ip = e.ip;
  port = e.port;
  configuration = e.configuration;
  majority = e.majority;
  retry_timers = e.retry_timers;
  keeps = λ h. record {
    stored = rw e.entries h.stored;
    numbered = rw e.entries h.numbered;
    quorum = rw (e.majority, e.configuration) h.quorum;
    elected = rw (e.state, e.majority, e.winned_votes) h.elected;
  };
}

pub Sends-Evolves : {s s' : Server} → Sends s s' → Evolves s s'
Sends-Evolves e = Same-Evolves (ground (arith, e.same))

pub insert_entry-log :
    (env : Env) (index : ℤ) (e : Entry) (s s' : Server)
    → s.entries.size ≤ length s.entries.entries
    → insert_entry env index e s ≡ ok s'
    → (to_unsigned index ≤ s.entries.size)
      × (s'.entries.size ≡ suc (to_unsigned index))
      × (s'.entries.size ≤ length s'.entries.entries)
      × (log s'.entries ≡ take (to_unsigned index) (log s.entries) ++ e ∷ [])
      × (s' ≡ record s { entries = s'.entries })
unfolding insert_entry
insert_entry-log env index e s s' h eq =
    let (es, inserted, end) =
      >>=-eq-ok (Entry.insert env.codecs s.entries (to_unsigned index) e) _ eq in
    let same = sym (ok-injective end) in
    let (below, sized, held, cut) =
      insert-log env.codecs s.entries es (to_unsigned index) e h inserted in
    rw same (below, sized, held, cut, refl)

-- An entry that carries the position at which it is inserted keeps the log numbered.
insert_entry-IsWellFormed :
    (env : Env) (index : ℤ) (e : Entry) (s s' : Server)
    → IsWellFormed s
    → e.index ≡ pos (to_unsigned index)
    → insert_entry env index e s ≡ ok s'
    → IsWellFormed s'
insert_entry-IsWellFormed env index e s s' h place eq =
    let (below, sized, held, cut, same) = insert_entry-log env index e s s' h.stored eq in
    record {
      stored = held;
      numbered = rw cut (
          IsNumbered-append 0 (take (to_unsigned index) (log s.entries)) e
            (IsNumbered-take 0 (to_unsigned index) (log s.entries) h.numbered)
            (rw place (
              ap pos (
                omega (
                  arith,
                  length-take (to_unsigned index) (log s.entries),
                  length-take s.entries.size s.entries.entries,
                  h.stored,
                )))));
      quorum =
          ap (λ (r : Server). r.majority) same
          ∙ h.quorum
          ∙ sym (ap (λ (r : Server). length r.configuration / 2 + 1) same);
      elected = ground (arith, h.elected, same);
    }

pub insert_entry-Evolves :
    (env : Env) (index : ℤ) (e : Entry) (s s' : Server)
    → e.index ≡ pos (to_unsigned index)
    → insert_entry env index e s ≡ ok s'
    → Evolves s s'
unfolding insert_entry
insert_entry-Evolves env index e s s' place eq =
    let (es, _, end) = >>=-eq-ok (Entry.insert env.codecs s.entries (to_unsigned index) e) _ eq in
    record {
      term_le = ground arith;
      ip = ground arith;
      port = ground arith;
      configuration = ground arith;
      majority = ground arith;
      retry_timers = ground arith;
      keeps = λ h. insert_entry-IsWellFormed env index e s s' h place eq;
    }
