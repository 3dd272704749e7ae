-- ===== src/Cluster/Elected.antt =====
-- `trans2P`, as the start of a reign.
use my_raft.Prelude.{
  ℕ, ◌≤◌, ◌≡◌, ◌≢◌, ap, subst, List, [], ◌∷◌, length, arith, if◌then◌else◌, inl, inr,
}
use my_raft.Prelude.Int.{ℤ, pos, ◌-ℤ◌, ◌<ℤ◌, ◌≤ℤ◌, eqb_ℤ, minus_one, -ℤ_parts}
use my_raft.Prelude.Assoc.{Map, insert}
use my_raft.Prelude.Outcome.{Outcome, ok, >>=-eq-ok, ok-injective, skip-eq-ok}
use my_raft.Wire.{Addr, addr_eq, Entry}
use my_raft.Entry.{log}
use my_raft.Server.State.{primary, Call, Env, Server}
use my_raft.Server.Transitions.{
  fill, cancel_retry_timers, cancel_all_timers, trans2p, for_others, ae,
}
use my_raft.Server.Frames.{trans2p-Leads}
use my_raft.Server.Invariant.{IsWellFormed}
use my_raft.Cluster.Carries.{AllCarried}
use my_raft.Cluster.Commits.{
  AllBelow, AllBelow-insert, saved_values, length-insert, AllWithin, AllWithin-insert,
}
use my_raft.Cluster.Leader.{IsLeading, Keeps, Keeps-refl, Keeps-trans, ae-Keeps}
use my_raft.Cluster.Logs.{Matching, NoneOf}
use my_raft.Cluster.Agreement.{Agree, CommonUpTo}

pub for_others-Keeps :
    (env : Env) (body : Addr → Server → Outcome Server)
    → ((a : Addr) (s s' : Server) → body a s ≡ ok s' → Keeps env s s')
    → (servers : List Addr) (s s' : Server) → for_others body servers s ≡ ok s'
    → Keeps env s s'
unfolding for_others
for_others-Keeps env body keeps [] s s' h = subst (Keeps env s) (ok-injective h) (Keeps-refl env s)
for_others-Keeps env body keeps (a ∷ servers) s s' h =
    let (t, e, rest) = >>=-eq-ok (if eqb_ℤ a.port s.port then ok s else body a s) _ h in
    let later = for_others-Keeps env body keeps servers t s' rest in
    elim (skip-eq-ok (eqb_ℤ a.port s.port) s (body a s) e) [
      | inl skipped ↦ subst (λ r. Keeps env r s') skipped later
      | inr sent ↦ Keeps-trans env s t s' (keeps a s t sent) later
    ]

pub AllWithin-fill :
    (n : ℕ) (v : ℤ) (as' : List Addr) (m : Map Addr ℤ)
    → pos 0 ≤ℤ v
    → v ≤ℤ pos n
    → AllWithin n (saved_values m)
    → AllWithin n (saved_values (fill v as' m))
unfolding fill
AllWithin-fill n v [] m low high within = within
AllWithin-fill n v (a ∷ as') m low high within =
    AllWithin-fill n v as' (insert a v m) low high (AllWithin-insert n a v m low high within)

pub AllBelow-fill :
    (n : ℕ) (v : ℤ) (as' : List Addr) (m : Map Addr ℤ)
    → v <ℤ pos n
    → AllBelow n (saved_values m)
    → AllBelow n (saved_values (fill v as' m))
unfolding fill
AllBelow-fill n v [] m h below = below
AllBelow-fill n v (a ∷ as') m h below =
    AllBelow-fill n v as' (insert a v m) h (AllBelow-insert n a v m h below)

length-fill : (v : ℤ) (as' : List Addr) (m : Map Addr ℤ) → length m ≤ length (fill v as' m)
unfolding fill
length-fill v [] m = omega arith
length-fill v (a ∷ as') m = omega (arith, length-fill v as' (insert a v m), length-insert a v m)

pub cancelled_carried :
    (env : Env) (l : List Entry) (timers : List Addr) (calls : List Call)
    → AllCarried env l calls
    → AllCarried env l (cancel_retry_timers timers calls)
unfolding cancel_retry_timers
cancelled_carried env l [] calls h = h
cancelled_carried env l (a ∷ as') calls h = cancelled_carried env l as' _ (tt, h)

-- The maps that are filled stay in their bounds.
trans2p-Keeps : (env : Env) (s p : Server) → trans2p env s ≡ ok p → Keeps env s p
unfolding trans2p cancel_all_timers
trans2p-Keeps env s p h w =
    let own : Addr = record { ip = s.ip; port = s.port } in
    let last = pos s.entries.size -ℤ pos 1 in
    let filled = fill minus_one s.configuration s.follower_saved_index in
    let inside : last <ℤ pos s.entries.size =
      omega (arith, -ℤ_parts (pos s.entries.size) (pos 1)) in
    let t : Server = record (cancel_all_timers s) {
      state = primary;
      next_index = fill (pos s.entries.size) s.configuration s.next_index;
      follower_saved_index = insert own last filled;
    } in
    for_others-Keeps env (ae env) (ae-Keeps env) s.configuration t p h (record {
      stored = w.stored;
      carried = cancelled_carried env (log s.entries) s.retry_timers _ (tt, w.carried);
      saved = AllBelow-insert s.entries.size own last filled inside (
          AllBelow-fill s.entries.size minus_one s.configuration s.follower_saved_index
            (omega arith) w.saved);
      known = omega (
        arith,
        w.known,
        length-fill minus_one s.configuration s.follower_saved_index,
        length-insert own last filled,
      );
      committed = w.committed;
      placed =
          AllWithin-fill s.entries.size (pos s.entries.size) s.configuration s.next_index
            (omega arith) (omega arith) w.placed;
    })

-- A server whose append calls, maps and commit index fit its log as those of a primary do, and for
-- which `trans2P` ends without a fault, is then primary of the same term with the same log; and its
-- maps, as they are filled anew, its commit index and its append calls, with those that it has just
-- sent, fit the log: each call carries the entry at its position or none and names the term before
-- it, and the values of both maps lie within the log.
pub trans2p-IsLeading :
    (env : Env) (s p : Server)
    → IsLeading env s
    → trans2p env s ≡ ok p
    → IsLeading env p × (p.state ≡ primary) × (p.term ≡ s.term) × (p.entries ≡ s.entries)
trans2p-IsLeading env s p w h =
    let (leading, same) = trans2p-Keeps env s p h w in
    let led = (trans2p-Leads env s p h).same in
    (leading, ap (λ (t : Server). t.state) led, ap (λ (t : Server). t.term) led, same)

-- The begin of a reign.
pub elected-Agree :
    (env : Env) (s p o : Server)
    → IsLeading env s
    → IsWellFormed o
    → o.state ≢ primary
    → Matching (log s.entries) (log o.entries)
    → NoneOf s.term (log s.entries) (log o.entries)
    → CommonUpTo o.commit_index (log s.entries) (log o.entries)
    → trans2p env s ≡ ok p
    → Agree env (record { leader = p; other = o })
elected-Agree env s p o w formed other match none_of common h =
    let (leading, reigns, term, same) = trans2p-IsLeading env s p w h in
    record {
      reigns = reigns;
      leading = leading;
      other_formed = formed;
      other_state = other;
      matching = rw same match;
      none_of = rw (same, term) none_of;
      committed = rw same common;
    }
