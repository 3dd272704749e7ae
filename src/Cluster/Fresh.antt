-- ===== src/Cluster/Fresh.antt =====
-- A server from its constructor to its first candidacy, with what a primary's reign begins from.
use my_raft.Prelude.{
  suc, ◌+◌, ◌≤◌, ◌≡◌, refl, subst, false, Bytes, List, [], ◌∷◌, length, arith, ◌==◌,
}
use my_raft.Prelude.Int.{ℤ, pos, ◌+ℤ◌, minus_one}
use my_raft.Prelude.Assoc.{Map, insert}
use my_raft.Prelude.Outcome.{ok, >>=-eq-ok, ok-injective}
use my_raft.Wire.{Addr, addr_eq}
use my_raft.Entry.{Entries, log}
use my_raft.StateMachine.Controler.{new_controler}
use my_raft.Server.State.{candidate, start_accept, Env, Server}
use my_raft.Server.Transitions.{
  fill, cancel_all_timers, arm, update_term, reset_both_rpc_lsn, trans2c, log_call, rv,
}
use my_raft.Server.Events.{new_server, run}
use my_raft.Server.Timers.{CountsHandlers, NeverThrows}
use my_raft.Server.Start.{first_election}
use my_raft.Cluster.Leader.{
  IsLeading, IsLeading-SameReign, Keeps, Keeps-trans, log_call-Keeps, arm-Keeps, rv-Keeps,
}
use my_raft.Cluster.Elected.{AllBelow-fill, AllWithin-fill, for_others-Keeps, cancelled_carried}

-- No address stands twice in the list.
abbrev pub IsAbsent : Addr → List Addr → Type 0
IsAbsent a [] = Unit
IsAbsent a (b ∷ as') = ((a == b) ≡ false) × ((b == a) ≡ false) × IsAbsent a as'

abbrev pub IsDistinct : List Addr → Type 0
IsDistinct [] = Unit
IsDistinct (a ∷ as') = IsAbsent a as' × IsDistinct as'

abbrev HasNone : List Addr → Map Addr ℤ → Type 0
HasNone as' [] = Unit
HasNone as' ((b, v) ∷ m) = IsAbsent b as' × HasNone as' m

-- A new key makes the map longer.
fresh_insert :
    (a : Addr) (v : ℤ) (as' : List Addr) (m : Map Addr ℤ)
    → IsAbsent a as'
    → HasNone (a ∷ as') m
    → HasNone as' (insert a v m) × (length (insert a v m) ≡ suc (length m))
unfolding insert
fresh_insert a v as' [] absent h = ((absent, tt), refl)
fresh_insert a v as' ((b, w) ∷ m) absent ((new, old, rest), h) =
    let (none_left, longer) = fresh_insert a v as' m absent h in
    ground (arith, new, rest, none_left, longer)

length-fill :
    (v : ℤ) (as' : List Addr) (m : Map Addr ℤ)
    → IsDistinct as'
    → HasNone as' m
    → length (fill v as' m) ≡ length as' + length m
unfolding fill
length-fill v [] m distinct none_left = omega arith
length-fill v (a ∷ as') m (absent, distinct) none_left =
    let (less, longer) = fresh_insert a v as' m absent none_left in
    omega (arith, length-fill v as' (insert a v m) distinct less, longer)

new_server-IsLeading :
    (env : Env) (ip : Bytes) (port : ℤ) (configuration : List Addr) (entries : Entries) (s : Server)
    → IsDistinct configuration
    → entries.size ≤ length entries.entries
    → new_server ip port configuration entries ≡ ok s
    → IsLeading env s
unfolding new_server
new_server-IsLeading env ip port configuration entries s distinct stored h =
    let (smc, _, end) = >>=-eq-ok (new_controler 1) _ h in
    subst (IsLeading env) (ok-injective end) (record {
      stored = stored;
      carried = tt;
      saved = AllBelow-fill entries.size minus_one configuration [] (omega arith) tt;
      known = omega (arith, length-fill minus_one configuration [] distinct tt);
      committed = omega arith;
      placed = AllWithin-fill entries.size (pos 0) configuration [] (omega arith) (omega arith) tt;
    })

run-Keeps : (env : Env) (s s' : Server) → run env s ≡ ok s' → Keeps env s s'
unfolding run
run-Keeps env s s' h =
    Keeps-trans env s (log_call s start_accept) s' (log_call-Keeps env s start_accept (λ _. tt))
      (arm-Keeps env _ _ _ _ (log_call s start_accept) s' h)

-- A later term, and new numbers.
update_term-Keeps :
    (env : Env) (term : ℤ) (s s' : Server) → update_term term s ≡ ok s' → Keeps env s s'
unfolding update_term reset_both_rpc_lsn
update_term-Keeps env term s s' h w =
    let entries : s'.entries ≡ s.entries = ground arith in
    let calls : s'.calls ≡ s.calls = ground arith in
    let next : s'.next_index ≡ s.next_index = ground arith in
    (
      IsLeading-SameReign env s s'
          (record {
            entries = entries;
            saved = ground arith;
            configuration = ground arith;
            commit_index = ground arith;
            next_index = λ placed. rw next placed;
          })
          (rw calls w.carried) w,
      entries,
    )

-- What does not count: the state and the votes.
stands-Keeps :
    (env : Env) (s : Server) → Keeps env s (record s { state = candidate; winned_votes = 1 })
stands-Keeps env s w = (
  IsLeading-SameReign env s (record s { state = candidate; winned_votes = 1 })
      (record {
        entries = refl;
        saved = refl;
        configuration = refl;
        commit_index = refl;
        next_index = λ placed. placed;
      })
      w.carried w,
  refl,
)

cancel_all_timers-Keeps : (env : Env) (s : Server) → Keeps env s (cancel_all_timers s)
unfolding cancel_all_timers
cancel_all_timers-Keeps env s w = (
  IsLeading-SameReign env s (cancel_all_timers s)
      (record {
        entries = refl;
        saved = refl;
        configuration = refl;
        commit_index = refl;
        next_index = λ placed. placed;
      })
      (cancelled_carried env (log s.entries) s.retry_timers _ (tt, w.carried)) w,
  refl,
)

trans2c-Keeps : (env : Env) (s s' : Server) → trans2c env s ≡ ok s' → Keeps env s s'
unfolding trans2c
trans2c-Keeps env s s' h =
    let s₀ = cancel_all_timers s in
    let (s₁, e₁, h₁) = >>=-eq-ok (update_term (s.term +ℤ pos 1) s₀) _ h in
    let s₂ = record s₁ { state = candidate; winned_votes = 1 } in
    let (s₃, e₃, sent) = >>=-eq-ok (arm env _ _ _ _ s₂) _ h₁ in
    Keeps-trans env s s₀ s' (cancel_all_timers-Keeps env s) (
      Keeps-trans env s₀ s₁ s' (update_term-Keeps env (s.term +ℤ pos 1) s₀ s₁ e₁) (
        Keeps-trans env s₁ s₂ s' (stands-Keeps env s₁) (
          Keeps-trans env s₂ s₃ s' (arm-Keeps env _ _ _ _ s₂ s₃ e₃)
            (for_others-Keeps env (rv env) (rv-Keeps env) s₃.configuration s₃ s' sent))))

-- Where boost's timers count the handlers that wait, a process is started with a log that is in memory
-- and a configuration that names no server twice, for none of which `make_rpc_call` throws, and its
-- first wait ends in an election: these steps end without a fault, and the candidate's calls, maps
-- and commit index fit its log as those of a primary do.
pub first_candidate-IsLeading :
    (env : Env) (ip : Bytes) (port : ℤ) (configuration : List Addr) (entries : Entries)
    → CountsHandlers env
    → NeverThrows env configuration
    → IsDistinct configuration
    → entries.size ≤ length entries.entries
    → (s : Server) × (s₁ : Server) × (s₂ : Server) × (new_server ip port configuration entries
        ≡ ok s)
      × (run env s ≡ ok s₁)
      × (trans2c env s₁ ≡ ok s₂)
      × IsLeading env s₂
first_candidate-IsLeading env ip port configuration entries counts valid distinct stored =
    let (s, s₁, s₂, made, ran, stood, _, _, _) =
      first_election env ip port configuration entries counts valid in
    let fresh = new_server-IsLeading env ip port configuration entries s distinct stored made in
    (
      s,
      s₁,
      s₂,
      made,
      ran,
      stood,
      (trans2c-Keeps env s₁ s₂ stood (run-Keeps env s s₁ ran fresh).0).0,
    )
