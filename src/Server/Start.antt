-- ===== src/Server/Start.antt =====
-- The constructor, `run`, and the first election.
use my_raft.Prelude.{◌≡◌, refl, sym, ap, ◌∙◌, true, Bytes, List, [], ◌∷◌, ◌++◌, arith, subst}
use my_raft.Prelude.Int.{ℤ, pos, ◌+ℤ◌, pos-add}
use my_raft.Prelude.Assoc.{==_self}
use my_raft.Prelude.Outcome.{ok, wait_not_zero_at_start}
use my_raft.Wire.{Addr, addr_eq}
use my_raft.Entry.{Entries}
use my_raft.StateMachine.Controler.{new_controler}
use my_raft.Server.State.{
  Env, candidate, start_accept, Server, candidate_timer, run_hook, random_candidate_expire,
}
use my_raft.Server.Transitions.{log_call, contains, trans2c}
use my_raft.Server.Events.{retry_timers_of, new_server, run}
use my_raft.Server.Timers.{CountsHandlers, NeverThrows, HaveTimers, trans2c-ok, arm-ok}
use my_raft.Server.Frames.{arm-Sends, trans2c-Stands}

contains_append_left :
    (a : Addr) (xs ys : List Addr) → contains a xs ≡ true → contains a (xs ++ ys) ≡ true
unfolding contains
contains_append_left a [] ys h = cc
contains_append_left a (x ∷ xs) ys h = ground (arith, contains_append_left a xs ys)

contains_append_last : (a : Addr) (xs : List Addr) → contains a (xs ++ a ∷ []) ≡ true
unfolding contains
contains_append_last a [] = ground (arith, ==_self a)
contains_append_last a (x ∷ xs) = ground (arith, contains_append_last a xs)

-- A timer that is there stays.
retry_timers_of-contains :
    (a : Addr) (addrs timers : List Addr)
    → contains a timers ≡ true
    → contains a (retry_timers_of addrs timers) ≡ true
unfolding retry_timers_of
retry_timers_of-contains a [] timers h = h
retry_timers_of-contains a (b ∷ addrs) timers h =
    retry_timers_of-contains a addrs _ (ground (arith, h, contains_append_left a timers (b ∷ [])))

retry_timers_of-HaveTimers :
    (addrs timers : List Addr) → HaveTimers addrs (retry_timers_of addrs timers)
unfolding retry_timers_of
retry_timers_of-HaveTimers [] timers = tt
retry_timers_of-HaveTimers (a ∷ addrs) timers = (
  retry_timers_of-contains a addrs _ (ground (arith, contains_append_last a timers)),
  retry_timers_of-HaveTimers addrs _,
)

-- From any log and any configuration that was read, if the timers count their handlers and
-- `make_rpc_call` throws for none of the configured servers: the constructor and `run` end without a fault, and so does the election that begins when the first
-- wait expires. It leaves a candidate of term 1 that has its own vote.
pub first_election :
    (env : Env) (ip : Bytes) (port : ℤ) (configuration : List Addr) (entries : Entries)
    → CountsHandlers env
    → NeverThrows env configuration
    → (s : Server) × (s₁ : Server) × (s₂ : Server) × (new_server ip port configuration entries
        ≡ ok s)
      × (run env s ≡ ok s₁)
      × (trans2c env s₁ ≡ ok s₂)
      × (s₂.state ≡ candidate)
      × (s₂.term ≡ pos 1)
      × (s₂.winned_votes ≡ 1)
unfolding new_server new_controler run
first_election env ip port configuration entries counts valid =
    let (s, built) = built_server in
    let s₀ = log_call s start_accept in
    let (s₁, started) =
      arm-ok env candidate_timer (random_candidate_expire (env.rand s₀.calls)) run_hook
        wait_not_zero_at_start s₀ (counts s₀.calls candidate_timer refl) in
    let kept = (arm-Sends env _ _ _ _ s₀ s₁ started).same in
    let timed : HaveTimers s₁.configuration s₁.retry_timers =
      subst (λ (t : Server). HaveTimers t.configuration t.retry_timers) (sym kept)
        (retry_timers_of-HaveTimers configuration []) in
    let valid₁ : NeverThrows env s₁.configuration =
      subst (λ (t : Server). NeverThrows env t.configuration) (sym kept) valid in
    let (s₂, stood) = trans2c-ok env s₁ counts valid₁ timed in
    let stands = (trans2c-Stands env s₁ s₂ stood).same in
    (
      s,
      s₁,
      s₂,
      built,
      started,
      stood,
      ap (λ (t : Server). t.state) stands,
      ap (λ (t : Server). t.term) stands ∙ ap (λ (t : Server). t.term +ℤ pos 1) kept ∙ pos-add 0 1,
      ap (λ (t : Server). t.winned_votes) stands,
    )
  where
    built_server : (s : Server) × (new_server ip port configuration entries ≡ ok s)
    built_server = (_, refl)
