-- ===== src/Server/Timers.antt =====
-- The checks of what `expires_from_now` returns, against what boost documents of its timers.
use my_raft.Prelude.{
  subst, ℕ, Bool-cases, inl, inr, ◌≡◌, refl, sym, ap, ◌∙◌, Bool, true, false, ◌||◌, ◌&&◌, not, List,
  [], ◌∷◌, ◌==◌, if◌then◌else◌, arith,
}
use my_raft.Prelude.Int.{ℤ, pos, ◌+ℤ◌, ◌≤ℤ◌, ltb_ℤ, eqb_ℤ, +ℤ_parts}
use my_raft.Prelude.Outcome.{
  Fault, fail, undefined_behaviour, waits_in_trans2f, waits_in_trans2c, ok,
}
use my_raft.Wire.{Addr, addr_eq}
use my_raft.Server.State.{
  Hook, random_candidate_expire, trans2f_hook, trans2c_hook, follower, candidate, Timer,
  candidate_timer, retry_timer, Call, expires_at_min, cancel, expires_from_now, async_wait, Env,
  Server,
}
use my_raft.Server.Transitions.{
  log_call, cancel_retry_timers, cancel_all_timers, reset_both_rpc_lsn, update_term, arm, trans2f,
  trans2c, contains, send, arm_rv, rv, build_rpc_rv, for_others,
}
use my_raft.Server.Frames.{rv-Sends, arm-Sends}

abbrev pub same_timer : Timer → Timer → Bool
same_timer candidate_timer candidate_timer = true
same_timer (retry_timer a) (retry_timer b) = a == b
same_timer _ _ = false

-- Whether no handler has been handed to the timer since its handlers were last cancelled.
abbrev pub is_idle : Timer → List Call → Bool
is_idle t [] = true
is_idle t (expires_at_min u ∷ calls) = same_timer u t || is_idle t calls
is_idle t (cancel u ∷ calls) = same_timer u t || is_idle t calls
is_idle t (expires_from_now u ms ∷ calls) = same_timer u t || is_idle t calls
is_idle t (async_wait u hook ∷ calls) = not (same_timer u t) && is_idle t calls
is_idle t (_ ∷ calls) = is_idle t calls

-- `expires_from_now` returns the number of handlers that it cancelled: none of an idle timer.
abbrev pub CountsHandlers : Env → Type 0
CountsHandlers env =
    (calls : List Call) (t : Timer) → is_idle t calls ≡ true → env.waiting calls t ≡ 0

cancel_retry_timers-is_idle :
    (t : Timer) (addrs : List Addr) (calls : List Call)
    → is_idle t calls ≡ true
    → is_idle t (cancel_retry_timers addrs calls) ≡ true
unfolding cancel_retry_timers
cancel_retry_timers-is_idle t [] calls h = h
cancel_retry_timers-is_idle t (a ∷ addrs) calls h =
    cancel_retry_timers-is_idle t addrs (expires_at_min (retry_timer a) ∷ calls) (ground (arith, h))

-- After `cancel_all_timers` nothing waits on the candidate's timer.
cancelled-waiting :
    (env : Env) (s : Server)
    → CountsHandlers env
    → env.waiting (cancel_all_timers s).calls candidate_timer ≡ 0
unfolding cancel_all_timers
cancelled-waiting env s counts =
    counts _ candidate_timer (cancel_retry_timers-is_idle candidate_timer s.retry_timers _ refl)

update_term-ok :
    (term : ℤ) (s : Server)
    → s.term ≤ℤ term
    → (s₁ : Server) × (update_term term s ≡ ok s₁)
      × (s₁.calls ≡ s.calls)
      × (s₁.configuration ≡ s.configuration)
      × (s₁.retry_timers ≡ s.retry_timers)
unfolding update_term reset_both_rpc_lsn
update_term-ok term s h = elim (Bool-cases (ltb_ℤ s.term term)) [
  | inl later ↦
      (record (reset_both_rpc_lsn s) { term = term }, ground (arith, later), refl, refl, refl)
  | inr same ↦ (s, ground arith, refl, refl, refl)
]

pub arm-ok :
    (env : Env) (timer : Timer) (ms : ℕ) (hook : Hook) (fault : Fault) (s : Server)
    → env.waiting s.calls timer ≡ 0
    → (s' : Server) × (arm env timer ms hook fault s ≡ ok s')
unfolding arm
arm-ok env timer ms hook fault s h =
    (log_call (log_call s (expires_from_now timer ms)) (async_wait timer hook), ground (arith, h))

-- `trans2F` of a term that is not below the server's ends without a fault, if the timers count their
-- handlers.
pub trans2f-ok :
    (env : Env) (term : ℤ) (s : Server)
    → CountsHandlers env
    → s.term ≤ℤ term
    → (s' : Server) × (trans2f env term s ≡ ok s')
unfolding trans2f cancel_all_timers
trans2f-ok env term s counts h =
    let (s₁, e, same, _, _) =
      update_term-ok term (record (cancel_all_timers s) { winned_votes = 0 }) h in
    let (s', armed) =
      arm-ok env candidate_timer (random_candidate_expire (env.rand s₁.calls)) trans2f_hook
        waits_in_trans2f (record s₁ { already_voted = false; state = follower })
        (ap (λ c. env.waiting c candidate_timer) same ∙ cancelled-waiting env s counts) in
    (s', ground (arith, e, armed))

-- Each of the servers has a retry timer.
abbrev pub HaveTimers : List Addr → List Addr → Type 0
HaveTimers [] timers = Unit
HaveTimers (a ∷ addrs) timers = (contains a timers ≡ true) × HaveTimers addrs timers

-- `make_rpc_call` throws for none of the addresses, whatever calls were made.
abbrev pub NeverThrows : Env → List Addr → Type 0
NeverThrows env [] = Unit
NeverThrows env (a ∷ addrs) =
    ((calls : List Call) → env.throws calls a ≡ false) × NeverThrows env addrs

past_guard :
    (guard : Bool) (f : Fault) (b : Bool) (x y : Server)
    → guard ≡ true
    → (s' : Server) × ((if not guard then fail f else if b then ok x else ok y) ≡ ok s')
past_guard true f true x y h = (x, refl)
past_guard true f false x y h = (y, refl)
past_guard false f b x y h = cc

rv-ok :
    (env : Env) (a : Addr) (s : Server)
    → ((calls : List Call) → env.throws calls a ≡ false)
    → contains a s.retry_timers ≡ true
    → (s' : Server) × (rv env a s ≡ ok s')
unfolding rv build_rpc_rv send arm_rv
rv-ok env a s valid h =
    rw (valid s.calls) (past_guard (contains a s.retry_timers) undefined_behaviour _ _ _ h)

for_others-rv-ok :
    (env : Env) (addrs : List Addr) (s : Server)
    → NeverThrows env addrs
    → HaveTimers addrs s.retry_timers
    → (s' : Server) × (for_others (rv env) addrs s ≡ ok s')
unfolding for_others
for_others-rv-ok env [] s valid timed = (s, refl)
for_others-rv-ok env (a ∷ addrs) s (sends, valid) (first, others) =
    elim (Bool-cases (eqb_ℤ a.port s.port)) [
      | inl own ↦
          let (s', rest) = for_others-rv-ok env addrs s valid others in
          (s', ground (arith, own, rest))
      | inr other ↦
          let (s₁, sent) = rv-ok env a s sends first in
          let same : s₁.retry_timers ≡ s.retry_timers =
            ap (λ (t : Server). t.retry_timers) (rv-Sends env a s s₁ sent).same in
          let (s', rest) =
            for_others-rv-ok env addrs s₁ valid (subst (HaveTimers addrs) (sym same) others) in
          (s', ground (arith, other, sent, rest))
    ]

-- `trans2C` ends without a fault, if the timers count their handlers, each configured server has a
-- retry timer, and `make_rpc_call` throws for none of them.
pub trans2c-ok :
    (env : Env) (s : Server)
    → CountsHandlers env
    → NeverThrows env s.configuration
    → HaveTimers s.configuration s.retry_timers
    → (s' : Server) × (trans2c env s ≡ ok s')
unfolding trans2c cancel_all_timers
trans2c-ok env s counts valid timed =
    let (s₁, e, same, config, timers) =
      update_term-ok (s.term +ℤ pos 1) (cancel_all_timers s)
        (omega (arith, +ℤ_parts s.term (pos 1))) in
    let s₂ = record s₁ { state = candidate; winned_votes = 1 } in
    let (s₃, armed) =
      arm-ok env candidate_timer (random_candidate_expire (env.rand s₁.calls)) trans2c_hook
        waits_in_trans2c s₂
        (ap (λ c. env.waiting c candidate_timer) same ∙ cancelled-waiting env s counts) in
    let kept = (arm-Sends env _ _ _ _ s₂ s₃ armed).same in
    let config₃ : s₃.configuration ≡ s.configuration =
      ap (λ (t : Server). t.configuration) kept ∙ config in
    let timers₃ : s₃.retry_timers ≡ s.retry_timers =
      ap (λ (t : Server). t.retry_timers) kept ∙ timers in
    let (s', sent) =
      for_others-rv-ok env s₃.configuration s₃ (subst (NeverThrows env) (sym config₃) valid) (
        subst (HaveTimers s₃.configuration) (sym timers₃)
          (subst (λ c. HaveTimers c s.retry_timers) (sym config₃) timed)) in
    (s', ground (arith, e, armed, sent))
