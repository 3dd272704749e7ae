-- ===== src/Server/Handover/Events.antt =====
-- RaftServer.cpp: what each event gives to the write pool.
use my_raft.Prelude.{ℕ, ◌≡◌, sym, ap, ◌∙◌, inl, inr, Bytes, arith}
use my_raft.Prelude.Int.{ℤ, pos, ◌+ℤ◌}
use my_raft.Prelude.Outcome.{ok, >>=-eq-ok, ok-injective, fail_ne_ok, if-eq-ok, else-eq-ok}
use my_raft.Wire.{Addr, addr_eq, RpcType}
use my_raft.StateMachine.Controler
use my_raft.StateMachine.ThreadPool.{enqueue}
use my_raft.Server.State.{
  Hook, run_hook, trans2f_hook, trans2c_hook, ae_hook, rv_hook, candidate_timer, retry_timer, Env,
  Server,
}
use my_raft.Server.Commit.{write_resp_apply_call, write_resp_query_call}
use my_raft.Server.Transitions.{trans2c}
use my_raft.Server.Handlers.{insert_entry, append_client_apply_to_entries, get_from_state_machine}
use my_raft.Server.Events.{
  WaitEnd, Event, incoming, timer_ended, applied, queried, fire, on_timer, react_to_incoming_msg,
  step,
}
use my_raft.Server.Frames.{trans2c-Stands, ae-Sends, rv-Sends}
use my_raft.Server.Handover.{queue_of, queue_with, HandsOver, Hands, Hands-none}
use my_raft.Server.Handover.Responses.{react2resp_ae-Hands, react2resp_rv-Hands}
use my_raft.Server.Handover.Messages.{
  same-Hands, insert_entry-queue, react2ae-Hands, react2rv-Hands,
}

append_client_apply-Hands :
    (env : Env) (client : Addr) (msg : Bytes) (s s' : Server)
    → append_client_apply_to_entries env client msg s ≡ ok s'
    → Hands (queue_of s) s'
unfolding append_client_apply_to_entries
append_client_apply-Hands env client msg s s' h =
    let (s₁, e, end) = >>=-eq-ok (insert_entry env (pos s.entries.size) _ _) _ h in
    Hands-none s s'
      (sym (ap queue_of (ok-injective end)) ∙ insert_entry-queue env (pos s.entries.size) _ _ s₁ e)

-- A query goes to the other pool.
get_from_state_machine-Hands :
    (client : Addr) (msg : Bytes) (s s' : Server)
    → get_from_state_machine client msg s ≡ ok s'
    → Hands (queue_of s) s'
unfolding get_from_state_machine Controler.get_from_state_machine
get_from_state_machine-Hands client msg s s' h =
    let (smc, e, end) = >>=-eq-ok (Controler.get_from_state_machine s.smc msg client) _ h in
    let (pool, _, read) = >>=-eq-ok (enqueue s.smc.read_thread_pool _) _ e in
    Hands-none s s' (
      sym (ap queue_of (ok-injective end))
      ∙ sym (ap (queue_with s.commit_index) (ok-injective read)))

react_to_incoming_msg-Hands :
    (env : Env) (t : RpcType) (msg : Bytes) (peer : Addr) (s s' : Server)
    → react_to_incoming_msg env t msg peer s ≡ ok s'
    → Hands (queue_of s) s'
unfolding react_to_incoming_msg
react_to_incoming_msg-Hands env RpcType.request_vote msg peer s s' h = react2rv-Hands env _ s s' h
react_to_incoming_msg-Hands env RpcType.append_entry msg peer s s' h = react2ae-Hands env _ s s' h
react_to_incoming_msg-Hands env RpcType.resp_vote msg peer s s' h = react2resp_rv-Hands env _ s s' h
react_to_incoming_msg-Hands env RpcType.resp_append msg peer s s' h =
    react2resp_ae-Hands env _ s s' h
react_to_incoming_msg-Hands env RpcType.client_apply msg peer s s' h =
    append_client_apply-Hands env peer msg s s' h
react_to_incoming_msg-Hands env RpcType.client_query msg peer s s' h =
    get_from_state_machine-Hands peer msg s s' h
react_to_incoming_msg-Hands env RpcType.resp_client_apply msg peer s s' h = same-Hands s s' h
react_to_incoming_msg-Hands env RpcType.resp_client_query msg peer s s' h = same-Hands s s' h
react_to_incoming_msg-Hands env RpcType.error msg peer s s' h = same-Hands s s' h

stood-Hands : (env : Env) (s s' : Server) → trans2c env s ≡ ok s' → Hands (queue_of s) s'
stood-Hands env s s' h = Hands-none s s' (ap queue_of (trans2c-Stands env s s' h).same)

fire-Hands :
    (env : Env) (hook : Hook) (s s' : Server) → fire env hook s ≡ ok s' → Hands (queue_of s) s'
unfolding fire
fire-Hands env run_hook s s' h = elim (if-eq-ok (env.is_min s.calls candidate_timer) (ok s) _ h) [
  | inl (_, same) ↦ same-Hands s s' same
  | inr (_, stood) ↦ stood-Hands env s s' stood
]
fire-Hands env trans2f_hook s s' h =
    stood-Hands env s s' (else-eq-ok (env.is_min s.calls candidate_timer) _ _ h).1
fire-Hands env trans2c_hook s s' h =
    stood-Hands env s s' (else-eq-ok (env.is_min s.calls candidate_timer) _ _ h).1
fire-Hands env (ae_hook server) s s' h =
    elim (if-eq-ok (env.is_min s.calls (retry_timer server)) (ok s) _ h) [
      | inl (_, same) ↦ same-Hands s s' same
      | inr (_, sent) ↦ Hands-none s s' (ap queue_of (ae-Sends env server s s' sent).same)
    ]
fire-Hands env (rv_hook server) s s' h =
    let sent = (else-eq-ok (env.is_min s.calls (retry_timer server)) _ _ h).1 in
    Hands-none s s' (ap queue_of (rv-Sends env server s s' sent).same)

on_timer-Hands :
    (env : Env) (hook : Hook) (end' : WaitEnd) (s s' : Server)
    → on_timer env hook end' s ≡ ok s'
    → Hands (queue_of s) s'
unfolding on_timer
on_timer-Hands env hook WaitEnd.expired s s' h = fire-Hands env hook s s' h
on_timer-Hands env hook WaitEnd.aborted s s' h = same-Hands s s' h
on_timer-Hands env hook WaitEnd.failed s s' h = absurd (fail_ne_ok h)

told-queue :
    (index : ℤ) (res : Bytes) (s : Server)
    → queue_of (write_resp_apply_call index res s) ≡ queue_of s
unfolding write_resp_apply_call
told-queue index res s = ground arith

pub step-Hands :
    (env : Env) (e : Event) (s s' : Server) → step env e s ≡ ok s' → Hands (queue_of s) s'
unfolding step write_resp_query_call
step-Hands env (incoming t msg peer) s s' h = react_to_incoming_msg-Hands env t msg peer s s' h
step-Hands env (timer_ended hook end') s s' h = on_timer-Hands env hook end' s s' h
step-Hands env (applied index res) s s' h =
    Hands-none s s' (sym (ap queue_of (ok-injective h)) ∙ told-queue index res s)
step-Hands env (queried addr res) s s' h = Hands-none s s' (sym (ap queue_of (ok-injective h)))

-- Whatever the event and the role of the server, `a` being the position behind the last entry that
-- was given to the write pool: where the event is handled without a fault, the queue ends with one
-- task for each of the next `n` entries of the log as it is then, in order, and has no other new
-- one. Where these are any, they stand in the log, and the last is the one that the commit index
-- then names; and where all that was committed had been given away, all that is committed then has.
pub step-HandsOver :
    (env : Env) (e : Event) (s s' : Server) (a : ℕ)
    → s.smc.applied_index +ℤ pos 1 ≡ pos a
    → step env e s ≡ ok s'
    → (n : ℕ) × HandsOver (queue_of s) (queue_of s') s'.entries a n
step-HandsOver env e s s' a first h = step-Hands env e s s' h a first
