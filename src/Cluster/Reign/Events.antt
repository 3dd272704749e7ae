-- ===== src/Cluster/Reign/Events.antt =====
-- Any event of RaftServer.cpp, at a primary that stays primary of its term.
use my_raft.Prelude.{◌≡◌, refl, sym, ap, subst, ◌⊎◌, inl, inr, Bytes, arith, none, some, Option}
use my_raft.Prelude.Int.{int_eq, ℤ}
use my_raft.Prelude.Assoc.{find}
use my_raft.Prelude.Outcome.{ok, fail_ne_ok, ok-injective, if-eq-ok, else-eq-ok}
use my_raft.Wire.{Addr, addr_eq, RpcType, resp_client_apply, resp_client_query}
use my_raft.Server.State.{
  candidate_timer, retry_timer, Hook, run_hook, trans2f_hook, trans2c_hook, ae_hook, rv_hook,
  make_rpc_call, Env, Server,
}
use my_raft.Server.Transitions.{trans2c, log_call}
use my_raft.Server.Commit.{write_resp_apply_call, write_resp_query_call}
use my_raft.Server.Events.{
  WaitEnd, Event, incoming, timer_ended, applied, queried, fire, on_timer, react_to_incoming_msg,
  step,
}
use my_raft.Server.Frames.{trans2c-Stands}
use my_raft.Cluster.Leader.{Keeps, Keeps-refl, ae-Keeps, rv-Keeps}
use my_raft.Cluster.Reign.{
  Reigns, Keeps-Reigns, same-Reigns, ends, candidate_ne_primary, answer-Keeps, react2rv-Reigns,
  react2ae-Reigns, react2resp_ae-Reigns, react2resp_rv-Reigns, append_client_apply-Reigns,
  get_from_state_machine-Reigns,
}

react_to_incoming_msg-Reigns :
    (env : Env) (t : RpcType) (msg : Bytes) (peer : Addr) (s s' : Server)
    → react_to_incoming_msg env t msg peer s ≡ ok s'
    → Reigns env s s'
unfolding react_to_incoming_msg
react_to_incoming_msg-Reigns env RpcType.request_vote msg peer s s' h = react2rv-Reigns env _ s s' h
react_to_incoming_msg-Reigns env RpcType.append_entry msg peer s s' h = react2ae-Reigns env _ s s' h
react_to_incoming_msg-Reigns env RpcType.resp_vote msg peer s s' h =
    react2resp_rv-Reigns env _ s s' h
react_to_incoming_msg-Reigns env RpcType.resp_append msg peer s s' h =
    react2resp_ae-Reigns env _ s s' h
react_to_incoming_msg-Reigns env RpcType.client_apply msg peer s s' h =
    append_client_apply-Reigns env peer msg s s' h
react_to_incoming_msg-Reigns env RpcType.client_query msg peer s s' h =
    get_from_state_machine-Reigns env peer msg s s' h
react_to_incoming_msg-Reigns env RpcType.resp_client_apply msg peer s s' h = same-Reigns env h
react_to_incoming_msg-Reigns env RpcType.resp_client_query msg peer s s' h = same-Reigns env h
react_to_incoming_msg-Reigns env RpcType.error msg peer s s' h = same-Reigns env h

stood-Reigns : (env : Env) (s s' : Server) → trans2c env s ≡ ok s' → Reigns env s s'
stood-Reigns env s s' h =
    ends env s s' (ap (λ (t : Server). t.state) (trans2c-Stands env s s' h).same)
      candidate_ne_primary

fire-Reigns : (env : Env) (hook : Hook) (s s' : Server) → fire env hook s ≡ ok s' → Reigns env s s'
unfolding fire
fire-Reigns env run_hook s s' h = elim (if-eq-ok (env.is_min s.calls candidate_timer) (ok s) _ h) [
  | inl (_, same) ↦ same-Reigns env same
  | inr (_, stood) ↦ stood-Reigns env s s' stood
]
fire-Reigns env trans2f_hook s s' h =
    stood-Reigns env s s' (else-eq-ok (env.is_min s.calls candidate_timer) _ _ h).1
fire-Reigns env trans2c_hook s s' h =
    stood-Reigns env s s' (else-eq-ok (env.is_min s.calls candidate_timer) _ _ h).1
fire-Reigns env (ae_hook server) s s' h =
    elim (if-eq-ok (env.is_min s.calls (retry_timer server)) (ok s) _ h) [
      | inl (_, same) ↦ same-Reigns env same
      | inr (_, sent) ↦ Keeps-Reigns env s s' (ae-Keeps env server s s' sent)
    ]
fire-Reigns env (rv_hook server) s s' h =
    Keeps-Reigns env s s'
      (rv-Keeps env server s s' (else-eq-ok (env.is_min s.calls (retry_timer server)) _ _ h).1)

on_timer-Reigns :
    (env : Env) (hook : Hook) (end' : WaitEnd) (s s' : Server)
    → on_timer env hook end' s ≡ ok s'
    → Reigns env s s'
unfolding on_timer
on_timer-Reigns env hook WaitEnd.expired s s' h = fire-Reigns env hook s s' h
on_timer-Reigns env hook WaitEnd.aborted s s' h = same-Reigns env h
on_timer-Reigns env hook WaitEnd.failed s s' h = absurd (fail_ne_ok h)

-- What a client is told adds at most one call, which is no append call.
told_to :
    (env : Env) (index : ℤ) (res : Bytes) (s : Server) (client : Option Addr)
    → find index s.entry_index_to_socket_addr ≡ client
    → Keeps env s (write_resp_apply_call index res s)
unfolding write_resp_apply_call
told_to env index res s none h = subst (Keeps env s) {x = s} (ground (arith, h)) (Keeps-refl env s)
told_to env index res s (some addr) h =
    let told : (write_resp_apply_call index res s
          ≡ log_call s (make_rpc_call resp_client_apply addr res))
        ⊎ (write_resp_apply_call index res s ≡ s) =
      ground (arith, h) in
    elim told [
      | inl e ↦
          subst (Keeps env s) (sym e) (answer-Keeps env resp_client_apply addr res s (λ e. cc))
      | inr e ↦ subst (Keeps env s) (sym e) (Keeps-refl env s)
    ]

write_resp_apply_call-Keeps :
    (env : Env) (index : ℤ) (res : Bytes) (s : Server)
    → Keeps env s (write_resp_apply_call index res s)
write_resp_apply_call-Keeps env index res s = told_to env index res s _ refl

pub step-Reigns : (env : Env) (e : Event) (s s' : Server) → step env e s ≡ ok s' → Reigns env s s'
unfolding step write_resp_query_call
step-Reigns env (incoming t msg peer) s s' h = react_to_incoming_msg-Reigns env t msg peer s s' h
step-Reigns env (timer_ended hook end') s s' h = on_timer-Reigns env hook end' s s' h
step-Reigns env (applied index res) s s' h =
    subst (Reigns env s) (ok-injective h)
      (Keeps-Reigns env s _ (write_resp_apply_call-Keeps env index res s))
step-Reigns env (queried addr res) s s' h =
    subst (Reigns env s) (ok-injective h)
      (Keeps-Reigns env s _ (answer-Keeps env resp_client_query addr res s (λ e. cc)))
