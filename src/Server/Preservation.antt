-- ===== src/Server/Preservation.antt =====
-- The term and the invariant over the events that a server handles.
pub mod Transitions
pub mod Append
pub mod Responses
use my_raft.Prelude.{
  ℕ, zero, suc, ◌+◌, ◌-◌, ◌/◌, ◌≤◌, ◌≡◌, refl, sym, ap, subst, ◌∙◌, ◌⊎◌, inl, inr, Bool, true,
  false, ◌&&◌, Bytes, List, [], ◌∷◌, ◌++◌, length, take, arith, eqb, leb, ltb, not, Bool-cases,
  if◌then◌else◌, Option-cases,
}
use my_raft.Prelude.Int.{
  ℤ, pos, negsuc, ◌+ℤ◌, ◌-ℤ◌, ◌≤ℤ◌, to_unsigned, int_laws, int_eq, eqb_ℤ, ltb_ℤ, leb_ℤ, eqb_ℤ_iff,
  minus_one,
}
use my_raft.Prelude.Outcome.{
  Outcome, ok, fail, ◌>>=◌, >>=-eq-ok, ok-injective, fail_ne_ok, if-eq-ok, then-eq-ok, else-eq-ok,
}
use my_raft.Prelude.Assoc.{insert, find_or, touch}
use my_raft.Wire.{
  Addr, addr_eq, Entry, RpcType, AppendEntryRpc, RequestVoteRpc, RespAppendEntryRpc,
  RespRequestVoteRpc,
}
use my_raft.Entry.{Entries, log, get, at}
use my_raft.StateMachine.Controler
use my_raft.Server.State.{
  State, follower, candidate, primary, Call, Env, Server, retry_timer, expires_at_min, cancel,
}
use my_raft.Server.Transitions.{trans2f, trans2p, trans2c, ae, rv, log_call}
use my_raft.Server.Commit.{
  apply_to_state_machine, primary_update_commit_index, follower_update_commit_index, temp_sort,
  log_temp_sort, write_resp_apply_call, write_resp_query_call,
}
use my_raft.Server.Handlers.{
  is_primary, is_candidate, insert_entry, make_resp_ae, make_resp_rv, should_ignore_remote_rpc,
  check_prelog, accept_empty, accept_entry, accept_ae, follow_ae, react2ae,
  append_client_apply_to_entries, get_from_state_machine,
}
use my_raft.Server.Votes.{
  should_vote, answer_rv, react2rv, on_retry_timer, note_accepted, accepted_ae, refused_ae,
  primary_deal_resp_ae_with_same_term, react2resp_ae, candidate_deal_resp_rv_with_same_term,
  react2resp_rv,
}
use my_raft.Server.State.{
  Hook, run_hook, trans2f_hook, trans2c_hook, ae_hook, rv_hook, candidate_timer,
}
use my_raft.Server.Events.{
  WaitEnd, Event, incoming, timer_ended, applied, queried, expired, aborted, failed, fire, on_timer,
  react_to_incoming_msg, step, run_events,
}
use my_raft.Server.Frames.{
  Sends, Sends-trans, log_call-Sends, ae-Sends, rv-Sends, Follows, trans2f-Follows, Leads,
  trans2p-Leads, Stands, trans2c-Stands,
}
use my_raft.Server.Invariant.{
  IsWellFormed, IsNumbered, Evolves, Evolves-refl, Evolves-trans, Same, Same-Evolves, Sends-Evolves,
  insert_entry-log, insert_entry-Evolves,
}
use Transitions.{same-Evolves, trans2f-Evolves, trans2c-Evolves, log_call-Evolves}
use Append.{react2ae-Evolves, react2rv-Evolves}
use Responses.{react2resp_ae-Evolves, react2resp_rv-Evolves}

append_client_apply-Evolves :
    (env : Env) (client : Addr) (msg : Bytes) (s s' : Server)
    → append_client_apply_to_entries env client msg s ≡ ok s'
    → Evolves s s'
unfolding append_client_apply_to_entries
append_client_apply-Evolves env client msg s s' h =
    let (s₁, e, end) = >>=-eq-ok (insert_entry env (pos s.entries.size) _ _) _ h in
    Evolves-trans (Same-Evolves unchanged) (
      Evolves-trans (insert_entry-Evolves env (pos s.entries.size) _ _ s₁ refl e)
        (Same-Evolves (ground arith)))
  where
    unchanged : Same s (record s {
      entry_index_to_socket_addr = insert (pos s.entries.size) client s.entry_index_to_socket_addr;
    })
    unchanged = ground arith

get_from_state_machine-Evolves :
    (client : Addr) (msg : Bytes) (s s' : Server)
    → get_from_state_machine client msg s ≡ ok s'
    → Evolves s s'
unfolding get_from_state_machine
get_from_state_machine-Evolves client msg s s' h =
    let (smc, _, end) = >>=-eq-ok (Controler.get_from_state_machine s.smc msg client) _ h in
    Same-Evolves (ground arith)

react_to_incoming_msg-Evolves :
    (env : Env) (t : RpcType) (msg : Bytes) (peer : Addr) (s s' : Server)
    → react_to_incoming_msg env t msg peer s ≡ ok s'
    → Evolves s s'
unfolding react_to_incoming_msg
react_to_incoming_msg-Evolves env RpcType.request_vote msg peer s s' h =
    react2rv-Evolves env _ s s' h
react_to_incoming_msg-Evolves env RpcType.append_entry msg peer s s' h =
    react2ae-Evolves env _ s s' h
react_to_incoming_msg-Evolves env RpcType.resp_vote msg peer s s' h =
    react2resp_rv-Evolves env _ s s' h
react_to_incoming_msg-Evolves env RpcType.resp_append msg peer s s' h =
    react2resp_ae-Evolves env _ s s' h
react_to_incoming_msg-Evolves env RpcType.client_apply msg peer s s' h =
    append_client_apply-Evolves env peer msg s s' h
react_to_incoming_msg-Evolves env RpcType.client_query msg peer s s' h =
    get_from_state_machine-Evolves peer msg s s' h
react_to_incoming_msg-Evolves env RpcType.resp_client_apply msg peer s s' h = same-Evolves h
react_to_incoming_msg-Evolves env RpcType.resp_client_query msg peer s s' h = same-Evolves h
react_to_incoming_msg-Evolves env RpcType.error msg peer s s' h = same-Evolves h

-- A handler does nothing, or stands for election, or sends again.
fire-Evolves : (env : Env) (hook : Hook) (s s' : Server) → fire env hook s ≡ ok s' → Evolves s s'
unfolding fire
fire-Evolves env run_hook s s' h = elim (if-eq-ok (env.is_min s.calls candidate_timer) (ok s) _ h) [
  | inl (_, same) ↦ same-Evolves same
  | inr (_, stood) ↦ trans2c-Evolves env s s' stood
]
fire-Evolves env trans2f_hook s s' h =
    trans2c-Evolves env s s' (else-eq-ok (env.is_min s.calls candidate_timer) _ _ h).1
fire-Evolves env trans2c_hook s s' h =
    trans2c-Evolves env s s' (else-eq-ok (env.is_min s.calls candidate_timer) _ _ h).1
fire-Evolves env (ae_hook server) s s' h =
    elim (if-eq-ok (env.is_min s.calls (retry_timer server)) (ok s) _ h) [
      | inl (_, same) ↦ same-Evolves same
      | inr (_, sent) ↦ Sends-Evolves (ae-Sends env server s s' sent)
    ]
fire-Evolves env (rv_hook server) s s' h =
    Sends-Evolves
      (rv-Sends env server s s' (else-eq-ok (env.is_min s.calls (retry_timer server)) _ _ h).1)

on_timer-Evolves :
    (env : Env) (hook : Hook) (end' : WaitEnd) (s s' : Server)
    → on_timer env hook end' s ≡ ok s'
    → Evolves s s'
unfolding on_timer
on_timer-Evolves env hook WaitEnd.expired s s' h = fire-Evolves env hook s s' h
on_timer-Evolves env hook WaitEnd.aborted s s' h = same-Evolves h
on_timer-Evolves env hook WaitEnd.failed s s' h = absurd (fail_ne_ok h)

pub step-Evolves : (env : Env) (e : Event) (s s' : Server) → step env e s ≡ ok s' → Evolves s s'
unfolding step write_resp_apply_call write_resp_query_call
step-Evolves env (incoming t msg peer) s s' h = react_to_incoming_msg-Evolves env t msg peer s s' h
step-Evolves env (timer_ended hook end') s s' h = on_timer-Evolves env hook end' s s' h
step-Evolves env (applied index res) s s' h = Same-Evolves (ground arith)
step-Evolves env (queried addr res) s s' h = Same-Evolves (ground arith)

run_events-Evolves :
    (env : Env) (es : List Event) (s s' : Server) → run_events env es s ≡ ok s' → Evolves s s'
unfolding run_events
run_events-Evolves env [] s s' h = same-Evolves h
run_events-Evolves env (e ∷ es) s s' h =
    let (t, first, rest) = >>=-eq-ok (step env e s) _ h in
    Evolves-trans (step-Evolves env e s t first) (run_events-Evolves env es t s' rest)

-- Over any history the term of a server never falls.
pub run_events-term :
    (env : Env) (es : List Event) (s s' : Server) → run_events env es s ≡ ok s' → s.term ≤ℤ s'.term
run_events-term env es s s' h = (run_events-Evolves env es s s' h).term_le

-- Over any history a well-formed server stays well-formed: the log in memory reaches to `size_`,
-- its entries carry their positions, and the server is primary only while its counter
-- `winned_votes_` is `majority_` or more. The counter counts messages: a vote that is delivered
-- twice is counted twice.
pub run_events-IsWellFormed :
    (env : Env) (es : List Event) (s s' : Server)
    → IsWellFormed s
    → run_events env es s ≡ ok s'
    → IsWellFormed s'
run_events-IsWellFormed env es s s' w h = (run_events-Evolves env es s s' h).keeps w
