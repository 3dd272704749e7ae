-- ===== src/Cluster/Follower.antt =====
-- What the events of RaftServer.cpp do to the log and the commit index of a server that is not
-- primary.
use my_raft.Prelude.{
  ◌+◌, ◌≡◌, ◌≢◌, refl, sym, ap, ◌∙◌, inl, inr, not, Bytes, arith, leb, if◌then◌else◌,
}
use my_raft.Prelude.Int.{ℤ, pos, ◌+ℤ◌, eqb_ℤ, ltb_ℤ}
use my_raft.Prelude.Outcome.{
  ok, fail_ne_ok, >>=-eq-ok, ok-injective, if-eq-ok, then-eq-ok, else-eq-ok,
}
use my_raft.Wire.{
  Addr, addr_eq, RpcType, append_entry, client_apply, RequestVoteRpc, RespAppendEntryRpc,
  RespRequestVoteRpc,
}
use my_raft.Prelude.Assoc.{find_or, touch}
use my_raft.Entry.{Entries}
use my_raft.StateMachine.Controler
use my_raft.Server.State.{
  primary, candidate_timer, retry_timer, Hook, run_hook, trans2f_hook, trans2c_hook, ae_hook,
  rv_hook, Env, Server,
}
use my_raft.Server.Transitions.{trans2f, trans2c}
use my_raft.Server.Commit.{write_resp_apply_call, write_resp_query_call}
use my_raft.Server.Handlers.{
  is_primary, is_candidate, make_resp_rv, should_ignore_remote_rpc, get_from_state_machine,
}
use my_raft.Server.Votes.{
  answer_rv, react2rv, react2resp_ae, react2resp_rv, candidate_deal_resp_rv_with_same_term,
  on_retry_timer,
}
use my_raft.Server.Events.{
  WaitEnd, Event, incoming, timer_ended, applied, queried, fire, on_timer, react_to_incoming_msg,
  step,
}
use my_raft.Server.Frames.{trans2f-Follows, trans2p-Leads, trans2c-Stands, ae-Sends, rv-Sends}
use my_raft.Cluster.{IsQuiet}

-- The log and the commit index.
abbrev pub stored_part : Server → Entries × ℤ
stored_part s = (s.entries, s.commit_index)

same_part : {s s' : Server} → ok s ≡ ok s' → stored_part s' ≡ stored_part s
same_part h = sym (ap stored_part (ok-injective h))

pub trans2f-part :
    (env : Env) (term : ℤ) (s s' : Server)
    → trans2f env term s ≡ ok s'
    → stored_part s' ≡ stored_part s
trans2f-part env term s s' h = ap stored_part (trans2f-Follows env term s s' h).same

answer_rv-part :
    (env : Env) (rpc : RequestVoteRpc) (server : Addr) (s s' : Server)
    → answer_rv env rpc server s ≡ ok s'
    → stored_part s' ≡ stored_part s
unfolding answer_rv make_resp_rv should_ignore_remote_rpc
answer_rv-part env rpc server s s' h = ground arith

pub react2rv-part :
    (env : Env) (rpc : RequestVoteRpc) (s s' : Server)
    → react2rv env rpc s ≡ ok s'
    → stored_part s' ≡ stored_part s
unfolding react2rv make_resp_rv
react2rv-part env rpc s s' h = elim (if-eq-ok (ltb_ℤ rpc.term s.term) (ok _) _ h) [
  | inl (_, refused) ↦ sym (ap stored_part (ok-injective refused))
  | inr (_, h₁) ↦
      let (s₁, e, rest) =
        >>=-eq-ok (if ltb_ℤ s.term rpc.term then trans2f env rpc.term s else ok s) _ h₁ in
      answer_rv-part env rpc _ s₁ s' rest
      ∙ elim (if-eq-ok (ltb_ℤ s.term rpc.term) (trans2f env rpc.term s) (ok s) e) [
        | inl (_, f) ↦ trans2f-part env rpc.term s s₁ f
        | inr (_, same) ↦ same_part same
      ]
]

react2resp_ae-part :
    (env : Env) (resp : RespAppendEntryRpc) (s s' : Server)
    → s.state ≢ primary
    → react2resp_ae env resp s ≡ ok s'
    → stored_part s' ≡ stored_part s
unfolding react2resp_ae
react2resp_ae-part env resp s s' other h =
    elim (if-eq-ok (ltb_ℤ s.term resp.term) (trans2f env resp.term s) _ h) [
      | inl (_, newer) ↦ trans2f-part env resp.term s s' newer
      | inr (_, h₁) ↦ elim (if-eq-ok (ltb_ℤ resp.term s.term) (ok s) _ h₁) [
        | inl (_, same) ↦ same_part same
        | inr (_, h₂) ↦
            let (leads, _) = then-eq-ok (is_primary s.state) _ _ h₂ in
            absurd (other (ground (arith, leads)))
      ]
    ]

candidate_deal-part :
    (env : Env) (server : Addr) (resp : RespRequestVoteRpc) (s s' : Server)
    → s'.state ≢ primary
    → candidate_deal_resp_rv_with_same_term env server resp s ≡ ok s'
    → stored_part s' ≡ stored_part s
unfolding candidate_deal_resp_rv_with_same_term on_retry_timer
candidate_deal-part env server resp s s' other h =
    let checked = record s { current_rpc_lsn = touch (pos 0) server s.current_rpc_lsn } in
    elim (if-eq-ok (not (eqb_ℤ (find_or (pos 0) server s.current_rpc_lsn) (resp.lsn +ℤ pos 1)))
      (ok checked) _ h) [
        | inl (_, stale) ↦ sym (ap stored_part (ok-injective stale))
        | inr (_, h₁) ↦ elim (if-eq-ok (not resp.is_ok) (ok checked) _ h₁) [
          | inl (_, lost) ↦ sym (ap stored_part (ok-injective lost))
          | inr (_, h₂) ↦ elim (if-eq-ok (leb s.majority (s.winned_votes + 1)) _ _ h₂) [
            | inl (_, won) ↦
                absurd (other (ap (λ (t : Server). t.state) (trans2p-Leads env _ s' won).same))
            | inr (_, waits) ↦ ground (arith, waits)
          ]
        ]
      ]

react2resp_rv-part :
    (env : Env) (resp : RespRequestVoteRpc) (s s' : Server)
    → s'.state ≢ primary
    → react2resp_rv env resp s ≡ ok s'
    → stored_part s' ≡ stored_part s
unfolding react2resp_rv
react2resp_rv-part env resp s s' other h =
    elim (if-eq-ok (ltb_ℤ s.term resp.term) (trans2f env resp.term s) _ h) [
      | inl (_, newer) ↦ trans2f-part env resp.term s s' newer
      | inr (_, h₁) ↦ elim (if-eq-ok (ltb_ℤ resp.term s.term) (ok s) _ h₁) [
        | inl (_, same) ↦ same_part same
        | inr (_, h₂) ↦ elim (if-eq-ok (is_candidate s.state) _ (ok s) h₂) [
          | inl (_, counts) ↦ candidate_deal-part env _ resp s s' other counts
          | inr (_, same) ↦ same_part same
        ]
      ]
    ]

quiet_message-part :
    (env : Env) (t : RpcType) (msg : Bytes) (peer : Addr) (s s' : Server)
    → t ≢ append_entry
    → t ≢ client_apply
    → s.state ≢ primary
    → s'.state ≢ primary
    → react_to_incoming_msg env t msg peer s ≡ ok s'
    → stored_part s' ≡ stored_part s
unfolding react_to_incoming_msg get_from_state_machine
quiet_message-part env RpcType.request_vote msg peer s s' _ _ before after h =
    react2rv-part env _ s s' h
quiet_message-part env RpcType.append_entry msg peer s s' other _ before after h =
    absurd (other refl)
quiet_message-part env RpcType.resp_vote msg peer s s' _ _ before after h =
    react2resp_rv-part env _ s s' after h
quiet_message-part env RpcType.resp_append msg peer s s' _ _ before after h =
    react2resp_ae-part env _ s s' before h
quiet_message-part env RpcType.client_apply msg peer s s' _ other before after h =
    absurd (other refl)
quiet_message-part env RpcType.client_query msg peer s s' _ _ before after h =
    let (smc, _, end) = >>=-eq-ok (Controler.get_from_state_machine s.smc msg peer) _ h in
    sym (ap stored_part (ok-injective end))
quiet_message-part env RpcType.resp_client_apply msg peer s s' _ _ before after h = same_part h
quiet_message-part env RpcType.resp_client_query msg peer s s' _ _ before after h = same_part h
quiet_message-part env RpcType.error msg peer s s' _ _ before after h = same_part h

stood-part : (env : Env) (s s' : Server) → trans2c env s ≡ ok s' → stored_part s' ≡ stored_part s
stood-part env s s' h = ap stored_part (trans2c-Stands env s s' h).same

fire-part :
    (env : Env) (hook : Hook) (s s' : Server)
    → fire env hook s ≡ ok s'
    → stored_part s' ≡ stored_part s
unfolding fire
fire-part env run_hook s s' h = elim (if-eq-ok (env.is_min s.calls candidate_timer) (ok s) _ h) [
  | inl (_, same) ↦ same_part same
  | inr (_, stood) ↦ stood-part env s s' stood
]
fire-part env trans2f_hook s s' h =
    stood-part env s s' (else-eq-ok (env.is_min s.calls candidate_timer) _ _ h).1
fire-part env trans2c_hook s s' h =
    stood-part env s s' (else-eq-ok (env.is_min s.calls candidate_timer) _ _ h).1
fire-part env (ae_hook server) s s' h =
    elim (if-eq-ok (env.is_min s.calls (retry_timer server)) (ok s) _ h) [
      | inl (_, same) ↦ same_part same
      | inr (_, sent) ↦ ap stored_part (ae-Sends env server s s' sent).same
    ]
fire-part env (rv_hook server) s s' h =
    ap stored_part
      (rv-Sends env server s s' (else-eq-ok (env.is_min s.calls (retry_timer server)) _ _ h).1).same

pub on_timer-part :
    (env : Env) (hook : Hook) (end' : WaitEnd) (s s' : Server)
    → on_timer env hook end' s ≡ ok s'
    → stored_part s' ≡ stored_part s
unfolding on_timer
on_timer-part env hook WaitEnd.expired s s' h = fire-part env hook s s' h
on_timer-part env hook WaitEnd.aborted s s' h = same_part h
on_timer-part env hook WaitEnd.failed s s' h = absurd (fail_ne_ok h)

pub told-part :
    (index : ℤ) (res : Bytes) (s : Server)
    → stored_part (write_resp_apply_call index res s) ≡ stored_part s
unfolding write_resp_apply_call
told-part index res s = ground arith

-- A quiet event at a server that is not primary, and stays so, moves neither log nor commit index.
pub quiet_step-part :
    (env : Env) (e : Event) (s s' : Server)
    → IsQuiet e
    → s.state ≢ primary
    → s'.state ≢ primary
    → step env e s ≡ ok s'
    → stored_part s' ≡ stored_part s
unfolding step write_resp_query_call
quiet_step-part env (incoming t msg peer) s s' (no_call, no_client) before after h =
    quiet_message-part env t msg peer s s' no_call no_client before after h
quiet_step-part env (timer_ended hook end') s s' quiet before after h =
    on_timer-part env hook end' s s' h
quiet_step-part env (applied index res) s s' quiet before after h =
    sym (ap stored_part (ok-injective h)) ∙ told-part index res s
quiet_step-part env (queried addr res) s s' quiet before after h =
    sym (ap stored_part (ok-injective h))
