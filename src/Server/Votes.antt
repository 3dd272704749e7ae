-- ===== src/Server/Votes.antt =====
-- RaftServer.cpp: `react2rv`, `react2resp_rv`, `react2resp_ae` and what they call.
use my_raft.Prelude.{◌+◌, Bool, true, false, eqb, leb, not, if◌then◌else◌}
use my_raft.Prelude.Int.{ℤ, pos, ◌+ℤ◌, ◌-ℤ◌, ltb_ℤ, eqb_ℤ}
use my_raft.Prelude.Assoc.{insert, find_or, touch}
use my_raft.Prelude.Outcome.{
  Outcome, ok, fail, ◌>>=◌, resp_ae_not_primary, last_send_above_size, refused_index_zero,
  undefined_behaviour,
}
use my_raft.Wire.{Addr, addr_eq, RequestVoteRpc, RespAppendEntryRpc, RespRequestVoteRpc}
use my_raft.Entry.{get}
use my_raft.Server.State.{retry_timer, expires_at_min, cancel, Env, Server}
use my_raft.Server.Transitions.{log_call, trans2f, trans2p, ae, contains}
use my_raft.Server.Commit.{primary_update_commit_index}
use my_raft.Server.Handlers.{
  is_primary, is_follower, is_candidate, make_resp_rv, should_ignore_remote_rpc,
}

-- Whether the log lets a follower vote. The term that is compared is the candidate's current one.
unfoldable pub should_vote : RequestVoteRpc → Server → Outcome Bool
should_vote rpc s = if eqb s.entries.size 0 then ok true else do
  last_entry ← get s.entries (pos s.entries.size -ℤ pos 1)
  if ltb_ℤ rpc.term last_entry.term
      then ok false
      else if ltb_ℤ last_entry.term rpc.term
      then ok true
      else ok (not (ltb_ℤ rpc.latest_index last_entry.index))

-- `react2rv` behind the test of the terms.
unfoldable pub answer_rv : Env → RequestVoteRpc → Addr → Server → Outcome Server
answer_rv env rpc server s =
    let checked = should_ignore_remote_rpc server rpc.lsn s in
    if checked.0
    then ok checked.1
    else if not (is_follower s.state)
    then ok (make_resp_rv env false server rpc.lsn checked.1)
    else if s.already_voted
    then ok (make_resp_rv env false server rpc.lsn checked.1)
    else do
      vote ← should_vote rpc checked.1
      if vote
          then ok (record (make_resp_rv env true server rpc.lsn checked.1) { already_voted = true })
          else ok (make_resp_rv env false server rpc.lsn checked.1)

unfoldable pub react2rv : Env → RequestVoteRpc → Server → Outcome Server
react2rv env rpc s =
    let server : Addr = record { ip = rpc.ip; port = rpc.port } in
    if ltb_ℤ rpc.term s.term then ok (make_resp_rv env false server rpc.lsn s) else do
      s₁ ← (if ltb_ℤ s.term rpc.term then trans2f env rpc.term s else ok s)
      answer_rv env rpc server s₁

-- `retry_timers_[server]->get_core()`
unfoldable pub on_retry_timer : Addr → Server → Outcome Server
on_retry_timer server s = if contains server s.retry_timers then ok s else fail undefined_behaviour

-- The index that the follower has stored: of the entry that was sent, or the one before.
unfoldable pub note_accepted : Bool → ℤ → Addr → Server → Outcome Server
note_accepted is_empty_ae next server s =
    if is_empty_ae
    then primary_update_commit_index server (next -ℤ pos 1) s
    else primary_update_commit_index server next
        (record s { next_index = insert server (next +ℤ pos 1) s.next_index })

-- An accepted call, `next` being the index that it was sent with.
unfoldable pub accepted_ae : Env → Bool → ℤ → Addr → Server → Outcome Server
accepted_ae env is_empty_ae next server s =
    if ltb_ℤ (pos s.entries.size) next
    then fail last_send_above_size
    else if eqb_ℤ next (pos s.entries.size)
    then primary_update_commit_index server (next -ℤ pos 1) s
    else do
      s₁ ← note_accepted is_empty_ae next server s
      s₂ ← on_retry_timer server s₁
      ae env server (log_call s₂ (expires_at_min (retry_timer server)))

unfoldable pub refused_ae : Env → ℤ → Addr → Server → Outcome Server
refused_ae env next server s = if eqb_ℤ next (pos 0) then fail refused_index_zero else do
  s₁ ← on_retry_timer server (record s { next_index = insert server (next -ℤ pos 1) s.next_index })
  ae env server (log_call s₁ (cancel (retry_timer server)))

-- The two reads `current_rpc_lsn_[server]` and `nextIndex_[server]` leave entries behind.
unfoldable pub primary_deal_resp_ae_with_same_term :
    Env → Addr → RespAppendEntryRpc → Server → Outcome Server
primary_deal_resp_ae_with_same_term env server resp s =
    let s₁ = record s { current_rpc_lsn = touch (pos 0) server s.current_rpc_lsn } in
    if not (eqb_ℤ (find_or (pos 0) server s.current_rpc_lsn) (resp.lsn +ℤ pos 1))
    then ok s₁
    else let next = find_or (pos 0) server s.next_index in
      let s₂ = record s₁ { next_index = touch (pos 0) server s.next_index } in
      if resp.is_ok
      then accepted_ae env resp.is_empty_ae next server s₂
      else refused_ae env next server s₂

unfoldable pub react2resp_ae : Env → RespAppendEntryRpc → Server → Outcome Server
react2resp_ae env resp s =
    if ltb_ℤ s.term resp.term
    then trans2f env resp.term s
    else if ltb_ℤ resp.term s.term
    then ok s
    else if is_primary s.state
    then primary_deal_resp_ae_with_same_term env (record { ip = resp.ip; port = resp.port }) resp s
    else fail resp_ae_not_primary

unfoldable pub candidate_deal_resp_rv_with_same_term :
    Env → Addr → RespRequestVoteRpc → Server → Outcome Server
candidate_deal_resp_rv_with_same_term env server resp s =
    let s₁ = record s { current_rpc_lsn = touch (pos 0) server s.current_rpc_lsn } in
    if not (eqb_ℤ (find_or (pos 0) server s.current_rpc_lsn) (resp.lsn +ℤ pos 1))
    then ok s₁
    else if not resp.is_ok
    then ok s₁
    else let s₂ = record s₁ { winned_votes = s.winned_votes + 1 } in
      if leb s₂.majority s₂.winned_votes
      then trans2p env s₂
      else do s₃ ← on_retry_timer server s₂; ok (log_call s₃ (expires_at_min (retry_timer server)))

unfoldable pub react2resp_rv : Env → RespRequestVoteRpc → Server → Outcome Server
react2resp_rv env resp s =
    if ltb_ℤ s.term resp.term
    then trans2f env resp.term s
    else if ltb_ℤ resp.term s.term
    then ok s
    else if is_candidate s.state
    then candidate_deal_resp_rv_with_same_term env (record { ip = resp.ip; port = resp.port }) resp
        s
    else ok s
