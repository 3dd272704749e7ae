-- ===== src/Server/Handlers.antt =====
-- RaftServer.cpp: what a server does on each message.
use my_raft.Prelude.{Bool, true, false, ◌&&◌, Bytes, List, [], ◌∷◌, length, eqb, ltb, if◌then◌else◌}
use my_raft.Prelude.Int.{ℤ, pos, int_eq, ◌+ℤ◌, ltb_ℤ, eqb_ℤ, leb_ℤ, minus_one, to_unsigned}
use my_raft.Prelude.Assoc.{insert, find_or, touch}
use my_raft.Prelude.Outcome.{
  Outcome, ok, fail, ◌>>=◌, entry_size_above_one, two_primaries, prelog_term_not_minus_one,
  local_log_too_short, entry_index_mismatch,
}
use my_raft.Wire.{Addr, addr_eq, resp_vote, resp_append, Entry, AppendEntryRpc}
use my_raft.Entry.{Entries, get}
use my_raft.Entry
use my_raft.StateMachine.Controler
use my_raft.Server.State.{State, follower, candidate, primary, make_rpc_call, Env, Server}
use my_raft.Server.Transitions.{log_call, trans2f}
use my_raft.Server.Commit.{follower_update_commit_index}

abbrev pub is_primary : State → Bool
is_primary primary = true
is_primary _ = false

abbrev pub is_follower : State → Bool
is_follower follower = true
is_follower _ = false

abbrev pub is_candidate : State → Bool
is_candidate candidate = true
is_candidate _ = false

-- `Entries::insert` takes an `unsigned int`.
unfoldable pub insert_entry : Env → ℤ → Entry → Server → Outcome Server
insert_entry env index entry s = do
  entries ← Entry.insert env.codecs s.entries (to_unsigned index) entry
  ok (record s { entries = entries })

unfoldable pub make_resp_rv : Env → Bool → Addr → ℤ → Server → Server
make_resp_rv env vote server lsn s = log_call s (
    make_rpc_call resp_vote server (
      env.codecs.resp_rv.serialize
        (record { is_ok = vote; term = s.term; lsn = lsn; ip = s.ip; port = s.port })))

unfoldable pub make_resp_ae : Env → Bool → Addr → ℤ → Bool → Server → Server
make_resp_ae env is_ok server lsn is_empty_ae s = log_call s (
    make_rpc_call resp_append server (
      env.codecs.resp_ae.serialize (record {
        is_ok = is_ok;
        term = s.term;
        lsn = lsn;
        ip = s.ip;
        port = s.port;
        is_empty_ae = is_empty_ae;
      })))

unfoldable pub get_from_state_machine : Addr → Bytes → Server → Outcome Server
get_from_state_machine client_addr client_query_str s = do
  smc ← Controler.get_from_state_machine s.smc client_query_str client_addr
  ok (record s { smc = smc })

unfoldable pub append_client_apply_to_entries : Env → Addr → Bytes → Server → Outcome Server
append_client_apply_to_entries env client_addr apply_str s = do
  let index = pos s.entries.size
  let s₁ = record s {
    entry_index_to_socket_addr = insert index client_addr s.entry_index_to_socket_addr;
  }
  s₂ ← insert_entry env index (record { term = s.term; index = index; msg = apply_str }) s₁
  ok (record s₂ {
    follower_saved_index =
        insert (record { ip = s.ip; port = s.port }) index s₂.follower_saved_index;
  })

-- Whether the message is stale; if not, its number is stored.
unfoldable pub should_ignore_remote_rpc : Addr → ℤ → Server → Bool × Server
should_ignore_remote_rpc remote new_lsn s =
    if leb_ℤ new_lsn (find_or (pos 0) remote s.follower_rpc_lsn)
    then (true, record s { follower_rpc_lsn = touch (pos 0) remote s.follower_rpc_lsn })
    else (false, record s { follower_rpc_lsn = insert remote new_lsn s.follower_rpc_lsn })

-- The check of the entry before the one that is sent.
unfoldable pub check_prelog : AppendEntryRpc → Server → Outcome Bool
check_prelog rpc s =
    if eqb_ℤ rpc.prelog_index minus_one
    then (if eqb_ℤ rpc.prelog_term minus_one then ok true else fail prelog_term_not_minus_one)
    else if leb_ℤ (pos s.entries.size) rpc.prelog_index
    then ok false
    else do prev_entry ← get s.entries rpc.prelog_index; ok (eqb_ℤ rpc.prelog_term prev_entry.term)

-- What follows the check: an empty call only moves the commit index.
unfoldable pub accept_empty : Env → AppendEntryRpc → Addr → Server → Outcome Server
accept_empty env rpc server s =
    if ltb_ℤ (pos s.entries.size) rpc.commit_index then fail local_log_too_short else do
      s₁ ← follower_update_commit_index rpc.commit_index s
      ok (make_resp_ae env true server rpc.lsn true s₁)

unfoldable pub accept_entry : Env → AppendEntryRpc → Entry → Addr → Server → Outcome Server
accept_entry env rpc entry server s =
    if eqb_ℤ entry.index (rpc.prelog_index +ℤ pos 1)
    then (do
      s₁ ← insert_entry env (rpc.prelog_index +ℤ pos 1) entry s
      s₂ ← follower_update_commit_index rpc.commit_index s₁
      ok (make_resp_ae env true server rpc.lsn false s₂))
    else fail entry_index_mismatch

-- The entries are those of `rpc`.
unfoldable pub accept_ae : Env → AppendEntryRpc → List Entry → Addr → Server → Outcome Server
accept_ae env rpc [] server s = accept_empty env rpc server s
accept_ae env rpc (entry ∷ _) server s = accept_entry env rpc entry server s

-- `react2ae` behind the test of the terms and `trans2F`.
unfoldable pub follow_ae : Env → AppendEntryRpc → Addr → Server → Outcome Server
follow_ae env rpc server s =
    let checked = should_ignore_remote_rpc server rpc.lsn s in
    if checked.0 then ok checked.1 else do
      passed ← check_prelog rpc checked.1
      if passed
          then accept_ae env rpc rpc.entry server checked.1
          else ok (make_resp_ae env false server rpc.lsn (eqb (length rpc.entry) 0) checked.1)

unfoldable pub react2ae : Env → AppendEntryRpc → Server → Outcome Server
react2ae env rpc s =
    let server : Addr = record { ip = rpc.ip; port = rpc.port } in
    if ltb 1 (length rpc.entry)
    then fail entry_size_above_one
    else if ltb_ℤ rpc.term s.term
    then ok (make_resp_ae env false server rpc.lsn (eqb (length rpc.entry) 0) s)
    else if is_primary s.state && eqb_ℤ s.term rpc.term
    then fail two_primaries
    else do s₁ ← trans2f env rpc.term s; follow_ae env rpc server s₁
