-- ===== src/Server/Commit.antt =====
-- RaftServer.cpp from `apply_to_state_machine` on: the commit index of a primary and of a follower,
-- and the answers to clients.
pub mod Quorum
pub mod Follower
use my_raft.Prelude.{
  ℕ, ◌-◌, Bytes, List, [], ◌∷◌, ◌++◌, map, length, replicate, none, some, ltb, if◌then◌else◌,
}
use my_raft.Prelude.Int.{ℤ, pos, int_eq, ◌-ℤ◌, ltb_ℤ, leb_ℤ}
use my_raft.Prelude.Assoc.{insert, find}
use my_raft.Prelude.Outcome.{Outcome, ok, fail, ◌>>=◌, commit_index_decreases, undefined_behaviour}
use my_raft.Wire.{Addr, addr_eq, resp_client_apply, resp_client_query}
use my_raft.Entry.{at}
use my_raft.StateMachine.Controler.{update_commit_index_and_apply}
use my_raft.Server.State.{primary, make_rpc_call, Server}
use my_raft.Server.Transitions.{log_call}

unfoldable pub apply_to_state_machine : ℤ → Server → Outcome Server
apply_to_state_machine new_commit_index s = do
  smc ← update_commit_index_and_apply s.entries s.smc new_commit_index
  ok (record s { smc = smc })

-- `std::sort(…, greater<int>())`.
unfoldable pub insert_desc : ℤ → List ℤ → List ℤ
insert_desc x [] = x ∷ []
insert_desc x (y ∷ ys) = if leb_ℤ y x then x ∷ y ∷ ys else y ∷ insert_desc x ys

unfoldable pub sort_desc : List ℤ → List ℤ
sort_desc [] = []
sort_desc (x ∷ xs) = insert_desc x (sort_desc xs)

-- The values of `Follower_saved_index`, copied into a vector with a zero for each configured server;
-- one value too many is written behind the vector.
unfoldable pub temp_sort : ℕ → List ℤ → Outcome (List ℤ)
temp_sort n saved =
    if ltb n (length saved)
    then fail undefined_behaviour
    else ok (sort_desc (saved ++ replicate (n - length saved) (pos 0)))

-- The debug line reads `temp_sort[0]` to `temp_sort[2]`, whatever the size of the cluster.
unfoldable pub log_temp_sort : List ℤ → Outcome (List ℤ)
log_temp_sort xs = if ltb (length xs) 3 then fail undefined_behaviour else ok xs

unfoldable pub primary_update_commit_index : Addr → ℤ → Server → Outcome Server
primary_update_commit_index server index s = do
  let saved = insert server index s.follower_saved_index
  sorted ← temp_sort (length s.configuration) (map (λ ele. ele.1) saved)
  shown ← log_temp_sort sorted
  commit_index ← at shown (s.majority - 1)
  apply_to_state_machine commit_index
      (record s { follower_saved_index = saved; commit_index = commit_index })

unfoldable pub follower_update_commit_index : ℤ → Server → Outcome Server
follower_update_commit_index remote_commit_index s =
    let latest_index = pos s.entries.size -ℤ pos 1 in
    let commit_index =
      if ltb_ℤ latest_index remote_commit_index then latest_index else remote_commit_index in
    if ltb_ℤ commit_index s.commit_index
    then fail commit_index_decreases
    else if ltb_ℤ s.commit_index commit_index
    then apply_to_state_machine commit_index (record s { commit_index = commit_index })
    else ok (record s { commit_index = commit_index })

-- Posted by the write pool's worker: only a primary answers, and only where it knows the client.
unfoldable pub write_resp_apply_call : ℤ → Bytes → Server → Server
write_resp_apply_call entry_index res_str s = elim s.state [
  | primary ↦ (elim (find entry_index s.entry_index_to_socket_addr) [
    | none ↦ s
    | some addr ↦ log_call s (make_rpc_call resp_client_apply addr res_str)
  ])
  | _ ↦ s
]

unfoldable pub write_resp_query_call : Addr → Bytes → Server → Server
write_resp_query_call addr res_str s = log_call s (make_rpc_call resp_client_query addr res_str)
