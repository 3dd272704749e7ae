-- ===== src/Examples/Witnesses.antt =====
-- The server's theorems at concrete inputs.
use my_raft.Prelude.{true, bytes_eq, false, ◌<◌, ℕ, ◌≤◌, ◌≡◌, refl, List, [], ◌∷◌, inl, arith}
use my_raft.Prelude.Int.{leb_ℤ, ltb_ℤ, pos, minus_one, ◌+ℤ◌, ◌-ℤ◌, ◌≤ℤ◌}
use my_raft.Prelude.Assoc.{find, insert, find_or, touch}
use my_raft.Prelude.Outcome.{fail, bad_address, Outcome, ok, fail}
use my_raft.Wire.{RpcType, AppendEntryRpc, RequestVoteRpc}
use my_raft.Entry
use my_raft.Entry.{Entries, log, get, open_entries}
use my_raft.Entry.File.{padded, write_from_offset}
use my_raft.StateMachine.ThreadPool.{enqueue}
use my_raft.StateMachine.Controler.{
  apply_to_state_machine, apply_loop, update_commit_index_and_apply,
}
use my_raft.Server.Commit.Quorum.{count, primary_update-Majority}
use my_raft.Server.Commit.Follower.{follower_update-queued}
use my_raft.StateMachine.Controler.Applied.{number}
use my_raft.Server.State.{
  candidate, follower, primary, Server, random_candidate_expire, random_ae_retry_expire,
  random_rv_retry_expire,
}
use my_raft.Server.Transitions.{
  send, cancel_retry_timers, cancel_all_timers, fill, reset_both_rpc_lsn, update_term, arm, trans2f,
  contains, prelog_term_of, entry_to_send, build_rpc_ae, ae, build_rpc_rv, rv, for_others, trans2p,
  trans2c,
}
use my_raft.Server.Commit.{
  apply_to_state_machine as server_apply, insert_desc, sort_desc, temp_sort, log_temp_sort,
  primary_update_commit_index, follower_update_commit_index,
}
use my_raft.Server.Handlers.{
  insert_entry, make_resp_rv, make_resp_ae, should_ignore_remote_rpc, check_prelog, accept_empty,
  accept_entry, accept_ae, follow_ae, react2ae, append_client_apply_to_entries,
}
use my_raft.Server.Votes.{should_vote, answer_rv, react2rv}
use my_raft.Server.Events.{
  new_server, run, react_to_incoming_msg, Event, incoming, fire, on_timer, step, run_events,
}
use my_raft.Server.Invariant.{IsWellFormed}
use my_raft.Server.Preservation.{run_events-term, run_events-IsWellFormed}
use my_raft.Server.Replication.{Appends, react2ae-Appends}
use my_raft.Server.Replication.Transfer.{replicates}
use my_raft.Server.Timers.{trans2f-ok, trans2c-ok}
use my_raft.Server.Start.{first_election}
use my_raft.Server.Election.{votes, react2rvs}
use my_raft.Server.Election.Revote.{revotes}
use my_raft.Server.Election.Once.{react2rvs-vote_once}
use my_raft.Examples.Codecs.{codecs, resp_rv_codec-IsLossless}
use my_raft.Examples.Servers.{env, addr, entry, two_entries, no_entries, server}

-- All that a server runs.
unfoldable pub everything : ℕ
unfolding send ◌+ℤ◌ ◌-ℤ◌ find insert find_or touch get Entry.insert Entry.get_offset
    Entry.modify_offset_vector_after_insert Entry.write_offset_to_file Entry.assign_entry
    Entry.store_entry padded write_from_offset enqueue apply_to_state_machine apply_loop
    update_commit_index_and_apply random_candidate_expire random_ae_retry_expire
    random_rv_retry_expire cancel_retry_timers cancel_all_timers fill reset_both_rpc_lsn update_term
    arm trans2f contains prelog_term_of entry_to_send build_rpc_ae ae build_rpc_rv rv for_others
    trans2p trans2c server_apply insert_desc sort_desc temp_sort log_temp_sort
    primary_update_commit_index follower_update_commit_index insert_entry make_resp_rv make_resp_ae
    should_ignore_remote_rpc check_prelog accept_empty accept_entry accept_ae follow_ae react2ae
    append_client_apply_to_entries should_vote answer_rv react2rv react_to_incoming_msg fire
    on_timer step run_events react2rvs votes
everything = 0

-- The server that a run leaves; `s` where it ends in a fault.
abbrev pub after : Server → Outcome Server → Server
after s (ok s') = s'
after s (fail f) = s

abbrev leader : Server
leader = server 1 primary two_entries

abbrev empty_follower : Server
empty_follower = server 2 follower no_entries

abbrev first_call : AppendEntryRpc
first_call = record {
  term = pos 1;
  prelog_term = minus_one;
  commit_index = minus_one;
  lsn = pos 0;
  ip = 127 ∷ 1 ∷ [];
  port = pos 1;
  entry = entry 1 0 ∷ [];
  prelog_index = minus_one;
}

replicates_example :
    log (after empty_follower (react2ae env first_call empty_follower)).entries ≡ entry 1 0 ∷ []
unfolding everything
replicates_example =
    replicates env (addr 2) leader (record leader { current_rpc_lsn = (addr 2, pos 1) ∷ [] })
      empty_follower (after empty_follower (react2ae env first_call empty_follower))
      (after empty_follower (trans2f env (pos 1) empty_follower)) first_call 0 (omega arith) refl
      (omega arith) refl refl (omega arith) refl (omega arith) (omega arith) refl refl

react2ae-Appends_example :
    Appends first_call []
      (log (after empty_follower (react2ae env first_call empty_follower)).entries)
unfolding everything
react2ae-Appends_example =
    react2ae-Appends env first_call empty_follower
      (after empty_follower (react2ae env first_call empty_follower)) (omega arith) refl

abbrev ask : ℕ → RequestVoteRpc
ask port = record {
  term = pos 2;
  latest_index = pos 1;
  latest_term = pos 0;
  lsn = pos 0;
  ip = 127 ∷ 1 ∷ [];
  port = pos port;
}

abbrev two_asked : Outcome Server
two_asked = react2rvs env (ask 1 ∷ ask 3 ∷ []) empty_follower

react2rvs-vote_once_example : votes env (pos 2) (after empty_follower two_asked).calls ≤ 1
unfolding everything
react2rvs-vote_once_example =
    react2rvs-vote_once env (ask 1 ∷ ask 3 ∷ []) empty_follower (after empty_follower two_asked)
      (pos 2) resp_rv_codec-IsLossless refl refl

abbrev history : List Event
history =
    incoming RpcType.append_entry (codecs.ae.serialize first_call) (addr 1)
    ∷ incoming RpcType.request_vote (codecs.rv.serialize (ask 3)) (addr 3)
    ∷ []

abbrev end_of_history : Server
end_of_history = after empty_follower (run_events env history empty_follower)

run_events-term_example : pos 1 ≤ℤ end_of_history.term
unfolding everything
run_events-term_example = run_events-term env history empty_follower end_of_history refl

run_events-IsWellFormed_example : IsWellFormed end_of_history
unfolding everything
run_events-IsWellFormed_example =
    run_events-IsWellFormed env history empty_follower end_of_history
      (record { stored = omega arith; numbered = tt; quorum = omega arith; elected = inl refl })
      refl

abbrev counted : Server
counted = after leader (primary_update_commit_index (addr 2) (pos 0) leader)

primary_update-Majority_example :
    (2 ≤ count (λ y. leb_ℤ (pos 0) y) (pos 1 ∷ pos 0 ∷ minus_one ∷ []))
    × (count (λ y. ltb_ℤ (pos 0) y) (pos 1 ∷ pos 0 ∷ minus_one ∷ []) < 2)
unfolding everything
primary_update-Majority_example =
    primary_update-Majority (addr 2) (pos 0) leader counted refl (omega arith) refl

abbrev behind : Server
behind = server 2 follower two_entries

follower_update-queued_example :
    follower_update_commit_index (pos 5) behind
    ≡ ok (record behind {
      commit_index = pos 1;
      smc = record behind.smc {
        commit_index = pos 1;
        applied_index = pos 1;
        write_thread_pool = record { tasks = number 0 (entry 1 0 ∷ entry 1 1 ∷ []); stop = false };
      };
    })
unfolding everything
follower_update-queued_example =
    follower_update-queued (pos 5) behind 0 2 refl refl refl (omega arith) refl refl

abbrev ask_now : ℕ → RequestVoteRpc
ask_now port = record (ask port) { term = pos 1 }

-- It has voted for the first candidate, and then heard from it as the primary.
abbrev voted : Server
voted = after empty_follower (react2rv env (ask_now 1) empty_follower)

abbrev called : Server
called = after voted (react2ae env (record first_call { lsn = pos 1 }) voted)

revotes_example :
    (s : Server) × (react2rv env (ask_now 3) called ≡ ok s) × (votes env (pos 1) s.calls ≡ 2)
unfolding everything
revotes_example =
    revotes env (record first_call { lsn = pos 1 }) (ask_now 3) voted called
      resp_rv_codec-IsLossless refl refl refl refl refl

abbrev ask_empty : RequestVoteRpc
ask_empty = record (ask 3) { latest_index = minus_one }

trans2f-ok_example : (s : Server) × (trans2f env (pos 2) behind ≡ ok s)
trans2f-ok_example = trans2f-ok env (pos 2) behind (λ _ _ _. refl) (omega arith)

trans2c-ok_example : (s : Server) × (trans2c env behind ≡ ok s)
unfolding everything
trans2c-ok_example =
    trans2c-ok env behind (λ _ _ _. refl) ((λ _. refl), ((λ _. refl), ((λ _. refl), tt)))
      (refl, (refl, (refl, tt)))

first_election_example :
    (s : Server) × (s₁ : Server) × (s₂ : Server) × (new_server
        (127 ∷ 1 ∷ [])
        (pos 2)
        (addr 1 ∷ addr 2 ∷ addr 3 ∷ [])
        two_entries
      ≡ ok s)
    × (run env s ≡ ok s₁)
    × (trans2c env s₁ ≡ ok s₂)
    × (s₂.state ≡ candidate)
    × (s₂.term ≡ pos 1)
    × (s₂.winned_votes ≡ 1)
first_election_example =
    first_election env (127 ∷ 1 ∷ []) (pos 2) (addr 1 ∷ addr 2 ∷ addr 3 ∷ []) two_entries
      (λ _ _ _. refl) ((λ _. refl), ((λ _. refl), ((λ _. refl), tt)))

-- Where no configured server has an address that boost reads, the election ends in its exception.
trans2c_bad_address : trans2c (record env { throws = λ _ _. true }) behind ≡ fail bad_address
unfolding everything
trans2c_bad_address = refl
