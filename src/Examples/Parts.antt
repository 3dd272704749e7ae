-- ===== src/Examples/Parts.antt =====
-- The theorems on the log, the state machine and the frames, at concrete inputs.
use my_raft.Prelude.{
  List, none, ◌≢◌, ◌++◌, replicate, length-replicate, bytes_eq, Bytes, false, ℕ, ◌≡◌, refl, [], ◌∷◌,
  inl, arith,
}
use my_raft.Prelude.Int.{pos, ◌+ℤ◌, ◌-ℤ◌}
use my_raft.Prelude.Assoc.{insert, find_or, touch}
use my_raft.Prelude.Outcome.{Outcome, ok, fail, undefined_behaviour}
use my_raft.Wire.{RpcType}
use my_raft.Entry
use my_raft.Entry.{Entries, log, get, open_entries}
use my_raft.Entry.File.{padded, write_from_offset}
use my_raft.Entry.Layout.{IsValid}
use my_raft.Entry.Insert.{insert-refines}
use my_raft.Entry.Recovery.{open_entries-IsValid}
use my_raft.StateMachine.ThreadPool.{enqueue, worker_turn}
use my_raft.StateMachine.Controler.{
  WriteTask, Controler, apply_to_state_machine, apply_loop, update_commit_index_and_apply,
}
use my_raft.Rpc.{encoded_call, reads, read_header, read_all, encoded_calls}
use my_raft.Rpc.Stream.{read_all-encoded_calls, read_header-cut}
use my_raft.StateMachine.EasyStateMachine
use my_raft.StateMachine.Workers.{
  Workers, write_pool, read_pool, write_task, read_task, turn, turns, Moment, begins, ends,
  begin_access, end_access, is_writing,
}
use my_raft.StateMachine.Workers.Replay.{reported, indices, pending, replay, turns-replay}
use my_raft.StateMachine.Controler.Applied.{queued, update-queued}
use my_raft.Server.State.{primary}
use my_raft.Examples.Codecs.{codecs, entry_codec-IsLossless, offsets_codec-IsLossless}
use my_raft.Examples.Servers.{addr, entry, two_entries, server}

-- All that these examples run.
everything : ℕ
unfolding ◌+ℤ◌ ◌-ℤ◌ find_or insert touch get Entry.insert Entry.get_offset
    Entry.modify_offset_vector_after_insert Entry.write_offset_to_file Entry.assign_entry
    Entry.store_entry padded write_from_offset enqueue apply_to_state_machine apply_loop
    update_commit_index_and_apply EasyStateMachine.apply EasyStateMachine.get worker_turn write_task
    read_task turn turns begin_access end_access is_writing
everything = 0

pub two_entries-IsValid : IsValid codecs two_entries
unfolding everything
two_entries-IsValid = record {
  stored = omega arith;
  laid_out = refl;
  written = refl;
  fits = omega arith;
  flushed = inl refl;
}

insert-refines_example :
    (es : Entries) × (Entry.insert codecs two_entries 1 (entry 2 1) ≡ ok es)
    × IsValid codecs es
    × (log es ≡ entry 1 0 ∷ entry 2 1 ∷ [])
insert-refines_example =
    insert-refines codecs two_entries 1 (entry 2 1) two_entries-IsValid (omega arith) (omega arith)

open_entries-IsValid_example :
    open_entries codecs two_entries.file two_entries.offset_file ≡ ok two_entries
open_entries-IsValid_example =
    open_entries-IsValid codecs two_entries entry_codec-IsLossless offsets_codec-IsLossless
      two_entries-IsValid

abbrev controler : Controler
controler = (server 1 primary two_entries).smc

update-queued_example :
    update_commit_index_and_apply two_entries controler (pos 1)
    ≡ ok (queued two_entries controler 0 2 (pos 1))
unfolding everything
update-queued_example = update-queued two_entries controler 0 2 (pos 1) refl refl (omega arith) refl

abbrev set_to : ℕ → ℕ → WriteTask
set_to index v = record {
  index_to_apply = pos index;
  encoded_apply_str = codecs.apply_call.serialize (record { key = 9 ∷ []; v = pos v });
}

abbrev workers : Workers
workers = record {
  write_thread_pool = record { tasks = set_to 0 5 ∷ set_to 1 7 ∷ []; stop = false };
  read_thread_pool = record {
    tasks = record { encoded_query_str = 9 ∷ []; client_addr = addr 8 } ∷ [];
    stop = false;
  };
  state_machine = [];
  posts = [];
  running = none;
}

abbrev turned : Outcome Workers → Workers
turned (ok w) = w
turned (fail fault) = workers

-- A write, the query, and the other write, which does not begin before the last has ended.
abbrev moments : List Moment
moments =
    begins write_pool
    ∷ begins write_pool
    ∷ ends
    ∷ begins read_pool
    ∷ ends
    ∷ begins write_pool
    ∷ ends
    ∷ []

abbrev worked : Workers
worked = turned (turns codecs moments workers)

-- A query that begins while a write is running.
overlapping :
    turns codecs (begins write_pool ∷ begins read_pool ∷ []) workers ≡ fail undefined_behaviour
unfolding everything
overlapping = refl

turns-replay_example :
    (taken : List WriteTask) × (pending workers ≡ taken ++ pending worked)
    × ((key : Bytes)
        → find_or (pos 0) key worked.state_machine
          ≡ replay codecs taken key (find_or (pos 0) key workers.state_machine))
    × (reported worked.posts ≡ reported workers.posts ++ indices taken)
unfolding everything
turns-replay_example = turns-replay codecs moments workers worked refl

-- The header "   4", the type 1, and three bytes; then "   1" and the type 0.
read_all-encoded_calls_example :
    (stream : Bytes) × (encoded_calls
        ((RpcType.append_entry, 7 ∷ 8 ∷ 9 ∷ []) ∷ (RpcType.request_vote, []) ∷ [])
      ≡ ok stream)
    × (read_all 2 (0 ∷ []) stream
        ≡ ok ((RpcType.append_entry, 7 ∷ 8 ∷ 9 ∷ []) ∷ (RpcType.request_vote, []) ∷ []))
read_all-encoded_calls_example =
    read_all-encoded_calls 0 []
      ((RpcType.append_entry, 7 ∷ 8 ∷ 9 ∷ []) ∷ (RpcType.request_vote, []) ∷ []) 2 refl
      (append_ne_error, omega arith, (vote_ne_error, omega arith, tt)) (omega arith)
  where
    append_ne_error : RpcType.append_entry ≢ RpcType.error
    append_ne_error e = cc

    vote_ne_error : RpcType.request_vote ≢ RpcType.error
    vote_ne_error e = cc

read_header-cut_example :
    (stream : Bytes) × (encoded_call RpcType.append_entry (replicate 5119 7 ++ 8 ∷ []) ≡ ok stream)
    × (read_header (0 ∷ []) (stream ++ 9 ∷ [])
        ≡ ok (reads (RpcType.append_entry, replicate 5119 7) (8 ∷ 9 ∷ [])))
read_header-cut_example =
    read_header-cut 0 [] RpcType.append_entry (replicate 5119 7) (8 ∷ []) (9 ∷ []) refl
      append_ne_error (length-replicate {A = ℕ} 5119 7) (omega arith)
  where
    append_ne_error : RpcType.append_entry ≢ RpcType.error
    append_ne_error e = cc
