-- ===== src/Examples/Servers.antt =====
-- Servers of a cluster of three, and timers that never report a waiting handler.
use my_raft.Prelude.{ℕ, [], ◌∷◌, false, none, some}
use my_raft.Prelude.Int.{pos, minus_one}
use my_raft.Wire.{Addr, Entry}
use my_raft.Entry.{Entries}
use my_raft.StateMachine.ThreadPool.{new_pool}
use my_raft.Server.State.{State, Env, Server}
use my_raft.Examples.Codecs.{codecs}

abbrev pub env : Env
env = record {
  codecs = codecs;
  waiting = λ _ _. 0;
  is_min = λ _ _. false;
  rand = λ _. 7;
  throws = λ _ _. false;
}

abbrev pub addr : ℕ → Addr
addr n = record { ip = 127 ∷ 1 ∷ []; port = pos n }

abbrev pub entry : ℕ → ℕ → Entry
entry term index = record { term = pos term; index = pos index; msg = index ∷ 5 ∷ [] }

-- The log that `Entries` holds for entries of four bytes each.
abbrev pub two_entries : Entries
two_entries = record {
  file = record { content = 2 ∷ 0 ∷ 0 ∷ 5 ∷ 2 ∷ 2 ∷ 1 ∷ 5 ∷ []; position = 8 };
  entries = entry 1 0 ∷ entry 1 1 ∷ [];
  offset = 0 ∷ 4 ∷ 8 ∷ [];
  size = 2;
  offset_file = some (0 ∷ 4 ∷ 8 ∷ []);
}

abbrev pub no_entries : Entries
no_entries = record {
  file = record { content = []; position = 0 };
  entries = [];
  offset = 0 ∷ [];
  size = 0;
  offset_file = none;
}

-- The server at a port, in term 1.
abbrev pub server : ℕ → State → Entries → Server
server port state entries = record {
  winned_votes = 2;
  already_voted = false;
  term = pos 1;
  state = state;
  configuration = addr 1 ∷ addr 2 ∷ addr 3 ∷ [];
  majority = 2;
  ip = 127 ∷ 1 ∷ [];
  port = pos port;
  current_rpc_lsn = [];
  follower_rpc_lsn = (addr 1, minus_one) ∷ (addr 2, minus_one) ∷ (addr 3, minus_one) ∷ [];
  retry_timers = addr 1 ∷ addr 2 ∷ addr 3 ∷ [];
  commit_index = minus_one;
  entries = entries;
  next_index = (addr 1, pos 0) ∷ (addr 2, pos 0) ∷ (addr 3, pos 0) ∷ [];
  follower_saved_index = (addr 1, pos 1) ∷ (addr 2, minus_one) ∷ (addr 3, minus_one) ∷ [];
  smc = record {
    applied_index = minus_one;
    commit_index = minus_one;
    write_thread_pool = new_pool;
    read_thread_pool = new_pool;
  };
  entry_index_to_socket_addr = [];
  calls = [];
}
