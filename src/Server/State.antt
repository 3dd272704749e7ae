-- ===== src/Server/State.antt =====
-- The fields of `RaftServer`, and what it is connected to: boost::asio's timers, and the network.
use my_raft.Prelude.{ℕ, ◌+◌, ◌-◌, ◌%◌, Bool, Bytes, List}
use my_raft.Prelude.Int.{ℤ}
use my_raft.Prelude.Assoc.{Map}
use my_raft.Wire.{Addr, RpcType, Codecs}
use my_raft.Entry.{Entries}
use my_raft.StateMachine.Controler.{Controler}

pub data State : Type 0 where
  follower candidate primary : State

-- `candidate_timer_`, and `retry_timers_[server]`.
pub data Timer : Type 0 where
  candidate_timer : Timer
  retry_timer : Addr → Timer

-- The handlers that the code passes to `async_wait`: in `run`, `trans2F`, `trans2C`, `AE`, `RV`.
pub data Hook : Type 0 where
  run_hook trans2f_hook trans2c_hook : Hook
  ae_hook rv_hook : Addr → Hook

-- The calls that leave the server, as they are made. What `make_rpc_call` does is in Network.
pub data Call : Type 0 where
  start_accept : Call
  make_rpc_call : RpcType → Addr → Bytes → Call
  -- `expires_at(min_date_time)`
  expires_at_min : Timer → Call
  cancel : Timer → Call
  -- with the milliseconds
  expires_from_now : Timer → ℕ → Call
  async_wait : Timer → Hook → Call

-- What the server asks of the code that is not in this repository. The answers may depend on all
-- the calls made so far, newest first: `waiting` is the number of handlers that `expires_from_now`
-- reports as cancelled, `is_min` says whether `expires_at()` is `min_date_time`, and `rand` is the
-- number that `rand()` yields. `throws` says whether `make_rpc_call` to the address throws, as it does
-- where no connection leads there and the ip is none that `address::from_string` reads.
pub record Env : Type 0 where
  pub codecs : Codecs
  pub waiting : List Call → Timer → ℕ
  pub is_min : List Call → Timer → Bool
  pub rand : List Call → ℕ
  pub throws : List Call → Addr → Bool

-- `retry_timers` are the keys of `retry_timers_`. `known_primary_` is never used, `config_path_`
-- only while starting, and `network_`, `ioContext_` and the timers are behind `calls`.
pub record Server : Type 0 where
  pub winned_votes : ℕ
  pub already_voted : Bool
  pub term : ℤ
  pub state : State
  pub configuration : List Addr
  pub majority : ℕ
  pub ip : Bytes
  pub port : ℤ
  pub current_rpc_lsn : Map Addr ℤ
  pub follower_rpc_lsn : Map Addr ℤ
  pub retry_timers : List Addr
  pub commit_index : ℤ
  pub entries : Entries
  pub next_index : Map Addr ℤ
  pub follower_saved_index : Map Addr ℤ
  pub smc : Controler
  pub entry_index_to_socket_addr : Map ℤ Addr
  pub calls : List Call

-- `server_`
abbrev pub self : Server → Addr
self s = record { ip = s.ip; port = s.port }

-- util.cpp
unfoldable pub random_candidate_expire : ℕ → ℕ
random_candidate_expire rand = rand % (300 - 150 + 1) + 150

unfoldable pub random_rv_retry_expire : ℕ → ℕ
random_rv_retry_expire rand = rand % (10 - 5 + 1) + 5

unfoldable pub random_ae_retry_expire : ℕ → ℕ
random_ae_retry_expire rand = rand % (10 - 5 + 1) + 5
