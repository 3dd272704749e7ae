-- ===== src/Cluster/Backtrack.antt =====
-- A primary whose append call does not fit another server's log, and what the two then exchange.
pub mod Refusal
pub mod Retry
pub mod Agreement
use my_raft.Prelude.{
  ℕ, zero, suc, ◌+◌, ◌≤◌, ◌≡◌, ◌≢◌, Bytes, List, [], ◌∷◌, length, Option, none, some, if◌then◌else◌,
  ◌==◌, ltb, true, false,
}
use my_raft.Prelude.Int.{ℤ, pos, ◌+ℤ◌, ◌<ℤ◌, minus_one}
use my_raft.Prelude.Assoc.{find_or}
use my_raft.Prelude.Outcome.{ok}
use my_raft.Wire.{Addr, addr_eq, append_entry, resp_append, AppendEntryRpc}
use my_raft.Server.State.{primary, Call, make_rpc_call, Env, Server}
use my_raft.Server.Transitions.{contains}
use my_raft.Entry.{log}
use my_raft.Server.Replication.{PrelogMatches}
use my_raft.Server.Handlers.{is_primary}
use my_raft.Server.Events.{incoming, step}
use my_raft.Cluster.{Cluster}

-- The last append call, or the last answer to one, that went to the address.
abbrev pub last_call : Addr → List Call → Option Bytes
last_call a [] = none
last_call a (make_rpc_call append_entry b msg ∷ calls) =
    if b == a then some msg else last_call a calls
last_call a (_ ∷ calls) = last_call a calls

abbrev pub last_answer : Addr → List Call → Option Bytes
last_answer a [] = none
last_answer a (make_rpc_call resp_append b msg ∷ calls) =
    if b == a then some msg else last_answer a calls
last_answer a (_ ∷ calls) = last_answer a calls

abbrev pub own_addr : Server → Addr
own_addr s = record { ip = s.ip; port = s.port }

-- The call is delivered, its answer too, and the primary makes the next call.
pub data Round (leader_env other_env : Env) (c : Cluster) (call : Bytes)
    : Cluster → Bytes → Type 0 where
  round :
      (peer peer' : Addr) (answer : Bytes) {call' : Bytes} {p f : Server}
      → step other_env (incoming append_entry call peer) c.other ≡ ok f
      → last_answer (own_addr c.leader) f.calls ≡ some answer
      → step leader_env (incoming resp_append answer peer') c.leader ≡ ok p
      → last_call (own_addr c.other) p.calls ≡ some call'
      → Round leader_env other_env c call (record { leader = p; other = f }) call'

pub data Rounds (leader_env other_env : Env) : ℕ → Cluster → Bytes → Cluster → Bytes → Type 0 where
  no_round : {c : Cluster} {call : Bytes} → Rounds leader_env other_env 0 c call c call
  then_rounds :
      {c d c' : Cluster} {call msg call' : Bytes} {n : ℕ}
      → Round leader_env other_env c call d msg
      → Rounds leader_env other_env n d msg c' call'
      → Rounds leader_env other_env (suc n) c call c' call'

-- The call is the last that the primary `p` has made to `f`, from its log, for the position `k`, in its term and
-- new to `f`; the primary waits for the answer to it.
pub record Waits (p f : Server) (rpc : AppendEntryRpc) (k : ℕ) : Type 0 where
  pub reigns : is_primary p.state ≡ true
  pub of_term : rpc.term ≡ p.term
  pub of_ip : rpc.ip ≡ p.ip
  pub of_port : rpc.port ≡ p.port
  pub place : rpc.prelog_index +ℤ pos 1 ≡ pos k
  pub matches : PrelogMatches k rpc.prelog_term (log p.entries)
  pub few : ltb 1 (length rpc.entry) ≡ false
  pub numbered : find_or (pos 0) (own_addr f) p.current_rpc_lsn ≡ rpc.lsn +ℤ pos 1
  pub next : find_or (pos 0) (own_addr f) p.next_index ≡ pos k
  pub within : k ≤ p.entries.size
  pub stored : p.entries.size ≤ length p.entries.entries
  pub timed : contains (own_addr f) p.retry_timers ≡ true
  pub follows : is_primary f.state ≡ false
  pub same_term : f.term ≡ p.term
  pub fresh : find_or (pos 0) (own_addr p) f.follower_rpc_lsn <ℤ rpc.lsn
  pub other_stored : f.entries.size ≤ length f.entries.entries
