-- ===== src/Cluster.antt =====
-- One primary during its reign, another server, and the network between them. The servers are those
-- of RaftServer.cpp, each with the answers of its own timers; the network is the record of the
-- calls that the primary has made, and may lose them, repeat them and deliver them in any order.
pub mod Carries
pub mod Commits
pub mod Leader
pub mod Reign
pub mod Follower
pub mod Takes
pub mod Agreement
pub mod Queues
pub mod Backtrack
pub mod Elected
pub mod Fresh
pub mod Logs
use my_raft.Prelude.{◌≡◌, ◌≢◌, Bytes, List, [], ◌∷◌, ◌⊎◌}
use my_raft.Prelude.Outcome.{ok}
use my_raft.Wire.{Addr, RpcType, append_entry, client_apply}
use my_raft.Server.State.{primary, Call, make_rpc_call, Env, Server}
use my_raft.Server.Events.{Event, incoming, step}

pub record Cluster : Type 0 where
  pub leader : Server
  pub other : Server

-- The call is among those made.
abbrev pub Made : Call → List Call → Type 0
Made c [] = ⊥
Made c (d ∷ calls) = (c ≡ d) ⊎ Made c calls

-- An event that no append call and no client's call to set a key is. The code appends the entry of
-- such a call in any state, so a server that is not primary and handles one leaves the others' log.
abbrev pub IsQuiet : Event → Type 0
IsQuiet (incoming t msg peer) = (t ≢ append_entry) × (t ≢ client_apply)
IsQuiet _ = Unit

-- The primary handles any event that leaves it primary of its term; the other server handles an
-- append call that the primary has made, or any quiet event that does not make it primary.
pub data Move (leader_env other_env : Env) (c : Cluster) : Cluster → Type 0 where
  leads :
      (e : Event) {p : Server}
      → step leader_env e c.leader ≡ ok p
      → p.state ≡ primary
      → p.term ≡ c.leader.term
      → Move leader_env other_env c (record c { leader = p })
  delivers :
      (addr peer : Addr) (msg : Bytes) {s : Server}
      → Made (make_rpc_call append_entry addr msg) c.leader.calls
      → step other_env (incoming append_entry msg peer) c.other ≡ ok s
      → Move leader_env other_env c (record c { other = s })
  follows :
      (e : Event) {s : Server}
      → IsQuiet e
      → step other_env e c.other ≡ ok s
      → s.state ≢ primary
      → Move leader_env other_env c (record c { other = s })

pub data Reach (leader_env other_env : Env) (c : Cluster) : Cluster → Type 0 where
  here : Reach leader_env other_env c c
  next :
      {d d' : Cluster}
      → Reach leader_env other_env c d
      → Move leader_env other_env d d'
      → Reach leader_env other_env c d'
