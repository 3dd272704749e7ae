-- ===== src/Server/Election.antt =====
-- The votes that a server gives: `react2rv`, read off the calls that it has made.
pub mod Once
pub mod Revote
pub mod AnyLog
use my_raft.Prelude.{
  ℕ, ◌+◌, ◌≡◌, refl, Bool, true, false, ◌&&◌, List, [], ◌∷◌, Bytes, if◌then◌else◌,
}
use my_raft.Prelude.Int.{ℤ, eqb_ℤ}
use my_raft.Prelude.Outcome.{Outcome, ok, ◌>>=◌}
use my_raft.Wire.{RpcType, RequestVoteRpc, RespRequestVoteRpc}
use my_raft.Server.State.{Call, make_rpc_call, Env, Server}
use my_raft.Server.Votes.{react2rv}

-- A vote for the candidate of a term.
abbrev pub is_vote : Env → ℤ → RpcType → Bytes → Bool
is_vote env term RpcType.resp_vote msg =
    (env.codecs.resp_rv.parse msg).is_ok && eqb_ℤ (env.codecs.resp_rv.parse msg).term term
is_vote env term _ msg = false

-- How often a history of calls votes in a term.
unfoldable pub votes : Env → ℤ → List Call → ℕ
votes env term [] = 0
votes env term (make_rpc_call t addr msg ∷ calls) =
    (if is_vote env term t msg then 1 else 0) + votes env term calls
votes env term (_ ∷ calls) = votes env term calls

-- One request for a vote after the other.
unfoldable pub react2rvs : Env → List RequestVoteRpc → Server → Outcome Server
react2rvs env [] s = ok s
react2rvs env (rpc ∷ rpcs) s = react2rv env rpc s >>= λ s'. react2rvs env rpcs s'

pub votes-nil : (env : Env) (term : ℤ) → votes env term [] ≡ 0
unfolding votes
votes-nil env term = refl
