-- ===== src/Cluster/Queues/Reached.antt =====
-- The queues of both servers in each cluster that a primary's reign reaches.
use my_raft.Prelude.{ℕ, ◌≡◌, sym, ap, ◌∙◌, take, arith}
use my_raft.Prelude.Int.{ℤ, pos, ◌+ℤ◌, ◌≤ℤ◌, pos-injective}
use my_raft.Wire.{Entry, AppendEntryRpc, append_entry}
use my_raft.Entry.{Entries, log}
use my_raft.StateMachine.Controler.Applied.{number}
use my_raft.Server.State.{Env, Server}
use my_raft.Server.Events.{incoming, step, react_to_incoming_msg}
use my_raft.Server.Handover.{queue_of}
use my_raft.Cluster.{Cluster, Move, leads, delivers, follows, Reach, here, next}
use my_raft.Cluster.Reign.Events.{step-Reigns}
use my_raft.Cluster.Follower.{stored_part, quiet_step-part}
use my_raft.Cluster.Takes.{Takes, untouched, learned, taken, react2ae-Takes}
use my_raft.Cluster.Agreement.{Agree, Move-Agree, Reach-Agree}
use my_raft.Cluster.Queues.{grown-IsGiven, Given, other-Given}

stays-rises : (s s' : Server) → stored_part s' ≡ stored_part s → s.commit_index ≤ℤ s'.commit_index
stays-rises s s' same =
    let index : s'.commit_index ≡ s.commit_index = ap (λ (q : Entries × ℤ). q.1) same in
    rw index (omega arith)

Takes-rises :
    (rpc : AppendEntryRpc) (s s' : Server) → Takes rpc s s' → s.commit_index ≤ℤ s'.commit_index
Takes-rises rpc s s' (untouched same) = stays-rises s s' same
Takes-rises rpc s s' (learned _ _ _ _ _ (up, _, _)) = up
Takes-rises rpc s s' (taken _ _ _ _ _ _ _ _ _ (up, _, _)) = up

Move-Given :
    (leader_env other_env : Env)
    → ((rpc : AppendEntryRpc)
        → other_env.codecs.ae.parse (leader_env.codecs.ae.serialize rpc) ≡ rpc)
    → (c c' : Cluster) → Move leader_env other_env c c'
    → Agree leader_env c
    → Agree leader_env c'
    → Given c
    → Given c'
unfolding step react_to_incoming_msg
Move-Given leader_env other_env lossless c c' (leads e {p} h still same) w w' g =
    let (_, grows) = step-Reigns leader_env e c.leader p h w.reigns still same w.leading in
    record {
      leader = grown-IsGiven leader_env e c.leader p h grows g.leader;
      other = g.other;
      settled = g.settled;
    }
Move-Given leader_env other_env lossless c c' (delivers addr peer msg {s} made h) w w' g =
    let rpc = other_env.codecs.ae.parse msg in
    let (takes, _) = react2ae-Takes other_env rpc c.other s w.other_formed.stored w.other_state h in
    other-Given other_env (incoming append_entry msg peer) c s h (Takes-rises rpc c.other s takes)
      w.committed w'.committed g
Move-Given leader_env other_env lossless c c' (follows e {s} quiet h other) w w' g =
    let same = quiet_step-part other_env e c.other s quiet w.other_state other h in
    other-Given other_env e c s h (stays-rises c.other s same) w.committed w'.committed g

Reach-Given :
    (leader_env other_env : Env)
    → ((rpc : AppendEntryRpc)
        → other_env.codecs.ae.parse (leader_env.codecs.ae.serialize rpc) ≡ rpc)
    → (c c' : Cluster) → Reach leader_env other_env c c'
    → Agree leader_env c
    → Given c
    → Given c'
Reach-Given leader_env other_env lossless c c' here w g = g
Reach-Given leader_env other_env lossless c c' (next {d} reached move) w g =
    let before = Reach-Agree leader_env other_env lossless c d reached w in
    Move-Given leader_env other_env lossless d c' move before
      (Move-Agree leader_env other_env lossless d c' move before)
      (Reach-Given leader_env other_env lossless c d reached w g)

-- The other server's queue, in terms of the primary's log.
Given-common :
    (c : Cluster) (env : Env)
    → Agree env c
    → Given c
    → (n : ℕ) × (c.other.commit_index +ℤ pos 1 ≡ pos n)
      × ((queue_of c.other).tasks ≡ number 0 (take n (log c.leader.entries)))
Given-common c env w g =
    let (k, place, _, given) = g.other in
    let (n, at_n, _, same) = w.committed in
    let at_k : k ≡ n = pos-injective (sym place ∙ ap (λ i. i +ℤ pos 1) g.settled ∙ at_n) in
    (n, at_n, given ∙ ap (λ x. number 0 (take x (log c.other.entries))) at_k ∙ ap (number 0) same)

-- A primary's reign begins where it and another server agree, which `Cluster.Agreement.Reach-Agree`
-- explains and which the elections of this code do not ensure; where both have given to their write
-- pools the first entries of their logs and no other tasks; and where the other has given all that
-- it has committed and no more. The other parses what the primary has serialised. Then, in each
-- cluster that the reign reaches, in which the other handles no append calls of others and no
-- client's call to set a key, the other has given one task for each entry of the primary's log up
-- to its own commit index, in order, and no other.
pub queued_committed :
    (leader_env other_env : Env)
    → ((rpc : AppendEntryRpc)
        → other_env.codecs.ae.parse (leader_env.codecs.ae.serialize rpc) ≡ rpc)
    → (c c' : Cluster) → Agree leader_env c
    → Given c
    → Reach leader_env other_env c c'
    → (n : ℕ) × (c'.other.commit_index +ℤ pos 1 ≡ pos n)
      × ((queue_of c'.other).tasks ≡ number 0 (take n (log c'.leader.entries)))
queued_committed leader_env other_env lossless c c' w g reached =
    Given-common c' leader_env (Reach-Agree leader_env other_env lossless c c' reached w)
      (Reach-Given leader_env other_env lossless c c' reached w g)
