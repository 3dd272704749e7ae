-- ===== src/Cluster/Queues/Machine.antt =====
-- The state machine of the other server, once its workers have run what it has given them.
use my_raft.Prelude.{
  ◌++◌, append-nil, sym, none, ℕ, suc, ◌≡◌, refl, ap, ◌∙◌, Bytes, bytes_eq, ◌==◌, List, [], ◌∷◌,
  take, if◌then◌else◌,
}
use my_raft.Prelude.Int.{ℤ, pos, ◌+ℤ◌}
use my_raft.Prelude.Assoc.{find_or}
use my_raft.Prelude.Outcome.{ok}
use my_raft.Wire.{Codecs, Entry, AppendEntryRpc}
use my_raft.Entry.{log}
use my_raft.StateMachine.ThreadPool.{ThreadPool}
use my_raft.StateMachine.Controler.{ReadTask}
use my_raft.StateMachine.Controler.Applied.{number}
use my_raft.StateMachine.Workers.{Workers, Moment, turns}
use my_raft.StateMachine.Workers.Replay.{replay, pending, turns-replay}
use my_raft.Server.State.{Env, Server}
use my_raft.Server.Handover.{queue_of}
use my_raft.Cluster.{Cluster, Reach}
use my_raft.Cluster.Agreement.{Agree}
use my_raft.Cluster.Queues.{Given}
use my_raft.Cluster.Queues.Reached.{queued_committed}

-- The value of a key after some entries: that of the last entry that sets it.
abbrev pub value_after : Codecs → List Entry → Bytes → ℤ → ℤ
value_after c [] key v = v
value_after c (e ∷ es) key v =
    let call = c.apply_call.parse e.msg in
    value_after c es key (if call.key == key then call.v else v)

replay-number :
    (c : Codecs) (a : ℕ) (es : List Entry) (key : Bytes) (v : ℤ)
    → replay c (number a es) key v ≡ value_after c es key v
replay-number c a [] key v = refl
replay-number c a (e ∷ es) key v = replay-number c (suc a) es key _

-- The workers of a server that have run nothing yet, with any queries that wait.
abbrev pub workers_of : Server → ThreadPool ReadTask → Workers
workers_of s queries = record {
  write_thread_pool = s.smc.write_thread_pool;
  read_thread_pool = queries;
  state_machine = [];
  posts = [];
  running = none;
}

all_taken : {A : Type 0} (xs ys zs : List A) → xs ≡ ys ++ zs → zs ≡ [] → ys ≡ xs
all_taken xs ys zs whole none_left = sym (whole ∙ ap (◌++◌ ys) none_left ∙ append-nil ys)

-- A primary's reign begins as for `queued_committed`, where both servers agree, and reaches a cluster
-- in which the other server has handled no append calls of others and no client's call to set a key.
-- The other server's workers then run its tasks, in any order with those for queries, as long as no
-- two accesses to its map overlap, which would be undefined behaviour: when no write task is left,
-- each key has the value there that the primary's log gives it, up to the other server's commit
-- index.
pub machine_same :
    (leader_env other_env : Env)
    → ((rpc : AppendEntryRpc)
        → other_env.codecs.ae.parse (leader_env.codecs.ae.serialize rpc) ≡ rpc)
    → (c c' : Cluster) → Agree leader_env c
    → Given c
    → Reach leader_env other_env c c'
    → (moments : List Moment) (queries : ThreadPool ReadTask) (done : Workers) (key : Bytes)
    → turns other_env.codecs moments (workers_of c'.other queries) ≡ ok done
    → pending done ≡ []
    → (n : ℕ) × (c'.other.commit_index +ℤ pos 1 ≡ pos n)
      × (find_or (pos 0) key done.state_machine
          ≡ value_after other_env.codecs (take n (log c'.leader.entries)) key (pos 0))
unfolding find_or
machine_same leader_env other_env lossless c c' w g reached moments queries done key ran ended =
    let (n, place, given) = queued_committed leader_env other_env lossless c c' w g reached in
    let codecs = other_env.codecs in
    let (taken, queue, values, _) =
      turns-replay codecs moments (workers_of c'.other queries) done ran in
    let whole : taken ≡ (queue_of c'.other).tasks =
      all_taken (queue_of c'.other).tasks taken (pending done) queue ended in
    (
      n,
      place,
      values key
          ∙ ap (λ ts. replay codecs ts key (pos 0)) (whole ∙ given)
          ∙ replay-number codecs 0 (take n (log c'.leader.entries)) key (pos 0),
    )
