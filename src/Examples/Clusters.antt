-- ===== src/Examples/Clusters.antt =====
-- A primary, a follower and what passes between them, at a concrete reign.
use my_raft.Prelude.{
  bytes_eq, List, true, false, ◌≡◌, refl, [], ◌∷◌, inl, inr, arith, get_elem?, some, none, zero,
  suc, Bytes, ℕ, take,
}
use my_raft.Prelude.Int.{ℤ, pos, minus_one, ◌+ℤ◌}
use my_raft.Prelude.Outcome.{Outcome, ok, fail}
use my_raft.Wire.{RpcType, Entry, AppendEntryRpc}
use my_raft.Entry.{log}
use my_raft.Server.Handlers.{react2ae}
use my_raft.Cluster.Logs.{Matching, NoneOf}
use my_raft.Server.State.{primary, candidate, follower, Server, ae_hook}
use my_raft.Server.Transitions.{trans2p, trans2c}
use my_raft.Server.Votes.{react2resp_ae, primary_deal_resp_ae_with_same_term, accepted_ae}
use my_raft.Server.Events.{new_server, run, incoming, timer_ended, expired, step}
use my_raft.Server.Replication.Repeat.{log_and_commit, react2ae-repeated}
use my_raft.Cluster.{Cluster, leads, delivers, Reach, here, next}
use my_raft.Cluster.Agreement.{Agree, Reach-Agree, committed_same}
use my_raft.Cluster.Leader.{IsLeading}
use my_raft.Cluster.Queues.{Given}
use my_raft.Cluster.Queues.Machine.{value_after, workers_of, machine_same}
use my_raft.StateMachine.Workers.{
  Workers, Moment, begins, ends, write_pool, read_pool, turn, turns, begin_access, end_access,
  is_writing, write_task, read_task,
}
use my_raft.StateMachine.ThreadPool.{ThreadPool, worker_turn}
use my_raft.StateMachine.EasyStateMachine
use my_raft.Prelude.Assoc.{find_or}
use my_raft.Cluster.Queues.Reached.{queued_committed}
use my_raft.Server.Handover.{queue_of, HandsOver}
use my_raft.Server.Handover.Events.{step-HandsOver}
use my_raft.StateMachine.Controler.{WriteTask, ReadTask}
use my_raft.StateMachine.Controler.Applied.{number}
use my_raft.Cluster.Fresh.{first_candidate-IsLeading}
use my_raft.Cluster.Elected.{elected-Agree, trans2p-IsLeading}
use my_raft.Examples.Codecs.{codecs, ae_codec-IsLossless}
use my_raft.Examples.Servers.{env, addr, two_entries, server}
use my_raft.Examples.Witnesses.{everything, after}

-- The candidate of the term 1, and a server with the same two entries.
abbrev elect : Server
elect = server 1 candidate two_entries

abbrev pub elected : Server
elected = after elect (trans2p env elect)

abbrev follower_of : Server
follower_of = server 2 follower two_entries

abbrev start : Cluster
start = record { leader = elected; other = follower_of }

same_logs : Matching (log two_entries) (log two_entries)
same_logs j e d at_l at_m same = refl

none_behind : NoneOf (pos 1) (log two_entries) (log two_entries)
none_behind zero d far h = absurd (omega arith)
none_behind (suc zero) d far h = absurd (omega arith)
none_behind (suc (suc j)) d far h = cc

elect-IsLeading : IsLeading env elect
elect-IsLeading = record {
  stored = omega arith;
  carried = tt;
  saved = (omega arith, (omega arith, (omega arith, tt)));
  known = omega arith;
  committed = omega arith;
  placed = (omega arith, omega arith, (omega arith, omega arith, (omega arith, omega arith, tt)));
}

start-Agree : Agree env start
unfolding everything
start-Agree =
    elected-Agree env elect elected follower_of elect-IsLeading
      (record {
        stored = omega arith;
        numbered = (refl, (refl, tt));
        quorum = omega arith;
        elected = inl refl;
      })
      (λ e. cc) same_logs none_behind (0, refl, omega arith, refl) refl

trans2p-IsLeading_example :
    IsLeading env elected
    × (elected.state ≡ primary)
    × (elected.term ≡ elect.term)
    × (elected.entries ≡ elect.entries)
unfolding everything
trans2p-IsLeading_example = trans2p-IsLeading env elect elected elect-IsLeading refl

abbrev pub empty_call : ℤ → ℤ → AppendEntryRpc
empty_call lsn commit_index = record {
  term = pos 1;
  prelog_term = pos 1;
  commit_index = commit_index;
  lsn = lsn;
  ip = 127 ∷ 1 ∷ [];
  port = pos 1;
  entry = [];
  prelog_index = pos 1;
}

-- The follower hears the first call, the primary its answer, and sends the next call, which the
-- follower hears.
abbrev heard : Server
heard = after follower_of (react2ae env (empty_call (pos 0) minus_one) follower_of)

abbrev answer : Bytes
answer = codecs.resp_ae.serialize (record {
  is_ok = true;
  term = pos 1;
  lsn = pos 0;
  ip = 127 ∷ 1 ∷ [];
  port = pos 2;
  is_empty_ae = true;
})

abbrev answered : Server
answered = after elected (step env (incoming RpcType.resp_append answer (addr 2)) elected)

abbrev sent : Server
sent = after answered (step env (timer_ended (ae_hook (addr 2)) expired) answered)

abbrev told : Server
told = after heard (react2ae env (empty_call (pos 1) (pos 1)) heard)

abbrev end_of_reign : Cluster
end_of_reign = record { leader = sent; other = told }

reign : Reach env env start end_of_reign
unfolding everything react2resp_ae primary_deal_resp_ae_with_same_term accepted_ae
reign =
    next
      (next
        (next
          (next here (
            delivers (addr 2) (addr 1) (codecs.ae.serialize (empty_call (pos 0) minus_one))
              {s = heard} (inr (inr (inr (inr (inr (inl refl)))))) refl))
          (leads (incoming RpcType.resp_append answer (addr 2)) {p = answered} refl refl refl))
        (leads (timer_ended (ae_hook (addr 2)) expired) {p = sent} refl refl refl))
      (delivers (addr 2) (addr 1) (codecs.ae.serialize (empty_call (pos 1) (pos 1))) {s = told}
        (inr (inr (inl refl))) refl)

Reach-Agree_example : Agree env end_of_reign
Reach-Agree_example = Reach-Agree env env ae_codec-IsLossless start end_of_reign reign start-Agree

committed_same_example :
    (e : Entry) × (get_elem? (log told.entries) 1 ≡ some e)
    × (get_elem? (log sent.entries) 1 ≡ some e)
unfolding everything
committed_same_example =
    committed_same env env ae_codec-IsLossless start end_of_reign start-Agree reign 1 (omega arith)

-- The same call twice.
abbrev once : Server
once = after follower_of (react2ae env (empty_call (pos 0) minus_one) follower_of)

react2ae-repeated_example :
    (s : Server) × (react2ae env (empty_call (pos 0) minus_one) once ≡ ok s)
    × (log_and_commit s ≡ log_and_commit once)
unfolding everything
react2ae-repeated_example =
    react2ae-repeated env (empty_call (pos 0) minus_one) follower_of once (λ _ _ _. refl) refl

first_candidate-IsLeading_example :
    (s : Server) × (s₁ : Server) × (s₂ : Server) × (new_server
        (127 ∷ 1 ∷ [])
        (pos 2)
        (addr 1 ∷ addr 2 ∷ addr 3 ∷ [])
        two_entries
      ≡ ok s)
    × (run env s ≡ ok s₁)
    × (trans2c env s₁ ≡ ok s₂)
    × IsLeading env s₂
first_candidate-IsLeading_example =
    first_candidate-IsLeading env (127 ∷ 1 ∷ []) (pos 2) (addr 1 ∷ addr 2 ∷ addr 3 ∷ []) two_entries
      (λ _ _ _. refl) ((λ _. refl), ((λ _. refl), ((λ _. refl), tt)))
      ((refl, refl, (refl, refl, tt)), ((refl, refl, tt), (tt, tt))) (omega arith)

nothing-Given : Given start
unfolding everything
nothing-Given = record {
  leader = (0, refl, omega arith, refl);
  other = (0, refl, omega arith, refl);
  settled = refl;
}

queued_committed_example :
    (n : ℕ) × (told.commit_index +ℤ pos 1 ≡ pos n)
    × ((queue_of told).tasks ≡ number 0 (take n (log sent.entries)))
queued_committed_example =
    queued_committed env env ae_codec-IsLossless start end_of_reign start-Agree nothing-Given reign

-- The second task in a queue.
abbrev second_task : Server → WriteTask
second_task s = elim (get_elem? (queue_of s).tasks 1) [
  | some t ↦ t
  | none ↦ record { index_to_apply = pos 0; encoded_apply_str = [] }
]

-- The call that tells the commit index.
step-HandsOver_example : (n : ℕ) × HandsOver (queue_of heard) (queue_of told) told.entries 0 n
unfolding everything
step-HandsOver_example =
    step-HandsOver env
      (incoming RpcType.append_entry (codecs.ae.serialize (empty_call (pos 1) (pos 1))) (addr 1))
      heard told 0 refl refl

abbrev asked : ThreadPool ReadTask
asked = record {
  tasks = record { encoded_query_str = 5 ∷ []; client_addr = addr 9 } ∷ [];
  stop = false;
}

abbrev moments : List Moment
moments = begins write_pool ∷ ends ∷ begins read_pool ∷ ends ∷ begins write_pool ∷ ends ∷ []

abbrev turned : Outcome Workers → Workers
turned (ok w) = w
turned (fail fault) = workers_of told asked

abbrev done : Workers
done = turned (turns codecs moments (workers_of told asked))

-- The worker of `told` runs its two tasks, with a query in between.
machine_same_example :
    (n : ℕ) × (told.commit_index +ℤ pos 1 ≡ pos n)
    × (find_or (pos 0) (5 ∷ []) done.state_machine
        ≡ value_after codecs (take n (log sent.entries)) (5 ∷ []) (pos 0))
unfolding everything turn turns begin_access end_access is_writing write_task read_task worker_turn
    EasyStateMachine.apply EasyStateMachine.get
machine_same_example =
    machine_same env env ae_codec-IsLossless start end_of_reign start-Agree nothing-Given reign
      moments asked done (5 ∷ []) refl refl
