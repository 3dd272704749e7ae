-- ===== src/Server/Commit/Follower.antt =====
-- The commit index that a follower takes from its primary.
use my_raft.Prelude.{
  ◌⊎◌, inl, inr, append-nil, ℕ, ◌+◌, ◌-◌, ◌≤◌, ◌≡◌, ap, ◌∙◌, true, false, arith, if◌then◌else◌,
  length, length-take,
}
use my_raft.Prelude.Int.{
  pos_part, neg_part, ℤ, pos, ◌+ℤ◌, ◌-ℤ◌, ◌≤ℤ◌, ◌<ℤ◌, ltb_ℤ, next-parts, eq_of_parts,
}
use my_raft.Prelude.Outcome.{ok, fail, commit_index_decreases}
use my_raft.StateMachine.Controler.{update_commit_index_and_apply}
use my_raft.StateMachine.Controler.Applied.{queued, update-queued}
use my_raft.Server.State.{Server}
use my_raft.Server.Commit.{follower_update_commit_index, apply_to_state_machine}

rises : (i j : ℤ) → i ≤ℤ j → (ltb_ℤ i j ≡ true) ⊎ (j ≡ i)
rises i j h = ground (arith, eq_of_parts j i)

-- What the primary has committed, as far as the follower's log reaches.
abbrev pub reachable : ℤ → Server → ℤ
reachable remote s =
    if ltb_ℤ (pos s.entries.size -ℤ pos 1) remote then pos s.entries.size -ℤ pos 1 else remote

reachable_below : (remote : ℤ) (s : Server) → reachable remote s <ℤ pos s.entries.size
unfolding ◌-ℤ◌
reachable_below remote s = ground arith

-- The call of the state machine's controler.
handed_over :
    (new : ℤ) (s : Server) (a b : ℕ)
    → s.smc.applied_index ≡ s.commit_index
    → s.commit_index +ℤ pos 1 ≡ pos a
    → new +ℤ pos 1 ≡ pos b
    → new <ℤ pos s.entries.size
    → s.entries.size ≤ length s.entries.entries
    → s.smc.write_thread_pool.stop ≡ false
    → s.commit_index ≤ℤ new
    → update_commit_index_and_apply s.entries s.smc new ≡ ok (queued s.entries s.smc a (b - a) new)
handed_over new s a b up first last below stored running grows =
    let ends = next-parts new b last in
    let starts = next-parts s.commit_index a first in
    let whole : b ≡ a + (b - a) = omega arith in
    update-queued s.entries s.smc a (b - a) new (ap (λ i. i +ℤ pos 1) up ∙ first)
      (last ∙ ap pos whole) (omega (arith, length-take s.entries.size s.entries.entries)) running

-- Nothing is handed over where the index stays.
queued_none :
    (new : ℤ) (s : Server) (a b : ℕ)
    → s.smc.applied_index ≡ s.commit_index
    → s.smc.commit_index ≡ s.commit_index
    → s.commit_index +ℤ pos 1 ≡ pos a
    → new +ℤ pos 1 ≡ pos b
    → new ≡ s.commit_index
    → queued s.entries s.smc a (b - a) new ≡ s.smc
queued_none new s a b up known first last e =
    let none_left : b - a ≡ 0 = omega (
      arith,
      next-parts new b last,
      next-parts s.commit_index a first,
      ap pos_part e,
      ap neg_part e,
    ) in
    ap (λ n. queued s.entries s.smc a n new) none_left
    ∙ ground (arith, up, known, e, append-nil s.smc.write_thread_pool.tasks)

-- For a follower whose log is in memory, whose state machine is up to date with its commit index,
-- whose write pool runs, and whose next entry to commit is at `a`, told of a commit index of which
-- its log reaches all below `b`: the call throws where that is below its commit index, and else it
-- succeeds, takes the index as far as the log goes, and hands exactly the entries from `a` up to `b`
-- to its state machine, in order.
pub follower_update-queued :
    (remote : ℤ) (s : Server) (a b : ℕ)
    → s.smc.applied_index ≡ s.commit_index
    → s.smc.commit_index ≡ s.commit_index
    → s.commit_index +ℤ pos 1 ≡ pos a
    → s.entries.size ≤ length s.entries.entries
    → s.smc.write_thread_pool.stop ≡ false
    → reachable remote s +ℤ pos 1 ≡ pos b
    → follower_update_commit_index remote s ≡ (
        if ltb_ℤ (reachable remote s) s.commit_index
        then fail commit_index_decreases
        else ok (record s {
          commit_index = reachable remote s;
          smc = queued s.entries s.smc a (b - a) (reachable remote s);
        }))
unfolding follower_update_commit_index apply_to_state_machine
follower_update-queued remote s a b up known first stored running last =
    let new = reachable remote s in
    let handed = handed_over new s a b up first last (reachable_below remote s) stored running in
    let stays = queued_none new s a b up known first last in
    let falls : (s.commit_index ≤ℤ new) ⊎ (ltb_ℤ new s.commit_index ≡ true) = ground arith in
    elim falls [
      | inr less ↦ ground (arith, less)
      | inl grows ↦ elim (rises s.commit_index new grows) [
        | inl more ↦ ground (arith, handed grows, more)
        | inr same ↦ ground (arith, stays same, same)
      ]
    ]
