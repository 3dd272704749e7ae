-- ===== src/Server/Handover.antt =====
-- RaftServer.cpp: what the handlers give to the state machine's write pool.
pub mod Messages
pub mod Responses
pub mod Events
use my_raft.Prelude.{
  ℕ, ◌+◌, ◌-◌, ◌≤◌, ◌≡◌, refl, sym, ap, ◌∙◌, subst, ◌⊎◌, inl, inr, append-nil, List, [], ◌∷◌, ◌++◌,
  map, length, drop, take, arith, ltb, if◌then◌else◌,
}
use my_raft.Prelude.Int.{
  ℤ, pos, ◌+ℤ◌, ◌-ℤ◌, ◌≤ℤ◌, ltb_ℤ, eq_of_parts, next-parts, next_of_le, pos_part,
}
use my_raft.Prelude.Assoc.{insert}
use my_raft.Prelude.Outcome.{ok, >>=-eq-ok, ok-injective, if-eq-ok, else-eq-ok}
use my_raft.Wire.{Addr, addr_eq}
use my_raft.Entry.{Entries, log, at}
use my_raft.StateMachine.Controler.{WriteTask, Controler, update_commit_index_and_apply}
use my_raft.StateMachine.Controler.Applied.{number, queued, update-hands, update-hands_none}
use my_raft.Server.State.{Server}
use my_raft.Server.Commit.{
  apply_to_state_machine, primary_update_commit_index, follower_update_commit_index, temp_sort,
  log_temp_sort,
}

-- The part that counts: the commit index, the last index given away, and the queue.
pub record Queue : Type 0 where
  pub commit_index : ℤ
  pub applied_index : ℤ
  pub tasks : List WriteTask

abbrev pub queue_with : ℤ → Controler → Queue
queue_with commit_index smc = record {
  commit_index = commit_index;
  applied_index = smc.applied_index;
  tasks = smc.write_thread_pool.tasks;
}

abbrev pub queue_of : Server → Queue
queue_of s = queue_with s.commit_index s.smc

-- The queue ends with `n` tasks more, for the entries from `a` on. The last of them is then the one
-- that the commit index names. Whatever was committed is given away if it was so before.
pub record HandsOver (q q' : Queue) (es : Entries) (a n : ℕ) : Type 0 where
  pub applied : q'.applied_index +ℤ pos 1 ≡ pos (a + n)
  pub tasks : q'.tasks ≡ q.tasks ++ number a (take n (drop a (log es)))
  pub inside : (n ≡ 0) ⊎ ((a + n ≤ length (log es)) × (q'.applied_index ≡ q'.commit_index))
  pub caught_up : q.commit_index ≤ℤ q.applied_index → q'.commit_index ≤ℤ q'.applied_index

-- `a` is the first entry that was not given away.
abbrev pub Hands : Queue → Server → Type 0
Hands q s =
    (a : ℕ) → q.applied_index +ℤ pos 1 ≡ pos a → (n : ℕ) × HandsOver q (queue_of s) s.entries a n

pub HandsOver-none :
    (q : Queue) (es : Entries) (a : ℕ) → q.applied_index +ℤ pos 1 ≡ pos a → HandsOver q q es a 0
HandsOver-none q es a first =
    let none_more : a ≡ a + 0 = omega arith in
    record {
      applied = first ∙ ap pos none_more;
      tasks = sym (append-nil q.tasks);
      inside = inl refl;
      caught_up = λ h. h;
    }

pub Hands-none : (s s' : Server) → queue_of s' ≡ queue_of s → Hands (queue_of s) s'
Hands-none s s' same a first = (
  0,
  subst (λ q. HandsOver (queue_of s) q s'.entries a 0) (sym same)
      (HandsOver-none (queue_of s) s'.entries a first),
)

pub Hands-before :
    (s t u : Server) → queue_of t ≡ queue_of s → Hands (queue_of t) u → Hands (queue_of s) u
Hands-before s t u same h = subst (λ q. Hands q u) same h

pub Hands-after :
    (q : Queue) (t u : Server)
    → Hands q t
    → queue_of u ≡ queue_of t
    → u.entries ≡ t.entries
    → Hands q u
Hands-after q t u h same es a first =
    let (n, over) = h a first in
    (
      n,
      subst (λ d. HandsOver q d u.entries a n) (sym same)
          (subst (λ e. HandsOver q (queue_of t) e a n) (sym es) over),
    )

-- The new indices and queue, for either order of the new index and the one applied.
update-HandsOver :
    (new : ℤ) (s : Server) (smc : Controler) (a : ℕ)
    → s.smc.applied_index +ℤ pos 1 ≡ pos a
    → update_commit_index_and_apply s.entries s.smc new ≡ ok smc
    → (s.smc.applied_index ≤ℤ new) ⊎ (new ≤ℤ s.smc.applied_index)
    → (n : ℕ) × HandsOver (queue_of s) (queue_with new smc) s.entries a n
update-HandsOver new s smc a first e (inr low) =
    let same = update-hands_none s.entries s.smc smc new low e in
    let over = HandsOver-none (queue_of s) s.entries a first in
    (
      0,
      subst (λ c. HandsOver (queue_of s) (queue_with new c) s.entries a 0) (sym same)
          (record {
            applied = over.applied;
            tasks = over.tasks;
            inside = inl refl;
            caught_up = λ _. low;
          }),
    )
update-HandsOver new s smc a first e (inl grows) =
    let b = pos_part (new +ℤ pos 1) in
    let last : new +ℤ pos 1 ≡ pos b = next_of_le s.smc.applied_index new a first grows in
    let whole : b ≡ a + (b - a) =
      omega (arith, next-parts new b last, next-parts s.smc.applied_index a first) in
    let (same, inside) =
      update-hands s.entries s.smc smc a (b - a) new first (last ∙ ap pos whole) e in
    (
      b - a,
      subst (λ c. HandsOver (queue_of s) (queue_with new c) s.entries a (b - a)) (sym same)
          (record {
            applied = last ∙ ap pos whole;
            tasks = refl;
            inside = elim inside [
              | inl none_more ↦ inl none_more
              | inr within ↦ inr (within, refl)
            ];
            caught_up = λ _. omega arith;
          }),
    )

either_order : (i j : ℤ) → (i ≤ℤ j) ⊎ (j ≤ℤ i)
either_order i j = ground arith

-- The commit index is set, and the state machine told of it.
pub apply_to_state_machine-Hands :
    (new : ℤ) (s s' : Server)
    → apply_to_state_machine new (record s { commit_index = new }) ≡ ok s'
    → Hands (queue_of s) s'
unfolding apply_to_state_machine
apply_to_state_machine-Hands new s s' h a first =
    let (smc, e, end) = >>=-eq-ok (update_commit_index_and_apply s.entries s.smc new) _ h in
    subst (λ (t : Server). (n : ℕ) × HandsOver (queue_of s) (queue_of t) t.entries a n)
      (ok-injective end)
      (update-HandsOver new s smc a first e (either_order s.smc.applied_index new))

pub follower_update-Hands :
    (remote : ℤ) (s s' : Server)
    → follower_update_commit_index remote s ≡ ok s'
    → Hands (queue_of s) s'
unfolding follower_update_commit_index
follower_update-Hands remote s s' h =
    let latest = pos s.entries.size -ℤ pos 1 in
    let new = if ltb_ℤ latest remote then latest else remote in
    let (high, h₁) = else-eq-ok (ltb_ℤ new s.commit_index) _ _ h in
    elim (if-eq-ok (ltb_ℤ s.commit_index new) _ (ok _) h₁) [
      | inl (_, told) ↦ apply_to_state_machine-Hands new s s' told
      | inr (low, same) ↦
          let stays : new ≡ s.commit_index =
            eq_of_parts new s.commit_index (ground (arith, high, low)) in
          Hands-none s s'
            (sym (ap queue_of (ok-injective same)) ∙ ap (λ i. queue_with i s.smc) stays)
    ]

pub primary_update-Hands :
    (server : Addr) (index : ℤ) (s s' : Server)
    → primary_update_commit_index server index s ≡ ok s'
    → Hands (queue_of s) s'
unfolding primary_update_commit_index
primary_update-Hands server index s s' h =
    let saved = insert server index s.follower_saved_index in
    let (sorted, _, h₁) = >>=-eq-ok (temp_sort _ _) _ h in
    let (shown, _, h₂) = >>=-eq-ok (log_temp_sort sorted) _ h₁ in
    let (new, _, h₃) = >>=-eq-ok (at shown (s.majority - 1)) _ h₂ in
    apply_to_state_machine-Hands new (record s { follower_saved_index = saved }) s' h₃
