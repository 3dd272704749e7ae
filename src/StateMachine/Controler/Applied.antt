-- ===== src/StateMachine/Controler/Applied.antt =====
-- What `update_commit_index_and_apply` hands to the write pool.
use my_raft.Prelude.{
  append-nil, append_assoc, drop-get_elem?, ℕ, zero, suc, ◌+◌, ◌≤◌, ◌≡◌, refl, sym, ap, ◌∙◌, false,
  true, List, [], ◌∷◌, ◌++◌, length, take, drop, get_elem?, get_elem?-lt, length-take, some, arith,
  subst, ◌⊎◌, inl, inr, get_elem?-lt_length,
}
use my_raft.Prelude.Int.{
  next-parts, eq_of_parts, pos-add, ℤ, pos, ◌+ℤ◌, ◌-ℤ◌, pos_part, ltb_ℤ, pos-injective, ◌≤ℤ◌,
}
use my_raft.Prelude.Outcome.{ok, ◌>>=◌, >>=-eq-ok, ok-injective}
use my_raft.Wire.{Entry}
use my_raft.Entry.{Entries, log, get}
use my_raft.Entry.Get.{get-ok, get-log}
use my_raft.StateMachine.ThreadPool.{enqueue}
use my_raft.StateMachine.Controler.{
  WriteTask, Controler, apply_to_state_machine, apply_loop, update_commit_index_and_apply,
}

-- The tasks for entries that stand one behind the other from an index on.
abbrev pub number : ℕ → List Entry → List WriteTask
number a [] = []
number a (e ∷ es) = record { index_to_apply = pos a; encoded_apply_str = e.msg } ∷ number (suc a) es

-- The controler once the `n` entries from `a` on are in the queue, and the last of them is `new`.
abbrev pub queued : Entries → Controler → ℕ → ℕ → ℤ → Controler
queued es c a n new = record c {
  commit_index = new;
  applied_index = new;
  write_thread_pool = record c.write_thread_pool {
    tasks = c.write_thread_pool.tasks ++ number a (take n (drop a (log es)));
  };
}

-- One round of the loop.
abbrev one_more : Controler → ℕ → Entry → Controler
one_more c a e = record c {
  applied_index = pos a;
  write_thread_pool = record c.write_thread_pool {
    tasks =
        c.write_thread_pool.tasks
        ++ record { index_to_apply = pos a; encoded_apply_str = e.msg } ∷ [];
  };
}

apply-one_more :
    (es : Entries) (c : Controler) (a : ℕ) (e : Entry)
    → get es (pos a) ≡ ok e
    → c.write_thread_pool.stop ≡ false
    → apply_to_state_machine es c (pos a) ≡ ok (one_more c a e)
unfolding apply_to_state_machine enqueue
apply-one_more es c a e found running = ground (arith, found, running)

one_more-queued :
    (es : Entries) (c : Controler) (a n : ℕ) (e : Entry) (new : ℤ)
    → get_elem? (log es) a ≡ some e
    → queued es (one_more c a e) (suc a) n new ≡ queued es c a (suc n) new
one_more-queued es c a n e new there =
    let tasks = c.write_thread_pool.tasks in
    let same =
      append_assoc tasks _ (number (suc a) (take n (drop (suc a) (log es))))
      ∙ ap (λ l. tasks ++ number a (take (suc n) l)) (sym (drop-get_elem? (log es) a e there)) in
    ap
      (λ ts. record c {
        commit_index = new;
        applied_index = new;
        write_thread_pool = record c.write_thread_pool { tasks = ts };
      })
      same

apply_loop-queued :
    (n : ℕ) (es : Entries) (c : Controler) (a : ℕ) (new : ℤ)
    → c.applied_index +ℤ pos 1 ≡ pos a
    → new +ℤ pos 1 ≡ pos (a + n)
    → c.commit_index ≡ new
    → a + n ≤ length (log es)
    → c.write_thread_pool.stop ≡ false
    → apply_loop n es c ≡ ok (queued es c a n new)
unfolding apply_loop
apply_loop-queued zero es c a new first last known within running =
    let reached : c.applied_index ≡ new =
      eq_of_parts c.applied_index new
        (omega (arith, next-parts c.applied_index a first, next-parts new (a + 0) last)) in
    let same = append-nil c.write_thread_pool.tasks in ground (arith, reached, known, same)
apply_loop-queued (suc n) es c a new first last known within running =
    let (e, there) = get_elem?-lt (log es) a (omega arith) in
    let found = get-ok es a e (omega (arith, length-take es.size es.entries)) there in
    let below : ltb_ℤ c.applied_index c.commit_index ≡ true =
      ground (arith, next-parts c.applied_index a first, next-parts new (a + suc n) last, known) in
    let round = apply-one_more es c a e found running in
    let shifted : a + suc n ≡ suc a + n = omega arith in
    let succ : a + 1 ≡ suc a = omega arith in
    let next : pos a +ℤ pos 1 ≡ pos (suc a) = pos-add a 1 ∙ ap pos succ in
    let rest =
      apply_loop-queued n es (one_more c a e) (suc a) new next (last ∙ ap pos shifted) known
        (omega arith) running in
    let begun : apply_loop (suc n) es c ≡ apply_loop n es (one_more c a e) =
      ground (arith, below, first, round) in
    begun ∙ rest ∙ ap ok (one_more-queued es c a n e new there)

-- Where the entries from the first that is not applied up to the new commit index are in the log,
-- and the write pool is not stopped, the call succeeds: the queue then ends with one task for each
-- of those entries, in order, and the new index is the one applied.
pub update-queued :
    (es : Entries) (c : Controler) (a n : ℕ) (new : ℤ)
    → c.applied_index +ℤ pos 1 ≡ pos a
    → new +ℤ pos 1 ≡ pos (a + n)
    → a + n ≤ length (log es)
    → c.write_thread_pool.stop ≡ false
    → update_commit_index_and_apply es c new ≡ ok (queued es c a n new)
unfolding update_commit_index_and_apply ◌-ℤ◌
update-queued es c a n new first last within running =
    let rounds : pos_part (new -ℤ c.applied_index) ≡ n =
      ground (arith, next-parts c.applied_index a first, next-parts new (a + n) last) in
    ap (λ k. apply_loop k es (record c { commit_index = new })) rounds
    ∙ apply_loop-queued n es (record c { commit_index = new }) a new first last refl within running

one_more-of :
    (es : Entries) (c c' : Controler) (a : ℕ)
    → apply_to_state_machine es c (pos a) ≡ ok c'
    → (e : Entry) × (get_elem? (log es) a ≡ some e) × (c' ≡ one_more c a e)
unfolding apply_to_state_machine enqueue
one_more-of es c c' a h =
    let (e, found, h₁) = >>=-eq-ok (get es (pos a)) _ h in
    let (k, at_k, _, there) = get-log es (pos a) e found in
    (e, subst (λ i. get_elem? (log es) i ≡ some e) (pos-injective (sym at_k)) there, ground arith)

apply_loop-hands :
    (n : ℕ) (es : Entries) (c c' : Controler) (a : ℕ) (new : ℤ)
    → c.applied_index +ℤ pos 1 ≡ pos a
    → new +ℤ pos 1 ≡ pos (a + n)
    → c.commit_index ≡ new
    → apply_loop n es c ≡ ok c'
    → (c' ≡ queued es c a n new) × ((n ≡ 0) ⊎ (a + n ≤ length (log es)))
unfolding apply_loop
apply_loop-hands zero es c c' a new first last known h =
    let reached : c.applied_index ≡ new =
      eq_of_parts c.applied_index new
        (omega (arith, next-parts c.applied_index a first, next-parts new (a + 0) last)) in
    let same = append-nil c.write_thread_pool.tasks in
    (sym (ok-injective h) ∙ ground (arith, reached, known, same), inl refl)
apply_loop-hands (suc n) es c c' a new first last known h =
    let below : ltb_ℤ c.applied_index c.commit_index ≡ true =
      ground (arith, next-parts c.applied_index a first, next-parts new (a + suc n) last, known) in
    let begun : (apply_to_state_machine es c (pos a) >>= λ d. apply_loop n es d)
        ≡ apply_loop (suc n) es c =
      ground (arith, below, first) in
    let (d, one, rest) = >>=-eq-ok (apply_to_state_machine es c (pos a)) _ (begun ∙ h) in
    let (e, there, same) = one_more-of es c d a one in
    let shifted : a + suc n ≡ suc a + n = omega arith in
    let succ : a + 1 ≡ suc a = omega arith in
    let next : pos a +ℤ pos 1 ≡ pos (suc a) = pos-add a 1 ∙ ap pos succ in
    let (all, inside) =
      apply_loop-hands n es (one_more c a e) c' (suc a) new next (last ∙ ap pos shifted) known
        (ap (apply_loop n es) (sym same) ∙ rest) in
    (
      all ∙ one_more-queued es c a n e new there,
      inr (elim inside [
        | inl last_one ↦ omega (arith, get_elem?-lt_length (log es) a there)
        | inr within ↦ omega arith
      ]),
    )

-- A call that succeeds, for a new index that is not below the one applied: the queue ends with the
-- entries in between.
pub update-hands :
    (es : Entries) (c c' : Controler) (a n : ℕ) (new : ℤ)
    → c.applied_index +ℤ pos 1 ≡ pos a
    → new +ℤ pos 1 ≡ pos (a + n)
    → update_commit_index_and_apply es c new ≡ ok c'
    → (c' ≡ queued es c a n new) × ((n ≡ 0) ⊎ (a + n ≤ length (log es)))
unfolding update_commit_index_and_apply ◌-ℤ◌
update-hands es c c' a n new first last h =
    let rounds : pos_part (new -ℤ c.applied_index) ≡ n =
      ground (arith, next-parts c.applied_index a first, next-parts new (a + n) last) in
    let known = record c { commit_index = new } in
    apply_loop-hands n es known c' a new first last refl
      (ap (λ k. apply_loop k es known) (sym rounds) ∙ h)

-- For one that is below, nothing is handed over.
pub update-hands_none :
    (es : Entries) (c c' : Controler) (new : ℤ)
    → new ≤ℤ c.applied_index
    → update_commit_index_and_apply es c new ≡ ok c'
    → c' ≡ record c { commit_index = new }
unfolding update_commit_index_and_apply ◌-ℤ◌ apply_loop
update-hands_none es c c' new low h =
    let rounds : pos_part (new -ℤ c.applied_index) ≡ 0 = ground arith in
    let known = record c { commit_index = new } in
    sym (ok-injective (ap (λ k. apply_loop k es known) (sym rounds) ∙ h))
