-- ===== src/StateMachine/Workers/Replay.antt =====
-- The workers' turns against a replay of the write pool's queue.
use my_raft.Prelude.{
  Option, none, some, ◌⊎◌, inl, inr, subst, ◌≡◌, refl, sym, ap, ◌∙◌, List, [], ◌∷◌, ◌++◌,
  append_assoc, append-nil, Bytes, bytes_eq, ◌==◌, if◌then◌else◌, arith,
}
use my_raft.Prelude.Int.{ℤ, pos}
use my_raft.Prelude.Assoc.{find_or, find_or-insert, find_or-touch}
use my_raft.Prelude.Outcome.{ok, >>=-eq-ok, ok-injective}
use my_raft.Wire.{Codecs}
use my_raft.StateMachine.ThreadPool.{worker_turn}
use my_raft.StateMachine.Controler.{WriteTask, ReadTask}
use my_raft.StateMachine.EasyStateMachine
use my_raft.StateMachine.Workers.{
  Post, write_resp_apply_call, write_resp_query_call, Workers, write_task, read_task, write_pool,
  read_pool, Moment, begins, ends, Access, writing, reading, is_writing, begin_access, end_access,
  turn, turns,
}

-- The value of a key after some tasks: that of the last task for it.
abbrev pub replay : Codecs → List WriteTask → Bytes → ℤ → ℤ
replay c [] key v = v
replay c (t ∷ ts) key v =
    let call = c.apply_call.parse t.encoded_apply_str in
    replay c ts key (if call.key == key then call.v else v)

-- The indices of the entries that are reported as applied, in order.
abbrev pub reported : List Post → List ℤ
reported [] = []
reported (write_resp_apply_call index res ∷ posts) = index ∷ reported posts
reported (write_resp_query_call addr res ∷ posts) = reported posts

abbrev pub indices : List WriteTask → List ℤ
indices [] = []
indices (t ∷ ts) = t.index_to_apply ∷ indices ts

-- The write tasks that have not ended: the one that is running, and those that wait.
abbrev pub under_way : Option Access → List WriteTask
under_way (some (writing t)) = t ∷ []
under_way _ = []

abbrev pub pending : Workers → List WriteTask
pending w = under_way w.running ++ w.write_thread_pool.tasks

-- Some write tasks have ended, in order.
pub record Ran (c : Codecs) (w w' : Workers) : Type 0 where
  pub taken : List WriteTask
  pub queue : pending w ≡ taken ++ pending w'
  pub values :
      (key : Bytes)
      → find_or (pos 0) key w'.state_machine
        ≡ replay c taken key (find_or (pos 0) key w.state_machine)
  pub answers : reported w'.posts ≡ reported w.posts ++ indices taken

reported-append : (xs ys : List Post) → reported (xs ++ ys) ≡ reported xs ++ reported ys
reported-append [] ys = refl
reported-append (write_resp_apply_call i r ∷ xs) ys = ap (◌∷◌ i) (reported-append xs ys)
reported-append (write_resp_query_call a r ∷ xs) ys = reported-append xs ys

indices-append : (ts us : List WriteTask) → indices (ts ++ us) ≡ indices ts ++ indices us
indices-append [] us = refl
indices-append (t ∷ ts) us = ap (◌∷◌ t.index_to_apply) (indices-append ts us)

replay-append :
    (c : Codecs) (ts us : List WriteTask) (key : Bytes) (v : ℤ)
    → replay c (ts ++ us) key v ≡ replay c us key (replay c ts key v)
replay-append c [] us key v = refl
replay-append c (t ∷ ts) us key v = replay-append c ts us key _

Ran-refl : (c : Codecs) (w : Workers) → Ran c w w
Ran-refl c w = record {
  taken = [];
  queue = refl;
  values = λ key. refl;
  answers = sym (append-nil (reported w.posts));
}

Ran-trans : (c : Codecs) {u v w : Workers} → Ran c u v → Ran c v w → Ran c u w
Ran-trans c {u} {v} {w} p q = record {
  taken = p.taken ++ q.taken;
  queue = p.queue ∙ ap (◌++◌ p.taken) q.queue ∙ sym (append_assoc p.taken q.taken _);
  values = λ key.
      q.values key
      ∙ ap (replay c q.taken key) (p.values key)
      ∙ sym (replay-append c p.taken q.taken key _);
  answers =
      q.answers
      ∙ ap (λ xs. xs ++ indices q.taken) p.answers
      ∙ append_assoc (reported u.posts) (indices p.taken) (indices q.taken)
      ∙ ap (◌++◌ (reported u.posts)) (sym (indices-append p.taken q.taken));
}

end_access-Ran :
    (c : Codecs) (running : Option Access) (w : Workers)
    → w.running ≡ running
    → Ran c w (end_access c running w)
unfolding end_access write_task read_task EasyStateMachine.apply EasyStateMachine.get
end_access-Ran c none w e = Ran-refl c w
end_access-Ran c (some (writing t)) w e = record {
  taken = t ∷ [];
  queue = ap (λ r. under_way r ++ w.write_thread_pool.tasks) e;
  values = λ key. find_or-insert (pos 0) _ key _ w.state_machine;
  answers = reported-append w.posts _;
}
end_access-Ran c (some (reading t)) w e = record {
  taken = [];
  queue = ap (λ r. under_way r ++ w.write_thread_pool.tasks) e;
  values = λ key. find_or-touch (pos 0) _ key w.state_machine;
  answers = reported-append w.posts _;
}

-- The pending tasks, the map and the posts are as they were.
as_before-Ran :
    (c : Codecs) (w w' : Workers)
    → pending w ≡ pending w'
    → w'.state_machine ≡ w.state_machine
    → w'.posts ≡ w.posts
    → Ran c w w'
as_before-Ran c w w' queue same_map same_posts = record {
  taken = [];
  queue = queue;
  values = λ key. ap (find_or (pos 0) key) same_map;
  answers = ap reported same_posts ∙ sym (append-nil (reported w.posts));
}

pub List-cases :
    {A : Type 0} (xs : List A) → (xs ≡ []) ⊎ ((a : A) × (as' : List A) × (xs ≡ a ∷ as'))
List-cases [] = inl refl
List-cases (a ∷ as') = inr (a, as', refl)

-- The front task has begun, or its worker is still at the last one.
write_begun :
    (c : Codecs) (running : Option Access) (w w' : Workers) (t : WriteTask) (rest : List WriteTask)
    → w.running ≡ running
    → w.write_thread_pool.tasks ≡ t ∷ rest
    → turn c (begins write_pool) w ≡ ok w'
    → Ran c w w'
unfolding turn begin_access worker_turn is_writing
write_begun c none w w' t rest e found h =
    let same : w' ≡ record w {
      write_thread_pool = record w.write_thread_pool { tasks = rest };
      running = some (writing t);
    } =
      ground (arith, e, found, h) in
    subst (Ran c w) (sym same) (as_before-Ran c w _ (rw (e, found) refl) refl refl)
write_begun c (some (writing u)) w w' t rest e found h =
    let same : w' ≡ w = ground (arith, e, h) in subst (Ran c w) (sym same) (Ran-refl c w)
write_begun c (some (reading u)) w w' t rest e found h = ground (arith, e, found, h)

read_begun :
    (c : Codecs) (running : Option Access) (w w' : Workers) (t : ReadTask) (rest : List ReadTask)
    → w.running ≡ running
    → w.read_thread_pool.tasks ≡ t ∷ rest
    → turn c (begins read_pool) w ≡ ok w'
    → Ran c w w'
unfolding turn begin_access worker_turn
read_begun c none w w' t rest e found h =
    let same : w' ≡ record w {
      read_thread_pool = record w.read_thread_pool { tasks = rest };
      running = some (reading t);
    } =
      ground (arith, e, found, h) in
    subst (Ran c w) (sym same) (as_before-Ran c w _ (rw e refl) refl refl)
read_begun c (some other) w w' t rest e found h = ground (arith, e, found, h)

begin_read-Ran :
    (c : Codecs) (running : Option Access) (w w' : Workers)
    → w.running ≡ running
    → turn c (begins read_pool) w ≡ ok w'
    → Ran c w w'
unfolding turn begin_access worker_turn
begin_read-Ran c running w w' e h = elim (List-cases w.read_thread_pool.tasks) [
  | inl none_left ↦
      let same : w' ≡ w = ground (arith, none_left, h) in subst (Ran c w) (sym same) (Ran-refl c w)
  | inr (t, rest, found) ↦ read_begun c running w w' t rest e found h
]

begin_write-Ran :
    (c : Codecs) (running : Option Access) (w w' : Workers)
    → w.running ≡ running
    → turn c (begins write_pool) w ≡ ok w'
    → Ran c w w'
unfolding turn begin_access worker_turn is_writing
begin_write-Ran c running w w' e h = elim (List-cases w.write_thread_pool.tasks) [
  | inl none_left ↦
      let same : w' ≡ w = ground (arith, none_left, h) in subst (Ran c w) (sym same) (Ran-refl c w)
  | inr (t, rest, found) ↦ write_begun c running w w' t rest e found h
]

turn-Ran : (c : Codecs) (m : Moment) (w w' : Workers) → turn c m w ≡ ok w' → Ran c w w'
unfolding turn
turn-Ran c (begins write_pool) w w' h = begin_write-Ran c w.running w w' refl h
turn-Ran c (begins read_pool) w w' h = begin_read-Ran c w.running w w' refl h
turn-Ran c ends w w' h = subst (Ran c w) (ok-injective h) (end_access-Ran c w.running w refl)

turns-Ran :
    (c : Codecs) (moments : List Moment) (w w' : Workers) → turns c moments w ≡ ok w' → Ran c w w'
unfolding turns
turns-Ran c [] w w' h = subst (Ran c w) (ok-injective h) (Ran-refl c w)
turns-Ran c (m ∷ moments) w w' h =
    let (w₁, first, rest) = >>=-eq-ok (turn c m w) _ h in
    Ran-trans c (turn-Ran c m w w₁ first) (turns-Ran c moments w₁ w' rest)

-- However the accesses of the two pools' tasks begin and end, as long as no two overlap, which would
-- be undefined behaviour: the write tasks that have ended are the first of the queue, each key has
-- the value of the last of them for it, or else the one it had, and the answers posted are theirs,
-- in order. The tasks of the read pool change nothing of that.
pub turns-replay :
    (c : Codecs) (moments : List Moment) (w w' : Workers)
    → turns c moments w ≡ ok w'
    → (taken : List WriteTask) × (pending w ≡ taken ++ pending w')
      × ((key : Bytes)
          → find_or (pos 0) key w'.state_machine
            ≡ replay c taken key (find_or (pos 0) key w.state_machine))
      × (reported w'.posts ≡ reported w.posts ++ indices taken)
turns-replay c moments w w' h =
    let ran = turns-Ran c moments w w' h in (ran.taken, ran.queue, ran.values, ran.answers)
