-- ===== src/Server/Commit/Quorum.antt =====
-- `primary_update_commit_index`: the place of the commit index among the values that are sorted.
use my_raft.Prelude.{
  append-nil, none_ne_some, ℕ, zero, suc, ◌+◌, ◌-◌, ◌≤◌, ◌<◌, ◌≡◌, refl, sym, ap, subst, ◌∙◌, Bool,
  List, [], ◌∷◌, ◌++◌, map, length, replicate, get_elem?, some, arith, ltb, if◌then◌else◌,
}
use my_raft.Prelude.Int.{ℤ, pos, ◌≤ℤ◌, leb_ℤ, ltb_ℤ}
use my_raft.Prelude.Assoc.{insert}
use my_raft.Prelude.Outcome.{ok, >>=-eq-ok, ok-injective, else-eq-ok, undefined_behaviour}
use my_raft.Wire.{Addr, addr_eq}
use my_raft.Entry.{at}
use my_raft.StateMachine.Controler.{update_commit_index_and_apply}
use my_raft.Server.State.{Server}
use my_raft.Server.Commit.{
  insert_desc, sort_desc, temp_sort, log_temp_sort, primary_update_commit_index,
  apply_to_state_machine,
}

pub length-map : {A B : Type 0} (f : A → B) (xs : List A) → length (map f xs) ≡ length xs
length-map f [] = refl
length-map f (x ∷ xs) = ap suc (length-map f xs)

-- How many of the values pass a test.
abbrev pub count : (ℤ → Bool) → List ℤ → ℕ
count p [] = 0
count p (x ∷ xs) = (if p x then 1 else 0) + count p xs

-- Each value is at least those behind it.
abbrev AllAtMost : ℤ → List ℤ → Type 0
AllAtMost x [] = Unit
AllAtMost x (y ∷ ys) = (y ≤ℤ x) × AllAtMost x ys

abbrev IsDescending : List ℤ → Type 0
IsDescending [] = Unit
IsDescending (x ∷ xs) = AllAtMost x xs × IsDescending xs

count-insert_desc :
    (p : ℤ → Bool) (x : ℤ) (xs : List ℤ)
    → count p (insert_desc x xs) ≡ (if p x then 1 else 0) + count p xs
unfolding insert_desc
count-insert_desc p x [] = refl
count-insert_desc p x (y ∷ ys) = ground (arith, count-insert_desc p x ys)

count-sort_desc : (p : ℤ → Bool) (xs : List ℤ) → count p (sort_desc xs) ≡ count p xs
unfolding sort_desc
count-sort_desc p [] = refl
count-sort_desc p (x ∷ xs) =
    omega (arith, count-insert_desc p x (sort_desc xs), count-sort_desc p xs)

AllAtMost-mono : (x y : ℤ) (xs : List ℤ) → x ≤ℤ y → AllAtMost x xs → AllAtMost y xs
AllAtMost-mono x y [] h a = tt
AllAtMost-mono x y (z ∷ xs) h a = (omega arith, AllAtMost-mono x y xs h a.1)

AllAtMost-insert_desc :
    (x y : ℤ) (xs : List ℤ) → y ≤ℤ x → AllAtMost x xs → AllAtMost x (insert_desc y xs)
unfolding insert_desc
AllAtMost-insert_desc x y [] h a = (h, tt)
AllAtMost-insert_desc x y (z ∷ xs) h a = ground (arith, AllAtMost-insert_desc x y xs h a.1)

insert_desc-IsDescending : (x : ℤ) (xs : List ℤ) → IsDescending xs → IsDescending (insert_desc x xs)
unfolding insert_desc
insert_desc-IsDescending x [] d = (tt, tt)
insert_desc-IsDescending x (y ∷ ys) d =
    ground (
      arith,
      AllAtMost-mono y x ys,
      AllAtMost-insert_desc y x ys,
      insert_desc-IsDescending x ys d.1,
    )

sort_desc-IsDescending : (xs : List ℤ) → IsDescending (sort_desc xs)
unfolding sort_desc
sort_desc-IsDescending [] = tt
sort_desc-IsDescending (x ∷ xs) =
    insert_desc-IsDescending x (sort_desc xs) (sort_desc-IsDescending xs)

-- None of the values at most `x` is above `x`.
count_above_none : (x v : ℤ) (xs : List ℤ) → x ≤ℤ v → AllAtMost x xs → count (λ y. ltb_ℤ v y) xs ≡ 0
count_above_none x v [] h a = refl
count_above_none x v (y ∷ ys) h a = ground (arith, count_above_none x v ys h a.1)

AllAtMost-get_elem? :
    (x v : ℤ) (xs : List ℤ) (i : ℕ) → AllAtMost x xs → get_elem? xs i ≡ some v → v ≤ℤ x
AllAtMost-get_elem? x v [] i a h = absurd (none_ne_some h)
AllAtMost-get_elem? x v (y ∷ ys) zero a h = ground arith
AllAtMost-get_elem? x v (y ∷ ys) (suc i) a h = AllAtMost-get_elem? x v ys i a.1 h

-- In a descending list, the value at `i` has `i` or more others that are not below it, and at most
-- `i` above it.
rank_at_least :
    (xs : List ℤ) (i : ℕ) (v : ℤ)
    → IsDescending xs
    → get_elem? xs i ≡ some v
    → suc i ≤ count (λ y. leb_ℤ v y) xs
rank_at_least [] i v d h = ground arith
rank_at_least (x ∷ xs) zero v d h = ground arith
rank_at_least (x ∷ xs) (suc i) v d h =
    ground (arith, rank_at_least xs i v d.1 h, AllAtMost-get_elem? x v xs i d.0 h)

rank_at_most :
    (xs : List ℤ) (i : ℕ) (v : ℤ)
    → IsDescending xs
    → get_elem? xs i ≡ some v
    → count (λ y. ltb_ℤ v y) xs ≤ i
rank_at_most [] i v d h = ground arith
rank_at_most (x ∷ xs) zero v d h = ground (arith, count_above_none x v xs (ground arith) d.0)
rank_at_most (x ∷ xs) (suc i) v d h = ground (arith, rank_at_most xs i v d.1 h)

at-get_elem? : {A : Type 0} (xs : List A) (i : ℕ) {a : A} → at xs i ≡ ok a → get_elem? xs i ≡ some a
at-get_elem? xs i h = ground (arith, h)

-- The vector of a primary that knows a value for every configured server.
temp_sort-full :
    (n : ℕ) (saved sorted : List ℤ)
    → length saved ≡ n
    → temp_sort n saved ≡ ok sorted
    → sorted ≡ sort_desc saved
unfolding temp_sort
temp_sort-full n saved sorted e h =
    let none_left : n - length saved ≡ 0 = omega arith in
    let zeros : replicate (n - length saved) (pos 0) ≡ [] =
      ap (λ k. replicate k (pos 0)) none_left in
    sym (ok-injective ((else-eq-ok (ltb n (length saved)) _ undefined_behaviour h).1))
    ∙ ap (λ zs. sort_desc (saved ++ zs)) zeros
    ∙ ap sort_desc (append-nil saved)

-- The commit index, and where it comes from.
pub primary_update-rank :
    (server : Addr) (index : ℤ) (s s' : Server)
    → length (insert server index s.follower_saved_index) ≡ length s.configuration
    → primary_update_commit_index server index s ≡ ok s'
    → (s'.follower_saved_index ≡ insert server index s.follower_saved_index)
      × (get_elem?
            (sort_desc (map (λ ele. ele.1) (insert server index s.follower_saved_index)))
            (s.majority - 1)
          ≡ some s'.commit_index)
unfolding primary_update_commit_index log_temp_sort apply_to_state_machine
primary_update-rank server index s s' full h =
    let saved = insert server index s.follower_saved_index in
    let (sorted, e₁, h₁) = >>=-eq-ok (temp_sort _ _) _ h in
    let (shown, e₂, h₂) = >>=-eq-ok (log_temp_sort sorted) _ h₁ in
    let (found, e₃, h₃) = >>=-eq-ok (at shown (s.majority - 1)) _ h₂ in
    let (smc, e₄, h₄) = >>=-eq-ok (update_commit_index_and_apply _ _ _) _ h₃ in
    let same = ok-injective h₄ in
    let all =
      temp_sort-full (length s.configuration) (map (λ ele. ele.1) saved) sorted
        (length-map (λ ele. ele.1) saved ∙ full) e₁ in
    let kept = ok-injective ((else-eq-ok (ltb (length sorted) 3) _ undefined_behaviour e₂).1) in
    (
      ap (λ t. t.follower_saved_index) (sym same),
      ap (λ xs. get_elem? xs (s.majority - 1)) (sym all ∙ kept)
          ∙ at-get_elem? shown (s.majority - 1) e₃
          ∙ ap (λ t. some t.commit_index) same,
    )

-- Where the primary's `Follower_saved_index` has a value for every configured server, and the
-- majority is at least 1: a majority of these values are not below the commit index that a call of
-- `primary_update_commit_index` leaves, and fewer than a majority are above it. The values are what
-- the primary has noted, which can lag behind what the servers store.
pub primary_update-Majority :
    (server : Addr) (index : ℤ) (s s' : Server)
    → length (insert server index s.follower_saved_index) ≡ length s.configuration
    → 1 ≤ s.majority
    → primary_update_commit_index server index s ≡ ok s'
    → (s.majority
        ≤ count (λ y. leb_ℤ s'.commit_index y) (map (λ ele. ele.1) s'.follower_saved_index))
      × (count (λ y. ltb_ℤ s'.commit_index y) (map (λ ele. ele.1) s'.follower_saved_index)
          < s.majority)
primary_update-Majority server index s s' full positive h =
    let (saved, rank) = primary_update-rank server index s s' full h in
    let values = map (λ ele. ele.1) (insert server index s.follower_saved_index) in
    let down = sort_desc-IsDescending values in
    let enough = rank_at_least (sort_desc values) (s.majority - 1) s'.commit_index down rank in
    let few = rank_at_most (sort_desc values) (s.majority - 1) s'.commit_index down rank in
    let ups = count-sort_desc (λ y. leb_ℤ s'.commit_index y) values in
    let downs = count-sort_desc (λ y. ltb_ℤ s'.commit_index y) values in
    subst
      (λ m.
        (s.majority ≤ count (λ y. leb_ℤ s'.commit_index y) (map (λ ele. ele.1) m))
        × (count (λ y. ltb_ℤ s'.commit_index y) (map (λ ele. ele.1) m) < s.majority))
      (sym saved) (omega arith, omega arith)
