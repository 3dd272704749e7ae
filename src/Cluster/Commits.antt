-- ===== src/Cluster/Commits.antt =====
-- The values that `primary_update_commit_index` chooses from.
use my_raft.Prelude.{
  ℕ, zero, suc, ◌-◌, ◌≤◌, ◌≡◌, sym, ap, List, [], ◌∷◌, map, length, get_elem?, some, none_ne_some,
  arith, ltb,
}
use my_raft.Prelude.Int.{ℤ, pos, ◌<ℤ◌, ◌≤ℤ◌}
use my_raft.Prelude.Assoc.{Map, insert, touch, find_or}
use my_raft.Prelude.Outcome.{ok, ok-injective, >>=-eq-ok, else-eq-ok, undefined_behaviour}
use my_raft.Wire.{Addr, addr_eq}
use my_raft.Server.State.{Server}
use my_raft.Entry.{at}
use my_raft.StateMachine.Controler.{update_commit_index_and_apply}
use my_raft.Server.Commit.{
  log_temp_sort, apply_to_state_machine, insert_desc, sort_desc, temp_sort,
  primary_update_commit_index,
}
use my_raft.Server.Commit.Quorum.{primary_update-rank, length-map}

abbrev pub AllBelow : ℕ → List ℤ → Type 0
AllBelow n [] = Unit
AllBelow n (x ∷ xs) = (x <ℤ pos n) × AllBelow n xs

pub AllBelow-mono : (m n : ℕ) (xs : List ℤ) → m ≤ n → AllBelow m xs → AllBelow n xs
AllBelow-mono m n [] h a = tt
AllBelow-mono m n (x ∷ xs) h a = (omega arith, AllBelow-mono m n xs h a.1)

AllBelow-insert_desc :
    (n : ℕ) (x : ℤ) (xs : List ℤ) → x <ℤ pos n → AllBelow n xs → AllBelow n (insert_desc x xs)
unfolding insert_desc
AllBelow-insert_desc n x [] h a = (h, tt)
AllBelow-insert_desc n x (y ∷ ys) h a = ground (arith, AllBelow-insert_desc n x ys h a.1)

AllBelow-sort_desc : (n : ℕ) (xs : List ℤ) → AllBelow n xs → AllBelow n (sort_desc xs)
unfolding sort_desc
AllBelow-sort_desc n [] a = tt
AllBelow-sort_desc n (x ∷ xs) a =
    AllBelow-insert_desc n x (sort_desc xs) a.0 (AllBelow-sort_desc n xs a.1)

AllBelow-get_elem? :
    (n : ℕ) (xs : List ℤ) (i : ℕ) (v : ℤ) → AllBelow n xs → get_elem? xs i ≡ some v → v <ℤ pos n
AllBelow-get_elem? n [] i v a h = absurd (none_ne_some h)
AllBelow-get_elem? n (x ∷ xs) zero v a h = ground arith
AllBelow-get_elem? n (x ∷ xs) (suc i) v a h = AllBelow-get_elem? n xs i v a.1 h

abbrev pub saved_values : Map Addr ℤ → List ℤ
saved_values m = map (λ ele. ele.1) m

pub AllBelow-insert :
    (n : ℕ) (a : Addr) (v : ℤ) (m : Map Addr ℤ)
    → v <ℤ pos n
    → AllBelow n (saved_values m)
    → AllBelow n (saved_values (insert a v m))
unfolding insert
AllBelow-insert n a v [] h below = (h, tt)
AllBelow-insert n a v ((b, w) ∷ m) h below = ground (arith, AllBelow-insert n a v m h below.1)

pub length-insert : (a : Addr) (v : ℤ) (m : Map Addr ℤ) → length m ≤ length (insert a v m)
unfolding insert
length-insert a v [] = omega arith
length-insert a v ((b, w) ∷ m) = ground (arith, length-insert a v m)

temp_sort_short : (n : ℕ) (saved sorted : List ℤ) → temp_sort n saved ≡ ok sorted → length saved ≤ n
unfolding temp_sort
temp_sort_short n saved sorted h =
    let (short, _) = else-eq-ok (ltb n (length saved)) _ undefined_behaviour h in ground arith

-- The vector that is sorted has room for all values.
primary_update_short :
    (server : Addr) (index : ℤ) (s s' : Server)
    → primary_update_commit_index server index s ≡ ok s'
    → length (insert server index s.follower_saved_index) ≤ length s.configuration
unfolding primary_update_commit_index
primary_update_short server index s s' h =
    let saved = insert server index s.follower_saved_index in
    let (sorted, e, _) = >>=-eq-ok (temp_sort _ _) _ h in
    let short = temp_sort_short (length s.configuration) (saved_values saved) sorted e in
    omega (arith, length-map (λ (ele : Addr × ℤ). ele.1) saved)

-- The commit index is one of the values, or the new one, if there is a value for each server.
pub primary_update-below :
    (server : Addr) (index : ℤ) (s s' : Server) (n : ℕ)
    → length s.configuration ≤ length s.follower_saved_index
    → index <ℤ pos n
    → AllBelow n (saved_values s.follower_saved_index)
    → primary_update_commit_index server index s ≡ ok s'
    → (s'.follower_saved_index ≡ insert server index s.follower_saved_index)
      × (s'.commit_index <ℤ pos n)
primary_update-below server index s s' n known new old h =
    let saved = insert server index s.follower_saved_index in
    let full : length saved ≡ length s.configuration = omega (
      arith,
      primary_update_short server index s s' h,
      length-insert server index s.follower_saved_index,
    ) in
    let (kept, rank) = primary_update-rank server index s s' full h in
    let below = AllBelow-insert n server index s.follower_saved_index new old in
    (
      kept,
      AllBelow-get_elem? n (sort_desc (saved_values saved)) (s.majority - 1) s'.commit_index
          (AllBelow-sort_desc n (saved_values saved) below) rank,
    )

-- Each value lies between 0 and `n`.
abbrev pub AllWithin : ℕ → List ℤ → Type 0
AllWithin n [] = Unit
AllWithin n (x ∷ xs) = (pos 0 ≤ℤ x) × (x ≤ℤ pos n) × AllWithin n xs

pub AllWithin-mono : (m n : ℕ) (xs : List ℤ) → m ≤ n → AllWithin m xs → AllWithin n xs
AllWithin-mono m n [] h a = tt
AllWithin-mono m n (x ∷ xs) h (low, high, a) = (low, omega arith, AllWithin-mono m n xs h a)

pub AllWithin-insert :
    (n : ℕ) (a : Addr) (v : ℤ) (m : Map Addr ℤ)
    → pos 0 ≤ℤ v
    → v ≤ℤ pos n
    → AllWithin n (saved_values m)
    → AllWithin n (saved_values (insert a v m))
unfolding insert
AllWithin-insert n a v [] low high within = (low, high, tt)
AllWithin-insert n a v ((b, w) ∷ m) low high (low', high', within) =
    ground (arith, AllWithin-insert n a v m low high within)

pub AllWithin-touch :
    (n : ℕ) (a : Addr) (m : Map Addr ℤ)
    → AllWithin n (saved_values m)
    → AllWithin n (saved_values (touch (pos 0) a m))
unfolding touch
AllWithin-touch n a [] within = (omega arith, omega arith, tt)
AllWithin-touch n a ((b, w) ∷ m) (low, high, within) = ground (arith, AllWithin-touch n a m within)

pub AllWithin-find_or :
    (n : ℕ) (a : Addr) (m : Map Addr ℤ)
    → AllWithin n (saved_values m)
    → (pos 0 ≤ℤ find_or (pos 0) a m) × (find_or (pos 0) a m ≤ℤ pos n)
unfolding find_or
AllWithin-find_or n a [] within = (omega arith, omega arith)
AllWithin-find_or n a ((b, w) ∷ m) (low, high, within) =
    ground (arith, AllWithin-find_or n a m within)

pub primary_update-calls :
    (server : Addr) (index : ℤ) (s s' : Server)
    → primary_update_commit_index server index s ≡ ok s'
    → (s'.calls ≡ s.calls) × (s'.next_index ≡ s.next_index)
unfolding primary_update_commit_index apply_to_state_machine
primary_update-calls server index s s' h =
    let (sorted, _, h₁) = >>=-eq-ok (temp_sort _ _) _ h in
    let (shown, _, h₂) = >>=-eq-ok (log_temp_sort sorted) _ h₁ in
    let (found, _, h₃) = >>=-eq-ok (at shown (s.majority - 1)) _ h₂ in
    let (smc, _, h₄) = >>=-eq-ok (update_commit_index_and_apply _ _ _) _ h₃ in
    let end = sym (ok-injective h₄) in
    (ap (λ (t : Server). t.calls) end, ap (λ (t : Server). t.next_index) end)
