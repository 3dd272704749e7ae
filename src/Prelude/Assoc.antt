-- ===== src/Prelude/Assoc.antt =====
-- `std::map` as an association list with one entry for a key. The code never depends on the order
-- in which it walks a map.
use mathlib.Core.Path.{◌≡◌, refl}
use mathlib.Core.Bool.{true}
use mathlib.Core.List.{List, [], ◌∷◌}
use mathlib.Core.Option.{Option, none, some}
use native.Mathlib.Omega.{arith}
use my_raft.Prelude.Tests.{if◌then◌else◌}
use my_raft.Prelude.Equality.{Eq, ◌==◌}

abbrev pub Map {ℓ κ} : Type ℓ → Type κ → Type (ℓ ⊔ κ)
Map K V = List (K × V)

module _ {ℓ κ} {K : Type ℓ} {V : Type κ} ⦃e : Eq K⦄ where
  -- `map.find(k)`
  unfoldable pub find : K → Map K V → Option V
  find k [] = none
  find k ((j, v) ∷ m) = if j == k then some v else find k m

  -- `map[k] = v`
  unfoldable pub insert : K → V → Map K V → Map K V
  insert k v [] = (k, v) ∷ []
  insert k v ((j, w) ∷ m) = if j == k then (j, v) ∷ m else (j, w) ∷ insert k v m

  -- The value that `map[k]` reads, `d` being that of a fresh entry.
  unfoldable pub find_or : V → K → Map K V → V
  find_or d k [] = d
  find_or d k ((j, v) ∷ m) = if j == k then v else find_or d k m

  -- What reading `map[k]` leaves behind: an entry for `k`.
  unfoldable pub touch : V → K → Map K V → Map K V
  touch d k [] = (k, d) ∷ []
  touch d k ((j, v) ∷ m) = if j == k then (j, v) ∷ m else (j, v) ∷ touch d k m

  -- `map.erase(k)`
  unfoldable pub erase : K → Map K V → Map K V
  erase k [] = []
  erase k ((j, v) ∷ m) = if j == k then m else (j, v) ∷ erase k m

  pub find_or-insert :
      (d : V) (k j : K) (v : V) (m : Map K V)
      → find_or d j (insert k v m) ≡ (if k == j then v else find_or d j m)
  unfolding find_or insert
  find_or-insert d k j v [] = refl
  find_or-insert d k j v ((i, w) ∷ m) =
      ground (arith, e.equal_iff i k, e.equal_iff i j, e.equal_iff k j, find_or-insert d k j v m)

  pub find-insert :
      (k j : K) (v : V) (m : Map K V)
      → find j (insert k v m) ≡ (if k == j then some v else find j m)
  unfolding find insert
  find-insert k j v [] = refl
  find-insert k j v ((i, w) ∷ m) =
      ground (arith, e.equal_iff i k, e.equal_iff i j, e.equal_iff k j, find-insert k j v m)

  pub find_or-touch : (d : V) (k j : K) (m : Map K V) → find_or d j (touch d k m) ≡ find_or d j m
  unfolding find_or touch
  find_or-touch d k j [] = ground arith
  find_or-touch d k j ((i, w) ∷ m) =
      ground (arith, e.equal_iff i k, e.equal_iff i j, find_or-touch d k j m)

pub ==_self {ℓ} : {K : Type ℓ} ⦃e : Eq K⦄ (k : K) → (k == k) ≡ true
==_self ⦃e⦄ k = (e.equal_iff k k).1 refl
