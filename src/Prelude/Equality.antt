-- ===== src/Prelude/Equality.antt =====
-- `operator==` as an interface, and its instances.
use Prim.Native.Nat.{ℕ}
use mathlib.Core.Path.{◌≡◌}
use mathlib.Core.Logic.{◌↔◌}
use mathlib.Core.Bool.{Bool, true, false, ◌&&◌}
use mathlib.Core.List.{List, [], ◌∷◌}
use native.Mathlib.Omega.{arith}
use my_raft.Prelude.Tests.{eqb, eqb_iff}

-- `equal` is the operator, `equal_iff` says that it decides equality.
pub record Eq {ℓ} (K : Type ℓ) : Type ℓ where
  pub equal : K → K → Bool
  pub equal_iff : (j k : K) → (equal j k ≡ true) ↔ (j ≡ k)

abbrev pub ◌==◌ {κ} : {K : Type κ} ⦃same : Eq K⦄ → K → K → Bool
◌==◌ ⦃same⦄ = same.equal

infix 50 ◌==◌
abbrev pub bytes_eqb : List ℕ → List ℕ → Bool
bytes_eqb [] [] = true
bytes_eqb (x ∷ xs) (y ∷ ys) = eqb x y && bytes_eqb xs ys
bytes_eqb _ _ = false

pub bytes_eqb_iff : (xs ys : List ℕ) → (bytes_eqb xs ys ≡ true) ↔ (xs ≡ ys)
bytes_eqb_iff [] [] = ground arith
bytes_eqb_iff [] (y ∷ ys) = ground arith
bytes_eqb_iff (x ∷ xs) [] = ground arith
bytes_eqb_iff (x ∷ xs) (y ∷ ys) = ground (arith, bytes_eqb_iff xs ys)

instance abbrev pub nat_eq : Eq ℕ
nat_eq = record { equal = eqb; equal_iff = eqb_iff }

instance abbrev pub bytes_eq : Eq (List ℕ)
bytes_eq = record { equal = bytes_eqb; equal_iff = bytes_eqb_iff }
