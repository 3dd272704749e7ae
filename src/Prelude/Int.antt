-- ===== src/Prelude/Int.antt =====
-- Signed integers over the native numbers, and the conversions between `int` and `unsigned int`.
-- An `int` of the code is an integer here: its overflow is undefined behaviour in C++ and the
-- model has none of it.
use Prim.Native.Nat.{ℕ, suc, ◌+◌, ◌-◌, ◌^◌, ◌≤◌, ◌<◌}
use mathlib.Core.Path.{◌≡◌}
use mathlib.Core.Logic.{◌↔◌}
use mathlib.Core.Bool.{Bool, true}
use native.Mathlib.Omega.{arith}
use my_raft.Prelude.Tests.{ltb, leb, eqb, if◌then◌else◌}
use my_raft.Prelude.Equality.{Eq}

-- `negsuc n` is -(n + 1).
pub data ℤ : Type 0 where
  pos : ℕ → ℤ
  negsuc : ℕ → ℤ

abbrev pub pos_part : ℤ → ℕ
pos_part (pos n) = n
pos_part (negsuc n) = 0

abbrev pub neg_part : ℤ → ℕ
neg_part (pos n) = 0
neg_part (negsuc n) = suc n

-- a - b, as an integer.
abbrev pub sub_ℕ : ℕ → ℕ → ℤ
sub_ℕ a b = if leb b a then pos (a - b) else negsuc (b - a - 1)

infixl 65 ◌+ℤ◌ ◌-ℤ◌
infix 50 ◌≤ℤ◌ ◌<ℤ◌
unfoldable pub ◌+ℤ◌ : ℤ → ℤ → ℤ
a +ℤ b = sub_ℕ (pos_part a + pos_part b) (neg_part a + neg_part b)

unfoldable pub ◌-ℤ◌ : ℤ → ℤ → ℤ
a -ℤ b = sub_ℕ (pos_part a + neg_part b) (neg_part a + pos_part b)

abbrev pub ◌≤ℤ◌ : ℤ → ℤ → Type 0
a ≤ℤ b = pos_part a + neg_part b ≤ pos_part b + neg_part a

abbrev pub ◌<ℤ◌ : ℤ → ℤ → Type 0
a <ℤ b = pos_part a + neg_part b < pos_part b + neg_part a

abbrev pub ltb_ℤ : ℤ → ℤ → Bool
ltb_ℤ a b = ltb (pos_part a + neg_part b) (pos_part b + neg_part a)

abbrev pub leb_ℤ : ℤ → ℤ → Bool
leb_ℤ a b = leb (pos_part a + neg_part b) (pos_part b + neg_part a)

abbrev pub eqb_ℤ : ℤ → ℤ → Bool
eqb_ℤ a b = eqb (pos_part a + neg_part b) (pos_part b + neg_part a)

pub +ℤ_parts :
    (a b : ℤ)
    → pos_part (a +ℤ b) + neg_part a + neg_part b ≡ neg_part (a +ℤ b) + pos_part a + pos_part b
unfolding ◌+ℤ◌
+ℤ_parts a b = ground arith

pub -ℤ_parts :
    (a b : ℤ)
    → pos_part (a -ℤ b) + neg_part a + pos_part b ≡ neg_part (a -ℤ b) + pos_part a + neg_part b
unfolding ◌-ℤ◌
-ℤ_parts a b = ground arith

pub eq_of_parts : (a b : ℤ) → pos_part a + neg_part b ≡ pos_part b + neg_part a → a ≡ b
eq_of_parts a b h = ground arith

pub ruleset int_laws = (arith, +ℤ_parts, -ℤ_parts, eq_of_parts)

pub eqb_ℤ_iff : (a b : ℤ) → (eqb_ℤ a b ≡ true) ↔ (a ≡ b)
eqb_ℤ_iff a b = ground arith

instance abbrev pub int_eq : Eq ℤ
int_eq = record { equal = eqb_ℤ; equal_iff = eqb_ℤ_iff }

abbrev pub minus_one : ℤ
minus_one = negsuc 0

-- `unsigned int` to `int`: the same bit pattern.
abbrev pub to_int : ℕ → ℤ
to_int n = if ltb n (2 ^ 31) then pos n else negsuc (2 ^ 32 - n - 1)

-- `int` to `unsigned int`; a value that is not negative stays.
abbrev pub to_unsigned : ℤ → ℕ
to_unsigned (pos n) = n
to_unsigned (negsuc n) = 2 ^ 32 - 1 - n

pub pos-add : (a b : ℕ) → pos a +ℤ pos b ≡ pos (a + b)
pos-add a b = omega int_laws

pub pos-sub : (a b : ℕ) → b ≤ a → pos a -ℤ pos b ≡ pos (a - b)
pos-sub a b h = omega int_laws

-- An offset below 2 ^ 31 is the same number as an `int`.
pub to_int-small : (n : ℕ) → n < 2 ^ 31 → to_int n ≡ pos n
to_int-small n h = ground arith

pub minus_one-add_one : minus_one +ℤ pos 1 ≡ pos 0
minus_one-add_one = omega int_laws

pub pred_of_pos_suc : (i : ℤ) (k : ℕ) → i +ℤ pos 1 ≡ pos (suc k) → i ≡ pos k
unfolding ◌+ℤ◌
pred_of_pos_suc i k h = ground arith

pub pred_of_zero : (i : ℤ) → i +ℤ pos 1 ≡ pos 0 → i ≡ minus_one
unfolding ◌+ℤ◌
pred_of_zero i h = ground arith

pub pos-injective : {a b : ℕ} → pos a ≡ pos b → a ≡ b
pos-injective h = cc

pub sub-add : (a b : ℤ) → a -ℤ b +ℤ b ≡ a
sub-add a b = omega int_laws

pub pos_suc-sub_one : (k : ℕ) → pos (suc k) -ℤ pos 1 ≡ pos k
pos_suc-sub_one k = omega int_laws

-- The number before a number, in parts.
pub next-parts : (i : ℤ) (n : ℕ) → i +ℤ pos 1 ≡ pos n → pos_part i + 1 ≡ n + neg_part i
unfolding ◌+ℤ◌
next-parts i n h = ground arith

-- Where a number's successor is none of the negatives, neither is that of a greater one.
pub next_of_le :
    (i j : ℤ) (n : ℕ) → i +ℤ pos 1 ≡ pos n → i ≤ℤ j → j +ℤ pos 1 ≡ pos (pos_part (j +ℤ pos 1))
unfolding ◌+ℤ◌
next_of_le i j n h le = ground (arith, next-parts i n h)
