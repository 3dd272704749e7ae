-- ===== src/Util/Texts.antt =====
-- Texts of numbers, and what splitting makes of a text.
use my_raft.Prelude.{
  ℕ, zero, suc, ◌+◌, ◌/◌, ◌%◌, ◌≡◌, ◌≤◌, ◌<◌, ◌⊎◌, refl, inl, inr, false, Bool-cases, Bytes, [],
  ◌∷◌, ◌++◌, length, ltb, eqb, arith, if◌then◌else◌,
}
use my_raft.Prelude.Int.{ℤ, pos, negsuc, ◌-ℤ◌}
use my_raft.Rpc.{digits, scan, scan_signed, atoi}
use my_raft.Rpc.Frames.{atoi-digits, scan-digits}
use my_raft.Util.{to_string, split_str_boost}

-- `atoi` undoes `to_string`.
pub atoi-to_string : (i : ℤ) → atoi (to_string i) ≡ i
unfolding to_string atoi scan_signed scan ◌-ℤ◌
atoi-to_string (pos n) = atoi-digits n []
atoi-to_string (negsuc n) = ground (arith, scan-digits (suc n) (suc n) [])

-- No byte of the text is `c`.
abbrev pub Lacks : ℕ → Bytes → Type 0
Lacks c [] = Unit
Lacks c (d ∷ text) = (eqb d c ≡ false) × Lacks c text

pub Lacks-append : (c : ℕ) (xs ys : Bytes) → Lacks c xs → Lacks c ys → Lacks c (xs ++ ys)
Lacks-append c [] ys h k = k
Lacks-append c (x ∷ xs) ys h k = (h.0, Lacks-append c xs ys h.1 k)

-- Digits stand from 48 to 57.
Lacks-digits :
    (c fuel n : ℕ) (out : Bytes)
    → (c < 48) ⊎ (57 < c)
    → n ≤ fuel
    → Lacks c out
    → Lacks c (digits fuel n out)
unfolding digits
Lacks-digits c zero n out far h lacks = (ground arith, lacks)
Lacks-digits c (suc fuel) n out far h lacks = elim (Bool-cases (ltb n 10)) [
  | inl small ↦ ground (arith, small)
  | inr large ↦
      let last : eqb (48 + n % 10) c ≡ false = ground (arith, far) in
      ground (
        arith,
        large,
        Lacks-digits c fuel (n / 10) ((48 + n % 10) ∷ out) far (omega arith) (last, lacks),
      )
]

pub Lacks-to_string : (c : ℕ) (i : ℤ) → (c < 45) ⊎ (57 < c) → Lacks c (to_string i)
unfolding to_string
Lacks-to_string c (pos n) far = Lacks-digits c n n [] (ground arith) (omega arith) tt
Lacks-to_string c (negsuc n) far =
    (ground arith, Lacks-digits c (suc n) (suc n) [] (ground arith) (omega arith) tt)

-- A text without the delimiter is one part.
pub split-one : (str : Bytes) (delim : ℕ) → Lacks delim str → split_str_boost str delim ≡ str ∷ []
unfolding split_str_boost
split-one [] delim h = refl
split-one (c ∷ str) delim h = ground (arith, h.0, split-one str delim h.1)

pub split-append :
    (part str : Bytes) (delim : ℕ)
    → Lacks delim part
    → split_str_boost (part ++ delim ∷ str) delim ≡ part ∷ split_str_boost str delim
unfolding split_str_boost
split-append [] str delim h = ground arith
split-append (c ∷ part) str delim h = ground (arith, h.0, split-append part str delim h.1)

-- How often the byte stands in the text.
abbrev pub count_of : ℕ → Bytes → ℕ
count_of c [] = 0
count_of c (d ∷ text) = if eqb d c then suc (count_of c text) else count_of c text

pub length-split :
    (str : Bytes) (delim : ℕ) → length (split_str_boost str delim) ≡ suc (count_of delim str)
unfolding split_str_boost
length-split [] delim = refl
length-split (c ∷ str) delim = ground (arith, length-split str delim)
