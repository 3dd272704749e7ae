-- ===== src/Rpc/Frames.antt =====
-- `sprintf("%4d", …)` and `atoi`: the header of a frame, written and read.
use my_raft.Prelude.{
  ℕ, zero, suc, ◌+◌, ◌-◌, ◌*◌, ◌/◌, ◌%◌, ◌≤◌, ◌<◌, ◌≡◌, refl, sym, ap, ◌∙◌, inl, inr, Bool-cases,
  Bytes, [], ◌∷◌, ◌++◌, length, take, drop, replicate, ltb, arith, length-append, length-replicate,
}
use my_raft.Prelude.Int.{pos}
use my_raft.Prelude.{drop-append, take-append}
use my_raft.Rpc.{digits, sprintf_4d, scan, scan_signed, atoi}

pub scan_digit :
    (n d : ℕ) (text : Bytes) → d < 10 → scan n ((48 + d) ∷ text) ≡ scan (n * 10 + d) text
unfolding scan
scan_digit n d text h = ground arith

pub scan-digits : (fuel n : ℕ) (out : Bytes) → n ≤ fuel → scan 0 (digits fuel n out) ≡ scan n out
unfolding digits
scan-digits zero n out h = scan_digit 0 n out (omega arith) ∙ ap (λ k. scan k out) (omega arith)
scan-digits (suc fuel) n out h = elim (Bool-cases (ltb n 10)) [
  | inl small ↦ ground (arith, small, scan_digit 0 n out (ground arith))
  | inr large ↦
      let last : n / 10 * 10 + n % 10 ≡ n = omega arith in
      ground (
        arith,
        large,
        scan-digits fuel (n / 10) ((48 + n % 10) ∷ out) (omega arith),
        scan_digit (n / 10) (n % 10) out (omega arith),
        ap (λ k. scan k out) last,
      )
]

abbrev ten_to : ℕ → ℕ
ten_to zero = 1
ten_to (suc k) = 10 * ten_to k

length-digits :
    (k fuel n : ℕ) (out : Bytes)
    → n < ten_to (suc k)
    → n ≤ fuel
    → length (digits fuel n out) ≤ suc k + length out
unfolding digits
length-digits k zero n out h e = ground arith
length-digits zero (suc fuel) n out h e = ground arith
length-digits (suc k) (suc fuel) n out h e =
    ground (arith, length-digits k fuel (n / 10) ((48 + n % 10) ∷ out))

atoi_spaces : (k : ℕ) (text : Bytes) → atoi (replicate k 32 ++ text) ≡ atoi text
unfolding atoi
atoi_spaces zero text = refl
atoi_spaces (suc k) text = atoi_spaces k text

pub atoi_digit :
    (d : ℕ) (text : Bytes) → d < 10 → atoi ((48 + d) ∷ text) ≡ pos (scan 0 ((48 + d) ∷ text))
unfolding atoi scan_signed
atoi_digit d text h = ground arith

-- Every number has a digit in front.
pub digits_front :
    (fuel n : ℕ) (out : Bytes)
    → n ≤ fuel
    → (d : ℕ) × (rest : Bytes) × (d < 10) × (digits fuel n out ≡ (48 + d) ∷ rest)
unfolding digits
digits_front zero n out h = (n, out, omega arith, refl)
digits_front (suc fuel) n out h = elim (Bool-cases (ltb n 10)) [
  | inl small ↦ (n, out, ground arith, ground (arith, small))
  | inr large ↦
      let (d, rest, below, e) = digits_front fuel (n / 10) ((48 + n % 10) ∷ out) (omega arith) in
      (d, rest, below, ground (arith, large, e))
]

pub atoi-digits : (n : ℕ) (out : Bytes) → atoi (digits n n out) ≡ pos (scan n out)
atoi-digits n out =
    let (d, rest, below, e) = digits_front n n out (omega arith) in
    ap atoi e
    ∙ atoi_digit d rest below
    ∙ ap (λ text. pos (scan 0 text)) (sym e)
    ∙ ap pos (scan-digits n n out (omega arith))

-- `%4d` is undone by `atoi`.
pub atoi-sprintf_4d : (n : ℕ) → atoi (sprintf_4d n) ≡ pos n
unfolding sprintf_4d scan
atoi-sprintf_4d n = atoi_spaces _ (digits n n []) ∙ atoi-digits n []

pub length-sprintf_4d : (n : ℕ) → n < 10000 → length (sprintf_4d n) ≡ 4
unfolding sprintf_4d
length-sprintf_4d n h =
    let short = length-digits 3 n n [] (omega arith) (omega arith) in
    length-append (replicate (4 - length (digits n n [])) 32) (digits n n [])
    ∙ ap (λ k. k + length (digits n n [])) (length-replicate (4 - length (digits n n [])) 32)
    ∙ omega arith

-- Four characters in front of the rest.
pub take_four : (header rest : Bytes) → length header ≡ 4 → take 4 (header ++ rest) ≡ header
take_four header rest e = ap (λ k. take k (header ++ rest)) (sym e) ∙ take-append header rest

pub drop_four : (header rest : Bytes) → length header ≡ 4 → drop 4 (header ++ rest) ≡ rest
drop_four header rest e = ap (λ k. drop k (header ++ rest)) (sym e) ∙ drop-append header rest
