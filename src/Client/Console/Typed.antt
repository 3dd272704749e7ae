-- ===== src/Client/Console/Typed.antt =====
-- What a user types, and what `run` makes of it.
use my_raft.Prelude.{
  ℕ, zero, suc, ◌+◌, ◌/◌, ◌%◌, ◌^◌, ◌≤◌, ◌<◌, ◌≡◌, refl, sym, ap, ◌∙◌, inl, inr, Bool-cases, true,
  false, Bool, Bytes, [], ◌∷◌, ◌++◌, append_assoc, ltb, arith,
}
use my_raft.Prelude.Int.{ℤ, pos, negsuc, ◌<ℤ◌}
use my_raft.Prelude.Outcome.{ok, ◌>>=◌}
use my_raft.Rpc.{digits, scan, is_digit, is_space}
use my_raft.Rpc.Frames.{digits_front, scan-digits}
use my_raft.Util.{to_string}
use my_raft.Util.Texts.{Lacks}
use my_raft.Client.{Input, a, q, other}
use my_raft.Client.Console.{
  Console, is_empty, skip_spaces, read_char, ignore, line_of, read_line, span_digits, int_of,
  number_of, signed, read_int, read_input,
}

-- A stream that is good.
abbrev pub console : Bytes → Console
console text = record { text = text; eof = false; failed = false }

-- The lines for an input; what is no `a` and no `q` is an `x`.
abbrev pub typed : Input → Bytes
typed (a key v) = b'a' ∷ 10 ∷ (key ++ 10 ∷ (to_string v ++ 10 ∷ []))
typed (q key) = b'q' ∷ 10 ∷ (key ++ 10 ∷ [])
typed other = b'x' ∷ 10 ∷ []

-- A key has one line, and a value fits an `int`.
abbrev pub IsTyped : Input → Type 0
IsTyped (a key v) = Lacks 10 key × (negsuc (2 ^ 31) <ℤ v) × (v <ℤ pos (2 ^ 31))
IsTyped (q key) = Lacks 10 key
IsTyped other = Unit

line_of-line : (key rest : Bytes) → Lacks 10 key → line_of (key ++ 10 ∷ rest) ≡ (key, rest, false)
unfolding line_of
line_of-line [] rest h = refl
line_of-line (c ∷ key) rest h = ground (arith, h.0, line_of-line key rest h.1)

-- All of the text are digits.
abbrev AllDigits : Bytes → Type 0
AllDigits [] = Unit
AllDigits (c ∷ text) = (is_digit c ≡ true) × AllDigits text

digits-AllDigits :
    (fuel n : ℕ) (out : Bytes) → n ≤ fuel → AllDigits out → AllDigits (digits fuel n out)
unfolding digits
digits-AllDigits zero n out h all = (ground arith, all)
digits-AllDigits (suc fuel) n out h all = elim (Bool-cases (ltb n 10)) [
  | inl small ↦ ground (arith, small)
  | inr large ↦
      let last : is_digit (48 + n % 10) ≡ true = ground arith in
      ground (
        arith,
        large,
        digits-AllDigits fuel (n / 10) ((48 + n % 10) ∷ out) (omega arith) (last, all),
      )
]

span_digits-AllDigits :
    (text rest : Bytes) → AllDigits text → span_digits (text ++ 10 ∷ rest) ≡ (text, 10 ∷ rest)
unfolding span_digits
span_digits-AllDigits [] rest all = refl
span_digits-AllDigits (c ∷ text) rest all =
    ground (arith, all.0, span_digits-AllDigits text rest all.1)

number_of-cons :
    (negative : Bool) (c : ℕ) (text rest : Bytes) (n : ℕ)
    → scan 0 (c ∷ text) ≡ n
    → number_of negative (c ∷ text, 10 ∷ rest) ≡ (
      (int_of negative n).0,
      record { text = 10 ∷ rest; eof = false; failed = (int_of negative n).1 },
    )
number_of-cons negative c text rest n h =
    ap
      (λ k. (
        (int_of negative k).0,
        record { text = 10 ∷ rest; eof = false; failed = (int_of negative k).1 },
      ))
      h

-- The digits of a number, behind a sign or alone.
number_of-digits :
    (negative : Bool) (n : ℕ) (rest : Bytes)
    → number_of negative (span_digits (digits n n [] ++ 10 ∷ rest)) ≡ (
      (int_of negative n).0,
      record { text = 10 ∷ rest; eof = false; failed = (int_of negative n).1 },
    )
unfolding scan
number_of-digits negative n rest =
    let (d, tail, below, front) = digits_front n n [] (omega arith) in
    let all =
      span_digits-AllDigits (digits n n []) rest (digits-AllDigits n n [] (omega arith) tt) in
    let value : scan 0 (digits n n []) ≡ n = scan-digits n n [] (omega arith) in
    ap (number_of negative) all
    ∙ ap (λ t. number_of negative (t, 10 ∷ rest)) front
    ∙ number_of-cons negative (48 + d) tail rest n (ap (scan 0) (sym front) ∙ value)

signed_minus : (text : Bytes) → signed b'-' text ≡ number_of true (span_digits text)
unfolding signed
signed_minus text = refl

-- A text that begins with a digit, and one that begins with a minus.
signed-digit :
    (d : ℕ) (text : Bytes)
    → d < 10
    → signed (48 + d) text ≡ number_of false (span_digits ((48 + d) ∷ text))
unfolding signed
signed-digit d text below = ground arith

pub read_int-front :
    (c : ℕ) (text : Bytes) → is_space c ≡ false → read_int (console (c ∷ text)) ≡ ok (signed c text)
unfolding read_int skip_spaces
read_int-front c text h = ground (arith, h)

read_int-to_string :
    (v : ℤ) (rest : Bytes)
    → negsuc (2 ^ 31) <ℤ v
    → v <ℤ pos (2 ^ 31)
    → read_int (console (to_string v ++ 10 ∷ rest)) ≡ ok (v, console (10 ∷ rest))
unfolding to_string int_of
read_int-to_string (pos n) rest low high =
    let (d, tail, below, front) = digits_front n n [] (omega arith) in
    let apart : is_space (48 + d) ≡ false = ground arith in
    let whole : digits n n [] ++ 10 ∷ rest ≡ (48 + d) ∷ (tail ++ 10 ∷ rest) =
      ap (λ t. t ++ 10 ∷ rest) front in
    ap (λ t. read_int (console t)) whole
    ∙ read_int-front (48 + d) (tail ++ 10 ∷ rest) apart
    ∙ ap ok (
        signed-digit d (tail ++ 10 ∷ rest) below
        ∙ ap (λ t. number_of false (span_digits t)) (sym whole)
        ∙ number_of-digits false n rest
        ∙ ground arith)
read_int-to_string (negsuc n) rest low high =
    let text = digits (suc n) (suc n) [] ++ 10 ∷ rest in
    read_int-front b'-' text refl
    ∙ ap ok (signed_minus text ∙ number_of-digits true (suc n) rest ∙ ground arith)

is_empty-line : (key rest : Bytes) → is_empty (key ++ 10 ∷ rest) ≡ false
is_empty-line [] rest = refl
is_empty-line (c ∷ key) rest = refl

pub read_line-line :
    (key rest : Bytes) → Lacks 10 key → read_line (console (key ++ 10 ∷ rest)) ≡ (key, console rest)
unfolding read_line
read_line-line key rest h = rw (line_of-line key rest h, is_empty-line key rest) refl

-- What an input leaves of its lines.
abbrev pub leftover : Input → Bytes
leftover (a key v) = 10 ∷ []
leftover _ = []

pub read_input-a :
    (text : Bytes)
    → read_input (console (b'a' ∷ 10 ∷ text))
      ≡ (let key = read_line (console text) in read_int key.1 >>= λ v. ok (a key.0 v.0, v.1))
unfolding read_input read_char skip_spaces ignore
read_input-a text = refl

pub read_input-typed :
    (i : Input) (rest : Bytes)
    → IsTyped i
    → read_input (console (typed i ++ rest)) ≡ ok (i, console (leftover i ++ rest))
unfolding read_input read_char skip_spaces ignore
read_input-typed (a key v) rest (one_line, low, high) =
    let behind : Bytes = to_string v ++ 10 ∷ rest in
    let whole : (key ++ 10 ∷ (to_string v ++ 10 ∷ [])) ++ rest ≡ key ++ 10 ∷ behind =
      append_assoc key (10 ∷ (to_string v ++ 10 ∷ [])) rest
      ∙ ap (λ t. key ++ 10 ∷ t) (append_assoc (to_string v) (10 ∷ []) rest) in
    ap (λ t. read_input (console (b'a' ∷ 10 ∷ t))) whole
    ∙ read_input-a (key ++ 10 ∷ behind)
    ∙ ap (λ (k : Bytes × Console). read_int k.1 >>= λ w. ok (a k.0 w.0, w.1))
        (read_line-line key behind one_line)
    ∙ ap (λ m. m >>= λ w. ok (a key w.0, w.1)) (read_int-to_string v rest low high)
read_input-typed (q key) rest one_line =
    ap (λ t. read_input (console (b'q' ∷ 10 ∷ t))) (append_assoc key (10 ∷ []) rest)
    ∙ ap (λ (k : Bytes × Console). ok (q k.0, k.1)) (read_line-line key rest one_line)
read_input-typed other rest h = refl

pub read_input_newline :
    (text : Bytes) → read_input (console (10 ∷ text)) ≡ read_input (console text)
unfolding read_input read_char skip_spaces
read_input_newline text = refl
