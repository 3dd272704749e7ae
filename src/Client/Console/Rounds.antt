-- ===== src/Client/Console/Rounds.antt =====
-- The rounds of `run` over what a user types.
use my_raft.Prelude.{
  ℕ, ◌≡◌, refl, ap, ◌∙◌, inl, inr, ◌⊎◌, true, false, Bytes, List, [], ◌∷◌, ◌++◌, length,
  append_assoc, eqb, arith,
}
use my_raft.Prelude.Int.{pos}
use my_raft.Prelude.Outcome.{Outcome, ok, fail, undefined_behaviour, ◌>>=◌}
use my_raft.Wire.{Codecs}
use my_raft.Rpc.{is_digit, is_space}
use my_raft.Util.Texts.{Lacks}
use my_raft.Client.{Client, Input, a, q, other, run_round, run, apply_to_server}
use my_raft.Client.Console.{
  Console, read_char, span_digits, signed, read_int, read_input, run_console,
}
use my_raft.Client.Console.Typed.{
  console, typed, IsTyped, leftover, read_line-line, read_int-front, read_input-a, read_input-typed,
  read_input_newline,
}

abbrev pub all_typed : List Input → Bytes
all_typed [] = []
all_typed (i ∷ is) = typed i ++ all_typed is

abbrev pub AllTyped : List Input → Type 0
AllTyped [] = Unit
AllTyped (i ∷ is) = IsTyped i × AllTyped is

-- The end of a line that a value leaves.
abbrev pub IsLeft : Bytes → Type 0
IsLeft left = (left ≡ []) ⊎ (left ≡ 10 ∷ [])

leftover-IsLeft : (i : Input) → IsLeft (leftover i)
leftover-IsLeft (a key v) = inr refl
leftover-IsLeft (q key) = inl refl
leftover-IsLeft other = inl refl

read_input-left :
    (left text : Bytes)
    → IsLeft left
    → read_input (console (left ++ text)) ≡ read_input (console text)
read_input-left left text (inl none_left) = ap (λ l. read_input (console (l ++ text))) none_left
read_input-left left text (inr newline) =
    ap (λ l. read_input (console (l ++ text))) newline ∙ read_input_newline text

run_console-IsLeft :
    (c : Codecs) (is : List Input) (left rest : Bytes) (client : Client)
    → IsLeft left
    → AllTyped is
    → (left' : Bytes) × IsLeft left'
      × (run_console c (length is) (console (left ++ (all_typed is ++ rest))) client
          ≡ ok (console (left' ++ rest), run c is client))
unfolding run_console run
run_console-IsLeft c [] left rest client h all = (left, h, refl)
run_console-IsLeft c (i ∷ is) left rest client h (first, others) =
    let behind : Bytes = all_typed is ++ rest in
    let (left', h', ran) =
      run_console-IsLeft c is (leftover i) rest (run_round c i client) (leftover-IsLeft i) others in
    let read : read_input (console (left ++ (all_typed (i ∷ is) ++ rest)))
        ≡ ok (i, console (leftover i ++ behind)) =
      ap (λ t. read_input (console (left ++ t))) (append_assoc (typed i) (all_typed is) rest)
      ∙ read_input-left left (typed i ++ behind) h
      ∙ read_input-typed i behind first in
    (
      left',
      h',
      ap
            (λ (m : Outcome (Input × Console)).
              m >>= λ r. run_console c (length is) r.1 (run_round c r.0 client))
            read
          ∙ ran,
    )

-- A user who types `a` or `q` and the lines that belong to it, keys of one line and values that fit an
-- `int`, any number of times: so many rounds of the client's loop end without a fault, make the calls
-- with these keys and values, and leave the stream good, at what is typed next, perhaps with the end
-- of the last line in front.
pub run_console-typed :
    (c : Codecs) (is : List Input) (rest : Bytes) (client : Client)
    → AllTyped is
    → (left : Bytes) × IsLeft left
      × (run_console c (length is) (console (all_typed is ++ rest)) client
          ≡ ok (console (left ++ rest), run c is client))
run_console-typed c is rest client all = run_console-IsLeft c is [] rest client (inl refl) all

-- What no number begins with.
abbrev pub IsNoNumber : ℕ → Type 0
IsNoNumber b =
    (is_digit b ≡ false) × (is_space b ≡ false) × (eqb b b'-' ≡ false) × (eqb b b'+' ≡ false)

signed-no_number :
    (b : ℕ) (rest : Bytes)
    → IsNoNumber b
    → signed b rest ≡ (pos 0, record { text = b ∷ rest; eof = false; failed = true })
unfolding signed span_digits
signed-no_number b rest (no_digit, no_space, no_minus, no_plus) =
    ground (arith, no_digit, no_minus, no_plus)

-- For the value of a key the user types what does not begin a number: the round sends the key with
-- the value 0, and the next round is undefined behaviour.
pub run_console-no_number :
    (c : Codecs) (key rest : Bytes) (b : ℕ) (client : Client)
    → Lacks 10 key
    → IsNoNumber b
    → (cin : Console) × (run_console c 1 (console (b'a' ∷ 10 ∷ (key ++ 10 ∷ b ∷ rest))) client
        ≡ ok (cin, apply_to_server c key (pos 0) client))
      × (run_console c 2 (console (b'a' ∷ 10 ∷ (key ++ 10 ∷ b ∷ rest))) client
          ≡ fail undefined_behaviour)
unfolding run_console run_round read_input read_char
run_console-no_number c key rest b client one_line no_number =
    let cin : Console = record { text = b ∷ rest; eof = false; failed = true } in
    let read : read_input (console (b'a' ∷ 10 ∷ (key ++ 10 ∷ b ∷ rest))) ≡ ok (a key (pos 0), cin) =
      read_input-a (key ++ 10 ∷ b ∷ rest)
      ∙ ap (λ (k : Bytes × Console). read_int k.1 >>= λ v. ok (a k.0 v.0, v.1))
          (read_line-line key (b ∷ rest) one_line)
      ∙ ap (λ m. m >>= λ v. ok (a key v.0, v.1))
          (read_int-front b rest no_number.1 ∙ ap ok (signed-no_number b rest no_number)) in
    (
      cin,
      ap
          (λ (m : Outcome (Input × Console)).
            m >>= λ r. run_console c 0 r.1 (run_round c r.0 client))
          read,
      ap
          (λ (m : Outcome (Input × Console)).
            m >>= λ r. run_console c 1 r.1 (run_round c r.0 client))
          read,
    )
