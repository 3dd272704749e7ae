-- ===== src/Client/Console.antt =====
-- client/client.cpp: what `run`, `apply_to_server` and `query_from_server` read from `std::cin`. A
-- variable that an extraction leaves unassigned is used afterwards, which is undefined behaviour.
pub mod Typed
pub mod Rounds
use my_raft.Prelude.{
  ℕ, zero, suc, ◌-◌, ◌^◌, Bool, true, false, not, ◌&&◌, ◌||◌, Bytes, List, [], ◌∷◌, eqb, leb, ltb,
  if◌then◌else◌,
}
use my_raft.Prelude.Int.{ℤ, pos, negsuc}
use my_raft.Prelude.Outcome.{Outcome, ok, fail, ◌>>=◌, undefined_behaviour}
use my_raft.Wire.{Addr, Codecs}
use my_raft.Rpc.{is_space, is_digit, scan, atoi}
use my_raft.Rpc.Texts.{text}
use my_raft.Client.{Client, new_client, Input, a, q, other, run_round}

-- The characters that are left, `eofbit` and `failbit`.
pub record Console : Type 0 where
  pub text : Bytes
  pub eof : Bool
  pub failed : Bool

abbrev pub is_good : Console → Bool
is_good cin = not cin.eof && not cin.failed

unfoldable pub skip_spaces : Bytes → Bytes
skip_spaces [] = []
skip_spaces (c ∷ text) = let rest = skip_spaces text in if is_space c then rest else c ∷ text

-- `cin >> c`
abbrev first_of : Bytes → Outcome (ℕ × Console)
first_of [] = fail undefined_behaviour
first_of (c ∷ text) = ok (c, record { text = text; eof = false; failed = false })

unfoldable pub read_char : Console → Outcome (ℕ × Console)
read_char cin = if is_good cin then first_of (skip_spaces cin.text) else fail undefined_behaviour

-- `cin.ignore()`, of a stream that is good.
unfoldable pub ignore : Console → Console
ignore cin = elim cin.text [
  | [] ↦ record cin { eof = true }
  | _ ∷ text ↦ record cin { text = text }
]

-- The line, what is left, and whether the text has ended before the line has.
unfoldable pub line_of : Bytes → Bytes × Bytes × Bool
line_of [] = ([], [], true)
line_of (c ∷ text) =
    let line = line_of text in if eqb c 10 then ([], text, false) else (c ∷ line.0, line.1, line.2)

abbrev pub is_empty : Bytes → Bool
is_empty [] = true
is_empty (_ ∷ _) = false

-- `getline(cin, key)` with an empty `key`; it fails where it takes no character.
unfoldable pub read_line : Console → Bytes × Console
read_line cin =
    if is_good cin
    then (let line = line_of cin.text in
        (line.0, record { text = line.1; eof = line.2; failed = is_empty cin.text }))
    else ([], record cin { failed = true })

-- The digits in front, and what is left.
unfoldable pub span_digits : Bytes → Bytes × Bytes
span_digits [] = ([], [])
span_digits (c ∷ text) =
    let digits = span_digits text in if is_digit c then (c ∷ digits.0, digits.1) else ([], c ∷ text)

abbrev pub negate : ℕ → ℤ
negate zero = pos 0
negate (suc n) = negsuc n

-- The value that is stored, and whether it is not the one that was read. `int` has 32 bits.
unfoldable pub int_of : Bool → ℕ → ℤ × Bool
int_of false n = if ltb n (2 ^ 31) then (pos n, false) else (pos (2 ^ 31 - 1), true)
int_of true n = if leb n (2 ^ 31) then (negate n, false) else (negsuc (2 ^ 31 - 1), true)

-- Without a digit the value is 0 and the stream fails.
abbrev number_of : Bool → Bytes × Bytes → ℤ × Console
number_of negative ([], rest) = (pos 0, record { text = rest; eof = is_empty rest; failed = true })
number_of negative (d ∷ digits, rest) =
    let v = int_of negative (scan 0 (d ∷ digits)) in
    (v.0, record { text = rest; eof = is_empty rest; failed = v.1 })

unfoldable pub signed : ℕ → Bytes → ℤ × Console
signed c text =
    if eqb c b'-'
    then number_of true (span_digits text)
    else if eqb c b'+'
    then number_of false (span_digits text)
    else number_of false (span_digits (c ∷ text))

-- `cin >> v`
abbrev int_after : Bytes → Outcome (ℤ × Console)
int_after [] = fail undefined_behaviour
int_after (c ∷ text) = ok (signed c text)

unfoldable pub read_int : Console → Outcome (ℤ × Console)
read_int cin = if is_good cin then int_after (skip_spaces cin.text) else fail undefined_behaviour

-- A round of `run` up to the call that it makes.
unfoldable pub read_input : Console → Outcome (Input × Console)
read_input cin = do
  letter ← read_char cin
  let cin₁ = ignore letter.1
  if eqb letter.0 b'a'
      then (do let key = read_line cin₁; v ← read_int key.1; ok (a key.0 v.0, v.1))
      else if eqb letter.0 b'q'
      then (let key = read_line cin₁ in ok (q key.0, key.1))
      else ok (other, cin₁)

-- The first rounds of `while (1)`.
unfoldable pub run_console : Codecs → ℕ → Console → Client → Outcome (Console × Client)
run_console c zero cin client = ok (cin, client)
run_console c (suc rounds) cin client = do
  read ← read_input cin
  run_console c rounds read.1 (run_round c read.0 client)

-- client/main.cpp, as far as so many rounds.
unfoldable pub main : Codecs → List Bytes → ℕ → Console → Outcome (Console × Client)
main c (_ ∷ port ∷ _) rounds cin =
    run_console c rounds cin (new_client (record { ip = text "127.0.0.1"; port = atoi port }))
main c _ rounds cin = fail undefined_behaviour
