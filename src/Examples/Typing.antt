-- ===== src/Examples/Typing.antt =====
-- A user who types two inputs, and one who types a word for a number.
use my_raft.Prelude.{◌≡◌, refl, ◌++◌, arith, Bytes, List, [], ◌∷◌, bytes_eq, length}
use my_raft.Prelude.Int.{pos, negsuc}
use my_raft.Prelude.Outcome.{ok, fail, undefined_behaviour}
use my_raft.Client.{Client, Input, a, q, new_client, run, apply_to_server}
use my_raft.Client.Console.{Console, run_console}
use my_raft.Client.Console.Typed.{console}
use my_raft.Client.Console.Rounds.{all_typed, IsLeft, run_console-typed, run_console-no_number}
use my_raft.Examples.Codecs.{codecs}
use my_raft.Examples.Servers.{addr}

abbrev client_of : Client
client_of = new_client (addr 1)

-- The key is "k", its value -12; then its value is asked for.
abbrev inputs : List Input
inputs = a (107 ∷ []) (negsuc 11) ∷ q (107 ∷ []) ∷ []

run_console-typed_example :
    (left : Bytes) × IsLeft left
    × (run_console codecs (length inputs) (console (all_typed inputs ++ 97 ∷ [])) client_of
        ≡ ok (console (left ++ 97 ∷ []), run codecs inputs client_of))
run_console-typed_example =
    run_console-typed codecs inputs (97 ∷ []) client_of
      (((refl, tt), omega arith, omega arith), ((refl, tt), tt))

run_console-no_number_example :
    (cin : Console) × (run_console codecs 1
        (console (97 ∷ 10 ∷ (107 ∷ 10 ∷ 122 ∷ 10 ∷ [])))
        client_of
      ≡ ok (cin, apply_to_server codecs (107 ∷ []) (pos 0) client_of))
    × (run_console codecs 2 (console (97 ∷ 10 ∷ (107 ∷ 10 ∷ 122 ∷ 10 ∷ []))) client_of
        ≡ fail undefined_behaviour)
run_console-no_number_example =
    run_console-no_number codecs (107 ∷ []) (10 ∷ []) 122 client_of (refl, tt)
      (refl, refl, refl, refl)
