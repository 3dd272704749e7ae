-- ===== src/Server/Config.antt =====
-- RaftServer.cpp: `load_config_from_file`. A file is its bytes; one that cannot be opened is `none`.
pub mod Lines
pub mod Written
use my_raft.Prelude.{
  ℕ, zero, suc, Bool, true, false, Bytes, List, [], ◌∷◌, length, Option, none, some, eqb,
  if◌then◌else◌,
}
use my_raft.Prelude.Outcome.{Outcome, ok, fail, ◌>>=◌, config_unreadable, config_line}
use my_raft.Wire.{Addr}
use my_raft.Rpc.{atoi}
use my_raft.Util.{split_str_boost}

-- `in.getline(str, 255)`: the characters stored, those left in the stream, and whether the call has
-- set `failbit` since there was no more room. `room` is that of the characters before the zero.
unfoldable pub getline : ℕ → Bytes → Bytes × Bytes × Bool
getline room [] = ([], [], false)
getline zero (c ∷ text) = if eqb c 10 then ([], text, false) else ([], c ∷ text, true)
getline (suc room) (c ∷ text) =
    let line = getline room text in
    if eqb c 10 then ([], text, false) else (c ∷ line.0, line.1, line.2)

-- `string(str)`: up to the first zero.
unfoldable pub c_str : Bytes → Bytes
c_str [] = []
c_str (c ∷ text) = let rest = c_str text in if eqb c 0 then [] else c ∷ rest

abbrev pub server_of : List Bytes → Outcome Addr
server_of (ip ∷ port ∷ []) = ok (record { ip = ip; port = atoi port })
server_of _ = fail config_line

unfoldable pub read_config_line : Bytes → Outcome Addr
read_config_line str = server_of (split_str_boost str b':')

-- One round: the line, whether the stream has failed, and what the next rounds bring.
unfoldable pub read_round : Bytes → Bool → Outcome (List Addr) → Outcome (List Addr)
read_round [] failed later = ok []
read_round (c ∷ str) failed later = do
  server ← read_config_line (c ∷ str)
  servers ← (if failed then ok [] else later)
  ok (server ∷ servers)

-- `while (in)`, with as fuel a bound on its rounds: each takes a byte or more, or is the last.
unfoldable pub read_config_lines : ℕ → Bytes → Outcome (List Addr)
read_config_lines zero text = ok []
read_config_lines (suc fuel) text =
    let line = getline 254 text in read_round (c_str line.0) line.2 (read_config_lines fuel line.1)

unfoldable pub load_config_from_file : Option Bytes → Outcome (List Addr)
load_config_from_file none = fail config_unreadable
load_config_from_file (some text) = read_config_lines (length text) text
