-- ===== src/Rpc.antt =====
-- rpc/rpc.cpp and rpc/connection.cpp: how a message becomes a frame of the stream, and the stream
-- messages again. A frame is the length as a text of four characters, the digit of the message's
-- type, and the message. Each read of the socket is taken to end before the next one begins.
pub mod Frames
pub mod Stream
pub mod Texts
use my_raft.Prelude.{
  ℕ, zero, suc, ◌+◌, ◌-◌, ◌*◌, ◌/◌, ◌%◌, Bool, true, false, ◌||◌, ◌&&◌, Bytes, List, [], ◌∷◌, ◌++◌,
  length, take, drop, replicate, get_elem?, none, some, min, ltb, leb, eqb, if◌then◌else◌,
}
use my_raft.Prelude.Int.{ℤ, pos, negsuc, ◌-ℤ◌}
use my_raft.Prelude.Outcome.{Outcome, ok, fail, ◌>>=◌, unknown_rpc_type, undefined_behaviour}
use my_raft.Wire.{
  RpcType, append_entry, request_vote, resp_vote, resp_append, client_apply, client_query,
  resp_client_apply, resp_client_query, error,
}

-- The decimal digits of `n`, before `out`; the fuel is `n` itself, which every round divides by ten.
unfoldable pub digits : ℕ → ℕ → Bytes → Bytes
digits zero n out = (48 + n) ∷ out
digits (suc fuel) n out = elim (ltb n 10) [
  | true ↦ (48 + n) ∷ out
  | false ↦ digits fuel (n / 10) ((48 + n % 10) ∷ out)
]

-- `sprintf("%4d", n)`
unfoldable pub sprintf_4d : ℕ → Bytes
sprintf_4d n = let text = digits n n [] in replicate (4 - length text) 32 ++ text

abbrev pub is_digit : ℕ → Bool
is_digit c = leb 48 c && leb c 57

abbrev pub is_space : ℕ → Bool
is_space c = eqb c 32 || leb 9 c && leb c 13

-- The number that the digits in front make, behind those that `n` is made of.
unfoldable pub scan : ℕ → Bytes → ℕ
scan n [] = n
scan n (c ∷ text) = elim (is_digit c) [ true ↦ scan (n * 10 + (c - 48)) text | false ↦ n ]

unfoldable pub scan_signed : Bytes → ℤ
scan_signed [] = pos 0
scan_signed (c ∷ text) =
    if eqb c 45
    then pos 0 -ℤ pos (scan 0 text)
    else if eqb c 43
    then pos (scan 0 text)
    else pos (scan 0 (c ∷ text))

unfoldable pub atoi : Bytes → ℤ
atoi [] = pos 0
atoi (c ∷ text) = elim (is_space c) [ true ↦ atoi text | false ↦ scan_signed (c ∷ text) ]

-- The header has room for four characters and the zero behind them.
unfoldable pub msg_encode : Bytes → Outcome Bytes
msg_encode msg =
    let header = sprintf_4d (length msg) in
    if ltb 4 (length header) then fail undefined_behaviour else ok (take 4 header ++ msg)

abbrev pub type_code : RpcType → ℕ
type_code request_vote = 0
type_code append_entry = 1
type_code resp_vote = 2
type_code resp_append = 3
type_code client_apply = 4
type_code client_query = 5
type_code resp_client_apply = 6
type_code resp_client_query = 7
type_code error = 8

-- What `make_rpc_call` hands to the connection: `std::to_string` of the type goes before the message.
unfoldable pub encoded_call : RpcType → Bytes → Outcome Bytes
encoded_call rpc_type rpc_msg =
    msg_encode (digits (type_code rpc_type) (type_code rpc_type) [] ++ rpc_msg)

-- `data_` has 5120 bytes, and `boost::asio::buffer` takes no more of an array than it has; a negative
-- length is a large `size_t`.
unfoldable pub body_size : ℤ → ℕ
body_size (pos n) = min n 5120
body_size (negsuc n) = 5120

-- The types that `rpc_to_str` knows, in the order of the enumeration; its text is logged, and it
-- throws for any other.
abbrev pub known_types : List RpcType
known_types =
    request_vote ∷ append_entry ∷ resp_vote ∷ resp_append ∷ client_apply ∷ client_query
    ∷ resp_client_apply ∷ resp_client_query ∷ []

unfoldable pub rpc_type_of : ℤ → Outcome RpcType
rpc_type_of (pos n) = elim (get_elem? known_types n) [
  | none ↦ fail unknown_rpc_type
  | some rpc_type ↦ ok rpc_type
]
rpc_type_of (negsuc n) = fail unknown_rpc_type

-- `char_rpc_type` has room for one character alone: `atoi` reads on into what stands `behind` it.
-- Of a message of no bytes, `string(data + 1, 0 - 1)` reads far beyond the buffer.
unfoldable pub process_msg : Bytes → Bytes → Outcome (RpcType × Bytes)
process_msg behind [] = fail undefined_behaviour
process_msg behind (c ∷ msg) = do rpc_type ← rpc_type_of (atoi (c ∷ behind)); ok (rpc_type, msg)

-- `read_header`, `read_body` and `body_callback` on what the stream holds: they wait for more bytes,
-- or pass on a message and leave the rest.
pub data Read : Type 0 where
  waits : Read
  reads : RpcType × Bytes → Bytes → Read

unfoldable pub read_body : Bytes → ℕ → Bytes → Outcome Read
read_body behind msg_len stream =
    if ltb (length stream) msg_len
    then ok waits
    else do msg ← process_msg behind (take msg_len stream); ok (reads msg (drop msg_len stream))

unfoldable pub read_header : Bytes → Bytes → Outcome Read
read_header behind stream =
    if ltb (length stream) 4
    then ok waits
    else read_body behind (body_size (atoi (take 4 stream))) (drop 4 stream)

-- The messages of a stream, in the order in which the callback gets them, as if each read ended before
-- the next begins, though `read_body` starts the read of the next header with that of the body. Every one takes four bytes
-- or more, so that the length of the stream is enough fuel.
unfoldable pub read_all : ℕ → Bytes → Bytes → Outcome (List (RpcType × Bytes))
read_all zero behind stream = ok []
read_all (suc fuel) behind stream = read_header behind stream >>= λ r. elim r [
  | waits ↦ ok []
  | reads msg rest ↦ do msgs ← read_all fuel behind rest; ok (msg ∷ msgs)
]

-- The frames of some calls, one behind the other.
unfoldable pub encoded_calls : List (RpcType × Bytes) → Outcome Bytes
encoded_calls [] = ok []
encoded_calls ((rpc_type, msg) ∷ calls) = do
  frame ← encoded_call rpc_type msg
  frames ← encoded_calls calls
  ok (frame ++ frames)
