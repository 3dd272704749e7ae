-- ===== src/Rpc/Stream.antt =====
-- rpc/rpc.cpp against rpc/connection.cpp: what the reader makes of the frames of some calls.
use my_raft.Prelude.{
  ℕ, zero, suc, ◌+◌, ◌≤◌, ◌<◌, ◌≡◌, ◌≢◌, refl, ap, ◌∙◌, false, Bytes, List, [], ◌∷◌, ◌++◌, length,
  take, ltb, arith, length-append, take-all, take-append, drop-append, append_assoc,
}
use my_raft.Prelude.Int.{pos}
use my_raft.Prelude.Outcome.{ok, ◌>>=◌}
use my_raft.Wire.{
  RpcType, append_entry, request_vote, resp_vote, resp_append, client_apply, client_query,
  resp_client_apply, resp_client_query, error,
}
use my_raft.Rpc.{
  digits, sprintf_4d, is_digit, scan, atoi, msg_encode, type_code, rpc_type_of, body_size,
  encoded_call, process_msg, reads, read_header, read_body, read_all, encoded_calls,
}
use my_raft.Rpc.Frames.{
  atoi-sprintf_4d, length-sprintf_4d, take_four, drop_four, atoi_digit, scan_digit,
}

type_text : (t : RpcType) → digits (type_code t) (type_code t) [] ≡ (48 + type_code t) ∷ []
unfolding digits
type_text request_vote = refl
type_text append_entry = refl
type_text resp_vote = refl
type_text resp_append = refl
type_text client_apply = refl
type_text client_query = refl
type_text resp_client_apply = refl
type_text resp_client_query = refl
type_text error = refl

type_found : (t : RpcType) → t ≢ error → rpc_type_of (pos (type_code t)) ≡ ok t
unfolding rpc_type_of
type_found request_vote h = refl
type_found append_entry h = refl
type_found resp_vote h = refl
type_found resp_append h = refl
type_found client_apply h = refl
type_found client_query h = refl
type_found resp_client_apply h = refl
type_found resp_client_query h = refl
type_found error h = absurd (h refl)

type_code_below : (t : RpcType) → type_code t < 10
type_code_below t = ground arith

-- The frame of a call.
abbrev frame : RpcType → Bytes → Bytes
frame t msg = sprintf_4d (suc (length msg)) ++ (48 + type_code t) ∷ msg

encoded_call-frame :
    (t : RpcType) (msg : Bytes) → length msg < 9999 → encoded_call t msg ≡ ok (frame t msg)
unfolding encoded_call msg_encode
encoded_call-frame t msg h =
    let four = length-sprintf_4d (suc (length msg)) (omega arith) in
    let all = take-all 4 (sprintf_4d (suc (length msg))) (omega arith) in
    ground (arith, type_text t, four, all)

-- The byte behind the type's buffer ends the number.
process_msg-type :
    (c : ℕ) (behind : Bytes) (t : RpcType) (msg : Bytes)
    → is_digit c ≡ false
    → t ≢ error
    → process_msg (c ∷ behind) ((48 + type_code t) ∷ msg) ≡ ok (t, msg)
unfolding process_msg scan
process_msg-type c behind t msg ends known =
    let number = atoi_digit (type_code t) (c ∷ behind) (type_code_below t) in
    let digit = scan_digit 0 (type_code t) (c ∷ behind) (type_code_below t) in
    let read : scan 0 ((48 + type_code t) ∷ c ∷ behind) ≡ type_code t =
      ground (arith, digit, ends) in
    ap (λ i. rpc_type_of i >>= λ rpc_type. ok (rpc_type, msg)) (number ∙ ap pos read)
    ∙ ap (λ found. found >>= λ rpc_type. ok (rpc_type, msg)) (type_found t known)

read_body-whole :
    (c : ℕ) (behind body rest : Bytes) (msg : RpcType × Bytes)
    → process_msg (c ∷ behind) body ≡ ok msg
    → read_body (c ∷ behind) (length body) (body ++ rest) ≡ ok (reads msg rest)
unfolding read_body
read_body-whole c behind body rest msg h =
    let enough : ltb (length (body ++ rest)) (length body) ≡ false =
      ground (arith, length-append body rest) in
    ground (arith, enough, take-append body rest, drop-append body rest, h)

-- A frame in front of a stream is read, and no more.
read_header-frame :
    (c : ℕ) (behind : Bytes) (t : RpcType) (msg rest : Bytes)
    → is_digit c ≡ false
    → t ≢ error
    → length msg < 5120
    → read_header (c ∷ behind) (frame t msg ++ rest) ≡ ok (reads (t, msg) rest)
unfolding read_header body_size
read_header-frame c behind t msg rest ends known short =
    let header = sprintf_4d (suc (length msg)) in
    let body = (48 + type_code t) ∷ msg in
    let four = length-sprintf_4d (suc (length msg)) (omega arith) in
    let split = append_assoc header body rest in
    let long : ltb (length (header ++ (body ++ rest))) 4 ≡ false =
      ground (arith, length-append header (body ++ rest), four) in
    let size : body_size (atoi (take 4 (header ++ (body ++ rest)))) ≡ length body =
      ap (λ h. body_size (atoi h)) (take_four header (body ++ rest) four)
      ∙ ap body_size (atoi-sprintf_4d (suc (length msg)))
      ∙ omega arith in
    let whole =
      read_body-whole c behind body rest (t, msg) (process_msg-type c behind t msg ends known) in
    ap (read_header (c ∷ behind)) split
    ∙ ground (arith, long, size, drop_four header (body ++ rest) four, whole)

-- The calls that a server makes, with messages that fit into the reader's buffer.
abbrev pub Fits : List (RpcType × Bytes) → Type 0
Fits [] = Unit
Fits ((t, msg) ∷ calls) = (t ≢ error) × (length msg < 5120) × Fits calls

-- Calls of known types whose messages are shorter than 5120 bytes are framed without fault, and the
-- frames, one behind the other, are read as these calls in order, if each read ends before the next
-- begins, and if what stands in memory behind the one character of the type, where the code reads
-- past its array, is no digit.
pub read_all-encoded_calls :
    (c : ℕ) (behind : Bytes) (calls : List (RpcType × Bytes)) (fuel : ℕ)
    → is_digit c ≡ false
    → Fits calls
    → length calls ≤ fuel
    → (stream : Bytes) × (encoded_calls calls ≡ ok stream)
      × (read_all fuel (c ∷ behind) stream ≡ ok calls)
unfolding read_all encoded_calls read_header
read_all-encoded_calls c behind [] zero ends fits enough = ([], refl, refl)
read_all-encoded_calls c behind [] (suc fuel) ends fits enough = ([], refl, refl)
read_all-encoded_calls c behind (call ∷ calls) zero ends fits enough = absurd (omega arith)
read_all-encoded_calls c behind ((t, msg) ∷ calls) (suc fuel) ends (known, short, fits) enough =
    let (stream, written, got) =
      read_all-encoded_calls c behind calls fuel ends fits (omega arith) in
    let first = encoded_call-frame t msg (omega arith) in
    let read = read_header-frame c behind t msg stream ends known short in
    (frame t msg ++ stream, ground (arith, first, written), ground (arith, read, got))

-- A call of a known type whose message goes on behind its first 5119 bytes, and is shorter than
-- 9999 bytes, is framed without fault; the reader takes the first 5119 bytes for the message, and
-- the others for the next frame, if what stands in memory behind the one character of the type is
-- no digit.
pub read_header-cut :
    (c : ℕ) (behind : Bytes) (t : RpcType) (head tail rest : Bytes)
    → is_digit c ≡ false
    → t ≢ error
    → length head ≡ 5119
    → length tail < 4880
    → (stream : Bytes) × (encoded_call t (head ++ tail) ≡ ok stream)
      × (read_header (c ∷ behind) (stream ++ rest) ≡ ok (reads (t, head) (tail ++ rest)))
unfolding read_header body_size
read_header-cut c behind t head tail rest ends known full short =
    let header = sprintf_4d (suc (length (head ++ tail))) in
    let body = (48 + type_code t) ∷ head in
    let total = length-append head tail in
    let four = length-sprintf_4d (suc (length (head ++ tail))) (omega arith) in
    let split =
      append_assoc header (body ++ tail) rest ∙ ap (◌++◌ header) (append_assoc body tail rest) in
    let after = body ++ (tail ++ rest) in
    let long : ltb (length (header ++ after)) 4 ≡ false =
      ground (arith, length-append header after, four) in
    let size : body_size (atoi (take 4 (header ++ after))) ≡ length body =
      ap (λ h. body_size (atoi h)) (take_four header after four)
      ∙ ap body_size (atoi-sprintf_4d (suc (length (head ++ tail))))
      ∙ omega arith in
    let whole =
      read_body-whole c behind body (tail ++ rest) (t, head)
        (process_msg-type c behind t head ends known) in
    (
      frame t (head ++ tail),
      encoded_call-frame t (head ++ tail) (omega arith),
      ap (read_header (c ∷ behind)) split
          ∙ ground (arith, long, size, drop_four header after four, whole),
    )
