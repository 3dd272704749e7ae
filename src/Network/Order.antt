-- ===== src/Network/Order.antt =====
-- The calls that `RPC::make_rpc_call` makes over one connection, as the other side reads them.
use my_raft.Prelude.{
  Bool, ℕ, ◌≤◌, ◌≡◌, ◌≢◌, refl, sym, ap, ◌∙◌, false, Bytes, List, [], ◌∷◌, ◌++◌, append_assoc,
  append-nil, length, some, arith, eqb, if◌then◌else◌,
}
use my_raft.Prelude.Assoc.{find}
use my_raft.Prelude.Outcome.{ok, ◌>>=◌, >>=-eq-ok, ok-injective}
use my_raft.Wire.{
  Addr, addr_eq, RpcType, append_entry, request_vote, resp_vote, resp_append, client_apply,
  client_query, resp_client_apply, resp_client_query, error, Codecs,
}
use my_raft.Rpc.{encoded_call, encoded_calls, read_all, is_digit}
use my_raft.Rpc.Stream.{Fits, read_all-encoded_calls}
use my_raft.Rpc.Texts.{rpc_to_str}
use my_raft.Network.{Network, deliver, make_rpc_call, send_on, Event, calls, step, run}

-- The bytes that were written to a connection.
unfoldable pub stream_of : ℕ → List (ℕ × Bytes) → Bytes
stream_of connection [] = []
stream_of connection ((i, msg) ∷ writes) =
    let rest = stream_of connection writes in if eqb i connection then msg ++ rest else rest

-- One call after another for one server.
abbrev pub calls_to : Addr → List (RpcType × Bytes) → List Event
calls_to server [] = []
calls_to server ((rpc_type, msg) ∷ msgs) = calls rpc_type server msg ∷ calls_to server msgs

rpc_to_str-known :
    (c : Codecs) (t : RpcType) (msg : Bytes)
    → t ≢ error
    → (str : Bytes) × (rpc_to_str c t msg ≡ ok str)
unfolding rpc_to_str
rpc_to_str-known c request_vote msg h = (_, refl)
rpc_to_str-known c append_entry msg h = (_, refl)
rpc_to_str-known c resp_vote msg h = (_, refl)
rpc_to_str-known c resp_append msg h = (_, refl)
rpc_to_str-known c client_apply msg h = (_, refl)
rpc_to_str-known c client_query msg h = (_, refl)
rpc_to_str-known c resp_client_apply msg h = (_, refl)
rpc_to_str-known c resp_client_query msg h = (_, refl)
rpc_to_str-known c error msg h = absurd (h refl)

stream_of-append :
    (connection : ℕ) (xs ys : List (ℕ × Bytes))
    → stream_of connection (xs ++ ys) ≡ stream_of connection xs ++ stream_of connection ys
unfolding stream_of
stream_of-append connection [] ys = refl
stream_of-append connection ((i, msg) ∷ xs) ys = ground (
  arith,
  stream_of-append connection xs ys,
  append_assoc msg (stream_of connection xs) (stream_of connection ys),
)

stream_of-one : (connection : ℕ) (msg : Bytes) → stream_of connection ((connection, msg) ∷ []) ≡ msg
unfolding stream_of
stream_of-one connection msg = ground (arith, append-nil msg)

-- One call, where there is a connection.
make_rpc_call-delivers :
    (c : Codecs) (is_address : Bytes → Bool) (t : RpcType) (server : Addr) (msg encoded : Bytes)
    (connection : ℕ) (net : Network)
    → t ≢ error
    → encoded_call t msg ≡ ok encoded
    → find server net.connection_map ≡ some connection
    → make_rpc_call c is_address t server msg net ≡ ok (deliver connection encoded net)
unfolding make_rpc_call send_on
make_rpc_call-delivers c is_address t server msg encoded connection net known e found =
    let (str, logged) = rpc_to_str-known c t msg known in ground (arith, logged, e, found)

run-calls_to :
    (c : Codecs) (is_address : Bytes → Bool) (server : Addr) (msgs : List (RpcType × Bytes))
    (stream : Bytes) (connection : ℕ) (net : Network)
    → Fits msgs
    → encoded_calls msgs ≡ ok stream
    → find server net.connection_map ≡ some connection
    → (net' : Network) × (run c is_address (calls_to server msgs) net ≡ ok net')
      × (stream_of connection net'.writes ≡ stream_of connection net.writes ++ stream)
unfolding run step encoded_calls deliver
run-calls_to c is_address server [] stream connection net fits e found = (
  net,
  refl,
  sym (append-nil (stream_of connection net.writes))
      ∙ ap (λ rest. stream_of connection net.writes ++ rest) (ok-injective e),
)
run-calls_to c is_address server ((t, msg) ∷ msgs) stream connection net (known, short, fits) e
      found =
    let (encoded, first, e₁) = >>=-eq-ok (encoded_call t msg) _ e in
    let (frames, others, end) = >>=-eq-ok (encoded_calls msgs) _ e₁ in
    let net₁ = deliver connection encoded net in
    let made =
      make_rpc_call-delivers c is_address t server msg encoded connection net known first found in
    let (net', rest, written) =
      run-calls_to c is_address server msgs frames connection net₁ fits others found in
    (
      net',
      ap (λ m. m >>= λ n. run c is_address (calls_to server msgs) n) made ∙ rest,
      written
          ∙ ap (λ s. s ++ frames)
              (stream_of-append connection net.writes ((connection, encoded) ∷ [])
                ∙ ap (λ s. stream_of connection net.writes ++ s) (stream_of-one connection encoded))
          ∙ append_assoc (stream_of connection net.writes) encoded frames
          ∙ ap (λ s. stream_of connection net.writes ++ s) (ok-injective end),
    )

-- Calls of known types to a server that the map leads to, whose messages are shorter than 5120
-- bytes, are made without a fault; and if each write takes its message whole while it is called,
-- what they write to the connection, behind what was written before, is read by the other side as
-- these calls, in their order, where each read ends before the next begins and what stands in
-- memory behind the one character of the type is no digit.
pub calls-arrive :
    (c : Codecs) (is_address : Bytes → Bool) (server : Addr) (msgs : List (RpcType × Bytes))
    (connection : ℕ) (net : Network) (behind_first fuel : ℕ) (behind : Bytes)
    → Fits msgs
    → find server net.connection_map ≡ some connection
    → is_digit behind_first ≡ false
    → length msgs ≤ fuel
    → (net' : Network) × (stream : Bytes) × (run c is_address (calls_to server msgs) net ≡ ok net')
      × (stream_of connection net'.writes ≡ stream_of connection net.writes ++ stream)
      × (read_all fuel (behind_first ∷ behind) stream ≡ ok msgs)
calls-arrive c is_address server msgs connection net behind_first fuel behind fits found ends
      enough =
    let (stream, e, got) = read_all-encoded_calls behind_first behind msgs fuel ends fits enough in
    let (net', made, written) =
      run-calls_to c is_address server msgs stream connection net fits e found in
    (net', stream, made, written, got)
