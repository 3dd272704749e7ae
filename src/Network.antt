-- ===== src/Network.antt =====
-- rpc/rpc.cpp and rpc/connection.cpp: the connections of a process, and the calls that go over them.
-- A connection is a number; the sockets' answers are events.
pub mod Routing
pub mod Order
use my_raft.Prelude.{
  ℕ, zero, suc, Bool, true, false, Bytes, List, [], ◌∷◌, ◌++◌, length, get_elem?, Option, none,
  some, if◌then◌else◌,
}
use my_raft.Prelude.Int.{pos}
use my_raft.Prelude.Assoc.{Map, find, insert, erase}
use my_raft.Prelude.Outcome.{Outcome, ok, fail, ◌>>=◌, body_read_error, bad_address}
use my_raft.Wire.{Addr, addr_eq, RpcType, Codecs}
use my_raft.Rpc.{encoded_call}
use my_raft.Rpc.Texts.{rpc_to_str}

pub record Network : Type 0 where
  -- `remote_peer_` of each connection that was made
  pub remote_peers : List Addr
  pub connection_map : Map Addr ℕ
  -- `async_connect`, begun and not ended, each with the message that its handler holds
  pub connecting : List (ℕ × Bytes)
  -- `async_write`, in the order of the calls
  pub writes : List (ℕ × Bytes)

abbrev pub new_network : Network
new_network = record { remote_peers = []; connection_map = []; connecting = []; writes = [] }

-- `connection::deliver`, as if `async_write` took the whole message while it is called.
unfoldable pub deliver : ℕ → Bytes → Network → Network
deliver connection msg net = record net { writes = net.writes ++ (connection, msg) ∷ [] }

-- `make_shared<connection>`, with its number.
unfoldable pub new_connection : Addr → Network → ℕ × Network
new_connection remote net =
    (length net.remote_peers, record net { remote_peers = net.remote_peers ++ remote ∷ [] })

unfoldable pub insert_connection : Addr → ℕ → Network → Network
insert_connection remote connection net = record net {
  connection_map = insert remote connection net.connection_map;
}

unfoldable pub remove : Addr → Network → Network
remove remote net = record net { connection_map = erase remote net.connection_map }

-- `connection::connect`, up to `async_connect`. The parameter stands for boost's
-- `address::from_string`, and says which texts it reads; for any other it throws.
unfoldable pub connect : (Bytes → Bool) → ℕ → Addr → Bytes → Network → Outcome Network
connect is_address connection remote msg net =
    if is_address remote.ip
    then ok (record net { connecting = net.connecting ++ (connection, msg) ∷ [] })
    else fail bad_address

-- On the connection that `get` has found; a message for a server without one waits for a new one.
unfoldable pub send_on : (Bytes → Bool) → Option ℕ → Addr → Bytes → Network → Outcome Network
send_on is_address none server encoded_msg net =
    let made = new_connection server net in connect is_address made.0 server encoded_msg made.1
send_on is_address (some connection) server encoded_msg net =
    ok (deliver connection encoded_msg net)

unfoldable pub make_rpc_call :
    Codecs → (Bytes → Bool) → RpcType → Addr → Bytes → Network → Outcome Network
make_rpc_call c is_address rpc_type server rpc_msg net = do
  logged ← rpc_to_str c rpc_type rpc_msg
  encoded_msg ← encoded_call rpc_type rpc_msg
  send_on is_address (find server net.connection_map) server encoded_msg net

abbrev pub without {ℓ} : {A : Type ℓ} → ℕ → List A → List A
without i [] = []
without zero (x ∷ xs) = xs
without (suc i) (x ∷ xs) = x ∷ without i xs

-- The handler of `async_connect`: what fails is not tried again.
unfoldable pub connected : Option Addr → ℕ → Bytes → Bool → Network → Network
connected (some remote) connection msg false net =
    deliver connection msg (insert_connection remote connection net)
connected _ connection msg error net = net

unfoldable pub connect_at : Option (ℕ × Bytes) → ℕ → Bool → Network → Network
connect_at none place error net = net
connect_at (some (connection, msg)) place error net =
    connected (get_elem? net.remote_peers connection) connection msg error
      (record net { connecting = without place net.connecting })

-- Where the endpoint of an accepted socket cannot be read, the constructor leaves an empty
-- `remote_peer_`.
abbrev pub remote_of : Option Addr → Addr
remote_of none = record { ip = []; port = pos 0 }
remote_of (some remote) = remote

-- `connection::start`
unfoldable pub accepted : Option Addr → Network → Network
accepted peer net =
    let made = new_connection (remote_of peer) net in
    insert_connection (remote_of peer) made.0 made.1

-- What a connection does when a read of a header, or a write, has failed.
unfoldable pub failed : Option Addr → Network → Network
failed none net = net
failed (some remote) net = remove remote net

pub data Event : Type 0 where
  calls : RpcType → Addr → Bytes → Event
  -- the connect that was begun at this place, and whether there was an error
  connect_ended : ℕ → Bool → Event
  accept_failed : Event
  accept_ended : Option Addr → Event
  header_failed : ℕ → Event
  body_failed : ℕ → Event
  write_ended : ℕ → Bool → Event

unfoldable pub step : Codecs → (Bytes → Bool) → Event → Network → Outcome Network
step c is_address (calls rpc_type server msg) net =
    make_rpc_call c is_address rpc_type server msg net
step c is_address (connect_ended place error) net =
    ok (connect_at (get_elem? net.connecting place) place error net)
step c is_address accept_failed net = ok net
step c is_address (accept_ended peer) net = ok (accepted peer net)
step c is_address (header_failed connection) net =
    ok (failed (get_elem? net.remote_peers connection) net)
step c is_address (body_failed connection) net = fail body_read_error
step c is_address (write_ended connection true) net =
    ok (failed (get_elem? net.remote_peers connection) net)
step c is_address (write_ended connection false) net = ok net

unfoldable pub run : Codecs → (Bytes → Bool) → List Event → Network → Outcome Network
run c is_address [] net = ok net
run c is_address (e ∷ es) net = do net₁ ← step c is_address e net; run c is_address es net₁
