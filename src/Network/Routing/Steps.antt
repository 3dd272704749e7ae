-- ===== src/Network/Routing/Steps.antt =====
-- Where the messages of `RPC::make_rpc_call` go, over any events of the sockets.
use my_raft.Prelude.{
  ℕ, ◌≡◌, refl, subst, Bool, true, false, Bytes, List, [], ◌∷◌, ◌++◌, length, get_elem?,
  get_elem?-append_last, Option, none, some,
}
use my_raft.Prelude.Assoc.{find}
use my_raft.Prelude.Outcome.{then-eq-ok, ok, fail_ne_ok, >>=-eq-ok, ok-injective}
use my_raft.Wire.{Addr, addr_eq, Codecs}
use my_raft.Rpc.{encoded_call}
use my_raft.Rpc.Texts.{rpc_to_str}
use my_raft.Network.{
  Network, connect, deliver, new_connection, insert_connection, remove, make_rpc_call, without,
  send_on, connected, connect_at, remote_of, accepted, failed, Event, calls, connect_ended,
  accept_failed, accept_ended, header_failed, body_failed, write_ended, step, run,
}
use my_raft.Network.Routing.{
  IsFor, AllFor, AllFor-more, AllFor-last, AllFor-without, AllFor-get_elem?, LeadsTo, LeadsTo-more,
  LeadsTo-insert, LeadsTo-erase, LeadsTo-find,
}

-- The map leads where it says, and what is sent, or waits for a connection, is meant for the server
-- at the other end.
pub record Routed (P : Addr → Bytes → Type 0) (net : Network) : Type 0 where
  pub leads : LeadsTo net.remote_peers net.connection_map
  pub waiting : AllFor P net.remote_peers net.connecting
  pub written : AllFor P net.remote_peers net.writes

new_connection-Routed :
    (P : Addr → Bytes → Type 0) (remote : Addr) (net : Network)
    → Routed P net
    → Routed P (new_connection remote net).1
unfolding new_connection
new_connection-Routed P remote net h = record {
  leads = LeadsTo-more net.remote_peers remote net.connection_map h.leads;
  waiting = AllFor-more P net.remote_peers remote net.connecting h.waiting;
  written = AllFor-more P net.remote_peers remote net.writes h.written;
}

insert_connection-Routed :
    (P : Addr → Bytes → Type 0) (remote : Addr) (connection : ℕ) (net : Network)
    → get_elem? net.remote_peers connection ≡ some remote
    → Routed P net
    → Routed P (insert_connection remote connection net)
unfolding insert_connection
insert_connection-Routed P remote connection net leads h = record {
  leads = LeadsTo-insert net.remote_peers remote connection net.connection_map leads h.leads;
  waiting = h.waiting;
  written = h.written;
}

deliver-Routed :
    (P : Addr → Bytes → Type 0) (connection : ℕ) (msg : Bytes) (net : Network)
    → IsFor P net.remote_peers (connection, msg)
    → Routed P net
    → Routed P (deliver connection msg net)
unfolding deliver
deliver-Routed P connection msg net meant h = record {
  leads = h.leads;
  waiting = h.waiting;
  written = AllFor-last P net.remote_peers net.writes (connection, msg) h.written meant;
}

send_on-Routed :
    (P : Addr → Bytes → Type 0) (is_address : Bytes → Bool) (found : Option ℕ) (server : Addr)
    (msg : Bytes) (net net' : Network)
    → find server net.connection_map ≡ found
    → P server msg
    → send_on is_address found server msg net ≡ ok net'
    → Routed P net
    → Routed P net'
unfolding send_on connect new_connection
send_on-Routed P is_address none server msg net net' found meant made h =
    let more = new_connection-Routed P server net h in
    let (_, begun) = then-eq-ok (is_address server.ip) _ _ made in
    subst (Routed P) (ok-injective begun) (record {
      leads = more.leads;
      waiting =
          AllFor-last P (net.remote_peers ++ server ∷ []) net.connecting
            (length net.remote_peers, msg) more.waiting
            (server, get_elem?-append_last net.remote_peers server, meant);
      written = more.written;
    })
send_on-Routed P is_address (some connection) server msg net net' found meant made h =
    subst (Routed P) (ok-injective made) (
      deliver-Routed P connection msg net
        (server, LeadsTo-find net.remote_peers server net.connection_map h.leads found, meant) h)

connected-Routed :
    (P : Addr → Bytes → Type 0) (remote : Option Addr) (connection : ℕ) (msg : Bytes) (error : Bool)
    (net : Network)
    → get_elem? net.remote_peers connection ≡ remote
    → IsFor P net.remote_peers (connection, msg)
    → Routed P net
    → Routed P (connected remote connection msg error net)
unfolding connected insert_connection
connected-Routed P none connection msg error net found meant h = h
connected-Routed P (some remote) connection msg true net found meant h = h
connected-Routed P (some remote) connection msg false net found meant h =
    deliver-Routed P connection msg (insert_connection remote connection net) meant
      (insert_connection-Routed P remote connection net found h)

connect_at-Routed :
    (P : Addr → Bytes → Type 0) (pending : Option (ℕ × Bytes)) (place : ℕ) (error : Bool)
    (net : Network)
    → get_elem? net.connecting place ≡ pending
    → Routed P net
    → Routed P (connect_at pending place error net)
unfolding connect_at
connect_at-Routed P none place error net found h = h
connect_at-Routed P (some (connection, msg)) place error net found h =
    connected-Routed P (get_elem? net.remote_peers connection) connection msg error
      (record net { connecting = without place net.connecting }) refl
      (AllFor-get_elem? P net.remote_peers place net.connecting h.waiting found)
      (record {
        leads = h.leads;
        waiting = AllFor-without P net.remote_peers place net.connecting h.waiting;
        written = h.written;
      })

accepted-Routed :
    (P : Addr → Bytes → Type 0) (peer : Option Addr) (net : Network)
    → Routed P net
    → Routed P (accepted peer net)
unfolding accepted new_connection
accepted-Routed P peer net h =
    insert_connection-Routed P (remote_of peer) (length net.remote_peers)
      (new_connection (remote_of peer) net).1
      (get_elem?-append_last net.remote_peers (remote_of peer))
      (new_connection-Routed P (remote_of peer) net h)

failed-Routed :
    (P : Addr → Bytes → Type 0) (remote : Option Addr) (net : Network)
    → Routed P net
    → Routed P (failed remote net)
unfolding failed remove
failed-Routed P none net h = h
failed-Routed P (some remote) net h = record {
  leads = LeadsTo-erase net.remote_peers remote net.connection_map h.leads;
  waiting = h.waiting;
  written = h.written;
}

-- The calls among the events.
abbrev pub AllCalls : (Addr → Bytes → Type 0) → List Event → Type 0
AllCalls P [] = Unit
AllCalls P (calls rpc_type server msg ∷ es) =
    ((encoded : Bytes) → encoded_call rpc_type msg ≡ ok encoded → P server encoded) × AllCalls P es
AllCalls P (_ ∷ es) = AllCalls P es

step-Routed :
    (P : Addr → Bytes → Type 0) (c : Codecs) (is_address : Bytes → Bool) (e : Event)
    (net net' : Network)
    → AllCalls P (e ∷ [])
    → step c is_address e net ≡ ok net'
    → Routed P net
    → Routed P net'
unfolding step make_rpc_call
step-Routed P c is_address (calls rpc_type server msg) net net' (meant, _) h w =
    let (_, _, h₁) = >>=-eq-ok (rpc_to_str c rpc_type msg) _ h in
    let (encoded, e, end) = >>=-eq-ok (encoded_call rpc_type msg) _ h₁ in
    send_on-Routed P is_address (find server net.connection_map) server encoded net net' refl
      (meant encoded e) end w
step-Routed P c is_address (connect_ended place error) net net' _ h w =
    subst (Routed P) (ok-injective h)
      (connect_at-Routed P (get_elem? net.connecting place) place error net refl w)
step-Routed P c is_address accept_failed net net' _ h w = subst (Routed P) (ok-injective h) w
step-Routed P c is_address (accept_ended peer) net net' _ h w =
    subst (Routed P) (ok-injective h) (accepted-Routed P peer net w)
step-Routed P c is_address (header_failed connection) net net' _ h w =
    subst (Routed P) (ok-injective h)
      (failed-Routed P (get_elem? net.remote_peers connection) net w)
step-Routed P c is_address (body_failed connection) net net' _ h w = absurd (fail_ne_ok h)
step-Routed P c is_address (write_ended connection true) net net' _ h w =
    subst (Routed P) (ok-injective h)
      (failed-Routed P (get_elem? net.remote_peers connection) net w)
step-Routed P c is_address (write_ended connection false) net net' _ h w =
    subst (Routed P) (ok-injective h) w

AllCalls-parts :
    (P : Addr → Bytes → Type 0) (e : Event) (es : List Event)
    → AllCalls P (e ∷ es)
    → AllCalls P (e ∷ []) × AllCalls P es
AllCalls-parts P (calls rpc_type server msg) es h = ((h.0, tt), h.1)
AllCalls-parts P (connect_ended place error) es h = (tt, h)
AllCalls-parts P accept_failed es h = (tt, h)
AllCalls-parts P (accept_ended peer) es h = (tt, h)
AllCalls-parts P (header_failed connection) es h = (tt, h)
AllCalls-parts P (body_failed connection) es h = (tt, h)
AllCalls-parts P (write_ended connection error) es h = (tt, h)

-- Whatever holds of each call's server and frame, over any events of the sockets it holds of the
-- server at the other end of each connection and of each message that was written to it; the map
-- leads, for each server, to a connection to it.
pub run-Routed :
    (P : Addr → Bytes → Type 0) (c : Codecs) (is_address : Bytes → Bool) (es : List Event)
    (net net' : Network)
    → AllCalls P es
    → Routed P net
    → run c is_address es net ≡ ok net'
    → Routed P net'
unfolding run
run-Routed P c is_address [] net net' meant w h = subst (Routed P) (ok-injective h) w
run-Routed P c is_address (e ∷ es) net net' meant w h =
    let (net₁, first, rest) = >>=-eq-ok (step c is_address e net) _ h in
    let (now, later) = AllCalls-parts P e es meant in
    run-Routed P c is_address es net₁ net' later (step-Routed P c is_address e net net₁ now first w)
      rest
