-- ===== src/Examples/Programs.antt =====
-- The theorems on the configuration file, the client and the network, at concrete inputs.
use my_raft.Prelude.{◌≢◌, ◌≡◌, refl, ◌++◌, Bytes, List, [], ◌∷◌, some, false, true, arith, bytes_eq}
use my_raft.Prelude.Int.{pos}
use my_raft.Prelude.Assoc.{find, find_or, insert}
use my_raft.Prelude.Outcome.{Outcome, ok, fail, config_line}
use my_raft.Wire.{
  addr_eq, RpcType, client_apply, client_query, resp_client_query, append_entry, Entry,
}
use my_raft.Entry.{log}
use my_raft.Util.{to_string, server2str}
use my_raft.Rpc.{digits, sprintf_4d, msg_encode, encoded_call, read_all}
use my_raft.Rpc.Texts
use my_raft.Rpc.Texts.{rpc_to_str}
use my_raft.StateMachine.EasyStateMachine.{EasyStateMachine, build_apply_str, apply, get}
use my_raft.Server.State.{primary, Server, make_rpc_call}
use my_raft.Server.Events.{react_to_incoming_msg}
use my_raft.Server.Config.{load_config_from_file}
use my_raft.Server.Config.Written.{IsPlain, written, load_config-written, load_config-bad_line}
use my_raft.Client.{Client, apply_to_server, query_from_server, react_to_resp}
use my_raft.Client.Session.{apply_call-stored, query-printed}
use my_raft.Network
use my_raft.Network.{Event, calls, connect_ended, write_ended, new_network}
use my_raft.Network.Routing.Steps.{Routed, run-Routed}
use my_raft.Network.Order.{stream_of, calls_to, calls-arrive}
use my_raft.Examples.Codecs.{
  codecs, apply_call_codec-IsLossless, query_call_codec-IsLossless, resp_query_codec-IsLossless,
}
use my_raft.Examples.Servers.{env, addr, two_entries, server}
use my_raft.Examples.Parts.{two_entries-IsValid}

pub addr-IsPlain : IsPlain (addr 7)
unfolding server2str to_string digits
addr-IsPlain = record {
  no_colon = (refl, (refl, tt));
  no_end = (refl, (refl, tt));
  no_zero = (refl, (refl, tt));
  fits = omega arith;
}

load_config-written_example :
    load_config_from_file (some (written (addr 7 ∷ addr 7 ∷ []))) ≡ ok (addr 7 ∷ addr 7 ∷ [])
load_config-written_example =
    load_config-written (addr 7 ∷ addr 7 ∷ []) (addr-IsPlain, (addr-IsPlain, tt))

-- The second line is "1:2:3".
load_config-bad_line_example :
    load_config_from_file
      (some (written (addr 7 ∷ []) ++ ((49 ∷ 58 ∷ 50 ∷ 58 ∷ 51 ∷ []) ++ 10 ∷ [])))
    ≡ fail config_line
load_config-bad_line_example =
    load_config-bad_line (addr 7 ∷ []) 49 (58 ∷ 50 ∷ 58 ∷ 51 ∷ []) [] (addr-IsPlain, tt)
      (record {
        fits = omega arith;
        no_end = (refl, (refl, (refl, (refl, (refl, tt)))));
        no_zero = (refl, (refl, (refl, (refl, (refl, tt)))));
      })
      (λ one. omega (arith, one))

abbrev user : Client
user = record { server = addr 1; calls = []; printed = [] }

abbrev machine : EasyStateMachine
machine = (9 ∷ [], pos 4) ∷ []

apply_call-stored_example :
    (msg : Bytes) × ((apply_to_server codecs (9 ∷ []) (pos 6) user).calls
      ≡ make_rpc_call client_apply (addr 1) msg ∷ [])
    × (s : Server) × (react_to_incoming_msg env client_apply msg
          (addr 8)
          (server 1 primary two_entries)
        ≡ ok s)
    × (e : Entry) × (log s.entries ≡ log two_entries ++ e ∷ [])
    × (e.term ≡ pos 1)
    × (find_or (pos 0) (9 ∷ []) (apply codecs e.msg machine).0 ≡ pos 6)
unfolding build_apply_str
apply_call-stored_example =
    apply_call-stored env (9 ∷ []) (pos 6) user (addr 8) (server 1 primary two_entries) machine
      apply_call_codec-IsLossless two_entries-IsValid (omega arith)

query-printed_example :
    (msg : Bytes) × ((query_from_server codecs (9 ∷ []) user).calls
      ≡ make_rpc_call client_query (addr 1) msg ∷ [])
    × (react_to_resp codecs resp_client_query (get codecs msg machine).1 user
        ≡ ok (record user {
          printed = Texts.text "client received resp_query: resp_query:\nok: 1\nv: 4" ∷ [];
        }))
unfolding find_or to_string digits
query-printed_example =
    query-printed codecs (9 ∷ []) user machine query_call_codec-IsLossless
      resp_query_codec-IsLossless

abbrev events : List Event
events =
    calls append_entry (addr 2) (7 ∷ [])
    ∷ connect_ended 0 false
    ∷ calls append_entry (addr 2) (8 ∷ [])
    ∷ write_ended 0 true
    ∷ []

abbrev left : Outcome Network.Network → Network.Network
left (ok net) = net
left (fail fault) = new_network

abbrev net : Network.Network
net = left (Network.run codecs (λ _. true) events new_network)

run-Routed_example : Routed (λ remote msg. remote ≡ addr 2) net
unfolding Network.run Network.step Network.make_rpc_call Network.send_on Network.connect
    Network.new_connection Network.connect_at Network.connected Network.insert_connection
    Network.deliver Network.failed Network.remove rpc_to_str encoded_call msg_encode sprintf_4d
    digits find insert
run-Routed_example =
    run-Routed (λ remote msg. remote ≡ addr 2) codecs (λ _. true) events new_network net
      ((λ _ _. refl), ((λ _ _. refl), tt)) (record { leads = tt; waiting = tt; written = tt }) refl

-- There is a connection to the server, and it has carried nothing yet.
abbrev up : Network.Network
up = record new_network { remote_peers = addr 2 ∷ []; connection_map = (addr 2, 0) ∷ [] }

calls-arrive_example :
    (net' : Network.Network) × (stream : Bytes) × (Network.run codecs
        (λ _. true)
        (calls_to (addr 2) ((append_entry, 7 ∷ []) ∷ (append_entry, []) ∷ []))
        up
      ≡ ok net')
    × (stream_of 0 net'.writes ≡ stream)
    × (read_all 2 (0 ∷ []) stream ≡ ok ((append_entry, 7 ∷ []) ∷ (append_entry, []) ∷ []))
unfolding find stream_of
calls-arrive_example =
    calls-arrive codecs (λ _. true) (addr 2) ((append_entry, 7 ∷ []) ∷ (append_entry, []) ∷ []) 0 up
      0 2 [] (append_ne_error, omega arith, (append_ne_error, omega arith, tt)) refl refl
      (omega arith)
  where
    append_ne_error : RpcType.append_entry ≢ RpcType.error
    append_ne_error e = cc
