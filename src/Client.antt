-- ===== src/Client.antt =====
-- client/client.cpp: the program that a user runs. What it reads from the console is a list of
-- inputs; the calls that it makes are recorded, the latest first, and so is what it prints.
pub mod Session
pub mod Console
use my_raft.Prelude.{Bytes, List, [], ◌∷◌}
use my_raft.Prelude.Int.{ℤ}
use my_raft.Prelude.Outcome.{Outcome, ok, fail, unknown_rpc_type, ◌>>=◌}
use my_raft.Wire.{
  Addr, RpcType, client_apply, client_query, resp_client_apply, resp_client_query, Codecs,
}
use my_raft.StateMachine.EasyStateMachine.{
  build_apply_str, build_query_str, react_to_resp_query, react_to_resp_apply,
}
use my_raft.Server.State.{Call, make_rpc_call}

pub record Client : Type 0 where
  pub server : Addr
  pub calls : List Call
  pub printed : List Bytes

unfoldable pub new_client : Addr → Client
new_client server = record { server = server; calls = []; printed = [] }

unfoldable pub set_server : Addr → Client → Client
set_server server client = record client { server = server }

unfoldable pub apply_to_server : Codecs → Bytes → ℤ → Client → Client
apply_to_server c key v client = record client {
  calls = make_rpc_call client_apply client.server (build_apply_str c key v) ∷ client.calls;
}

unfoldable pub query_from_server : Codecs → Bytes → Client → Client
query_from_server c key client = record client {
  calls = make_rpc_call client_query client.server (build_query_str c key) ∷ client.calls;
}

-- One round of `run` reads a letter, and after `a` or `q` what the call needs.
pub data Input : Type 0 where
  a : Bytes → ℤ → Input
  q : Bytes → Input
  other : Input

unfoldable pub run_round : Codecs → Input → Client → Client
run_round c (a key v) client = apply_to_server c key v client
run_round c (q key) client = query_from_server c key client
run_round c other client = client

unfoldable pub run : Codecs → List Input → Client → Client
run c [] client = client
run c (input ∷ inputs) client = run c inputs (run_round c input client)

unfoldable pub react_to_resp : Codecs → RpcType → Bytes → Client → Outcome Client
react_to_resp c resp_client_apply resp_str client = do
  shown ← react_to_resp_apply c resp_str
  ok (record client { printed = shown ∷ client.printed })
react_to_resp c resp_client_query resp_str client = do
  shown ← react_to_resp_query c resp_str
  ok (record client { printed = shown ∷ client.printed })
react_to_resp c _ resp_str client = fail unknown_rpc_type
