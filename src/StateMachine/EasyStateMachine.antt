-- ===== src/StateMachine/EasyStateMachine.antt =====
-- state_machine/EasyStateMachine.h and .cpp: a map from texts to numbers. A failure to allocate is
-- the one exception that its `try` blocks could catch, and the model has none.
use my_raft.Prelude.{Bytes, true, bytes_eq, ◌++◌}
use my_raft.Prelude.Int.{ℤ, pos}
use my_raft.Prelude.Assoc.{Map, insert, find_or, touch}
use my_raft.Prelude.Outcome.{Outcome, ok, ◌>>=◌}
use my_raft.Wire.{Codecs, resp_client_query, resp_client_apply}
use my_raft.Rpc.Texts.{text, rpc_to_str}

-- `mock_state_machine_`
abbrev pub EasyStateMachine : Type 0
EasyStateMachine = Map Bytes ℤ

unfoldable pub build_apply_str : Codecs → Bytes → ℤ → Bytes
build_apply_str c key v = c.apply_call.serialize (record { key = key; v = v })

unfoldable pub build_query_str : Codecs → Bytes → Bytes
build_query_str c key = c.query_call.serialize (record { key = key })

-- The call, with the state machine that it leaves and its answer.
unfoldable pub apply : Codecs → Bytes → EasyStateMachine → EasyStateMachine × Bytes
apply c encoded_apply_str m =
    let call = c.apply_call.parse encoded_apply_str in
    (insert call.key call.v m, c.resp_apply.serialize (record { is_ok = true }))

-- A key that is not there is put there with the value 0.
unfoldable pub get : Codecs → Bytes → EasyStateMachine → EasyStateMachine × Bytes
get c encoded_get_str m =
    let key = (c.query_call.parse encoded_get_str).key in
    (
      touch (pos 0) key m,
      c.resp_query.serialize (record { is_ok = true; v = find_or (pos 0) key m }),
    )

-- What is printed of an answer, or the exception of `rpc_to_str`.
unfoldable pub react_to_resp_query : Codecs → Bytes → Outcome Bytes
react_to_resp_query c resp_query = do
  str ← rpc_to_str c resp_client_query resp_query
  ok (text "client received resp_query: " ++ str)

unfoldable pub react_to_resp_apply : Codecs → Bytes → Outcome Bytes
react_to_resp_apply c resp_apply = do
  str ← rpc_to_str c resp_client_apply resp_apply
  ok (text "client received resp_apply: " ++ str)
