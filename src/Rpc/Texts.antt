-- ===== src/Rpc/Texts.antt =====
-- rpc/rpc_to_string.cpp: what the log and the client print of a message.
use Prim.Native.Char.{code}
use Prim.Native.String.{String}
use my_raft.Prelude.{Bool, true, false, Bytes, List, [], ◌∷◌, ◌++◌}
use my_raft.Prelude.Outcome.{Outcome, ok, fail, unknown_rpc_type}
use my_raft.Wire.{
  RpcType, append_entry, request_vote, resp_vote, resp_append, client_apply, client_query,
  resp_client_apply, resp_client_query, error, Entry, AppendEntryRpc, RequestVoteRpc,
  RespAppendEntryRpc, RespRequestVoteRpc, ApplyCall, QueryCall, RespApply, RespQuery, Codecs,
}
use my_raft.Util.{to_string}

-- The bytes of a literal.
abbrev pub text : String → Bytes
text String.[] = []
text (String.◌∷◌ c s) = code c ∷ text s

-- A `bool` is printed as a number.
abbrev pub bool_text : Bool → Bytes
bool_text true = text "1"
bool_text false = text "0"

abbrev pub entry_text : List Entry → Bytes
entry_text [] = text "empty"
entry_text (e ∷ es) =
    text "\n\tterm: "
    ++ to_string e.term
    ++ text "\n\tindex: "
    ++ to_string e.index
    ++ text "\n\tmsg: "
    ++ e.msg

abbrev pub with_msg : List Entry → Bytes
with_msg [] = []
with_msg (e ∷ es) = text "(with msg)"

unfoldable pub rpc_ae2str : AppendEntryRpc → Bytes
rpc_ae2str ae =
    text "RPC_AE:"
    ++ with_msg ae.entry
    ++ text "\nterm: "
    ++ to_string ae.term
    ++ text "\nprelog_index: "
    ++ to_string ae.prelog_index
    ++ text "\nprelog_term: "
    ++ to_string ae.prelog_term
    ++ text "\ncommit_index: "
    ++ to_string ae.commit_index
    ++ text "\nlsn: "
    ++ to_string ae.lsn
    ++ text "\nip: "
    ++ ae.ip
    ++ text "\nport: "
    ++ to_string ae.port
    ++ text "\nae.rpc_entry:"
    ++ entry_text ae.entry

unfoldable pub rpc_rv2str : RequestVoteRpc → Bytes
rpc_rv2str rv =
    text "RPC_RV:\nterm: "
    ++ to_string rv.term
    ++ text "\nlatest_index: "
    ++ to_string rv.latest_index
    ++ text "\nlatest_term: "
    ++ to_string rv.latest_term
    ++ text "\nlsn: "
    ++ to_string rv.lsn
    ++ text "\nip: "
    ++ rv.ip
    ++ text "\nport: "
    ++ to_string rv.port

unfoldable pub resp_ae2str : RespAppendEntryRpc → Bytes
resp_ae2str resp =
    text "resp_ae:\nok: "
    ++ bool_text resp.is_ok
    ++ text "\nterm: "
    ++ to_string resp.term
    ++ text "\nlsn: "
    ++ to_string resp.lsn
    ++ text "\nip: "
    ++ resp.ip
    ++ text "\nport: "
    ++ to_string resp.port
    ++ text "\nis_empty_ae: "
    ++ bool_text resp.is_empty_ae

unfoldable pub resp_rv2str : RespRequestVoteRpc → Bytes
resp_rv2str resp =
    text "resp_rv:\nok: "
    ++ bool_text resp.is_ok
    ++ text "\nterm: "
    ++ to_string resp.term
    ++ text "\nlsn: "
    ++ to_string resp.lsn
    ++ text "\nip: "
    ++ resp.ip
    ++ text "\nport: "
    ++ to_string resp.port

unfoldable pub apply_call2str : ApplyCall → Bytes
apply_call2str rpc = text "apply_call:\nkey: " ++ rpc.key ++ text "\nv: " ++ to_string rpc.v

unfoldable pub resp_apply2str : RespApply → Bytes
resp_apply2str resp = text "resp_apply:\nok: " ++ bool_text resp.is_ok

unfoldable pub query_call2str : QueryCall → Bytes
query_call2str rpc = text "query_call:\nkey: " ++ rpc.key

unfoldable pub resp_query2str : RespQuery → Bytes
resp_query2str resp =
    text "resp_query:\nok: " ++ bool_text resp.is_ok ++ text "\nv: " ++ to_string resp.v

unfoldable pub entry2str : Entry → Bytes
entry2str entry =
    text "entry:\nterm: "
    ++ to_string entry.term
    ++ text "\nindex: "
    ++ to_string entry.index
    ++ text "\nmsg: "
    ++ entry.msg

unfoldable pub rpc_to_str : Codecs → RpcType → Bytes → Outcome Bytes
rpc_to_str c request_vote rpc_str = ok (rpc_rv2str (c.rv.parse rpc_str))
rpc_to_str c append_entry rpc_str = ok (rpc_ae2str (c.ae.parse rpc_str))
rpc_to_str c resp_vote rpc_str = ok (resp_rv2str (c.resp_rv.parse rpc_str))
rpc_to_str c resp_append rpc_str = ok (resp_ae2str (c.resp_ae.parse rpc_str))
rpc_to_str c client_apply rpc_str = ok (apply_call2str (c.apply_call.parse rpc_str))
rpc_to_str c client_query rpc_str = ok (query_call2str (c.query_call.parse rpc_str))
rpc_to_str c resp_client_apply rpc_str = ok (resp_apply2str (c.resp_apply.parse rpc_str))
rpc_to_str c resp_client_query rpc_str = ok (resp_query2str (c.resp_query.parse rpc_str))
rpc_to_str c error rpc_str = fail unknown_rpc_type
