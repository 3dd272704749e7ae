-- ===== src/Wire.antt =====
-- rpc.proto, state_machine/easy_state_machine.proto, rpc/rpc_type.h and the address tuples: the
-- messages, and the interface of the generated code and of boost::archive that turns them into
-- bytes. Generated code and boost are not modelled: `Codecs` is a parameter wherever it is used.
use my_raft.Prelude.{
  ◌≡◌, ◌↔◌, Bool, true, ◌&&◌, List, ℕ, Bytes, arith, Eq, bytes_eqb, bytes_eqb_iff,
}
use my_raft.Prelude.Int.{ℤ, eqb_ℤ, eqb_ℤ_iff}

pub data RpcType : Type 0 where
  request_vote append_entry resp_vote resp_append : RpcType
  client_apply client_query resp_client_apply resp_client_query : RpcType
  error : RpcType

-- `std::tuple<string, int>`.
pub record Addr : Type 0 where
  pub ip : Bytes
  pub port : ℤ

abbrev pub addr_eqb : Addr → Addr → Bool
addr_eqb a b = bytes_eqb a.ip b.ip && eqb_ℤ a.port b.port

pub addr_eqb_iff : (a b : Addr) → (addr_eqb a b ≡ true) ↔ (a ≡ b)
addr_eqb_iff a b = ground (arith, bytes_eqb_iff a.ip b.ip, eqb_ℤ_iff a.port b.port)

instance abbrev pub addr_eq : Eq Addr
addr_eq = record { equal = addr_eqb; equal_iff = addr_eqb_iff }

-- `rpc_Entry`.
pub record Entry : Type 0 where
  pub term : ℤ
  pub index : ℤ
  pub msg : Bytes

pub record AppendEntryRpc : Type 0 where
  pub term : ℤ
  pub prelog_term : ℤ
  pub commit_index : ℤ
  pub lsn : ℤ
  pub ip : Bytes
  pub port : ℤ
  pub entry : List Entry
  pub prelog_index : ℤ

pub record RespAppendEntryRpc : Type 0 where
  pub is_ok : Bool
  pub term : ℤ
  pub lsn : ℤ
  pub ip : Bytes
  pub port : ℤ
  pub is_empty_ae : Bool

pub record RequestVoteRpc : Type 0 where
  pub term : ℤ
  pub latest_index : ℤ
  pub latest_term : ℤ
  pub lsn : ℤ
  pub ip : Bytes
  pub port : ℤ

pub record RespRequestVoteRpc : Type 0 where
  pub is_ok : Bool
  pub term : ℤ
  pub lsn : ℤ
  pub ip : Bytes
  pub port : ℤ

pub record ApplyCall : Type 0 where
  pub key : Bytes
  pub v : ℤ

pub record QueryCall : Type 0 where
  pub key : Bytes

pub record RespApply : Type 0 where
  pub is_ok : Bool

pub record RespQuery : Type 0 where
  pub is_ok : Bool
  pub v : ℤ

-- `SerializeToString` and `ParseFromString` of one message type, or an archive's `<<` and `>>`.
-- The code ignores the flag that `ParseFromString` returns, so parsing is total.
pub record Codec (A : Type 0) : Type 0 where
  pub serialize : A → Bytes
  pub parse : Bytes → A

pub record Codecs : Type 0 where
  pub entry : Codec Entry
  pub ae : Codec AppendEntryRpc
  pub resp_ae : Codec RespAppendEntryRpc
  pub rv : Codec RequestVoteRpc
  pub resp_rv : Codec RespRequestVoteRpc
  pub apply_call : Codec ApplyCall
  pub query_call : Codec QueryCall
  pub resp_apply : Codec RespApply
  pub resp_query : Codec RespQuery
  -- `boost::archive` on `vector<unsigned int>`
  pub offsets : Codec (List ℕ)

-- Parsing undoes serialising. Of protobuf this is documented for its numbers and for texts in UTF-8;
-- `rpc_Entry.msg` is a `string` of proto3 that holds the bytes of a serialised `apply_call`, which
-- need not be UTF-8, and a message with such an entry is outside what a theorem with this
-- hypothesis says.
abbrev pub IsLossless : {A : Type 0} → Codec A → Type 0
IsLossless {A} c = (a : A) → c.parse (c.serialize a) ≡ a
