-- ===== src/Examples/Codecs.antt =====
-- A concrete codec for each message: an example of what the generated code may do.
use my_raft.Prelude.{
  ℕ, zero, suc, ◌≤◌, take-append, drop-append, length-append, ◌+◌, ◌*◌, ◌/◌, ◌%◌, ◌≡◌, refl, Bool,
  true, false, Bytes, List, [], ◌∷◌, ◌++◌, length, take, drop, arith, eqb, if◌then◌else◌,
}
use my_raft.Prelude.Int.{ℤ, pos, negsuc}
use my_raft.Wire.{
  Entry, AppendEntryRpc, RespAppendEntryRpc, RequestVoteRpc, RespRequestVoteRpc, ApplyCall,
  RespApply, RespQuery, Codec, Codecs, IsLossless,
}

abbrev of_int : ℤ → ℕ
of_int (pos n) = 2 * n
of_int (negsuc n) = 2 * n + 1

abbrev to_int : ℕ → ℤ
to_int n = if eqb (n % 2) 0 then pos (n / 2) else negsuc (n / 2)

to_int-of_int : (i : ℤ) → to_int (of_int i) ≡ i
to_int-of_int (pos n) = ground arith
to_int-of_int (negsuc n) = ground arith

abbrev of_bool : Bool → ℕ
of_bool true = 1
of_bool false = 0

abbrev to_bool : ℕ → Bool
to_bool n = eqb n 1

to_bool-of_bool : (b : Bool) → to_bool (of_bool b) ≡ b
to_bool-of_bool true = refl
to_bool-of_bool false = refl

abbrev parse_entry : Bytes → Entry
parse_entry (t ∷ i ∷ msg) = record { term = to_int t; index = to_int i; msg = msg }
parse_entry _ = record { term = pos 0; index = pos 0; msg = [] }

abbrev entry_codec : Codec Entry
entry_codec = record {
  serialize = λ e. of_int e.term ∷ of_int e.index ∷ e.msg;
  parse = parse_entry;
}

pub entry_codec-IsLossless : IsLossless entry_codec
entry_codec-IsLossless e = ground (arith, to_int-of_int e.term, to_int-of_int e.index)

abbrev parse_rv : Bytes → RequestVoteRpc
parse_rv (t ∷ i ∷ u ∷ l ∷ p ∷ ip) = record {
  term = to_int t;
  latest_index = to_int i;
  latest_term = to_int u;
  lsn = to_int l;
  ip = ip;
  port = to_int p;
}
parse_rv _ = record {
  term = pos 0;
  latest_index = pos 0;
  latest_term = pos 0;
  lsn = pos 0;
  ip = [];
  port = pos 0;
}

abbrev rv_codec : Codec RequestVoteRpc
rv_codec = record {
  serialize = λ r.
      of_int r.term
      ∷ of_int r.latest_index
      ∷ of_int r.latest_term
      ∷ of_int r.lsn
      ∷ of_int r.port
      ∷ r.ip;
  parse = parse_rv;
}

abbrev parse_resp_rv : Bytes → RespRequestVoteRpc
parse_resp_rv (b ∷ t ∷ l ∷ p ∷ ip) = record {
  is_ok = to_bool b;
  term = to_int t;
  lsn = to_int l;
  ip = ip;
  port = to_int p;
}
parse_resp_rv _ = record { is_ok = false; term = pos 0; lsn = pos 0; ip = []; port = pos 0 }

abbrev resp_rv_codec : Codec RespRequestVoteRpc
resp_rv_codec = record {
  serialize = λ r. of_bool r.is_ok ∷ of_int r.term ∷ of_int r.lsn ∷ of_int r.port ∷ r.ip;
  parse = parse_resp_rv;
}

pub resp_rv_codec-IsLossless : IsLossless resp_rv_codec
resp_rv_codec-IsLossless r = ground (
  arith,
  to_bool-of_bool r.is_ok,
  to_int-of_int r.term,
  to_int-of_int r.lsn,
  to_int-of_int r.port,
)

abbrev parse_resp_ae : Bytes → RespAppendEntryRpc
parse_resp_ae (b ∷ e ∷ t ∷ l ∷ p ∷ ip) = record {
  is_ok = to_bool b;
  term = to_int t;
  lsn = to_int l;
  ip = ip;
  port = to_int p;
  is_empty_ae = to_bool e;
}
parse_resp_ae _ = record {
  is_ok = false;
  term = pos 0;
  lsn = pos 0;
  ip = [];
  port = pos 0;
  is_empty_ae = false;
}

abbrev resp_ae_codec : Codec RespAppendEntryRpc
resp_ae_codec = record {
  serialize = λ r.
      of_bool r.is_ok ∷ of_bool r.is_empty_ae ∷ of_int r.term ∷ of_int r.lsn ∷ of_int r.port ∷ r.ip;
  parse = parse_resp_ae;
}

pub resp_ae_codec-IsLossless : IsLossless resp_ae_codec
resp_ae_codec-IsLossless r = ground (
  arith,
  to_bool-of_bool r.is_ok,
  to_bool-of_bool r.is_empty_ae,
  to_int-of_int r.term,
  to_int-of_int r.lsn,
  to_int-of_int r.port,
)

abbrev text_of_entries : List Entry → Bytes
text_of_entries [] = []
text_of_entries (e ∷ es) =
    of_int e.term ∷ of_int e.index ∷ length e.msg ∷ (e.msg ++ text_of_entries es)

abbrev parse_entries : ℕ → Bytes → List Entry
parse_entries (suc fuel) (t ∷ i ∷ n ∷ rest) =
    record { term = to_int t; index = to_int i; msg = take n rest }
    ∷ parse_entries fuel (drop n rest)
parse_entries _ _ = []

abbrev parse_ae : Bytes → AppendEntryRpc
parse_ae (t ∷ q ∷ c ∷ l ∷ p ∷ i ∷ n ∷ rest) = record {
  term = to_int t;
  prelog_term = to_int q;
  commit_index = to_int c;
  lsn = to_int l;
  ip = take n rest;
  port = to_int p;
  entry = parse_entries (length rest) (drop n rest);
  prelog_index = to_int i;
}
parse_ae _ = record {
  term = pos 0;
  prelog_term = pos 0;
  commit_index = pos 0;
  lsn = pos 0;
  ip = [];
  port = pos 0;
  entry = [];
  prelog_index = pos 0;
}

abbrev ae_codec : Codec AppendEntryRpc
ae_codec = record {
  serialize = λ r.
      of_int r.term
      ∷ of_int r.prelog_term
      ∷ of_int r.commit_index
      ∷ of_int r.lsn
      ∷ of_int r.port
      ∷ of_int r.prelog_index
      ∷ length r.ip
      ∷ (r.ip ++ text_of_entries r.entry);
  parse = parse_ae;
}

parse-text_of_entries :
    (fuel : ℕ) (es : List Entry) → length es ≤ fuel → parse_entries fuel (text_of_entries es) ≡ es
parse-text_of_entries zero [] h = refl
parse-text_of_entries zero (e ∷ es) h = absurd (omega arith)
parse-text_of_entries (suc fuel) [] h = refl
parse-text_of_entries (suc fuel) (e ∷ es) h =
    let again = parse-text_of_entries fuel es (omega arith) in
    let first = take-append e.msg (text_of_entries es) in
    let rest = drop-append e.msg (text_of_entries es) in
    rw (first, rest, again, to_int-of_int e.term, to_int-of_int e.index) refl

text_of_entries-long : (es : List Entry) → length es ≤ length (text_of_entries es)
text_of_entries-long [] = omega arith
text_of_entries-long (e ∷ es) =
    omega (arith, text_of_entries-long es, length-append e.msg (text_of_entries es))

pub ae_codec-IsLossless : IsLossless ae_codec
ae_codec-IsLossless r =
    let text = text_of_entries r.entry in
    let enough : length r.entry ≤ length (r.ip ++ text) =
      omega (arith, text_of_entries-long r.entry, length-append r.ip text) in
    let entries = parse-text_of_entries (length (r.ip ++ text)) r.entry enough in
    rw
      (
        take-append r.ip text,
        drop-append r.ip text,
        entries,
        to_int-of_int r.term,
        to_int-of_int r.prelog_term,
        to_int-of_int r.commit_index,
        to_int-of_int r.lsn,
        to_int-of_int r.port,
        to_int-of_int r.prelog_index,
      )
      refl

abbrev offsets_codec : Codec (List ℕ)
offsets_codec = record { serialize = λ l. l; parse = λ l. l }

pub offsets_codec-IsLossless : IsLossless offsets_codec
offsets_codec-IsLossless l = refl

abbrev parse_apply_call : Bytes → ApplyCall
parse_apply_call (v ∷ key) = record { key = key; v = to_int v }
parse_apply_call [] = record { key = []; v = pos 0 }

abbrev parse_resp_query : Bytes → RespQuery
parse_resp_query (b ∷ v ∷ _) = record { is_ok = to_bool b; v = to_int v }
parse_resp_query _ = record { is_ok = false; v = pos 0 }

abbrev parse_resp_apply : Bytes → RespApply
parse_resp_apply (b ∷ _) = record { is_ok = to_bool b }
parse_resp_apply [] = record { is_ok = false }

abbrev pub codecs : Codecs
codecs = record {
  entry = entry_codec;
  ae = ae_codec;
  resp_ae = resp_ae_codec;
  rv = rv_codec;
  resp_rv = resp_rv_codec;
  apply_call = record { serialize = λ r. of_int r.v ∷ r.key; parse = parse_apply_call };
  query_call = record { serialize = λ r. r.key; parse = λ b. record { key = b } };
  resp_apply = record { serialize = λ r. of_bool r.is_ok ∷ []; parse = parse_resp_apply };
  resp_query = record {
    serialize = λ r. of_bool r.is_ok ∷ of_int r.v ∷ [];
    parse = parse_resp_query;
  };
  offsets = offsets_codec;
}

pub apply_call_codec-IsLossless : IsLossless codecs.apply_call
apply_call_codec-IsLossless r = ground (arith, to_int-of_int r.v)

pub query_call_codec-IsLossless : IsLossless codecs.query_call
query_call_codec-IsLossless r = refl

pub resp_query_codec-IsLossless : IsLossless codecs.resp_query
resp_query_codec-IsLossless r = ground (arith, to_bool-of_bool r.is_ok, to_int-of_int r.v)
