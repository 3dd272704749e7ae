-- ===== src/Cluster/Backtrack/Refusal.antt =====
-- `react2ae` on a call that is new and does not fit the log.
use my_raft.Prelude.{
  ◌≡◌, refl, sym, ap, ◌∙◌, false, some, subst, arith, ltb, length, eqb, Bytes, List, ◌∷◌,
}
use my_raft.Prelude.Int.{ℤ, pos, ◌<ℤ◌}
use my_raft.Prelude.Assoc.{Map, find_or, insert, find_or-insert, ==_self}
use my_raft.Prelude.Outcome.{ok}
use my_raft.Wire.{Addr, addr_eq, resp_append, AppendEntryRpc, RespAppendEntryRpc}
use my_raft.Server.State.{Call, make_rpc_call, Env, Server}
use my_raft.Server.Handlers.{
  is_primary, make_resp_ae, should_ignore_remote_rpc, check_prelog, follow_ae, react2ae,
}
use my_raft.Server.Frames.{trans2f-Follows}
use my_raft.Server.Timers.{CountsHandlers, trans2f-ok}
use my_raft.Server.Replication.Repeat.{trans2f-numbers}
use my_raft.Cluster.Backtrack.{last_answer}

-- The answer that is given.
abbrev pub refusal : AppendEntryRpc → Server → RespAppendEntryRpc
refusal rpc f = record {
  is_ok = false;
  term = f.term;
  lsn = rpc.lsn;
  ip = f.ip;
  port = f.port;
  is_empty_ae = eqb (length rpc.entry) 0;
}

-- Refused, with nothing of the log changed.
pub record Refuses (env : Env) (rpc : AppendEntryRpc) (f f' : Server) : Type 0 where
  pub handled : react2ae env rpc f ≡ ok f'
  pub answered :
      last_answer (record { ip = rpc.ip; port = rpc.port }) f'.calls
      ≡ some (env.codecs.resp_ae.serialize (refusal rpc f))
  pub entries : f'.entries ≡ f.entries
  pub term : f'.term ≡ f.term
  pub ip : f'.ip ≡ f.ip
  pub port : f'.port ≡ f.port
  pub state : is_primary f'.state ≡ false
  pub heeded :
      find_or (pos 0) (record { ip = rpc.ip; port = rpc.port }) f'.follower_rpc_lsn ≡ rpc.lsn

last_answer-made :
    (a : Addr) (msg : Bytes) (calls : List Call)
    → last_answer a (make_rpc_call resp_append a msg ∷ calls) ≡ some msg
last_answer-made a msg calls = ground (arith, ==_self a)

pub find_or-inserted : (a : Addr) (v : ℤ) (m : Map Addr ℤ) → find_or (pos 0) a (insert a v m) ≡ v
find_or-inserted a v m = ground (arith, find_or-insert (pos 0) a a v m, ==_self a)

refusal-same :
    (rpc : AppendEntryRpc) (t f : Server)
    → t.term ≡ f.term
    → t.ip ≡ f.ip
    → t.port ≡ f.port
    → refusal rpc t ≡ refusal rpc f
refusal-same rpc t f term ip port = rw (term, ip, port) refl

check_prelog-entries :
    (rpc : AppendEntryRpc) (s t : Server)
    → t.entries ≡ s.entries
    → check_prelog rpc t ≡ check_prelog rpc s
unfolding check_prelog
check_prelog-entries rpc s t same = rw same refl

-- What is left after the check of the number.
abbrev noted : AppendEntryRpc → Server → Server
noted rpc t = record t {
  follower_rpc_lsn = insert (record { ip = rpc.ip; port = rpc.port }) rpc.lsn t.follower_rpc_lsn;
}

follow_ae-refuses :
    (env : Env) (rpc : AppendEntryRpc) (t : Server)
    → find_or (pos 0) (record { ip = rpc.ip; port = rpc.port }) t.follower_rpc_lsn <ℤ rpc.lsn
    → check_prelog rpc t ≡ ok false
    → follow_ae env rpc (record { ip = rpc.ip; port = rpc.port }) t
      ≡ ok (
          make_resp_ae env false
            (record { ip = rpc.ip; port = rpc.port })
            rpc.lsn
            (eqb (length rpc.entry) 0)
            (noted rpc t))
unfolding follow_ae should_ignore_remote_rpc
follow_ae-refuses env rpc t fresh refused =
    let kept = check_prelog-entries rpc t (noted rpc t) refl in ground (arith, kept)

pub react2ae-Refuses :
    (env : Env) (rpc : AppendEntryRpc) (f : Server)
    → CountsHandlers env
    → ltb 1 (length rpc.entry) ≡ false
    → f.term ≡ rpc.term
    → is_primary f.state ≡ false
    → find_or (pos 0) (record { ip = rpc.ip; port = rpc.port }) f.follower_rpc_lsn <ℤ rpc.lsn
    → check_prelog rpc f ≡ ok false
    → (f' : Server) × Refuses env rpc f f'
unfolding react2ae make_resp_ae
react2ae-Refuses env rpc f counts few now other fresh refused =
    let (t, e) = trans2f-ok env rpc.term f counts (ground (arith, now)) in
    let follows = (trans2f-Follows env rpc.term f t e).same in
    let numbers = trans2f-numbers env rpc.term f t now e in
    let sender : Addr = record { ip = rpc.ip; port = rpc.port } in
    let new : find_or (pos 0) sender t.follower_rpc_lsn <ℤ rpc.lsn =
      subst (λ m. find_or (pos 0) sender m <ℤ rpc.lsn) (sym numbers) fresh in
    let entries : t.entries ≡ f.entries = ap (λ (s : Server). s.entries) follows in
    let refuses =
      follow_ae-refuses env rpc t new (check_prelog-entries rpc f t entries ∙ refused) in
    let f' = make_resp_ae env false sender rpc.lsn (eqb (length rpc.entry) 0) (noted rpc t) in
    (
      f',
      record {
        handled = ground (arith, few, now, other, e, refuses);
        answered =
            last_answer-made sender (env.codecs.resp_ae.serialize (refusal rpc t)) t.calls
            ∙ ap (λ r. some (env.codecs.resp_ae.serialize r))
                (refusal-same rpc t f (ap (λ (s : Server). s.term) follows ∙ sym now)
                  (ap (λ (s : Server). s.ip) follows) (ap (λ (s : Server). s.port) follows));
        entries = entries;
        term = ap (λ (s : Server). s.term) follows ∙ sym now;
        ip = ap (λ (s : Server). s.ip) follows;
        port = ap (λ (s : Server). s.port) follows;
        state = ap (λ (s : Server). is_primary s.state) follows;
        heeded = find_or-inserted sender rpc.lsn t.follower_rpc_lsn;
      },
    )
