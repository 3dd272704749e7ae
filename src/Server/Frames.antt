-- ===== src/Server/Frames.antt =====
-- What each step of a server leaves alone, read off a run that succeeds.
use my_raft.Prelude.{
  ℕ, ◌≡◌, refl, sym, subst, inl, inr, false, Bytes, List, [], ◌∷◌, if◌then◌else◌, arith,
}
use my_raft.Prelude.Int.{ℤ, pos, ◌+ℤ◌, ◌≤ℤ◌, eqb_ℤ}
use my_raft.Prelude.Assoc.{Map}
use my_raft.Prelude.Outcome.{
  Fault, Outcome, ok, >>=-eq-ok, ok-injective, then-eq-ok, skip-eq-ok, else-eq-ok,
}
use my_raft.Wire.{Addr, RpcType, append_entry, request_vote, AppendEntryRpc}
use my_raft.Server.State.{
  follower, candidate, primary, Timer, Hook, Call, make_rpc_call, Env, Server,
}
use my_raft.Server.Transitions.{
  arm, update_term, trans2f, trans2p, trans2c, build_rpc_ae, ae, build_rpc_rv, rv, for_others,
  log_call, send, arm_rv, contains, cancel_all_timers, reset_both_rpc_lsn, prelog_term_of,
  entry_to_send,
}

-- Only calls were made, numbers given to them, and `nextIndex_` changed.
pub record Sends (s s' : Server) : Type 0 where
  pub calls : List Call
  pub current_rpc_lsn : Map Addr ℤ
  pub next_index : Map Addr ℤ
  pub same :
      s' ≡ record s { calls = calls; current_rpc_lsn = current_rpc_lsn; next_index = next_index }

pub Sends-refl : (s : Server) → Sends s s
Sends-refl s = record {
  calls = s.calls;
  current_rpc_lsn = s.current_rpc_lsn;
  next_index = s.next_index;
  same = refl;
}

pub Sends-trans : {s t u : Server} → Sends s t → Sends t u → Sends s u
Sends-trans p q = record {
  calls = q.calls;
  current_rpc_lsn = q.current_rpc_lsn;
  next_index = q.next_index;
  same = ground arith;
}

pub log_call-Sends : (s : Server) (c : Call) → Sends s (log_call s c)
log_call-Sends s c = record {
  calls = c ∷ s.calls;
  current_rpc_lsn = s.current_rpc_lsn;
  next_index = s.next_index;
  same = refl;
}

pub arm-Sends :
    (env : Env) (timer : Timer) (ms : ℕ) (hook : Hook) (fault : Fault) (s s' : Server)
    → arm env timer ms hook fault s ≡ ok s'
    → Sends s s'
unfolding arm
arm-Sends env timer ms hook fault s s' h = record {
  calls = s'.calls;
  current_rpc_lsn = s.current_rpc_lsn;
  next_index = s.next_index;
  same = ground arith;
}

Sends-logged : (s : Server) {c : Call} {s' : Server} → s' ≡ log_call s c → Sends s s'
Sends-logged s {c} e = subst (Sends s) (sym e) (log_call-Sends s c)

build_rpc_ae-Sends :
    (server : Addr) (s : Server) (built : AppendEntryRpc × Server)
    → build_rpc_ae server s ≡ ok built
    → Sends s built.1
unfolding build_rpc_ae
build_rpc_ae-Sends server s built h =
    let (p, _, rest) = >>=-eq-ok (prelog_term_of s _) _ h in
    let (e, _, end) = >>=-eq-ok (entry_to_send s _) _ rest in
    record {
      calls = s.calls;
      current_rpc_lsn = built.1.current_rpc_lsn;
      next_index = built.1.next_index;
      same = ground arith;
    }

pub send-Sends :
    (env : Env) (t : RpcType) (server : Addr) (msg : Bytes) (s s' : Server)
    → send env t server msg s ≡ ok s'
    → s' ≡ log_call s (make_rpc_call t server msg)
unfolding send
send-Sends env t server msg s s' h =
    sym (ok-injective (else-eq-ok (env.throws s.calls server) _ _ h).1)

pub ae-Sends : (env : Env) (server : Addr) (s s' : Server) → ae env server s ≡ ok s' → Sends s s'
unfolding ae
ae-Sends env server s s' h =
    let (built, e, rest) = >>=-eq-ok (build_rpc_ae server s) _ h in
    let (s₁, sent, then_arm) = >>=-eq-ok (send env append_entry server _ built.1) _ rest in
    let (_, armed) = then-eq-ok (contains server s₁.retry_timers) _ _ then_arm in
    Sends-trans (build_rpc_ae-Sends server s built e) (
      Sends-trans (Sends-logged built.1 (send-Sends env _ server _ built.1 s₁ sent))
        (arm-Sends env _ _ _ _ s₁ s' armed))

pub rv-Sends : (env : Env) (server : Addr) (s s' : Server) → rv env server s ≡ ok s' → Sends s s'
unfolding rv build_rpc_rv arm_rv
rv-Sends env server s s' h =
    let (s₁, sent, then_arm) = >>=-eq-ok (send env request_vote server _ _) _ h in
    let logged = send-Sends env _ server _ _ s₁ sent in
    record {
      calls = s'.calls;
      current_rpc_lsn = s'.current_rpc_lsn;
      next_index = s.next_index;
      same = ground (arith, logged, then_arm);
    }

pub Sends-of_eq : (s : Server) {s' : Server} → s' ≡ s → Sends s s'
Sends-of_eq s e = subst (Sends s) (sym e) (Sends-refl s)

pub for_others-Sends :
    (body : Addr → Server → Outcome Server)
    → ((a : Addr) (s s' : Server) → body a s ≡ ok s' → Sends s s')
    → (servers : List Addr) (s s' : Server) → for_others body servers s ≡ ok s'
    → Sends s s'
unfolding for_others
for_others-Sends body keeps [] s s' h = Sends-of_eq s (sym (ok-injective h))
for_others-Sends body keeps (a ∷ servers) s s' h =
    let (t, e, rest) = >>=-eq-ok (if eqb_ℤ a.port s.port then ok s else body a s) _ h in
    let later = for_others-Sends body keeps servers t s' rest in
    elim (skip-eq-ok (eqb_ℤ a.port s.port) s (body a s) e) [
      | inl skipped ↦ Sends-trans (Sends-of_eq s skipped) later
      | inr sent ↦ Sends-trans (keeps a s t sent) later
    ]

-- `trans2F`: a follower of the term, which was not below the server's.
pub record Follows (term : ℤ) (s s' : Server) : Type 0 where
  pub calls : List Call
  pub current_rpc_lsn : Map Addr ℤ
  pub follower_rpc_lsn : Map Addr ℤ
  pub term_le : s.term ≤ℤ term
  pub same : s' ≡ record s {
    calls = calls;
    current_rpc_lsn = current_rpc_lsn;
    follower_rpc_lsn = follower_rpc_lsn;
    term = term;
    state = follower;
    winned_votes = 0;
    already_voted = false;
  }

pub trans2f-Follows :
    (env : Env) (term : ℤ) (s s' : Server) → trans2f env term s ≡ ok s' → Follows term s s'
unfolding trans2f update_term cancel_all_timers reset_both_rpc_lsn arm
trans2f-Follows env term s s' h = record {
  calls = s'.calls;
  current_rpc_lsn = s'.current_rpc_lsn;
  follower_rpc_lsn = s'.follower_rpc_lsn;
  term_le = ground arith;
  same = ground arith;
}

-- `trans2P`: a primary, with its two maps filled.
pub record Leads (s s' : Server) : Type 0 where
  pub calls : List Call
  pub current_rpc_lsn : Map Addr ℤ
  pub next_index : Map Addr ℤ
  pub follower_saved_index : Map Addr ℤ
  pub same : s' ≡ record s {
    calls = calls;
    current_rpc_lsn = current_rpc_lsn;
    next_index = next_index;
    follower_saved_index = follower_saved_index;
    state = primary;
  }

pub trans2p-Leads : (env : Env) (s s' : Server) → trans2p env s ≡ ok s' → Leads s s'
unfolding trans2p cancel_all_timers
trans2p-Leads env s s' h =
    let sent = for_others-Sends (ae env) (ae-Sends env) s.configuration _ s' h in
    record {
      calls = sent.calls;
      current_rpc_lsn = sent.current_rpc_lsn;
      next_index = sent.next_index;
      follower_saved_index = s'.follower_saved_index;
      same = ground (arith, sent.same);
    }

-- `trans2C`: a candidate of the next term, with its own vote.
pub record Stands (s s' : Server) : Type 0 where
  pub calls : List Call
  pub current_rpc_lsn : Map Addr ℤ
  pub follower_rpc_lsn : Map Addr ℤ
  pub next_index : Map Addr ℤ
  pub same : s' ≡ record s {
    calls = calls;
    current_rpc_lsn = current_rpc_lsn;
    follower_rpc_lsn = follower_rpc_lsn;
    next_index = next_index;
    term = s.term +ℤ pos 1;
    state = candidate;
    winned_votes = 1;
  }

pub trans2c-Stands : (env : Env) (s s' : Server) → trans2c env s ≡ ok s' → Stands s s'
unfolding trans2c update_term cancel_all_timers reset_both_rpc_lsn
trans2c-Stands env s s' h =
    let (s₁, e₁, rest) = >>=-eq-ok (update_term (s.term +ℤ pos 1) (cancel_all_timers s)) _ h in
    let (s₃, e₃, end) = >>=-eq-ok (arm env _ _ _ _ _) _ rest in
    let armed = arm-Sends env _ _ _ _ _ s₃ e₃ in
    let sent = for_others-Sends (rv env) (rv-Sends env) s₃.configuration s₃ s' end in
    record {
      calls = s'.calls;
      current_rpc_lsn = s'.current_rpc_lsn;
      follower_rpc_lsn = s'.follower_rpc_lsn;
      next_index = s'.next_index;
      same = ground (arith, armed.same, sent.same);
    }
