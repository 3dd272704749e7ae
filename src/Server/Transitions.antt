-- ===== src/Server/Transitions.antt =====
-- RaftServer.cpp from `cancel_all_timers` to `RV`: the changes of state and term, and the two calls
-- that a server sends.
use my_raft.Prelude.{ℕ, Bool, Bytes, false, ◌||◌, List, [], ◌∷◌, if◌then◌else◌, eqb, ◌==◌, not}
use my_raft.Prelude.Int.{ℤ, pos, ◌+ℤ◌, ◌-ℤ◌, ltb_ℤ, eqb_ℤ, minus_one}
use my_raft.Prelude.Assoc.{Map, insert, find_or, touch}
use my_raft.Prelude.Outcome.{
  Fault, Outcome, ok, fail, ◌>>=◌, term_decreases, waits_in_trans2f, waits_in_trans2c, waits_in_ae,
  undefined_behaviour, bad_address,
}
use my_raft.Wire.{
  Addr, addr_eq, RpcType, append_entry, request_vote, Entry, AppendEntryRpc, RequestVoteRpc,
}
use my_raft.Entry.{get}
use my_raft.Server.State.{
  follower, candidate, primary, Timer, candidate_timer, retry_timer, Hook, trans2f_hook,
  trans2c_hook, ae_hook, rv_hook, Call, make_rpc_call, expires_at_min, expires_from_now, async_wait,
  Env, Server, random_candidate_expire, random_rv_retry_expire, random_ae_retry_expire,
}

abbrev pub log_call : Server → Call → Server
log_call s c = record s { calls = c ∷ s.calls }

-- `network_.make_rpc_call`
unfoldable pub send : Env → RpcType → Addr → Bytes → Server → Outcome Server
send env rpc_type server msg s =
    if env.throws s.calls server
    then fail bad_address
    else ok (log_call s (make_rpc_call rpc_type server msg))

-- The loop over `retry_timers_`.
unfoldable pub cancel_retry_timers : List Addr → List Call → List Call
cancel_retry_timers [] calls = calls
cancel_retry_timers (a ∷ as') calls =
    cancel_retry_timers as' (expires_at_min (retry_timer a) ∷ calls)

unfoldable pub cancel_all_timers : Server → Server
cancel_all_timers s = record s {
  calls = cancel_retry_timers s.retry_timers (expires_at_min candidate_timer ∷ s.calls);
}

-- `for (server : configuration_) map[server] = v;`
unfoldable pub fill : ℤ → List Addr → Map Addr ℤ → Map Addr ℤ
fill v [] m = m
fill v (a ∷ as') m = fill v as' (insert a v m)

unfoldable pub reset_both_rpc_lsn : Server → Server
reset_both_rpc_lsn s = record s {
  current_rpc_lsn = fill (pos 0) s.configuration s.current_rpc_lsn;
  follower_rpc_lsn = fill minus_one s.configuration s.follower_rpc_lsn;
}

unfoldable pub update_term : ℤ → Server → Outcome Server
update_term term s =
    if ltb_ℤ s.term term
    then ok (record (reset_both_rpc_lsn s) { term = term })
    else if eqb_ℤ s.term term
    then ok s
    else fail term_decreases

-- `timer.expires_from_now(ms)`, the check of what it returns, and `timer.async_wait(hook)`.
unfoldable pub arm : Env → Timer → ℕ → Hook → Fault → Server → Outcome Server
arm env timer ms hook fault s =
    if eqb (env.waiting s.calls timer) 0
    then ok (log_call (log_call s (expires_from_now timer ms)) (async_wait timer hook))
    else fail fault

unfoldable pub trans2f : Env → ℤ → Server → Outcome Server
trans2f env term s = do
  s₁ ← update_term term (record (cancel_all_timers s) { winned_votes = 0 })
  let s₂ = record s₁ { already_voted = false; state = follower }
  arm env candidate_timer (random_candidate_expire (env.rand s₂.calls)) trans2f_hook
      waits_in_trans2f s₂

unfoldable pub contains : Addr → List Addr → Bool
contains a [] = false
contains a (b ∷ bs) = (b == a) || contains a bs

-- `rpc.set_prelog_term`
unfoldable pub prelog_term_of : Server → ℤ → Outcome ℤ
prelog_term_of s index_to_send =
    if ltb_ℤ (pos 0) index_to_send
    then (do prev_entry ← get s.entries (index_to_send -ℤ pos 1); ok prev_entry.term)
    else ok minus_one

-- The entries that the call carries: none, or the one at the index.
unfoldable pub entry_to_send : Server → ℤ → Outcome (List Entry)
entry_to_send s index_to_send =
    if eqb_ℤ index_to_send (pos s.entries.size)
    then ok []
    else do entry ← get s.entries index_to_send; ok (entry ∷ [])

-- `build_rpc_ae_string` before it serialises; reading a map by `[ ]` leaves an entry in it.
unfoldable pub build_rpc_ae : Addr → Server → Outcome (AppendEntryRpc × Server)
build_rpc_ae server s = do
  let lsn = find_or (pos 0) server s.current_rpc_lsn
  let index_to_send = find_or (pos 0) server s.next_index
  prelog_term ← prelog_term_of s index_to_send
  entry ← entry_to_send s index_to_send
  ok (
    record {
      term = s.term;
      prelog_term = prelog_term;
      commit_index = s.commit_index;
      lsn = lsn;
      ip = s.ip;
      port = s.port;
      entry = entry;
      prelog_index = index_to_send -ℤ pos 1;
    },
    record s {
      current_rpc_lsn = insert server (lsn +ℤ pos 1) s.current_rpc_lsn;
      next_index = touch (pos 0) server s.next_index;
    },
  )

-- An address without a retry timer gets a null pointer from `retry_timers_[server]`, which the
-- function then follows.
unfoldable pub ae : Env → Addr → Server → Outcome Server
ae env server s = do
  built ← build_rpc_ae server s
  s₁ ← send env append_entry server (env.codecs.ae.serialize built.0) built.1
  if contains server s₁.retry_timers
      then arm env (retry_timer server) (random_ae_retry_expire (env.rand s₁.calls))
          (ae_hook server) waits_in_ae s₁
      else fail undefined_behaviour

-- `latest_term` is never set, so it goes out as 0.
unfoldable pub build_rpc_rv : Addr → Server → RequestVoteRpc × Server
build_rpc_rv server s =
    let lsn = find_or (pos 0) server s.current_rpc_lsn in
    (
      record {
        term = s.term;
        latest_index = pos s.entries.size -ℤ pos 1;
        latest_term = pos 0;
        lsn = lsn;
        ip = s.ip;
        port = s.port;
      },
      record s { current_rpc_lsn = insert server (lsn +ℤ pos 1) s.current_rpc_lsn },
    )

-- What `RV` does once the call is made: where a handler still waits on the timer, nothing more.
unfoldable pub arm_rv : Env → Addr → Server → Outcome Server
arm_rv env server s =
    if not (contains server s.retry_timers)
    then fail undefined_behaviour
    else (let ms = random_rv_retry_expire (env.rand s.calls) in
        let s₁ = log_call s (expires_from_now (retry_timer server) ms) in
        if eqb (env.waiting s.calls (retry_timer server)) 0
        then ok (log_call s₁ (async_wait (retry_timer server) (rv_hook server)))
        else ok s₁)

unfoldable pub rv : Env → Addr → Server → Outcome Server
rv env server s = do
  let built = build_rpc_rv server s
  s₁ ← send env request_vote server (env.codecs.rv.serialize built.0) built.1
  arm_rv env server s₁

-- `for (server : configuration_) if (port of server != port_) body(server);`
unfoldable pub for_others : (Addr → Server → Outcome Server) → List Addr → Server → Outcome Server
for_others body [] s = ok s
for_others body (a ∷ as') s = do
  s₁ ← (if eqb_ℤ a.port s.port then ok s else body a s)
  for_others body as' s₁

unfoldable pub trans2p : Env → Server → Outcome Server
trans2p env s =
    let s₁ = cancel_all_timers s in
    let entry_size = pos s.entries.size in
    let s₂ = record s₁ {
      state = primary;
      next_index = fill entry_size s.configuration s.next_index;
      follower_saved_index =
          insert (record { ip = s.ip; port = s.port }) (entry_size -ℤ pos 1)
            (fill minus_one s.configuration s.follower_saved_index);
    } in
    for_others (ae env) s.configuration s₂

unfoldable pub trans2c : Env → Server → Outcome Server
trans2c env s = do
  s₁ ← update_term (s.term +ℤ pos 1) (cancel_all_timers s)
  let s₂ = record s₁ { state = candidate; winned_votes = 1 }
  s₃ ←
      arm env candidate_timer (random_candidate_expire (env.rand s₂.calls)) trans2c_hook
        waits_in_trans2c s₂
  for_others (rv env) s₃.configuration s₃
