-- ===== src/Server/Events.antt =====
-- RaftServer.cpp: the constructor, `run`, `reactToIncomingMsg`, the handlers of the timers, and the
-- step of the event loop.
use my_raft.Prelude.{◌+◌, ◌/◌, false, Bytes, List, [], ◌∷◌, ◌++◌, length, if◌then◌else◌}
use my_raft.Prelude.Int.{ℤ, pos, minus_one}
use my_raft.Prelude.Outcome.{
  Outcome, ok, fail, ◌>>=◌, wait_not_zero_at_start, timer_error, trans2f_hook_cancelled,
  trans2c_hook_cancelled, rv_hook_cancelled,
}
use my_raft.Wire.{
  Addr, addr_eq, RpcType, request_vote, append_entry, resp_vote, resp_append, client_apply,
  client_query, resp_client_apply, resp_client_query, error,
}
use my_raft.Entry.{Entries}
use my_raft.StateMachine.Controler.{new_controler}
use my_raft.Server.State.{
  follower, Hook, run_hook, trans2f_hook, trans2c_hook, ae_hook, rv_hook, candidate_timer,
  retry_timer, start_accept, Env, Server, random_candidate_expire,
}
use my_raft.Server.Transitions.{log_call, fill, arm, contains, trans2c, ae, rv}
use my_raft.Server.Commit.{write_resp_apply_call, write_resp_query_call}
use my_raft.Server.Handlers.{react2ae, append_client_apply_to_entries, get_from_state_machine}
use my_raft.Server.Votes.{react2rv, react2resp_ae, react2resp_rv}

-- `retry_timers_.insert` for each configured server; a second insertion of a key does nothing.
unfoldable pub retry_timers_of : List Addr → List Addr → List Addr
retry_timers_of [] timers = timers
retry_timers_of (a ∷ as') timers =
    retry_timers_of as' (if contains a timers then timers else timers ++ a ∷ [])

-- The constructor, given what `load_config_from_file` and `Entries::Entries` have read.
unfoldable pub new_server : Bytes → ℤ → List Addr → Entries → Outcome Server
new_server ip port configuration entries = do
  smc ← new_controler 1
  ok (record {
    winned_votes = 0;
    already_voted = false;
    term = pos 0;
    state = follower;
    configuration = configuration;
    majority = length configuration / 2 + 1;
    ip = ip;
    port = port;
    current_rpc_lsn = fill (pos 0) configuration [];
    follower_rpc_lsn = fill minus_one configuration [];
    retry_timers = retry_timers_of configuration [];
    commit_index = minus_one;
    entries = entries;
    next_index = fill (pos 0) configuration [];
    follower_saved_index = fill minus_one configuration [];
    smc = smc;
    entry_index_to_socket_addr = [];
    calls = [];
  })

-- Up to `ioContext.run()`.
unfoldable pub run : Env → Server → Outcome Server
run env s =
    let s₁ = log_call s start_accept in
    arm env candidate_timer (random_candidate_expire (env.rand s₁.calls)) run_hook
      wait_not_zero_at_start s₁

unfoldable pub react_to_incoming_msg : Env → RpcType → Bytes → Addr → Server → Outcome Server
react_to_incoming_msg env request_vote msg peer s = react2rv env (env.codecs.rv.parse msg) s
react_to_incoming_msg env append_entry msg peer s = react2ae env (env.codecs.ae.parse msg) s
react_to_incoming_msg env resp_vote msg peer s = react2resp_rv env (env.codecs.resp_rv.parse msg) s
react_to_incoming_msg env resp_append msg peer s =
    react2resp_ae env (env.codecs.resp_ae.parse msg) s
react_to_incoming_msg env client_apply msg peer s = append_client_apply_to_entries env peer msg s
react_to_incoming_msg env client_query msg peer s = get_from_state_machine peer msg s
react_to_incoming_msg env resp_client_apply msg peer s = ok s
react_to_incoming_msg env resp_client_query msg peer s = ok s
react_to_incoming_msg env error msg peer s = ok s

-- What the wait of a handler ended with.
pub data WaitEnd : Type 0 where
  expired aborted failed : WaitEnd

-- The handlers, when the timer has expired: of `run`, `trans2F`, `trans2C`, `AE` and `RV`.
abbrev pub run_expired : Env → Server → Outcome Server
run_expired env s = if env.is_min s.calls candidate_timer then ok s else trans2c env s

abbrev pub trans2f_expired : Env → Server → Outcome Server
trans2f_expired env s =
    if env.is_min s.calls candidate_timer then fail trans2f_hook_cancelled else trans2c env s

abbrev pub trans2c_expired : Env → Server → Outcome Server
trans2c_expired env s =
    if env.is_min s.calls candidate_timer then fail trans2c_hook_cancelled else trans2c env s

abbrev pub ae_expired : Env → Addr → Server → Outcome Server
ae_expired env server s = if env.is_min s.calls (retry_timer server) then ok s else ae env server s

abbrev pub rv_expired : Env → Addr → Server → Outcome Server
rv_expired env server s =
    if env.is_min s.calls (retry_timer server) then fail rv_hook_cancelled else rv env server s

unfoldable pub fire : Env → Hook → Server → Outcome Server
fire env run_hook s = run_expired env s
fire env trans2f_hook s = trans2f_expired env s
fire env trans2c_hook s = trans2c_expired env s
fire env (ae_hook server) s = ae_expired env server s
fire env (rv_hook server) s = rv_expired env server s

unfoldable pub on_timer : Env → Hook → WaitEnd → Server → Outcome Server
on_timer env hook expired s = fire env hook s
on_timer env hook aborted s = ok s
on_timer env hook failed s = fail timer_error

-- What the event loop hands to the server.
pub data Event : Type 0 where
  incoming : RpcType → Bytes → Addr → Event
  timer_ended : Hook → WaitEnd → Event
  applied : ℤ → Bytes → Event
  queried : Addr → Bytes → Event

unfoldable pub step : Env → Event → Server → Outcome Server
step env (incoming rpc_type msg peer) s = react_to_incoming_msg env rpc_type msg peer s
step env (timer_ended hook end') s = on_timer env hook end' s
step env (applied index res) s = ok (write_resp_apply_call index res s)
step env (queried addr res) s = ok (write_resp_query_call addr res s)

-- A history of the process: the events that the loop has handled, each to its end.
unfoldable pub run_events : Env → List Event → Server → Outcome Server
run_events env [] s = ok s
run_events env (e ∷ es) s = step env e s >>= λ s'. run_events env es s'
