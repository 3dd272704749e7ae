-- ===== src/Startup/Durable/Events.antt =====
-- What the events of RaftServer.cpp leave in the files of the log, and what a later start finds.
use my_raft.Prelude.{
  ◌^◌, ◌<◌, ◌≡◌, sym, ap, ◌∙◌, subst, inl, inr, Bytes, List, [], ◌∷◌, length, arith,
}
use my_raft.Prelude.Int.{ℤ, pos}
use my_raft.Prelude.Outcome.{ok, >>=-eq-ok, ok-injective}
use my_raft.Wire.{Addr, addr_eq, RpcType, Codecs}
use my_raft.Entry
use my_raft.Entry.{Entries, log}
use my_raft.StateMachine.Controler
use my_raft.Server.State.{follower, Env, Server}
use my_raft.Server.Commit.{write_resp_query_call}
use my_raft.Server.Handlers.{insert_entry, append_client_apply_to_entries, get_from_state_machine}
use my_raft.Server.Events.{
  Event, incoming, timer_ended, applied, queried, react_to_incoming_msg, step,
}
use my_raft.Entry.Layout.{IsValid, text}
use my_raft.Entry.Insert.{insert-refines, insert-log}
use my_raft.Cluster.Follower.{stored_part, react2rv-part, on_timer-part, told-part}
use my_raft.Startup.Durable.{Stores, Stores-of_part, react2ae-Stores}
use my_raft.Startup.Durable.Responses.{react2resp_ae-entries, react2resp_rv-entries}
use my_raft.Server.Events.{run_events}
use my_raft.Server.Timers.{CountsHandlers}
use my_raft.Server.Config.Written.{AllPlain, written}
use my_raft.Wire.{IsLossless}
use my_raft.Startup.{FileSystem, read_file, main}
use my_raft.Startup.Restart.{Holds, arguments, main-restarts}
use my_raft.Prelude.{some, take-take}

append_client_apply-Stores :
    (env : Env) (client : Addr) (msg : Bytes) (s s' : Server)
    → append_client_apply_to_entries env client msg s ≡ ok s'
    → Stores env.codecs s.entries s'.entries
unfolding append_client_apply_to_entries insert_entry
append_client_apply-Stores env client msg s s' h =
    let (s₁, e, end) = >>=-eq-ok (insert_entry env (pos s.entries.size) _ _) _ h in
    let (es, inserted, put) = >>=-eq-ok (Entry.insert env.codecs s.entries _ _) _ e in
    inr (
      s.entries.size,
      _,
      inserted
          ∙ ap ok (
              ap (λ (t : Server). t.entries) (ok-injective put)
              ∙ ap (λ (t : Server). t.entries) (ok-injective end)),
    )

get_from_state_machine-entries :
    (client : Addr) (msg : Bytes) (s s' : Server)
    → get_from_state_machine client msg s ≡ ok s'
    → s'.entries ≡ s.entries
unfolding get_from_state_machine
get_from_state_machine-entries client msg s s' h =
    let (smc, _, end) = >>=-eq-ok (Controler.get_from_state_machine s.smc msg client) _ h in
    sym (ap (λ (t : Server). t.entries) (ok-injective end))

react_to_incoming_msg-Stores :
    (env : Env) (t : RpcType) (msg : Bytes) (peer : Addr) (s s' : Server)
    → react_to_incoming_msg env t msg peer s ≡ ok s'
    → Stores env.codecs s.entries s'.entries
unfolding react_to_incoming_msg
react_to_incoming_msg-Stores env RpcType.request_vote msg peer s s' h =
    Stores-of_part env.codecs s s' (react2rv-part env _ s s' h)
react_to_incoming_msg-Stores env RpcType.append_entry msg peer s s' h = react2ae-Stores env _ s s' h
react_to_incoming_msg-Stores env RpcType.resp_vote msg peer s s' h =
    inl (react2resp_rv-entries env _ s s' h)
react_to_incoming_msg-Stores env RpcType.resp_append msg peer s s' h =
    inl (react2resp_ae-entries env _ s s' h)
react_to_incoming_msg-Stores env RpcType.client_apply msg peer s s' h =
    append_client_apply-Stores env peer msg s s' h
react_to_incoming_msg-Stores env RpcType.client_query msg peer s s' h =
    inl (get_from_state_machine-entries peer msg s s' h)
react_to_incoming_msg-Stores env RpcType.resp_client_apply msg peer s s' h =
    inl (sym (ap (λ (t : Server). t.entries) (ok-injective h)))
react_to_incoming_msg-Stores env RpcType.resp_client_query msg peer s s' h =
    inl (sym (ap (λ (t : Server). t.entries) (ok-injective h)))
react_to_incoming_msg-Stores env RpcType.error msg peer s s' h =
    inl (sym (ap (λ (t : Server). t.entries) (ok-injective h)))

pub step-Stores :
    (env : Env) (e : Event) (s s' : Server)
    → step env e s ≡ ok s'
    → Stores env.codecs s.entries s'.entries
unfolding step write_resp_query_call
step-Stores env (incoming t msg peer) s s' h = react_to_incoming_msg-Stores env t msg peer s s' h
step-Stores env (timer_ended hook end') s s' h =
    Stores-of_part env.codecs s s' (on_timer-part env hook end' s s' h)
step-Stores env (applied index res) s s' h =
    Stores-of_part env.codecs s s' (sym (ap stored_part (ok-injective h)) ∙ told-part index res s)
step-Stores env (queried addr res) s s' h =
    inl (sym (ap (λ (t : Server). t.entries) (ok-injective h)))

-- An insertion into a valid log, where the new one fits.
Stores-IsValid :
    (c : Codecs) (es es' : Entries)
    → Stores c es es'
    → length (text c (log es')) < 2 ^ 31
    → IsValid c es
    → IsValid c es'
Stores-IsValid c es es' (inl same) fits v = subst (IsValid c) (sym same) v
Stores-IsValid c es es' (inr (index, e, inserted)) fits v =
    let (inside, _, _, cut) = insert-log c es es' index e v.stored inserted in
    let (es'', again, v', _) =
      insert-refines c es index e v inside (subst (λ l. length (text c l) < 2 ^ 31) cut fits) in
    subst (IsValid c) (ok-injective (sym again ∙ inserted)) v'

-- Every event that is handled without a fault keeps a log valid, in memory and in its two files, as
-- long as the log that it leaves has less than 2 ^ 31 bytes.
pub step-IsValid :
    (env : Env) (e : Event) (s s' : Server)
    → step env e s ≡ ok s'
    → length (text env.codecs (log s'.entries)) < 2 ^ 31
    → IsValid env.codecs s.entries
    → IsValid env.codecs s'.entries
step-IsValid env e s s' h fits v =
    Stores-IsValid env.codecs s.entries s'.entries (step-Stores env e s s' h) fits v

-- Each log that the history leaves, one event after another, has less than 2 ^ 31 bytes.
abbrev pub AllFit : Env → List Event → Server → Type 0
AllFit env [] s = Unit
AllFit env (e ∷ es) s =
    (s' : Server)
    → step env e s ≡ ok s'
    → (length (text env.codecs (log s'.entries)) < 2 ^ 31) × AllFit env es s'

run_events-IsValid :
    (env : Env) (es : List Event) (s s' : Server)
    → AllFit env es s
    → IsValid env.codecs s.entries
    → run_events env es s ≡ ok s'
    → IsValid env.codecs s'.entries
unfolding run_events
run_events-IsValid env [] s s' fit v h =
    subst (λ (t : Server). IsValid env.codecs t.entries) (ok-injective h) v
run_events-IsValid env (e ∷ es) s s' fit v h =
    let (t, first, rest) = >>=-eq-ok (step env e s) _ h in
    let (small, later) = fit t first in
    run_events-IsValid env es t s' later (step-IsValid env e s t first small v) rest

-- A server with a valid log handles any history of events without a fault, in which the logs stay
-- below 2 ^ 31 bytes, and stops. Where boost's timers count the handlers that wait, the codecs undo
-- each other, and the configuration file has a line for each server: `main`, started on the files
-- that the server has left, ends without a fault in a follower with the log that the server had.
pub survives :
    (env : Env) (es : List Event) (s s' : Server) (name config_path : Bytes) (port : ℤ)
    (fs : FileSystem) (servers : List Addr)
    → CountsHandlers env
    → IsLossless env.codecs.entry
    → IsLossless env.codecs.offsets
    → IsValid env.codecs s.entries
    → AllFit env es s
    → run_events env es s ≡ ok s'
    → Holds port s'.entries fs
    → read_file fs config_path ≡ some (written servers)
    → AllPlain servers
    → (s'' : Server) × (main env (arguments name config_path port) fs ≡ ok s'')
      × (log s''.entries ≡ log s'.entries)
      × (s''.state ≡ follower)
      × (s''.configuration ≡ servers)
survives env es s s' name config_path port fs servers counts lossless lossless_offsets v fit ran
      held config plain =
    let (s'', started, starts) =
      main-restarts env name config_path port fs s'.entries servers counts lossless lossless_offsets
        (run_events-IsValid env es s s' fit v ran) held config plain in
    (
      s'',
      started,
      ap log starts.entries_of
          ∙ take-take s'.entries.size s'.entries.size s'.entries.entries (omega arith),
      starts.state,
      starts.configured,
    )
