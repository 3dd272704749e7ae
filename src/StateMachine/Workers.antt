-- ===== src/StateMachine/Workers.antt =====
-- state_machine/StateMachineControler.cpp: the two lambdas, run by the workers of the two pools. Each
-- reads or writes the map of EasyStateMachine.cpp by `operator[]`, which the standard counts as a
-- change of a `std::map`; nothing keeps the threads of the two pools apart, and two such calls that
-- overlap are undefined behaviour.
pub mod Replay
pub mod Alone
use my_raft.Prelude.{
  Bytes, List, [], ◌∷◌, ◌++◌, Bool, true, false, Option, none, some, if◌then◌else◌,
}
use my_raft.Prelude.Outcome.{Outcome, ok, fail, ◌>>=◌, undefined_behaviour}
use my_raft.Prelude.Int.{ℤ}
use my_raft.Wire.{Addr, Codecs}
use my_raft.StateMachine.ThreadPool.{ThreadPool, Turn, waits, leaves, takes, worker_turn}
use my_raft.StateMachine.Controler.{WriteTask, ReadTask}
use my_raft.StateMachine.EasyStateMachine
use my_raft.StateMachine.EasyStateMachine.{EasyStateMachine}

-- What a task posts to the event loop: the server's method with its arguments.
pub data Post : Type 0 where
  write_resp_apply_call : ℤ → Bytes → Post
  write_resp_query_call : Addr → Bytes → Post

-- A task that has begun its access to the map and not ended it.
pub data Access : Type 0 where
  writing : WriteTask → Access
  reading : ReadTask → Access

-- `posts` are the calls that wait in `io_service_`, oldest first.
pub record Workers : Type 0 where
  pub write_thread_pool : ThreadPool WriteTask
  pub read_thread_pool : ThreadPool ReadTask
  pub state_machine : EasyStateMachine
  pub posts : List Post
  pub running : Option Access

unfoldable pub write_task : Codecs → WriteTask → Workers → Workers
write_task c t w =
    let applied = EasyStateMachine.apply c t.encoded_apply_str w.state_machine in
    record w {
      state_machine = applied.0;
      posts = w.posts ++ write_resp_apply_call t.index_to_apply applied.1 ∷ [];
    }

unfoldable pub read_task : Codecs → ReadTask → Workers → Workers
read_task c t w =
    let queried = EasyStateMachine.get c t.encoded_query_str w.state_machine in
    record w {
      state_machine = queried.0;
      posts = w.posts ++ write_resp_query_call t.client_addr queried.1 ∷ [];
    }

-- Which pool's worker has its turn.
pub data Pool : Type 0 where
  write_pool read_pool : Pool

-- A worker of the pool takes a task and begins its access to the map, or the access under way ends.
pub data Moment : Type 0 where
  begins : Pool → Moment
  ends : Moment

unfoldable pub is_writing : Option Access → Bool
is_writing (some (writing t)) = true
is_writing _ = false

unfoldable pub begin_access :
    {T : Type 0} → Option Access → Turn T → Workers → (T → ThreadPool T → Workers) → Outcome Workers
begin_access running waits w taken = ok w
begin_access running leaves w taken = ok w
begin_access none (takes t pool) w taken = ok (taken t pool)
begin_access (some other) (takes t pool) w taken = fail undefined_behaviour

unfoldable pub end_access : Codecs → Option Access → Workers → Workers
end_access c none w = w
end_access c (some (writing t)) w = write_task c t (record w { running = none })
end_access c (some (reading t)) w = read_task c t (record w { running = none })

-- The one worker of the write pool takes no task before the last has ended.
unfoldable pub turn : Codecs → Moment → Workers → Outcome Workers
turn c (begins write_pool) w =
    if is_writing w.running
    then ok w
    else begin_access w.running (worker_turn w.write_thread_pool) w
        (λ t pool. record w { write_thread_pool = pool; running = some (writing t) })
turn c (begins read_pool) w =
    begin_access w.running (worker_turn w.read_thread_pool) w
      (λ t pool. record w { read_thread_pool = pool; running = some (reading t) })
turn c ends w = ok (end_access c w.running w)

-- One moment after the other.
unfoldable pub turns : Codecs → List Moment → Workers → Outcome Workers
turns c [] w = ok w
turns c (moment ∷ moments) w = do w₁ ← turn c moment w; turns c moments w₁
