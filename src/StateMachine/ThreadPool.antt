-- ===== src/StateMachine/ThreadPool.antt =====
-- state_machine/ThreadPool.h: a queue of tasks that the workers take from its front. The mutex
-- makes `enqueue` and a worker's turn atomic, so each is one step here.
use my_raft.Prelude.{Bool, true, false, List, [], ◌∷◌, ◌++◌, if◌then◌else◌}
use my_raft.Prelude.Outcome.{Outcome, ok, fail, pool_stopped}

pub record ThreadPool (T : Type 0) : Type 0 where
  pub tasks : List T
  pub stop : Bool

abbrev pub new_pool : {T : Type 0} → ThreadPool T
new_pool = record { tasks = []; stop = false }

unfoldable pub enqueue : {T : Type 0} → ThreadPool T → T → Outcome (ThreadPool T)
enqueue p t = if p.stop then fail pool_stopped else ok (record p { tasks = p.tasks ++ t ∷ [] })

-- A worker's turn: it waits while there is no task, leaves a stopped pool that is empty, and else
-- takes the front task, also of a stopped pool.
pub data Turn (T : Type 0) : Type 0 where
  waits : Turn T
  leaves : Turn T
  takes : T → ThreadPool T → Turn T

unfoldable pub worker_turn : {T : Type 0} → ThreadPool T → Turn T
worker_turn p = elim p.tasks [
  | [] ↦ if p.stop then leaves else waits
  | t ∷ rest ↦ takes t (record p { tasks = rest })
]

-- The destructor sets `stop` and waits until every worker has left.
unfoldable pub stop_pool : {T : Type 0} → ThreadPool T → ThreadPool T
stop_pool p = record p { stop = true }
