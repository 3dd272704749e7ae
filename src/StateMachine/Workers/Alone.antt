-- ===== src/StateMachine/Workers/Alone.antt =====
-- The workers of the two pools, where no two of their tasks overlap.
use my_raft.Prelude.{ℕ, suc, List, [], ◌∷◌}
use my_raft.StateMachine.EasyStateMachine
use my_raft.StateMachine.Workers.{Workers, Pool, write_pool, read_pool, Moment, begins, ends}

-- Each task ends before the next begins.
abbrev pub alone : List Pool → List Moment
alone [] = []
alone (pool ∷ pools) = begins pool ∷ ends ∷ alone pools

abbrev pub writes : List Pool → ℕ
writes [] = 0
writes (write_pool ∷ pools) = suc (writes pools)
writes (read_pool ∷ pools) = writes pools
