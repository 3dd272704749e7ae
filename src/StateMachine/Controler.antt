-- ===== src/StateMachine/Controler.antt =====
-- state_machine/StateMachineControler.h and .cpp: what is committed goes to the write pool, entry by
-- entry; queries go to the read pool.
pub mod Applied
use my_raft.Prelude.{ℕ, zero, suc, true, false, Bytes, if◌then◌else◌, eqb}
use my_raft.Prelude.Int.{ℤ, pos, ◌+ℤ◌, ◌-ℤ◌, ltb_ℤ, pos_part, minus_one}
use my_raft.Prelude.Outcome.{Outcome, ok, fail, ◌>>=◌, write_threads_not_one}
use my_raft.Wire.{Addr}
use my_raft.Entry.{Entries, get}
use my_raft.StateMachine.ThreadPool.{ThreadPool, new_pool, enqueue}

-- The tasks that the two lambdas make.
pub record WriteTask : Type 0 where
  pub index_to_apply : ℤ
  pub encoded_apply_str : Bytes

pub record ReadTask : Type 0 where
  pub encoded_query_str : Bytes
  pub client_addr : Addr

pub record Controler : Type 0 where
  pub applied_index : ℤ
  pub commit_index : ℤ
  pub write_thread_pool : ThreadPool WriteTask
  pub read_thread_pool : ThreadPool ReadTask

unfoldable pub new_controler : ℕ → Outcome Controler
new_controler write_thread_num =
    if eqb write_thread_num 1
    then ok (record {
      applied_index = minus_one;
      commit_index = minus_one;
      write_thread_pool = new_pool;
      read_thread_pool = new_pool;
    })
    else fail write_threads_not_one

unfoldable pub apply_to_state_machine : Entries → Controler → ℤ → Outcome Controler
apply_to_state_machine es c index_to_apply = do
  entry ← get es index_to_apply
  pool ←
      enqueue c.write_thread_pool
        (record { index_to_apply = index_to_apply; encoded_apply_str = entry.msg })
  ok (record c { write_thread_pool = pool; applied_index = index_to_apply })

-- `while (applied_index_ < commit_index_)`; each round raises `applied_index_` by one.
unfoldable pub apply_loop : ℕ → Entries → Controler → Outcome Controler
apply_loop zero es c = ok c
apply_loop (suc fuel) es c = elim (ltb_ℤ c.applied_index c.commit_index) [
  | true ↦ apply_to_state_machine es c (c.applied_index +ℤ pos 1) >>= λ c'. apply_loop fuel es c'
  | false ↦ ok c
]

unfoldable pub update_commit_index_and_apply : Entries → Controler → ℤ → Outcome Controler
update_commit_index_and_apply es c new_index =
    apply_loop (pos_part (new_index -ℤ c.applied_index)) es (record c { commit_index = new_index })

unfoldable pub get_from_state_machine : Controler → Bytes → Addr → Outcome Controler
get_from_state_machine c encoded_query_str client_addr = do
  pool ←
      enqueue c.read_thread_pool
        (record { encoded_query_str = encoded_query_str; client_addr = client_addr })
  ok (record c { read_thread_pool = pool })
