-- ===== src/StateMachine.antt =====
-- state_machine/: the thread pools, the controler between the log and the state machine, the example
-- state machine, and the workers that run it.
pub mod ThreadPool
pub mod Controler
pub mod EasyStateMachine
pub mod Workers
