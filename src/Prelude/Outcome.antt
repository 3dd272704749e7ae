-- ===== src/Prelude/Outcome.antt =====
-- How a call ends: with a value, with the exception of a `throw_line` (or of the standard
-- library), or in undefined behaviour. Nothing below `main` catches an exception of the server.
use mathlib.Core.Path.{◌≡◌, refl}
use mathlib.Core.Logic.{◌⊎◌, inl, inr}
use mathlib.Core.Bool.{Bool, true, false}
use my_raft.Prelude.Tests.{if◌then◌else◌}

pub data Fault : Type 0 where
  -- RaftServer.cpp
  wait_not_zero_at_start term_decreases waits_in_trans2f waits_in_trans2c waits_in_ae : Fault
  timer_error trans2f_hook_cancelled trans2c_hook_cancelled rv_hook_cancelled : Fault
  entry_size_above_one two_primaries prelog_term_not_minus_one local_log_too_short : Fault
  entry_index_mismatch resp_ae_not_primary last_send_above_size refused_index_zero : Fault
  commit_index_decreases config_unreadable config_line : Fault
  -- entry/data.cpp
  data_create_failed data_open_failed : Fault
  -- entry/entry.cpp
  get_out_of_range insert_out_of_range offset_out_of_range : Fault
  -- state_machine/StateMachineControler.cpp, state_machine/ThreadPool.h
  write_threads_not_one pool_stopped : Fault
  -- rpc/connection.cpp, rpc/rpc_to_string.cpp, client/client.cpp
  body_read_error bad_address unknown_rpc_type : Fault
  -- `std::length_error` of a container
  length_error : Fault
  undefined_behaviour : Fault

pub data Outcome {ℓ} (A : Type ℓ) : Type ℓ where
  ok : A → Outcome A
  fail : Fault → Outcome A

-- One call after another: a fault ends the process.
infixl 5 ◌>>=◌
abbrev pub ◌>>=◌ {ℓ κ} : {X : Type ℓ} {Y : Type κ} → Outcome X → (X → Outcome Y) → Outcome Y
ok x >>= next = next x
fail fault >>= next = fail fault

-- Where both calls have ended with a value, so has the first.
pub >>=-eq-ok {ℓ κ} :
    {X : Type ℓ} {Y : Type κ} (first : Outcome X) (next : X → Outcome Y) {y : Y}
    → (first >>= next) ≡ ok y
    → (x : X) × (first ≡ ok x) × (next x ≡ ok y)
>>=-eq-ok (ok x) next h = (x, refl, h)
>>=-eq-ok (fail fault) next h = cc

pub ok-injective {ℓ} : {A : Type ℓ} {a b : A} → ok a ≡ ok b → a ≡ b
ok-injective h = cc

pub fail_ne_ok {ℓ} : {A : Type ℓ} {f : Fault} {a : A} → ◌≡◌ {A = Outcome A} (fail f) (ok a) → ⊥
fail_ne_ok h = cc

-- The branch that was taken.
pub if-eq-ok {ℓ} :
    {A : Type ℓ} (b : Bool) (m n : Outcome A) {a : A}
    → (if b then m else n) ≡ ok a
    → ((b ≡ true) × (m ≡ ok a)) ⊎ ((b ≡ false) × (n ≡ ok a))
if-eq-ok true m n h = inl (refl, h)
if-eq-ok false m n h = inr (refl, h)

-- A test that must have passed, or failed, since the other branch ends in a fault.
pub then-eq-ok {ℓ} :
    {A : Type ℓ} (b : Bool) (m : Outcome A) (f : Fault) {a : A}
    → (if b then m else fail f) ≡ ok a
    → (b ≡ true) × (m ≡ ok a)
then-eq-ok true m f h = (refl, h)
then-eq-ok false m f h = cc

pub else-eq-ok {ℓ} :
    {A : Type ℓ} (b : Bool) (m : Outcome A) (f : Fault) {a : A}
    → (if b then fail f else m) ≡ ok a
    → (b ≡ false) × (m ≡ ok a)
else-eq-ok true m f h = cc
else-eq-ok false m f h = (refl, h)

-- An optional step.
pub skip-eq-ok {ℓ} :
    {A : Type ℓ} (b : Bool) (a : A) (m : Outcome A) {a' : A}
    → (if b then ok a else m) ≡ ok a'
    → (a' ≡ a) ⊎ (m ≡ ok a')
skip-eq-ok true a m h = inl (cc)
skip-eq-ok false a m h = inr h
