-- ===== src/Examples/Counter.antt =====
-- examples/mutex.cc, example 1: tasks `increment_counter`, whose polls interleave in any order, as under
-- `wait_all` or on several threads. Between two steps of a task any others may come.
pub mod Total
use pollcoro.Base.{ℕ, zero, suc, ◌+◌, ◌<◌, Bool, true, false, ◌≡◌}
use pollcoro.Mutex.{update, MutexGuard, unlock}
use pollcoro.Mutex.System.{System, Client, absent, holding, Step, with_client, initial}

-- Where a task is, with the rounds that it has left: it has no guard or is about to read `shared_counter`; it
-- has read it as `old_value` and yields; or it has written, and is about to drop its guard.
pub data Phase : Type 0 where
  outside : (left : ℕ) → Phase
  inside : (left old_value : ℕ) → Phase
  written : (left : ℕ) → Phase

-- The clients of `counter_mtx` are the tasks.
pub record Program : Type 0 where
  pub counter_mtx : System
  pub shared_counter : ℕ
  pub task : ℕ → Phase

abbrev pub is_outside : Phase → Bool
is_outside (outside left) = true
is_outside (inside left old_value) = false
is_outside (written left) = false

-- `counter_mtx` and `shared_counter` as they are declared, and tasks with a number of rounds for each.
abbrev pub initial_program : (ℕ → ℕ) → Program
initial_program times = record {
  counter_mtx = initial;
  shared_counter = 0;
  task = λ i. outside (times i);
}

-- One step of `n` tasks.
pub data TaskStep (racy : Bool) (n : ℕ) (p : Program) : Program → Type 0 where
  -- `co_await counter_mtx.lock()`: a step of the mutex by a task that is outside.
  moves :
      {s : System}
      → Step racy p.counter_mtx s
      → ((i : ℕ) → is_outside (p.task i) ≡ false → s.client i ≡ p.counter_mtx.client i)
      → TaskStep racy n p (record p { counter_mtx = s })
  -- `int old_value = shared_counter`
  reads :
      (i left : ℕ) {g : MutexGuard}
      → i < n
      → p.task i ≡ outside (suc left)
      → p.counter_mtx.client i ≡ holding g
      → TaskStep racy n p (record p { task = update p.task i (inside left p.shared_counter) })
  -- `shared_counter = old_value + 1`
  writes :
      (i left old_value : ℕ)
      → i < n
      → p.task i ≡ inside left old_value
      → TaskStep racy n p
          (record p { shared_counter = old_value + 1; task = update p.task i (written left) })
  -- The guard goes out of scope.
  releases :
      (i left : ℕ) {g : MutexGuard}
      → i < n
      → p.task i ≡ written left
      → p.counter_mtx.client i ≡ holding g
      → TaskStep racy n p (record p {
        counter_mtx = with_client p.counter_mtx (unlock p.counter_mtx.mutex g).0 i absent;
        task = update p.task i (outside left);
      })

pub data Run (racy : Bool) (n : ℕ) (times : ℕ → ℕ) : Program → Type 0 where
  start : Run racy n times (initial_program times)
  later : {p q : Program} → Run racy n times p → TaskStep racy n p q → Run racy n times q
