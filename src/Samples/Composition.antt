-- ===== src/Samples/Composition.antt =====
-- The theorems on parts that work together, at concrete inputs.
use pollcoro.Base.{ℕ, ◌+◌, ◌≤◌, [], ◌∷◌, true, false, none, some, ◌≡◌, refl, arith}
use pollcoro.Waker.{Waker, wake, will_wake}
use pollcoro.Awaitable.{Poll, ready}
use pollcoro.Task.{Outcome, returned, thrown, new}
use pollcoro.Task
use pollcoro.Task.Evaluation.{Result, value, exception, Settles}
use pollcoro.Task.Evaluation
use pollcoro.BlockOn.{lift, notified, block_on}
use pollcoro.BlockOn.Progress.{Notifies, notified-append, notified-append_left}
use pollcoro.Wait.All
use pollcoro.Wait.All.Alert.{EachSettles, running, none_left, Settles-wait_all, now, later}
use pollcoro.Mutex.{MutexGuard, update, try_lock}
use pollcoro.Mutex.System.{holding, with_client, tries}
use pollcoro.Examples.CustomAwaitable.{countdown_poll}
use pollcoro.Examples.Fib.{FibTask, fib_poll, async_fibonacci}
use pollcoro.Examples.Fib.Value.{block_on-async_fibonacci}
use pollcoro.Examples.Counter.{
  Phase, outside, inside, Program, initial_program, Run, moves, reads, writes,
}
use pollcoro.Examples.Counter
use pollcoro.Examples.Counter.Total.{remaining, sum_below, counter-increments}
use pollcoro.Examples.Interop.{poll_either}
use pollcoro.Examples.Interop.Asio.{pollcoro_chain}
use pollcoro.Examples.Interop.Chains.{Settles-pollcoro_chain}

abbrev waker : Waker
waker = record { wake_function = 1; data_ptr = 7 }

-- Countdowns from 2 and from 1.
both_settle :
    EachSettles countdown_poll waker (Notifies waker) 2 (2 ∷ 1 ∷ []) (none ∷ none ∷ []) (0 ∷ 0 ∷ [])
unfolding countdown_poll wake notified will_wake
both_settle =
    running (later {s' = 1} refl refl (later {s' = 0} refl refl (now refl)))
      (running (later {s' = 0} refl refl (now refl)) none_left)

Settles-wait_all_example :
    (n : ℕ) × (n ≤ 2)
    × Settles
        (lift {E = ⊥} (All.poll countdown_poll))
        waker
        (Notifies waker)
        n
        (All.new (2 ∷ 1 ∷ []))
        (value (0 ∷ 0 ∷ []))
Settles-wait_all_example =
    Settles-wait_all countdown_poll waker (Notifies waker) (notified-append_left waker)
      (notified-append waker) 2 (All.new (2 ∷ 1 ∷ [])) both_settle

block_on-async_fibonacci_example :
    (s : FibTask 11) × (block_on
        (Task.poll (lift (All.poll (fib_poll 10))))
        11
        waker
        (async_fibonacci 11 10)
      ≡ some (s, value 55))
block_on-async_fibonacci_example =
    block_on-async_fibonacci waker refl 10 10 (omega arith) 11 (omega arith)

abbrev guard : MutexGuard
guard = record { state = true }

-- Three tasks with three rounds each; task 0 has the lock.
abbrev begun : Program
begun = initial_program (λ _. 3)

abbrev taken : Program
taken = record begun {
  counter_mtx =
      with_client begun.counter_mtx (record begun.counter_mtx.mutex { locked = true }) 0
        (holding guard);
}

abbrev has_read : Program
has_read = record taken { task = update taken.task 0 (inside 2 0) }

abbrev has_written : Program
has_written = record has_read {
  shared_counter = 1;
  task = update has_read.task 0 (Phase.written 2);
}

has_written-Run : Run false 3 (λ _. 3) has_written
unfolding try_lock
has_written-Run =
    Counter.later
      (Counter.later (Counter.later Counter.start (moves (tries 0 refl refl) (λ i h. cc)))
        (reads 0 2 {g = guard} (omega arith) refl refl))
      (writes 0 2 0 (omega arith) refl)

counter-increments_example :
    has_written.shared_counter + sum_below 3 (λ i. remaining (has_written.task i))
    ≡ sum_below 3 (λ _. 3)
counter-increments_example = counter-increments has_written-Run

-- An operation that is its value.
abbrev at_once : Poll ℕ (Outcome ℕ ℕ)
at_once w v = some (v, returned (ready v), [])

Settles-pollcoro_chain_example :
    (n : ℕ) × Settles
      (Task.poll (poll_either at_once))
      waker
      (λ _. Unit)
      n
      (new (pollcoro_chain (λ i. i + 9)))
      (value 33)
Settles-pollcoro_chain_example =
    Settles-pollcoro_chain at_once waker (λ _. Unit {0}) {step = λ i. i + 9} {m = λ _. 0}
      {r = λ i. value (i + 9)} (λ x. Evaluation.now {s' = x + 9} {woken = []} refl) (λ _. tt)
