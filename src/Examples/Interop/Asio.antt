-- ===== src/Examples/Interop/Asio.antt =====
-- examples/interop_asio.cc: the pollcoro tasks of its examples, and what ASIO coroutines make of them. A timer
-- only delays, and is left out.
use pollcoro.Base.{ℕ, zero, suc, ◌+◌, ◌*◌, ◌>>=◌, Option, none, some}
use pollcoro.Waker.{Waker}
use pollcoro.Awaitable.{Poll}
use pollcoro.Task.{Outcome, returns, Task, new}
use pollcoro.Task
use pollcoro.Task.Evaluation.{Result, value, exception}
use pollcoro.Examples.AsioInterop.{new_operation, poll_loop}
use pollcoro.Examples.Interop.{InteropBody, poll_either, await_operation, await_yield, await_yields}

module _ {A E : Type 0} where
  -- Its result is void.
  abbrev pub poll_with_yields : ℕ → InteropBody A E
  poll_with_yields count = await_yields count (returns 0)

  -- Example 1. The first operation is void.
  abbrev pub pollcoro_with_asio : A → A → InteropBody A E
  pollcoro_with_asio timer compute =
      await_operation timer (λ _. await_operation compute (λ v. returns (v * 2)))

  -- Example 3
  abbrev pub nested_task : A → InteropBody A E
  nested_task operation = await_operation operation returns

  -- Example 4
  abbrev pub compute : ℕ → InteropBody A E
  compute i = await_yield (returns (i * 10))

  -- Example 5: the loop from `i` on, with so many rounds left.
  abbrev pub adding_from : ℕ → ℕ → ℕ → InteropBody A E
  adding_from i zero sum = returns sum
  adding_from i (suc left) sum = await_yield (adding_from (i + 1) left (sum + i))

  -- Example 6
  abbrev pub task_a : ℕ → InteropBody A E
  task_a id = await_yields 3 (returns (id * 100))

  -- Example 7: the loop from `i` on, with so many rounds left. `step` is the operation of a round.
  abbrev pub chain_from : (ℕ → A) → ℕ → ℕ → ℕ → InteropBody A E
  chain_from step i zero total = returns total
  chain_from step i (suc left) total =
      await_operation (step i) (λ v. await_yield (chain_from step (i + 1) left (total + v)))

  abbrev pub pollcoro_chain : (ℕ → A) → InteropBody A E
  pollcoro_chain step = chain_from step 1 3 0

  -- Example 8
  abbrev pub pollcoro_outer : A → InteropBody A E
  pollcoro_outer operation = await_operation operation (λ v. await_yield (returns (v + 11)))

  module _ (operation : Poll A (Outcome E ℕ)) (rounds : ℕ) (w : Waker) where
    -- `co_await to_asio(executor, task, use_awaitable)` of a task that ends in the first call of `poll`.
    unfoldable pub await_to_asio : InteropBody A E → Option (Result E ℕ)
    unfolding poll_loop poll_either
    await_to_asio body = do
      op ← poll_loop (Task.poll (poll_either operation)) w rounds (new_operation (new body))
      op.handled

    abbrev the_value : Result E ℕ → Option ℕ
    the_value (value v) = some v
    the_value (exception e) = none

    -- What the futures of the examples give: `asio_main` of examples 2, 4, 5 and 6.
    unfoldable pub asio_uses_pollcoro : Option ℕ
    unfolding await_to_asio
    asio_uses_pollcoro = do _ ← await_to_asio (poll_with_yields 3); some 100

    unfoldable pub timer_from : ℕ → ℕ → ℕ → Option ℕ
    unfolding await_to_asio
    timer_from i zero total = some total
    timer_from i (suc left) total = do
      r ← await_to_asio (compute i)
      v ← the_value r
      timer_from (i + 1) left (total + v)

    abbrev pub asio_timer_with_pollcoro : Option ℕ
    asio_timer_with_pollcoro = timer_from 1 3 0

    unfoldable pub pollcoro_returning_values : Option ℕ
    unfolding await_to_asio
    pollcoro_returning_values = do
      r ← await_to_asio (adding_from 1 5 0)
      v ← the_value r
      some (v * 2)

    unfoldable pub concurrent_pollcoro_in_asio : Option (ℕ × ℕ × ℕ)
    unfolding await_to_asio
    concurrent_pollcoro_in_asio = do
      r ← await_to_asio (task_a 1)
      s ← await_to_asio (task_a 2)
      t ← await_to_asio (task_a 3)
      a ← the_value r
      b ← the_value s
      c ← the_value t
      some (a, b, c)
