-- ===== src/Examples/Interop/Cppcoro.antt =====
-- examples/interop_cppcoro.cc: its pollcoro tasks.
use pollcoro.Base.{ℕ, zero, suc, ◌+◌, ◌*◌, ◌⊎◌}
use pollcoro.Task.{Body, returns, throws, awaits, Task, new}
use pollcoro.Examples.Interop.{InteropBody, await_operation, await_yield, await_yields}

module _ {A E : Type 0} where
  -- Its result is void.
  abbrev pub poll_with_yields : ℕ → InteropBody A E
  poll_with_yields count = await_yields count (returns 0)

  -- `sleep` is `to_pollable` of a `cppcoro_sleep`, whose result is void.
  abbrev pub poll_using_cppcoro : A → ℕ → InteropBody A E
  poll_using_cppcoro sleep v = await_operation sleep (λ _. returns v)

  -- It awaits two tasks.
  abbrev pub poll_chain_cppcoro : A → A → Body (Task (A ⊎ ℕ) (ℕ ⊎ Unit {0}) E ℕ) ℕ E ℕ
  poll_chain_cppcoro sleep sleep' =
      awaits (new (poll_using_cppcoro sleep 10))
        (λ a. awaits (new (poll_using_cppcoro sleep' 20)) (λ b. returns (a + b)) throws) throws

  -- Example 4
  abbrev pub failing_task : E → InteropBody A E
  failing_task intentional_failure = await_yield (throws intentional_failure)

  -- Example 5: `compute x` is `to_pollable(cppcoro_compute(x))`.
  abbrev pub chained_task : (ℕ → A) → InteropBody A E
  chained_task compute =
      await_operation (compute 5) (λ a. await_operation (compute a) (λ b. returns (a + b)))

  -- Example 6: the loop from `i` on, with so many rounds left; `sleep i` is the operation of a round.
  abbrev pub mixed_from : (ℕ → A) → ℕ → ℕ → ℕ → InteropBody A E
  mixed_from sleep i zero total = returns total
  mixed_from sleep i (suc left) total =
      await_yield (await_operation (sleep i) (λ _. mixed_from sleep (i + 1) left (total + i * 10)))

  abbrev pub mixed_task : (ℕ → A) → InteropBody A E
  mixed_task sleep = mixed_from sleep 1 3 0
