-- ===== src/Examples/WaitCombinators.antt =====
-- examples/wait_combinators.cc
pub mod Timing
pub mod Races
use pollcoro.Base.{
  ℕ, zero, suc, ◌+◌, ◌*◌, ◌>>=◌, if◌then◌else◌, ◌==◌, List, [], ◌∷◌, ◌++◌, Option, none, some,
  String, ◌⊎◌, inl, inr, ℤ, pos, negsuc, replicate,
}
use pollcoro.Waker.{Waker}
use pollcoro.Awaitable.{Poll, AwaitableState}
use pollcoro.Task.{Outcome, Body, returns, awaits, Task, new}
use pollcoro.Task
use pollcoro.Yield
use pollcoro.Wait.All
use pollcoro.Wait.All.{WaitAllAwaitable}
use pollcoro.Wait.Iter
use pollcoro.Wait.First
use pollcoro.Stream.Map
use pollcoro.BlockOn.{lift, calm, either, await}
use pollcoro.Console.{Token, number, integer, text, endl, each_then}

-- A coroutine that awaits `yield()` and nothing else.
abbrev pub YieldBody : Type 0 → Type 0
YieldBody T = Body ℕ (Unit {0}) ⊥ T

abbrev pub YieldTask : Type 0 → Type 0
YieldTask T = Task ℕ (Unit {0}) ⊥ T

unfoldable pub yields : Poll ℕ (Outcome ⊥ (Unit {0}))
yields = lift Yield.poll

unfoldable pub poll_task : {T : Type 0} → Poll (YieldTask T) (AwaitableState T)
unfolding yields
poll_task = calm (Task.poll yields)

-- `co_await pollcoro::yield()`, so many times, and then the rest.
abbrev pub yield_times : {T : Type 0} → ℕ → YieldBody T → YieldBody T
yield_times zero rest = rest
yield_times (suc n) rest = awaits 1 (λ _. yield_times n rest) (λ e. absurd e)

abbrev pub delayed_value : ℕ → ℕ → YieldBody ℕ
delayed_value value delay = yield_times delay (returns value)

-- The lambda of `test_wait_all_mixed`.
abbrev pub hello : YieldBody String
hello = yield_times 1 (returns "hello")

abbrev pub slow_operation : YieldBody ℤ
slow_operation = yield_times 100 (returns (pos 42))

abbrev pub timeout_marker : ℕ → YieldBody ℤ
timeout_marker timeout_polls = yield_times timeout_polls (returns (negsuc 0))

-- The loop of `compute_partial` from `i` on, with so many rounds left.
abbrev pub partial_from : ℕ → ℕ → ℕ → YieldBody ℕ
partial_from i zero sum = returns sum
partial_from i (suc left) sum = awaits 1 (λ _. partial_from (i + 1) left (sum + i)) (λ e. absurd e)

abbrev pub compute_partial : ℕ → ℕ → YieldBody ℕ
compute_partial start count = partial_from start count 0

-- The tasks `delayed_value(value, delay)` of a list of values with their delays.
abbrev pub delayed_values : List (ℕ × ℕ) → List (YieldTask ℕ)
delayed_values [] = []
delayed_values ((v, delay) ∷ xs) = new (delayed_value v delay) ∷ delayed_values xs

-- The components of a result tuple.
abbrev three : List ℕ → Option (ℕ × ℕ × ℕ)
three (a ∷ b ∷ c ∷ []) = some (a, b, c)
three _ = none

abbrev four : List ℕ → Option (ℕ × ℕ × ℕ × ℕ)
four (a ∷ b ∷ c ∷ d ∷ []) = some (a, b, c, d)
four _ = none

abbrev number_and_text : List (ℕ ⊎ String) → Option (ℕ × String)
number_and_text (inl n ∷ inr s ∷ []) = some (n, s)
number_and_text _ = none

-- The tasks of the loop of `test_wait_all_vector`, from `i` on.
abbrev tasks_from : ℕ → ℕ → List (YieldTask ℕ)
tasks_from i zero = []
tasks_from i (suc left) = new (delayed_value (i * 10) i) ∷ tasks_from (i + 1) left

module _ (rounds : ℕ) (w : Waker) where
  unfoldable pub test_wait_all_variadic : Option (List Token)
  unfolding await poll_task
  test_wait_all_variadic = do
    (_, results) ← await (All.poll poll_task) rounds w (
        All.new
          (new (delayed_value 10 3) ∷ new (delayed_value 20 1) ∷ new (delayed_value 30 2) ∷ []))
    (a, b, c) ← three results
    some (
        text "=== wait_all (variadic) ==="
        ∷ endl
        ∷ text "Results: "
        ∷ number a
        ∷ text ", "
        ∷ number b
        ∷ text ", "
        ∷ number c
        ∷ endl
        ∷ text "Expected: 10, 20, 30"
        ∷ endl
        ∷ endl
        ∷ [])

  -- The two awaitables have different types: a sum, and a sum of their results.
  unfoldable pub test_wait_all_mixed : Option (List Token)
  unfolding await poll_task
  test_wait_all_mixed = do
    (_, results) ←
        await (All.poll (either (Map.poll inl poll_task) (Map.poll inr poll_task))) rounds w
          (All.new (inl (new (delayed_value 42 2)) ∷ inr (new hello) ∷ []))
    (num, str) ← number_and_text results
    some (
        text "=== wait_all (mixed types) ==="
        ∷ endl
        ∷ text "Results: "
        ∷ number num
        ∷ text ", "
        ∷ text str
        ∷ endl
        ∷ endl
        ∷ [])

  unfoldable pub test_wait_all_vector : Option (List Token)
  unfolding await poll_task
  test_wait_all_vector = do
    (_, results) ← await (Iter.poll poll_task) rounds w (Iter.new (tasks_from 0 5))
    some (
        (text "=== wait_all (vector) ===" ∷ endl ∷ text "Results: " ∷ each_then " " results)
        ++ endl ∷ text "Expected: 0 10 20 30 40" ∷ endl ∷ endl ∷ [])

  unfoldable pub test_wait_first_variadic : Option (List Token)
  unfolding await poll_task
  test_wait_first_variadic = do
    (_, (result, index)) ←
        await (First.poll poll_task) rounds w
          (new (delayed_value 10 5) ∷ new (delayed_value 20 1) ∷ new (delayed_value 30 3) ∷ [])
    some (
        text "=== wait_first (variadic) ==="
        ∷ endl
        ∷ text "First result: "
        ∷ number result
        ∷ text " (index "
        ∷ number index
        ∷ text ")"
        ∷ endl
        ∷ text "Expected: 20 (index 1)"
        ∷ endl
        ∷ endl
        ∷ [])

  unfoldable pub test_wait_first_vector : Option (List Token)
  unfolding await poll_task
  test_wait_first_vector = do
    (_, (result, index)) ← await (First.poll poll_task) rounds w (
        new (delayed_value 100 10)
        ∷ new (delayed_value 200 5)
        ∷ new (delayed_value 300 1)
        ∷ new (delayed_value 400 8)
        ∷ [])
    some (
        text "=== wait_first (vector) ==="
        ∷ endl
        ∷ text "First result: "
        ∷ number result
        ∷ text " (index "
        ∷ number index
        ∷ text ")"
        ∷ endl
        ∷ text "Expected: 300 (index 2)"
        ∷ endl
        ∷ endl
        ∷ [])

  unfoldable pub test_timeout_pattern : Option (List Token)
  unfolding await poll_task
  test_timeout_pattern = do
    (_, (result, index)) ←
        await (First.poll poll_task) rounds w (new slow_operation ∷ new (timeout_marker 10) ∷ [])
    some (
        (text "=== Timeout Pattern ===" ∷ endl ∷ [])
        ++ (if index == 0
            then text "Operation completed with result: " ∷ integer result ∷ endl ∷ []
            else text "Operation timed out!" ∷ endl ∷ [])
        ++ endl ∷ [])

  unfoldable pub test_parallel_computation : Option (List Token)
  unfolding await poll_task
  test_parallel_computation = do
    (_, results) ← await (All.poll poll_task) rounds w (
        All.new (
          new (compute_partial 0 25)
          ∷ new (compute_partial 25 25)
          ∷ new (compute_partial 50 25)
          ∷ new (compute_partial 75 25)
          ∷ []))
    (r1, r2, r3, r4) ← four results
    some (
        text "=== Parallel Computation ==="
        ∷ endl
        ∷ text "Partial sums: "
        ∷ number r1
        ∷ text " + "
        ∷ number r2
        ∷ text " + "
        ∷ number r3
        ∷ text " + "
        ∷ number r4
        ∷ endl
        ∷ text "Total (sum 0-99): "
        ∷ number (r1 + r2 + r3 + r4)
        ∷ endl
        ∷ text "Expected: 4950"
        ∷ endl
        ∷ endl
        ∷ [])
