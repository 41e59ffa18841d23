-- ===== src/Examples/WaitCombinators/Timing.antt =====
-- examples/wait_combinators.cc: how long its tasks take, and what they give.
use pollcoro.Base.{ℕ, zero, suc, ◌+◌, ◌*◌, ◌≡◌, refl, arith, List, ◌++◌}
use pollcoro.Waker.{Waker, wake}
use pollcoro.Task.{Body, returns, new}
use pollcoro.Task
use pollcoro.Yield
use pollcoro.Task.Evaluation.{
  Result, value, Settles, now, Evaluates, returning, awaiting_value, Settles-task,
}
use pollcoro.Examples.WaitCombinators.{
  YieldBody, yields, yield_times, delayed_value, partial_from, compute_partial,
}

module _ (w : Waker) (P : List Waker → Type 0) where
  Evaluates-yield_times :
      {T : Type 0} {v : Result ⊥ T} {rest : YieldBody T} (n : ℕ)
      → Evaluates yields w P 0 rest v
      → Evaluates yields w P n (yield_times n rest) v
  unfolding yields Yield.poll
  Evaluates-yield_times zero ev = ev
  Evaluates-yield_times (suc n) ev =
      awaiting_value {m = 0} {n = n} (now {s' = 0} {woken = wake w} refl)
        (Evaluates-yield_times n ev)

  module _ (notifies : (woken : List Waker) → P (woken ++ wake w)) where
    -- `delayed_value(v, delay)` is pending `delay` times and then gives `v`.
    pub Settles-delayed_value :
        (v delay : ℕ) → Settles (Task.poll yields) w P delay (new (delayed_value v delay)) (value v)
    Settles-delayed_value v delay =
        Settles-task yields w P notifies (Evaluates-yield_times delay (returning v))
    -- The sum of so many numbers from `i` on.

  Evaluates-partial :
      (i left sum : ℕ)
      → (r : ℕ) × Evaluates yields w P left (partial_from i left sum) (value r)
        × (2 * r + left ≡ 2 * sum + left * (2 * i + left))
  unfolding yields Yield.poll
  Evaluates-partial i zero sum = (sum, returning sum, omega arith)
  Evaluates-partial i (suc left) sum =
      let (r, ev, e) = Evaluates-partial (i + 1) left (sum + i) in
      (r, awaiting_value {m = 0} {n = left} (now {s' = 0} {woken = wake w} refl) ev, grind arith)

  -- The task `compute_partial(start, count)` is pending `count` times, and what these polls wake
  -- satisfies any property that a list has that ends with the calls of the waker; then its value
  -- is the sum of `count` numbers from `start` on.
  Settles-compute_partial :
      ((woken : List Waker) → P (woken ++ wake w))
      → (start count : ℕ)
      → (r : ℕ) × Settles (Task.poll yields) w P count (new (compute_partial start count)) (value r)
        × (2 * r + count ≡ count * (2 * start + count))
  Settles-compute_partial notifies start count =
      let (r, ev, e) = Evaluates-partial start count 0 in
      (r, Settles-task yields w P notifies ev, omega (arith, e))
