-- ===== src/Examples/Interop/Chains.antt =====
-- examples/interop_asio.cc, examples/interop_cppcoro.cc: what tasks that chain operations come to.
use pollcoro.Base.{ℕ, zero, suc, ◌+◌, inl, inr, List, ◌++◌, refl, >>=-some}
use pollcoro.Waker.{Waker, wake}
use pollcoro.Awaitable.{Poll}
use pollcoro.Yield
use pollcoro.Task.{Outcome, Body, returns, throws, awaits, new}
use pollcoro.Task
use pollcoro.Task.Evaluation.{
  Result, value, exception, Settles, now, later, Evaluates, returning, throwing, awaiting_value,
  awaiting_exception, Settles-task,
}
use pollcoro.Examples.Interop.{InteropBody, poll_either, await_operation, await_yield}
use pollcoro.Examples.Interop.Asio.{chain_from, pollcoro_chain}
use pollcoro.Examples.Interop.Cppcoro.{chained_task}

-- One after the other: the first exception is the result.
abbrev pub then : {E : Type 0} → Result E ℕ → (ℕ → Result E ℕ) → Result E ℕ
then (value v) k = k v
then (exception e) k = exception e

-- The sum of so many results from the `i`-th on, added to `total`.
abbrev pub sum_results : {E : Type 0} → (ℕ → Result E ℕ) → ℕ → ℕ → ℕ → Result E ℕ
sum_results r i zero total = value total
sum_results r i (suc left) total = then (r i) (λ v. sum_results r (i + 1) left (total + v))

module _ {A E : Type 0} (operation : Poll A (Outcome E ℕ)) (w : Waker)
    (P : List Waker → Type 0) where
  abbrev Comes : InteropBody A E → Result E ℕ → Type 0
  Comes b r = (n : ℕ) × Evaluates (poll_either operation) w P n b r

  Settles-value :
      {m v : ℕ} {a : A}
      → Settles operation w P m a (value v)
      → Settles (poll_either operation) w P m (inl a) (value (inl v))
  unfolding poll_either
  Settles-value (now p) = now (>>=-some _ p)
  Settles-value (later p c st) = later (>>=-some _ p) c (Settles-value st)

  Settles-exception :
      {m : ℕ} {a : A} {e : E}
      → Settles operation w P m a (exception e)
      → Settles (poll_either operation) w P m (inl a) (exception e)
  unfolding poll_either
  Settles-exception (now p) = now (>>=-some _ p)
  Settles-exception (later p c st) = later (>>=-some _ p) c (Settles-exception st)

  Comes-await_operation :
      {m : ℕ} {a : A} (r : Result E ℕ) (k : ℕ → InteropBody A E) (s : ℕ → Result E ℕ)
      → Settles operation w P m a r
      → ((v : ℕ) → Comes (k v) (s v))
      → Comes (await_operation a k) (then r s)
  Comes-await_operation (value v) k s st rest =
      let (n, ev) = rest v in (_, awaiting_value (Settles-value st) ev)
  Comes-await_operation (exception e) k s st rest =
      (_, awaiting_exception (Settles-exception st) (throwing e))

  Comes-await_yield : {b : InteropBody A E} (r : Result E ℕ) → Comes b r → Comes (await_yield b) r
  unfolding poll_either Yield.poll
  Comes-await_yield r (n, ev) =
      (_, awaiting_value {m = 0} {n = n} (now {s' = inr 0} {woken = wake w} refl) ev)

  Comes-returns : (v : ℕ) → Comes (returns v) (value v)
  Comes-returns v = (0, returning v)

  module _ {step : ℕ → A} {m : ℕ → ℕ} {r : ℕ → Result E ℕ}
      (settles : (x : ℕ) → Settles operation w P (m x) (step x) (r x)) where
    Comes-chain_from :
        (i left total : ℕ) → Comes (chain_from step i left total) (sum_results r i left total)
    Comes-chain_from i zero total = Comes-returns total
    Comes-chain_from i (suc left) total =
        Comes-await_operation (r i) _ _ (settles i)
          (λ v. Comes-await_yield _ (Comes-chain_from (i + 1) left (total + v)))

    Comes-chained_task :
        Comes (chained_task step) (then (r 5) (λ a. then (r a) (λ b. value (a + b))))
    Comes-chained_task =
        Comes-await_operation (r 5) _ _ (settles 5)
          (λ a. Comes-await_operation (r a) _ _ (settles a) (λ b. Comes-returns (a + b)))

    module _ (notifies : (woken : List Waker) → P (woken ++ wake w)) where
      -- If each operation settles with a value or an exception, where what its pending polls call
      -- satisfies a property, as does any list that ends with the calls of the waker, then the
      -- task `pollcoro_chain` settles likewise: with the sum of the values of its three
      -- operations, or with the exception of the first that throws.
      pub Settles-pollcoro_chain :
          (n : ℕ) × Settles
            (Task.poll (poll_either operation))
            w
            P
            n
            (new (pollcoro_chain step))
            (sum_results r 1 3 0)
      Settles-pollcoro_chain =
          let (n, ev) = Comes-chain_from 1 3 0 in (n, Settles-task _ w P notifies ev)

      -- `chained_task` adds the result of `compute(5)` and that of `compute` of this result.
      Settles-chained_task :
          (n : ℕ) × Settles
            (Task.poll (poll_either operation))
            w
            P
            n
            (new (chained_task step))
            (then (r 5) (λ a. then (r a) (λ b. value (a + b))))
      Settles-chained_task = let (n, ev) = Comes-chained_task in (n, Settles-task _ w P notifies ev)
