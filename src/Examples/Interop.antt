-- ===== src/Examples/Interop.antt =====
-- The tasks of examples/interop_asio.cc and examples/interop_cppcoro.cc, which await an operation of the
-- other library, through `from_asio` or `to_pollable`, or `yield()`. What they log is left out.
pub mod Asio
pub mod Cppcoro
pub mod Chains
use pollcoro.Base.{ℕ, zero, suc, ◌>>=◌, ◌⊎◌, inl, inr, Option, some}
use pollcoro.Waker.{Waker}
use pollcoro.Awaitable
use pollcoro.Awaitable.{Poll}
use pollcoro.Task.{Outcome, returned, thrown, Body, awaits, throws, Task}
use pollcoro.Yield

abbrev map_outcome {κ μ ν} :
    {E : Type κ} {R : Type μ} {R' : Type ν} → (R → R') → Outcome E R → Outcome E R'
map_outcome f (returned state) = returned (Awaitable.map f state)
map_outcome f (thrown e) = thrown e

-- A task with an `int` that awaits operations of type `A` and `yield()`.
abbrev pub InteropBody : Type 0 → Type 0 → Type 0
InteropBody A E = Body (A ⊎ ℕ) (ℕ ⊎ Unit {0}) E ℕ

module _ {A E : Type 0} where
  -- An operation of the other library, or `yield()`.
  unfoldable pub poll_either : Poll A (Outcome E ℕ) → Poll (A ⊎ ℕ) (Outcome E (ℕ ⊎ Unit {0}))
  poll_either operation w (inl a) = do
    (a', outcome, woken) ← operation w a
    some (inl a', map_outcome inl outcome, woken)
  poll_either operation w (inr count) = do
    (count', state, woken) ← Yield.poll w count
    some (inr count', returned (Awaitable.map inr state), woken)

  -- The value of an operation. `yield()` has none.
  abbrev pub on_value : (ℕ → InteropBody A E) → ℕ ⊎ Unit {0} → InteropBody A E
  on_value k (inl v) = k v
  on_value k (inr _) = k 0

  -- `co_await` of an operation, with its value, and of `yield()`. No exception is caught.
  abbrev pub await_operation : A → (ℕ → InteropBody A E) → InteropBody A E
  await_operation a k = awaits (inl a) (on_value k) throws

  abbrev pub await_yield : InteropBody A E → InteropBody A E
  await_yield rest = awaits (inr 1) (λ _. rest) throws

  abbrev pub await_yields : ℕ → InteropBody A E → InteropBody A E
  await_yields zero rest = rest
  await_yields (suc n) rest = await_yield (await_yields n rest)
