-- ===== src/Awaitable.antt =====
-- src/awaitable.cppm: the outcome of a poll, and what an awaitable is.
pub mod Timing
pub mod Trace
use pollcoro.Base.{Bool, true, false, Option, none, some, List}
use pollcoro.Waker.{Waker}

-- A poll takes the waker and the state of the awaitable. It gives the new state, the outcome and the
-- wakers that were woken meanwhile, in order. `none` is a poll that has no outcome in the source: it
-- does not return, or it dereferences a null pointer.
abbrev pub Poll {ℓ κ} : Type ℓ → Type κ → Type (ℓ ⊔ κ)
Poll S R = Waker → S → Option (S × R × List Waker)

pub record AwaitableState {ℓ} (A : Type ℓ) : Type ℓ where
  pub result : Option A

module _ {ℓ} {A : Type ℓ} where
  abbrev pub ready : A → AwaitableState A
  ready a = record { result = some a }

  abbrev pub pending : AwaitableState A
  pending = record { result = none }

  abbrev has_value : Option A → Bool
  has_value none = false
  has_value (some a) = true

  abbrev pub is_ready : AwaitableState A → Bool
  is_ready r = has_value r.result

  -- `*std::exchange(result_, std::nullopt)`: `none` where the source dereferences no value.
  abbrev pub take_result : AwaitableState A → Option (A × AwaitableState A)
  take_result r = elim r.result [ none ↦ none | some a ↦ some (a, pending) ]

  abbrev pub map {κ} : {B : Type κ} → (A → B) → AwaitableState A → AwaitableState B
  map f r = elim r.result [
    | none ↦ record { result = none }
    | some a ↦ record { result = some (f a) }
  ]
