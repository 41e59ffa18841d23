-- ===== src/StreamAwaitable.antt =====
-- src/stream_awaitable.cppm: the outcome of polling a stream. `Poll S (StreamAwaitableState A)` is
-- a stream of `A` whose object has the state `S`; the name is that of its member `poll_next`.
use pollcoro.Base.{Bool, true, false, if◌then◌else◌, Option, none, some}

pub record StreamAwaitableState {ℓ} (A : Type ℓ) : Type ℓ where
  pub result : Option A
  pub done : Bool

module _ {ℓ} {A : Type ℓ} where
  abbrev pub ready : A → StreamAwaitableState A
  ready a = record { result = some a; done = false }

  abbrev pub pending : StreamAwaitableState A
  pending = record { result = none; done = false }

  abbrev pub finished : StreamAwaitableState A
  finished = record { result = none; done = true }

  abbrev has_value : Option A → Bool
  has_value none = false
  has_value (some a) = true

  abbrev pub is_ready : StreamAwaitableState A → Bool
  is_ready r = has_value r.result

  abbrev pub is_done : StreamAwaitableState A → Bool
  is_done r = r.done

  -- `*std::exchange(result_, std::nullopt)`: `none` where the source dereferences no value.
  abbrev pub take_result : StreamAwaitableState A → Option (A × StreamAwaitableState A)
  take_result r = elim r.result [ none ↦ none | some a ↦ some (a, record r { result = none }) ]

  abbrev pub map {κ} :
      {B : Type κ} → (A → B) → StreamAwaitableState A → Option (StreamAwaitableState B)
  map f r =
      if is_done r
      then some (record { result = none; done = true })
      else if is_ready r
      then elim (take_result r) [
        | none ↦ none
        | some (a, _) ↦ some (record { result = some (f a); done = false })
      ]
      else some (record { result = none; done = false })
