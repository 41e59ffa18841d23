-- ===== src/Resumable/ToPollable.antt =====
-- src/resumable.cppm: `to_pollable`, which polls what a resumable leaves in a shared state. The coroutine
-- of `to_pollable` awaits the resumable, a client of this module: it completes with a value or an
-- exception, in the call of `to_pollable` or later.
use pollcoro.Base.{Bool, true, false, if◌then◌else◌, List, [], ◌∷◌, some, ◌≡◌, refl}
use pollcoro.Waker.{Waker, noop, wake}
use pollcoro.Awaitable.{Poll, pending}
use pollcoro.Task.{Outcome, returned}
use pollcoro.Task.Evaluation.{Result, value, exception, last}

-- `resumable_shared_state`. The variant holds a default value at first.
pub record ResumableSharedState {ℓ κ} (E : Type ℓ) (T : Type κ) : Type (ℓ ⊔ κ) where
  pub done : Bool
  pub waker : Waker
  pub result : Result E T

-- The last waker of the list, after the given one.
abbrev pub last_of : Waker → List Waker → Waker
last_of w [] = w
last_of w (w' ∷ ws) = last_of w' ws

module _ {ℓ κ} {E : Type ℓ} {T : Type κ} where
  -- `to_pollable`, with the default value of the type.
  abbrev pub to_pollable : T → ResumableSharedState E T
  to_pollable default_value = record { done = false; waker = noop; result = value default_value }

  abbrev pub set_result : T → ResumableSharedState E T → ResumableSharedState E T × List Waker
  set_result v s = (record s { result = value v; done = true }, wake s.waker)

  abbrev pub set_exception : E → ResumableSharedState E T → ResumableSharedState E T × List Waker
  set_exception e s = (record s { result = exception e; done = true }, wake s.waker)

  -- The coroutine of `to_pollable` once the resumable has its result.
  unfoldable pub completed :
      Result E T → ResumableSharedState E T → ResumableSharedState E T × List Waker
  completed (value v) s = set_result v s
  completed (exception e) s = set_exception e s

  -- `resumable_shared_state::poll`, which `to_pollable_adapter::poll` calls.
  unfoldable pub poll : Poll (ResumableSharedState E T) (Outcome E T)
  poll w s =
      if s.done
      then some (s, last s.result, [])
      else some (record s { waker = w }, returned pending, [])

  -- Polls that are all pending, with these wakers: the state after them.
  abbrev pub PendingPolls :
      List Waker → ResumableSharedState E T → ResumableSharedState E T → Type (ℓ ⊔ κ)
  PendingPolls [] s t = s ≡ t
  PendingPolls (w ∷ ws) s t =
      (s' : ResumableSharedState E T) × (poll w s ≡ some (s', returned pending, []))
      × PendingPolls ws s' t

  PendingPolls-of :
      (ws : List Waker) (s : ResumableSharedState E T)
      → s.done ≡ false
      → PendingPolls ws s (record s { waker = last_of s.waker ws })
  unfolding poll
  PendingPolls-of [] s h = refl
  PendingPolls-of (w ∷ ws) s h =
      (record s { waker = w }, rw h refl, PendingPolls-of ws (record s { waker = w }) h)

  -- After any polls of a new `to_pollable`, all of them pending, the completion of the resumable
  -- with a value or an exception calls the waker of the last poll alone, and none if there was no
  -- poll, and the next poll gives the value or throws the exception.
  pub completed-wakes_last :
      (default_value : T) (ws : List Waker) (r : Result E T) (w : Waker)
      → (s : ResumableSharedState E T) × PendingPolls ws (to_pollable default_value) s
        × ((completed r s).1 ≡ wake (last_of noop ws))
        × ((t : ResumableSharedState E T) × (poll w (completed r s).0 ≡ some (t, last r, [])))
  unfolding completed poll
  completed-wakes_last default_value ws (value v) w =
      (_, PendingPolls-of ws (to_pollable default_value) refl, refl, (_, refl))
  completed-wakes_last default_value ws (exception e) w =
      (_, PendingPolls-of ws (to_pollable default_value) refl, refl, (_, refl))
