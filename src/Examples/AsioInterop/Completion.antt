-- ===== src/Examples/AsioInterop/Completion.antt =====
-- examples/interop_asio.cc: `from_asio` wakes its waiter and gives it the result.
use pollcoro.Base.{false, [], some, ◌≡◌, refl}
use pollcoro.Waker.{Waker, wake}
use pollcoro.Awaitable.{pending}
use pollcoro.Task.{returned}
use pollcoro.Task.Evaluation.{Result, value, exception, last}
use pollcoro.Examples.AsioInterop.{AsioSharedState, completed, poll, start, destroy}

module _ {ℓ κ} {E : Type ℓ} {T : Type κ} where
  -- If the ASIO operation has not completed, then a poll is pending; when the operation then
  -- completes with a value or an exception, it calls the wakers of that poll, and the next poll
  -- gives the value or throws the exception.
  pub completed-wakes :
      (w w' : Waker) (r : Result E T) (s : AsioSharedState E T)
      → s.done ≡ false
      → (s' : AsioSharedState E T) × (poll w s ≡ some (s', returned pending, []))
        × ((completed r s').1 ≡ wake w)
        × ((t : AsioSharedState E T) × (poll w' (completed r s').0 ≡ some (t, last r, [])))
  unfolding poll
  completed-wakes w w' (value v) s h =
      (record (start s) { stored_waker = w }, rw h refl, refl, (_, refl))
  completed-wakes w w' (exception e) s h =
      (record (start s) { stored_waker = w }, rw h refl, refl, (_, refl))

  -- After the destructor of the awaitable, the completion of the operation calls no waker.
  destroy-silent : (r : Result E T) (s : AsioSharedState E T) → (completed r (destroy s)).1 ≡ []
  unfolding wake
  destroy-silent (value v) s = refl
  destroy-silent (exception e) s = refl
