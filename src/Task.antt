-- ===== src/Task.antt =====
-- src/task.cppm with the promise of src/detail_promise.cppm: a coroutine polled as an awaitable.
pub mod Evaluation
use pollcoro.Base.{Bool, true, false, if◌then◌else◌, ◌>>=◌, List, [], ◌∷◌, ◌++◌, Option, none, some}
use pollcoro.Waker.{Waker, wake}
use pollcoro.Awaitable.{Poll, AwaitableState, ready, pending}

-- A poll returns a state or throws.
pub data Outcome {ℓ κ} (E : Type ℓ) (R : Type κ) : Type (ℓ ⊔ κ) where
  returned : AwaitableState R → Outcome E R
  thrown : E → Outcome E R

-- What a coroutine does from one point on, up to its next suspension: `co_return`, an exception that
-- it does not catch, or `co_await` of an awaitable with what follows its value or its exception. The
-- awaitables of a coroutine are states of one type with one poll.
pub data Body {ℓ κ μ ν} (S : Type ℓ) (R : Type κ) (E : Type μ) (T : Type ν)
    : Type (ℓ ⊔ κ ⊔ μ ⊔ ν) where
  returns : T → Body S R E T
  throws : E → Body S R E T
  awaits : S → (R → Body S R E T) → (E → Body S R E T) → Body S R E T

-- Where a coroutine is suspended.
pub data Point {ℓ κ μ ν} (S : Type ℓ) (R : Type κ) (E : Type μ) (T : Type ν)
    : Type (ℓ ⊔ κ ⊔ μ ⊔ ν) where
  initial : Body S R E T → Point S R E T
  awaiting : (R → Body S R E T) → (E → Body S R E T) → Point S R E T
  final : Point S R E T

-- A task with its promise: the suspended coroutine, `exception`, `current_awaitable` with the result
-- that it stores for `await_resume`, and the result of the task.
pub record Task {ℓ κ μ ν} (S : Type ℓ) (R : Type κ) (E : Type μ) (T : Type ν)
    : Type (ℓ ⊔ κ ⊔ μ ⊔ ν) where
  pub point : Point S R E T
  pub exception : Option E
  pub current_awaitable : Option S
  pub awaited : Option R
  pub result : Option T

module _ {ℓ κ μ ν} {S : Type ℓ} {R : Type κ} {E : Type μ} {T : Type ν} where
  abbrev pub new : Body S R E T → Task S R E T
  new body = record {
    point = initial body;
    exception = none;
    current_awaitable = none;
    awaited = none;
    result = none;
  }

  -- The body up to its next suspension: `return_value`, `unhandled_exception`, or `await_suspend`.
  abbrev pub proceed : Body S R E T → Task S R E T → Task S R E T
  proceed (returns v) t = record t { point = final; result = some v }
  proceed (throws e) t = record t { point = final; exception = some e }
  proceed (awaits s k h) t = record t {
    point = awaiting k h;
    exception = none;
    current_awaitable = some s;
    awaited = none;
  }

  -- `await_resume`, which rethrows or takes the stored result, and what follows it. `none` where no
  -- result is stored.
  abbrev await_resume :
      Option E
      → Option R
      → (R → Body S R E T)
      → (E → Body S R E T)
      → Task S R E T
      → Option (Task S R E T)
  await_resume (some e) r k h t =
      some (proceed (h e) (record t { current_awaitable = none; exception = none }))
  await_resume none (some r) k h t =
      some (proceed (k r) (record t { current_awaitable = none; exception = none }))
  await_resume none none k h t = none

  -- `handle_.resume()`. `none` for a finished coroutine.
  abbrev resume_at : Point S R E T → Task S R E T → Option (Task S R E T)
  resume_at (initial body) t = some (proceed body t)
  resume_at (awaiting k h) t = await_resume t.exception t.awaited k h t
  resume_at final t = none

  unfoldable pub resume : Task S R E T → Option (Task S R E T)
  resume t = resume_at t.point t

  abbrev done : Point S R E T → Bool
  done final = true
  done (initial body) = false
  done (awaiting k h) = false

  -- The end of `poll`: rethrow, or give the result, or wake if the coroutine ran.
  abbrev pub finish :
      Waker → Bool → List Waker → Task S R E T → Option (Task S R E T × Outcome E T × List Waker)
  finish w resumed woken t =
      if done t.point
      then elim t.exception [
        | some e ↦ some (record t { exception = none }, thrown e, woken)
        | none ↦ elim t.result [ some v ↦ some (t, returned (ready v), woken) | none ↦ none ]
      ]
      else if resumed
      then some (t, returned pending, woken ++ wake w)
      else some (t, returned pending, woken)

  module _ (awaitable : Poll S (Outcome E R)) where
    -- `promise.poll_ready`, with the `catch` of `poll`: whether to resume.
    abbrev poll_ready : Waker → Option S → Task S R E T → Option (Task S R E T × Bool × List Waker)
    poll_ready w none t = some (t, true, [])
    poll_ready w (some s) t = do
      (s', outcome, woken) ← awaitable w s
      elim outcome [
        | thrown e ↦
            some (record t { current_awaitable = some s'; exception = some e }, true, woken)
        | returned state ↦ elim state.result [
          | some r ↦ some (record t { current_awaitable = some s'; awaited = some r }, true, woken)
          | none ↦ some (record t { current_awaitable = some s' }, false, woken)
        ]
      ]

    unfoldable pub poll : Poll (Task S R E T) (Outcome E T)
    unfolding resume
    poll w t = if done t.point then finish w false [] t else (do
      (t', resumed, woken) ← poll_ready w t.current_awaitable t
      if resumed
          then (do t'' ← resume t'; finish w resumed woken t'')
          else finish w resumed woken t')
