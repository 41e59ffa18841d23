-- ===== src/Stream/Coroutine.antt =====
-- src/stream.cppm with the promise of src/detail_promise.cppm: a coroutine that yields, polled as a
-- stream.

pub mod Generation
use pollcoro.Base.{Bool, true, false, if◌then◌else◌, ◌>>=◌, List, [], ◌++◌, Option, none, some}
use pollcoro.Waker.{Waker, wake}
use pollcoro.Awaitable.{Poll}
use pollcoro.StreamAwaitable.{StreamAwaitableState, ready, pending, finished}
use pollcoro.Task.{Outcome, returned, thrown}

-- What a coroutine does from its frame up to its next suspension: it ends, leaves an exception
-- uncaught, awaits, or yields a value or a stream, and which frame comes after that.
pub data Suspension {ℓ} (F S Q R E A : Type ℓ) : Type ℓ where
  finishes : Suspension F S Q R E A
  throws : E → Suspension F S Q R E A
  awaits : S → (R → F) → (E → F) → Suspension F S Q R E A
  yields : A → F → Suspension F S Q R E A
  yields_from : Q → F → Suspension F S Q R E A

-- Where the coroutine is suspended.
pub data Point {ℓ} (F R E : Type ℓ) : Type ℓ where
  at : F → Point F R E
  awaiting : (R → F) → (E → F) → Point F R E
  final : Point F R E

-- `current_awaitable` with its poll function.
pub data Current {ℓ} (S Q : Type ℓ) : Type ℓ where
  nothing : Current S Q
  awaitable : S → Current S Q
  stream : Q → Current S Q

pub record Coroutine {ℓ} (F S Q R E A : Type ℓ) : Type ℓ where
  pub point : Point F R E
  pub exception : Option E
  pub current : Current S Q
  pub awaited : Option R
  pub result : Option A

abbrev done {ℓ} : {F R E : Type ℓ} → Point F R E → Bool
done final = true
done (at f) = false
done (awaiting k h) = false

module _ {ℓ} {F S Q R E A : Type ℓ} where
  abbrev pub new : F → Coroutine F S Q R E A
  new f = record {
    point = at f;
    exception = none;
    current = nothing;
    awaited = none;
    result = none;
  }

  -- Up to the next suspension: `unhandled_exception`, `await_suspend` or `yield_value`.
  abbrev pub proceed : Suspension F S Q R E A → Coroutine F S Q R E A → Coroutine F S Q R E A
  proceed finishes t = record t { point = final }
  proceed (throws e) t = record t { point = final; exception = some e }
  proceed (awaits s k h) t = record t {
    point = awaiting k h;
    exception = none;
    current = awaitable s;
    awaited = none;
  }
  proceed (yields a f) t = record t { point = at f; result = some a }
  proceed (yields_from q f) t = record t { point = at f; exception = none; current = stream q }

  -- The end of `poll_next`: the value, the end, or a wake if the coroutine ran.
  abbrev pub finish :
      Waker
      → Bool
      → List Waker
      → Coroutine F S Q R E A
      → Coroutine F S Q R E A × StreamAwaitableState A × List Waker
  finish w resumed woken t = elim t.result [
    | some a ↦ (record t { result = none }, ready a, woken)
    | none ↦
        if done t.point
        then (t, finished, woken)
        else (t, pending, if resumed then woken ++ wake w else woken)
  ]

  module _ (step : F → Suspension F S Q R E A) where
    -- `await_resume`, which rethrows or takes the stored result. `none` where no result is stored.
    abbrev await_resume :
        Option E
        → Option R
        → (R → F)
        → (E → F)
        → Coroutine F S Q R E A
        → Option (Coroutine F S Q R E A)
    await_resume (some e) r k h t =
        some (proceed (step (h e)) (record t { current = nothing; exception = none }))
    await_resume none (some r) k h t =
        some (proceed (step (k r)) (record t { current = nothing; exception = none }))
    await_resume none none k h t = none

    -- `handle_.resume()`. `none` for a finished coroutine.
    abbrev pub resume_at : Point F R E → Coroutine F S Q R E A → Option (Coroutine F S Q R E A)
    resume_at (at f) t = some (proceed (step f) (record t { current = nothing; exception = none }))
    resume_at (awaiting k h) t = await_resume t.exception t.awaited k h t
    resume_at final t = none

    unfoldable pub resume : Coroutine F S Q R E A → Option (Coroutine F S Q R E A)
    resume t = resume_at t.point t

    module _ (await : Poll S (Outcome E R)) (inner : Poll Q (StreamAwaitableState A)) where
      -- `promise.poll_ready`, with the `catch` of `poll_next`: whether to resume. A stream that is
      -- delegated to throws nothing.
      abbrev poll_ready :
          Waker
          → Current S Q
          → Coroutine F S Q R E A
          → Option (Coroutine F S Q R E A × Bool × List Waker)
      poll_ready w nothing t = some (t, true, [])
      poll_ready w (awaitable s) t = do
        (s', outcome, woken) ← await w s
        elim outcome [
          | thrown e ↦ some (record t { current = awaitable s'; exception = some e }, true, woken)
          | returned state ↦ elim state.result [
            | some r ↦ some (record t { current = awaitable s'; awaited = some r }, true, woken)
            | none ↦ some (record t { current = awaitable s' }, false, woken)
          ]
        ]
      poll_ready w (stream q) t = do
        (q', state, woken) ← inner w q
        if state.done
            then some (record t { current = stream q' }, true, woken)
            else elim state.result [
              | some a ↦ some (record t { current = stream q'; result = some a }, false, woken)
              | none ↦ some (record t { current = stream q' }, false, woken)
            ]

      unfoldable pub poll_next : Poll (Coroutine F S Q R E A) (StreamAwaitableState A)
      unfolding resume
      poll_next w t = if done t.point then some (finish w false [] t) else (do
        (t', resumed, woken) ← poll_ready w t.current t
        if resumed
            then (do t'' ← resume t'; some (finish w resumed woken t''))
            else some (finish w resumed woken t'))
