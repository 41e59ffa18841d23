-- ===== src/Resumable/ToResumable.antt =====
-- src/resumable.cppm: `to_resumable`, a coroutine that polls an awaitable and is resumed by its waker
-- and by a scheduler. The awaiter of `schedule()` suspends, and the scheduler resumes it once.
pub mod Interrupts
pub mod Safety
pub mod Progress
use pollcoro.Base.{
  ℕ, zero, suc, ◌+◌, Bool, true, false, if◌then◌else◌, ◌>>=◌, List, [], ◌∷◌, Option, none, some,
}
use pollcoro.Waker.{Waker, will_wake}
use pollcoro.Awaitable.{Poll}
use pollcoro.Task.{Outcome, returned, thrown}
use pollcoro.Task.Evaluation.{Result, value, exception}

-- Where the coroutine is suspended: before its body, in `poll_awaiter` while `await_suspend` runs or
-- after it, in `schedule()`, or at its end.
pub data Place : Type 0 where
  initial polling awaiting scheduling final : Place

-- The coroutine with its promise: how many resumptions the scheduler owes it, whether `continuation` is set,
-- and how often that was resumed.
pub record Resumable {ℓ κ μ} (S : Type ℓ) (E : Type κ) (T : Type μ) : Type (ℓ ⊔ κ ⊔ μ) where
  pub awaitable : S
  pub place : Place
  pub resumed : Bool
  pub scheduled : ℕ
  pub result : Option (Result E T)
  pub continuation : Bool
  pub continued : ℕ

module _ {ℓ κ μ} {S : Type ℓ} {E : Type κ} {T : Type μ} where
  -- `to_resumable`
  abbrev pub to_resumable : S → Resumable S E T
  to_resumable s = record {
    awaitable = s;
    place = initial;
    resumed = false;
    scheduled = 0;
    result = none;
    continuation = false;
    continued = 0;
  }

  -- `return_value` or `unhandled_exception`, and `final_suspend`.
  abbrev pub finish : Result E T → Resumable S E T → Resumable S E T
  finish r t = record t {
    place = final;
    result = some r;
    continued = if t.continuation then t.continued + 1 else t.continued;
  }

  -- From `poll_awaiter`, with a state that is pending, to `schedule()`.
  abbrev pub go_on : Resumable S E T → Resumable S E T
  go_on t = record t { place = scheduling; scheduled = t.scheduled + 1 }

  -- The function of the waker during the poll. The exchange of `resumed` lets the first call through: it
  -- resumes the coroutine, whose `state` is still the pending one that it was made with.
  unfoldable pub wake_inside : Resumable S E T → Resumable S E T
  wake_inside t = if t.resumed then t else go_on (record t { resumed = true })

  -- The wakers that a poll calls, where `w` is the one of this coroutine.
  unfoldable pub wakes_inside : Waker → List Waker → Resumable S E T → Resumable S E T
  unfolding wake_inside
  wakes_inside w [] t = t
  wakes_inside w (v ∷ woken) t =
      let own = wakes_inside w woken (wake_inside t) in
      let other = wakes_inside w woken t in if will_wake w v then own else other

  -- The end of a poll that was not interrupted.
  unfoldable pub end_poll : Outcome E T → Resumable S E T → Resumable S E T
  end_poll (thrown e) t = finish (exception e) t
  end_poll (returned state) t = elim state.result [
    | some r ↦ finish (value r) t
    | none ↦ record t { place = awaiting }
  ]

  -- The poll returns to `await_suspend`, which writes to the `state` of the awaiter, or throws. Where the
  -- coroutine was resumed meanwhile, the awaiter is gone: undefined.
  unfoldable pub after_poll : Place → Outcome E T → Resumable S E T → Option (Resumable S E T)
  unfolding end_poll
  after_poll polling outcome t = some (end_poll outcome t)
  after_poll _ outcome t = none

  module _ (poll : Poll S (Outcome E T)) (w : Waker) where
    -- A round of the loop, up to the next suspension; `w` is the waker of the coroutine's handle.
    unfoldable pub poll_round : Resumable S E T → Option (Resumable S E T)
    unfolding after_poll wakes_inside
    poll_round t = do
      (s, outcome, woken) ← poll w t.awaitable
      let t' = wakes_inside w woken (record t { awaitable = s; place = polling; resumed = false })
      after_poll t'.place outcome t'

    -- `handle_.resume()`. It is undefined at the end of the coroutine, and for `polling` see
    -- `wake_inside`.
    unfoldable pub resume_at : Place → Resumable S E T → Option (Resumable S E T)
    unfolding poll_round
    resume_at initial t = poll_round t
    resume_at polling t = none
    resume_at awaiting t = some (go_on t)
    resume_at scheduling t = poll_round t
    resume_at final t = none

    -- `start`
    unfoldable pub start : Resumable S E T → Option (Resumable S E T)
    unfolding resume_at
    start t = resume_at t.place t

    -- `await_suspend`: `co_await` of the task by another coroutine.
    unfoldable pub await_suspend : Resumable S E T → Option (Resumable S E T)
    unfolding resume_at
    await_suspend t = resume_at t.place (record t { continuation = true })

    -- The function of the waker.
    unfoldable pub call_waker : Resumable S E T → Option (Resumable S E T)
    unfolding resume_at
    call_waker t = if t.resumed then some t else resume_at t.place (record t { resumed = true })

    -- The scheduler resumes the coroutine. `none` where it owes no resumption.
    unfoldable pub run_scheduled : Resumable S E T → Option (Resumable S E T)
    unfolding resume_at
    run_scheduled t = elim t.scheduled [
      | zero ↦ none
      | suc left ↦ resume_at t.place (record t { scheduled = left })
    ]

  -- `take_result`: `none` where the variant holds no result.
  abbrev pub take_result : Resumable S E T → Option (Result E T)
  take_result t = t.result
