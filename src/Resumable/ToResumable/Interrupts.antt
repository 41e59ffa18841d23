-- ===== src/Resumable/ToResumable/Interrupts.antt =====
-- src/resumable.cppm: what the calls of the waker during a poll do.
use pollcoro.Base.{true, false, List, [], ◌∷◌, none, some, ◌≡◌, refl, arith, Bool-cases, inl, inr}
use pollcoro.Waker.{Waker, will_wake}
use pollcoro.BlockOn.{notified}
use pollcoro.Resumable.ToResumable.{
  polling, Resumable, go_on, wake_inside, wakes_inside, end_poll, after_poll, poll_round,
}
use pollcoro.Awaitable.{Poll}
use pollcoro.Task.{Outcome}

module _ {ℓ κ μ} {S : Type ℓ} {E : Type κ} {T : Type μ} (w : Waker) where
  pub wakes_inside-quiet :
      (woken : List Waker) (t : Resumable S E T)
      → notified w woken ≡ false
      → wakes_inside w woken t ≡ t
  unfolding wakes_inside notified
  wakes_inside-quiet [] t h = refl
  wakes_inside-quiet (v ∷ woken) t h = elim (Bool-cases (will_wake w v)) [
    | inl own ↦ ground (arith, own, h)
    | inr other ↦ simp other (wakes_inside-quiet woken t (simp other at h))
  ]

  pub wakes_inside-resumed :
      (woken : List Waker) (t : Resumable S E T) → t.resumed ≡ true → wakes_inside w woken t ≡ t
  unfolding wakes_inside wake_inside
  wakes_inside-resumed [] t h = refl
  wakes_inside-resumed (v ∷ woken) t h = elim (Bool-cases (will_wake w v)) [
    | inl own ↦ simp (own, h) (wakes_inside-resumed woken t h)
    | inr other ↦ simp other (wakes_inside-resumed woken t h)
  ]

  -- The first call resumes the coroutine, and the others do nothing.
  pub wakes_inside-notified :
      (woken : List Waker) (t : Resumable S E T)
      → notified w woken ≡ true
      → t.resumed ≡ false
      → wakes_inside w woken t ≡ go_on (record t { resumed = true })
  unfolding wakes_inside notified wake_inside
  wakes_inside-notified [] t h e = cc
  wakes_inside-notified (v ∷ woken) t h e = elim (Bool-cases (will_wake w v)) [
    | inl own ↦
        simp (own, e) (wakes_inside-resumed woken (go_on (record t { resumed = true })) refl)
    | inr other ↦ simp other (wakes_inside-notified woken t (simp other at h) e)
  ]

module _ {ℓ κ μ} {S : Type ℓ} {E : Type κ} {T : Type μ} (poll : Poll S (Outcome E T))
    (w : Waker) where
  -- The coroutine in `await_suspend`.
  abbrev pub in_poll : S → Resumable S E T → Resumable S E T
  in_poll s t = record t { awaitable = s; place = polling; resumed = false }

  pub poll_round-undefined :
      (t : Resumable S E T) → poll w t.awaitable ≡ none → poll_round poll w t ≡ none
  unfolding poll_round
  poll_round-undefined t p = rw p refl

  pub poll_round-quiet :
      (t : Resumable S E T) {s : S} {outcome : Outcome E T} {woken : List Waker}
      → poll w t.awaitable ≡ some (s, outcome, woken)
      → notified w woken ≡ false
      → poll_round poll w t ≡ some (end_poll outcome (in_poll s t))
  unfolding poll_round after_poll
  poll_round-quiet t {s} {woken} p h = rw (p, wakes_inside-quiet w woken (in_poll s t) h) refl

  pub poll_round-interrupted :
      (t : Resumable S E T) {s : S} {outcome : Outcome E T} {woken : List Waker}
      → poll w t.awaitable ≡ some (s, outcome, woken)
      → notified w woken ≡ true
      → poll_round poll w t ≡ none
  unfolding poll_round after_poll
  poll_round-interrupted t {s} {woken} p h =
      rw (p, wakes_inside-notified w woken (in_poll s t) h refl) refl
