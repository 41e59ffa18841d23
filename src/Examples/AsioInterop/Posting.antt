-- ===== src/Examples/AsioInterop/Posting.antt =====
-- examples/interop_asio.cc: `to_asio` polls until there is a result, and calls its handler with that.
use pollcoro.Base.{ℕ, zero, suc, ◌<◌, true, false, List, none, some, ◌≡◌, refl, arith}
use pollcoro.Waker.{Waker}
use pollcoro.Awaitable.{Poll}
use pollcoro.Task.{Outcome}
use pollcoro.Task.Evaluation.{Result, value, exception, last, Settles, now, later}
use pollcoro.BlockOn.{notified}
use pollcoro.BlockOn.Progress.{Notifies}
use pollcoro.Examples.AsioInterop.{Operation, poll_loop, run_posted, wake_operation, complete}

-- Nothing is posted or pending.
abbrev pub idle {ℓ κ μ} : {S : Type ℓ} {E : Type κ} {R : Type μ} → S → Operation S E R
idle s = record {
  awaitable = s;
  wake_pending = false;
  polling = false;
  posted = 0;
  handled = none;
  deleted = false;
}

module _ {ℓ κ μ} {S : Type ℓ} {E : Type κ} {R : Type μ} (poll : Poll S (Outcome E R))
    (w : Waker) where
  -- The operation after a poll of its awaitable.
  abbrev polled : Operation S E R → S → List Waker → Operation S E R
  polled op s woken = record op { awaitable = s; wake_pending = notified w woken; polling = false }

  -- If the awaitable is pending `n` times, each of these polls calls the waker, and then it gives
  -- a value or throws an exception, then `poll` of an `op_state` whose `wake_pending` is set calls
  -- the handler with that result and deletes the object, in any number of rounds above `n`.
  pub poll_loop-Settles :
      {n : ℕ} {r : Result E R} (op : Operation S E R)
      → Settles poll w (Notifies w) n op.awaitable r
      → op.wake_pending ≡ true
      → (rounds : ℕ) → n < rounds
      → (op' : Operation S E R) × (poll_loop poll w rounds op ≡ some op')
        × (op'.handled ≡ some r)
        × (op'.deleted ≡ true)
  unfolding poll_loop
  poll_loop-Settles op st woke zero h = absurd (omega arith)
  poll_loop-Settles {r = value v} op (now {s'} {woken} p) woke (suc rounds) h =
      (complete (value v) (polled op s' woken), rw (woke, p) refl, refl, refl)
  poll_loop-Settles {r = exception e} op (now {s'} {woken} p) woke (suc rounds) h =
      (complete (exception e) (polled op s' woken), rw (woke, p) refl, refl, refl)
  poll_loop-Settles op (later {k} {s'} {woken} p c st) woke (suc rounds) h =
      let (op', q, handled, gone) =
        poll_loop-Settles {n = k} (polled op s' woken) st c rounds (omega arith) in
      (op', rw (woke, p) q, handled, gone)

  -- When the waker of an idle `op_state` is called twice and then a posted call finds the
  -- awaitable ready or throwing, the handler is called with that result, and another posted call
  -- is left, which then runs on the deleted object.
  pub run_posted-twice :
      {s s' : S} (r : Result E R) {woken : List Waker} (rounds : ℕ)
      → poll w s ≡ some (s', last r, woken)
      → (op : Operation S E R) × (run_posted poll w
            (suc rounds)
            (wake_operation (wake_operation (idle s)))
          ≡ some op)
        × (op.posted ≡ 1)
        × (op.handled ≡ some r)
        × (run_posted poll w (suc rounds) op ≡ none)
  unfolding run_posted poll_loop
  run_posted-twice {s} {s'} (value v) {woken} rounds p = (
    complete (value v) (record (polled (idle s) s' woken) { posted = 1 }),
    rw p refl,
    refl,
    refl,
    refl,
  )
  run_posted-twice {s} {s'} (exception e) {woken} rounds p = (
    complete (exception e) (record (polled (idle s) s' woken) { posted = 1 }),
    rw p refl,
    refl,
    refl,
    refl,
  )
