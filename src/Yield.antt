-- ===== src/Yield.antt =====
-- src/yield.cppm, and the awaitables of src/ready.cppm and src/pending.cppm.
use pollcoro.Base.{ℕ, zero, suc, ◌-◌, ltb, ◌==◌, if◌then◌else◌, [], some, ◌≡◌, refl, arith}
use pollcoro.Waker.{Waker, wake}
use pollcoro.Awaitable.{Poll, AwaitableState, ready, pending}
use pollcoro.StreamAwaitable
use pollcoro.StreamAwaitable.{StreamAwaitableState}

-- `yield_awaitable`: its state is `ready_`, and its result is void.
unfoldable pub poll : Poll ℕ (AwaitableState (Unit {0}))
poll w count =
    let left = if ltb 0 count then count - 1 else count in
    some (left, if left == 0 then ready tt else pending, wake w)

-- `ready_awaitable`: its state is the value.
unfoldable pub ready_poll {ℓ} : {A : Type ℓ} → Poll A (AwaitableState A)
ready_poll w value = some (value, ready value, [])

-- `pending_awaitable` and `pending_stream_awaitable` have no state.
pub pending_poll {ℓ} : {A : Type ℓ} → Poll (Unit {0}) (AwaitableState A)
pending_poll w t = some (t, pending, [])

pub pending_stream_poll_next {ℓ} : {A : Type ℓ} → Poll (Unit {0}) (StreamAwaitableState A)
pending_stream_poll_next w t = some (t, StreamAwaitable.pending, [])

-- The awaitable is pending exactly so many times and then ready, and every poll calls its waker.
pub data YieldsAfter (w : Waker) : ℕ → ℕ → Type 0 where
  now : {s s' : ℕ} → poll w s ≡ some (s', ready tt, wake w) → YieldsAfter w 0 s
  later :
      {k s s' : ℕ}
      → poll w s ≡ some (s', pending, wake w)
      → YieldsAfter w k s'
      → YieldsAfter w (suc k) s

poll-YieldsAfter_left : (w : Waker) (k count : ℕ) → count - 1 ≡ k → YieldsAfter w k count
unfolding poll
poll-YieldsAfter_left w zero count e = now {s' = 0} (ground arith)
poll-YieldsAfter_left w (suc k) count e =
    later {s' = count - 1} (ground arith) (poll-YieldsAfter_left w k (count - 1) (omega arith))

-- `yield` with `n` is pending `n - 1` times, or never if `n` is 0, and then ready, and every poll
-- calls its waker.
poll-YieldsAfter : (w : Waker) (count : ℕ) → YieldsAfter w (count - 1) count
poll-YieldsAfter w count = poll-YieldsAfter_left w (count - 1) count refl
