-- ===== src/Sleep.antt =====
-- src/sleep.cppm. The timer is a parameter.
pub mod Waking
use pollcoro.Base.{
  Bool, true, false, not, ◌&&◌, if◌then◌else◌, List, [], ◌∷◌, Option, none, some, ◌≡◌,
}
use pollcoro.Waker.{Waker, noop, wake}
use pollcoro.Awaitable.{Poll, AwaitableState, ready, pending}

-- The concept `timer`: the operations that the source uses, on states `T` of a timer, time points and durations.
-- `ge` is `>=`. `callbacks` are the callbacks that were registered and have not been called yet, by their times.
pub record Timer (T Point Duration : Type 0) : Type 0 where
  pub now : T → Point
  pub add : Point → Duration → Point
  pub ge : Point → Point → Bool
  pub register_callback : T → Point → T
  pub callbacks : T → List Point
  pub callbacks-register_callback :
      (t : T) (p : Point) → callbacks (register_callback t p) ≡ p ∷ callbacks t

-- `sleep_awaitable`: whether `shared_` is set, and the waker in the block that it points to, which the
-- callback shares.
pub record SleepAwaitable (T Point : Type 0) : Type 0 where
  pub shared : Bool
  pub waker : Waker
  pub started : Bool
  pub timer : T
  pub deadline : Point

-- What the callback does: `shared->waker.wake()`.
abbrev pub callback : {T Point : Type 0} → SleepAwaitable T Point → List Waker
callback s = wake s.waker

-- `reset`, which the destructor calls.
unfoldable pub reset : {T Point : Type 0} → SleepAwaitable T Point → SleepAwaitable T Point
reset s = record s {
  shared = false;
  waker = if s.shared && s.started then noop else s.waker;
  started = false;
}

module _ {T Point Duration : Type 0} (c : Timer T Point Duration) where
  -- `sleep_until` and the constructor.
  abbrev pub sleep_until : Point → T → SleepAwaitable T Point
  sleep_until deadline timer = record {
    shared = true;
    waker = noop;
    started = false;
    timer = timer;
    deadline = deadline;
  }

  abbrev pub sleep_for : Duration → T → SleepAwaitable T Point
  sleep_for duration timer = sleep_until (c.add (c.now timer) duration) timer

  -- `none` for a null `shared_`, after a move or a reset.
  unfoldable pub poll : Poll (SleepAwaitable T Point) (AwaitableState (Unit {0}))
  poll w s =
      if c.ge (c.now s.timer) s.deadline
      then some (s, ready tt, [])
      else if not s.shared
      then none
      else if not s.started
      then some (
        record s { waker = w; started = true; timer = c.register_callback s.timer s.deadline },
        pending,
        [],
      )
      else some (record s { waker = w }, pending, [])
