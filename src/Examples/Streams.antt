-- ===== src/Examples/Streams.antt =====
-- examples/stream.cc: its streams. The frame of a coroutine is its local variables where it stands.
pub mod Tests
pub mod Delivery
use pollcoro.Base.{ℕ, zero, suc, ◌+◌, ltb, if◌then◌else◌, ◌⊎◌, inl, inr, List, [], ◌∷◌, Option}
use pollcoro.Waker.{Waker}
use pollcoro.Awaitable.{Poll}
use pollcoro.StreamAwaitable.{StreamAwaitableState}
use pollcoro.Task.{Outcome}
use pollcoro.Yield
use pollcoro.BlockOn.{lift, either}
use pollcoro.Stream.Sources.{IterStreamAwaitable, iter_poll_next}
use pollcoro.Stream.Coroutine.{
  Suspension, finishes, awaits, yields, yields_from, Coroutine, new, poll_next,
}

-- A coroutine that awaits nothing, and one that awaits `yield()`; neither yields from a stream.
abbrev pub Generator : Type 0 → Type 0
Generator F = Coroutine F ⊥ ⊥ ⊥ ⊥ ℕ

abbrev pub YieldStream : Type 0 → Type 0
YieldStream F = Coroutine F ℕ ⊥ (Unit {0}) ⊥ ℕ

abbrev pub no_poll : {R : Type 0} → Poll ⊥ R
no_poll w s = absurd s

unfoldable pub generate :
    {F : Type 0} → (F → Suspension F ⊥ ⊥ ⊥ ⊥ ℕ) → Poll (Generator F) (StreamAwaitableState ℕ)
generate step = poll_next step no_poll no_poll

-- `a` and `b`, before `co_yield b`.
abbrev pub fibonacci_step : ℕ × ℕ → Suspension (ℕ × ℕ) ⊥ ⊥ ⊥ ⊥ ℕ
fibonacci_step (a, b) = yields b (b, b + a)

abbrev pub fibonacci : Generator (ℕ × ℕ)
fibonacci = new (0, 1)

-- `i` and `count`, at the test of the loop or before `co_yield i`.
pub data CounterFrame : Type 0 where
  testing : ℕ → ℕ → CounterFrame
  yielding : ℕ → ℕ → CounterFrame

abbrev pub counter_step : CounterFrame → Suspension CounterFrame ℕ ⊥ (Unit {0}) ⊥ ℕ
counter_step (testing i count) =
    if ltb i count then awaits 1 (λ _. yielding i count) (λ e. absurd e) else finishes
counter_step (yielding i count) = yields i (testing (i + 1) count)

unfoldable pub counter_poll : Poll (YieldStream CounterFrame) (StreamAwaitableState ℕ)
counter_poll = poll_next counter_step (lift Yield.poll) no_poll

abbrev pub async_counter : ℕ → YieldStream CounterFrame
async_counter count = new (testing 0 count)

-- `i` and `end`.
abbrev pub range_step : ℕ × ℕ → Suspension (ℕ × ℕ) ⊥ ⊥ ⊥ ⊥ ℕ
range_step (i, end) = if ltb i end then yields i (i + 1, end) else finishes

abbrev pub make_range : ℕ → ℕ → Generator (ℕ × ℕ)
make_range start end = new (start, end)

abbrev pub repeat_step : ℕ → Suspension ℕ ⊥ ⊥ ⊥ ⊥ ℕ
repeat_step value = yields value value

abbrev pub repeat_n : ℕ → Generator ℕ
repeat_n value = new value

-- The streams that `combined_ranges` yields from.
abbrev pub Yielded : Type 0
Yielded = Generator (ℕ × ℕ) ⊎ IterStreamAwaitable ℕ

unfoldable pub poll_yielded : Poll Yielded (StreamAwaitableState ℕ)
unfolding generate
poll_yielded = either (generate range_step) iter_poll_next

-- The frame is the place of the next `co_yield`, or behind the last.
pub data CombinedFrame : Type 0 where
  at_100 : CombinedFrame
  at_first_range : CombinedFrame
  at_200 : CombinedFrame
  at_second_range : CombinedFrame
  at_300 : CombinedFrame
  at_array : CombinedFrame
  at_end : CombinedFrame

abbrev pub combined_step : CombinedFrame → Suspension CombinedFrame ⊥ Yielded ⊥ ⊥ ℕ
combined_step at_100 = yields 100 at_first_range
combined_step at_first_range = yields_from (inl (make_range 0 3)) at_200
combined_step at_200 = yields 200 at_second_range
combined_step at_second_range = yields_from (inl (make_range 10 13)) at_300
combined_step at_300 = yields 300 at_array
combined_step at_array =
    yields_from (inr (record { storage = 13 ∷ 14 ∷ 15 ∷ []; current = 0 })) at_end
combined_step at_end = finishes

unfoldable pub combined_poll :
    Poll (Coroutine CombinedFrame ⊥ Yielded ⊥ ⊥ ℕ) (StreamAwaitableState ℕ)
unfolding poll_yielded
combined_poll = poll_next combined_step no_poll poll_yielded

abbrev pub combined_ranges : Coroutine CombinedFrame ⊥ Yielded ⊥ ⊥ ℕ
combined_ranges = new at_100
