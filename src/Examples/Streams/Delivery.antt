-- ===== src/Examples/Streams/Delivery.antt =====
-- examples/stream.cc: what its streams deliver.
use pollcoro.Base.{
  ℕ, zero, suc, ◌+◌, ◌-◌, ◌<◌, ltb, Bool, Bool-cases, inl, inr, true, false, List, ◌≡◌, refl, ap,
  arith, some, length,
}
use pollcoro.Waker.{Waker, wake}
use pollcoro.Yield
use pollcoro.Stream.{Emits}
use pollcoro.Stream.Alert.{Emits-of_alert}
use pollcoro.Stream.Sources.{count_from}
use pollcoro.Stream.Coroutine.Generation.{
  Generates, stopping, yielding, awaiting_value, Emits-of_Generates,
}
use pollcoro.Task.Evaluation.{now}
use pollcoro.BlockOn.{lift, notified}
use pollcoro.BlockOn.Progress.{Notifies-wake}
use pollcoro.Examples.Drain.{drain}
use pollcoro.Examples.Drain.Completion.{drain-Emits}
use pollcoro.Examples.Streams.{
  no_poll, generate, range_step, make_range, counter_step, counter_poll, async_counter, testing,
  yielding,
}
use pollcoro.Examples.Streams

module _ (w : Waker) (test : List Waker → Bool) where
  Generates-counter :
      (left i count : ℕ)
      → i + left ≡ count
      → Generates counter_step
          (lift Yield.poll)
          no_poll
          w
          test
          (testing i count)
          (count_from i left)
  unfolding count_from Yield.poll
  Generates-counter zero i count e = stopping (ground arith)
  Generates-counter (suc left) i count e =
      awaiting_value {s = 1} {k = λ _. Streams.yielding i count} {h = λ e. absurd e} (ground arith)
        (now {s' = 0} {woken = wake w} refl)
        (yielding refl (Generates-counter left (i + 1) count (omega arith)))

  Generates-range :
      (left i end : ℕ)
      → i + left ≡ end
      → Generates range_step no_poll no_poll w test (i, end) (count_from i left)
  unfolding count_from
  Generates-range zero i end e = stopping (ground arith)
  Generates-range (suc left) i end e =
      yielding (ground arith) (Generates-range left (i + 1) end (omega arith))

length-count_from : (i left : ℕ) → length (count_from i left) ≡ left
unfolding count_from
length-count_from i zero = refl
length-count_from i (suc left) = ap suc (length-count_from (i + 1) left)

-- `make_range` delivers the numbers from `start` up to, and without, `end`, and ends.
Emits-make_range :
    (w : Waker) (start end : ℕ)
    → Emits (generate range_step) w (make_range start end) (count_from start (end - start))
unfolding generate count_from
Emits-make_range w start end =
    Emits-of_alert (λ _. true)
      (Emits-of_Generates range_step no_poll no_poll w (λ _. true) (λ _. refl) generates)
  where
    none_left : ltb start end ≡ false → end - start ≡ 0
    none_left above = ground arith

    generates :
        Generates range_step no_poll no_poll w
          (λ _. true)
          (start, end)
          (count_from start (end - start))
    generates = elim (Bool-cases (ltb start end)) [
      | inl below ↦ Generates-range w (λ _. true) (end - start) start end (ground arith)
      | inr above ↦ rw (none_left above) (stopping (ground arith))
    ]

-- If the waker has a function, then there is a number such that the loop over `co_await next(s)`
-- on `async_counter(count)`, with more polls than that for each item and more than `count` rounds,
-- ends and has gone through 0, 1, and so on, up to and without `count`.
drain-async_counter :
    (w : Waker) {k : ℕ} (count : ℕ)
    → w.wake_function ≡ suc k
    → (n : ℕ) × ((polls rounds : ℕ)
        → n < polls
        → count < rounds
        → drain counter_poll polls w rounds (async_counter count) ≡ some (count_from 0 count))
unfolding counter_poll
drain-async_counter w {k} count real =
    let (n, enough) = drain-Emits counter_poll w (
      Emits-of_Generates counter_step (lift Yield.poll) no_poll w (notified w)
        (Notifies-wake w k real) (Generates-counter w (notified w) count 0 count (omega arith))) in
    (n, λ polls rounds h h'. enough polls rounds h (ground (arith, length-count_from 0 count)))
