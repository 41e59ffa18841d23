-- ===== src/Samples/Examples.antt =====
-- The theorems on examples/ and on src/block_on.cppm, src/stream.cppm and src/wait_first.cppm at concrete
-- inputs.
mod Memory
mod Bridges
use pollcoro.Base.{size_inc, ℕ, ◌+◌, ◌*◌, ◌<◌, true, [], ◌∷◌, some, ◌≡◌, refl, arith, length}
use pollcoro.Waker.{Waker, wake, will_wake}
use pollcoro.Awaitable.Timing.{ReadyAfter, AllWait, one_more, none_left, any}
use pollcoro.Awaitable.Timing
use pollcoro.Task.{new}
use pollcoro.Task
use pollcoro.Task.Evaluation.{Settles, now, later, value}
use pollcoro.Yield
use pollcoro.BlockOn.{lift, notified, block_on}
use pollcoro.BlockOn.Progress.{Notifies, Notifies-wake, block_on-Settles}
use pollcoro.Stream.{Emits}
use pollcoro.Stream
use pollcoro.Stream.Alert.{alert}
use pollcoro.Stream.Sources.{range_poll_next}
use pollcoro.Stream.Coroutine
use pollcoro.Stream.Coroutine.Generation.{
  Generates, stopping, awaiting_value, yielding, Emits-of_Generates,
}
use pollcoro.Wait.First
use pollcoro.Wait.First.Race.{ReadyAfter-wait_first}
use pollcoro.Examples.CustomAwaitable.{countdown_poll, retry_poll, retry_operation}
use pollcoro.Examples.CustomAwaitable.Behaviour.{ReadyAfter-countdown, ReadyAfter-retry}
use pollcoro.Examples.Streams.{no_poll, counter_step, async_counter, testing}
use pollcoro.Examples.Streams
use pollcoro.Examples.Drain.{drain}
use pollcoro.Examples.Drain.Completion.{drain-Emits}

abbrev waker : Waker
waker = record { wake_function = 1; data_ptr = 7 }

-- Two pending polls of the countdown from 2.
counting : Settles (lift {E = ⊥} countdown_poll) waker (Notifies waker) 2 2 (value 0)
unfolding countdown_poll wake notified will_wake
counting = later {s' = 1} refl refl (later {s' = 0} refl refl (now refl))

block_on-Settles_example :
    (s' : ℕ) × (block_on (lift {E = ⊥} countdown_poll) 5 waker 2 ≡ some (s', value 0))
block_on-Settles_example = block_on-Settles (lift countdown_poll) counting 5 (omega arith)

-- The countdown from 5 is pending at least three times.
slower : AllWait countdown_poll waker 3 (5 ∷ [])
unfolding countdown_poll
slower =
    one_more
      (Timing.later {s' = 4} refl (Timing.later {s' = 3} refl (Timing.later {s' = 2} refl any)))
      none_left

ReadyAfter-wait_first_example : ReadyAfter (First.poll countdown_poll) waker 2 (5 ∷ 2 ∷ []) (0, 1)
ReadyAfter-wait_first_example =
    ReadyAfter-wait_first countdown_poll waker slower (ReadyAfter-countdown waker 2) none_left

ReadyAfter-retry_example : ReadyAfter retry_poll waker 2 (retry_operation 5 3) true
ReadyAfter-retry_example = ReadyAfter-retry waker 4 2

-- `async_counter(1)`
generated :
    Generates counter_step (lift Yield.poll) no_poll waker (notified waker) (testing 0 1) (0 ∷ [])
unfolding Yield.poll
generated =
    awaiting_value {s = 1} {k = λ _. Streams.yielding 0 1} {h = λ e. absurd e} refl
      (now {s' = 0} {woken = wake waker} refl) (yielding refl (stopping refl))

Emits-of_Generates_example :
    Emits
      (alert (notified waker) (Coroutine.poll_next counter_step (lift Yield.poll) no_poll))
      waker
      (Coroutine.new (testing 0 1))
      (0 ∷ [])
Emits-of_Generates_example =
    Emits-of_Generates counter_step (lift Yield.poll) no_poll waker (notified waker)
      (Notifies-wake waker 0 refl) generated

two_items :
    Emits
      (alert (notified waker) range_poll_next)
      waker
      (record { current = 0; end = 2 })
      (0 ∷ 1 ∷ [])
unfolding range_poll_next size_inc
two_items = Stream.item refl (Stream.item refl (Stream.stop refl))

drain-Emits_example :
    (n : ℕ) × ((polls rounds : ℕ)
      → n < polls
      → length {A = ℕ} (0 ∷ 1 ∷ []) < rounds
      → drain range_poll_next polls waker rounds (record { current = 0; end = 2 })
        ≡ some (0 ∷ 1 ∷ []))
drain-Emits_example = drain-Emits range_poll_next waker two_items
