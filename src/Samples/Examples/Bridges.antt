-- ===== src/Samples/Examples/Bridges.antt =====
-- examples/c_interop.c and examples/interop_asio.cc at concrete inputs.
use pollcoro.Base.{ℕ, zero, suc, true, false, ◌∷◌, [], none, some, ◌≡◌, refl, arith}
use pollcoro.Waker.{Waker, wake, will_wake}
use pollcoro.Awaitable.{Poll, pending}
use pollcoro.Task.{returned}
use pollcoro.Task.Evaluation.{Settles, now, later, value, last}
use pollcoro.BlockOn.{lift, notified}
use pollcoro.BlockOn.Progress.{Notifies}
use pollcoro.Examples.CustomAwaitable.{countdown_poll}
use pollcoro.Examples.CInterop.{
  FuturePollResult, future_poll_ready, future_poll_pending, main_loop, initial_data,
}
use pollcoro.Examples.CInterop.Waiting.{PollsAs, Loops, main_loop-Loops}
use pollcoro.Examples.CInterop.Waiting
use pollcoro.Examples.AsioInterop.{
  AsioSharedState, from_asio, completed, poll, Operation, new_operation, wake_operation, poll_loop,
  run_posted,
}
use pollcoro.Examples.AsioInterop.Completion.{completed-wakes}
use pollcoro.Examples.AsioInterop.Posting.{idle, poll_loop-Settles, run_posted-twice}

abbrev waker : Waker
waker = record { wake_function = 1; data_ptr = 7 }

-- A future that is pending once, without a wake, and wakes once it is ready.
abbrev quiet_once : Poll ℕ FuturePollResult
quiet_once w zero = some (0, future_poll_ready, wake w)
quiet_once w (suc n) = some (n, future_poll_pending, [])

quiet_once-PollsAs : PollsAs quiet_once waker (false ∷ true ∷ []) 1
unfolding notified wake will_wake
quiet_once-PollsAs = Waiting.later refl (Waiting.now refl)

main_loop-Loops_example :
    Loops
      (main_loop quiet_once waker 2 (0 ∷ []) initial_data 1)
      initial_data.polls
      (false ∷ true ∷ [])
      1
main_loop-Loops_example =
    main_loop-Loops quiet_once waker quiet_once-PollsAs 2 (omega arith) (0 ∷ []) initial_data

completed-wakes_example :
    (s' : AsioSharedState ℕ ℕ) × (poll waker from_asio ≡ some (s', returned pending, []))
    × ((completed (value 3) s').1 ≡ wake waker)
    × ((t : AsioSharedState ℕ ℕ) × (poll waker (completed (value 3) s').0
          ≡ some (t, last (value 3), [])))
completed-wakes_example = completed-wakes waker waker (value 3) from_asio refl

-- Two pending polls of the countdown from 2.
counting : Settles (lift {E = ⊥} countdown_poll) waker (Notifies waker) 2 2 (value 0)
unfolding countdown_poll wake notified will_wake
counting = later {s' = 1} refl refl (later {s' = 0} refl refl (now refl))

poll_loop-Settles_example :
    (op : Operation ℕ ⊥ ℕ) × (poll_loop (lift countdown_poll) waker 5 (new_operation 2) ≡ some op)
    × (op.handled ≡ some (value 0))
    × (op.deleted ≡ true)
poll_loop-Settles_example =
    poll_loop-Settles (lift countdown_poll) waker (new_operation 2) counting refl 5 (omega arith)

ready_at_once : lift {E = ⊥} countdown_poll waker 0 ≡ some (0, last (value 0), [])
unfolding countdown_poll
ready_at_once = refl

run_posted-twice_example :
    (op : Operation ℕ ⊥ ℕ) × (run_posted
        (lift countdown_poll)
        waker
        3
        (wake_operation (wake_operation (idle 0)))
      ≡ some op)
    × (op.posted ≡ 1)
    × (op.handled ≡ some (value 0))
    × (run_posted (lift countdown_poll) waker 3 op ≡ none)
run_posted-twice_example = run_posted-twice (lift countdown_poll) waker (value 0) 2 ready_at_once
