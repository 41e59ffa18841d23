-- ===== src/Samples/Runs/Programs.antt =====
-- Other programs of examples/ run to their end.
use pollcoro.Base.{List, [], ◌∷◌, some, ◌≡◌, refl, size_inc, size_dec, ◌>>=◌}
use pollcoro.Waker.{Waker, wake, will_wake}
use pollcoro.Yield
use pollcoro.Task
use pollcoro.Mutex
use pollcoro.SharedMutex
use pollcoro.Stream.Sources.{range_poll_next, repeat_poll_next}
use pollcoro.Stream.Take
use pollcoro.Stream.Map
use pollcoro.Stream.Chain
use pollcoro.Stream.Next
use pollcoro.Stream.Fold
use pollcoro.Stream.Coroutine
use pollcoro.BlockOn.{await, block_on, notified}
use pollcoro.Console.{Token, number, text, endl}
use pollcoro.Examples.Drain.{drain}
use pollcoro.Examples.Streams.{generate}
use pollcoro.Examples.Exceptions
use pollcoro.Examples.CustomAwaitable
use pollcoro.Examples.CInterop
use pollcoro.Examples.Generic
use pollcoro.Examples.Pipelines
use pollcoro.Examples.Locks.{test_try_lock, test_shared_mutex_try_lock}

abbrev waker : Waker
waker = record { wake_function = 1; data_ptr = 7 }

program : Unit {0}
unfolding await block_on notified wake will_wake Yield.poll Task.poll Task.resume Exceptions.main
    CustomAwaitable.test_retry_awaitable CustomAwaitable.retry_poll CInterop.main CInterop.main_loop
    CInterop.future_poll CInterop.called CInterop.wait_notified Generic.test_generic_stream
    Generic.generic_poll_next generate drain Coroutine.poll_next Coroutine.resume Take.poll_next
    Map.poll_next Chain.poll_next Next.poll Fold.poll range_poll_next repeat_poll_next size_inc
    size_dec Pipelines.test_chain_pipeline Pipelines.test_early_termination
program = tt

exceptions-run :
    Exceptions.main 10 waker
    ≡ some (
      0,
      text "Caught exception at do_work: "
          ∷ text "division by zero"
          ∷ endl
          ∷ text "Caught exception at catch_exception: "
          ∷ text "division by zero"
          ∷ endl
          ∷ text "Result: "
          ∷ number 0
          ∷ endl
          ∷ [],
    )
unfolding program
exceptions-run = refl

test_retry_awaitable-run :
    CustomAwaitable.test_retry_awaitable 10 waker
    ≡ some (
        text "=== Retry Awaitable ==="
        ∷ endl
        ∷ text "Operation that succeeds on attempt 3:"
        ∷ endl
        ∷ text "  Attempt "
        ∷ number 1
        ∷ text "/"
        ∷ number 5
        ∷ endl
        ∷ text "  Attempt "
        ∷ number 2
        ∷ text "/"
        ∷ number 5
        ∷ endl
        ∷ text "  Attempt "
        ∷ number 3
        ∷ text "/"
        ∷ number 5
        ∷ endl
        ∷ text "  Success!"
        ∷ endl
        ∷ text "Result: "
        ∷ text "success"
        ∷ endl
        ∷ endl
        ∷ [])
unfolding program
test_retry_awaitable-run = refl

-- The last line that the C client prints.
abbrev last_line : List Token → List Token
last_line (a ∷ b ∷ c ∷ d ∷ e ∷ f ∷ []) = a ∷ b ∷ c ∷ d ∷ e ∷ f ∷ []
last_line (x ∷ tokens) = last_line tokens
last_line [] = []

c_interop-run :
    (do printed ← CInterop.main 20 [] waker; some (last_line printed))
    ≡ some (
        text "future is ready after "
        ∷ number 11
        ∷ text " polls and "
        ∷ number 11
        ∷ text " wakes"
        ∷ endl
        ∷ [])
unfolding program
c_interop-run = refl

test_generic_stream-run :
    Generic.test_generic_stream 10 waker
    ≡ some (
        text "=== Generic Stream (Type Erasure) ==="
        ∷ endl
        ∷ text "Stream "
        ∷ number 1
        ∷ text ": "
        ∷ number 0
        ∷ text " "
        ∷ number 1
        ∷ text " "
        ∷ number 2
        ∷ text " "
        ∷ endl
        ∷ text "Stream "
        ∷ number 2
        ∷ text ": "
        ∷ number 10
        ∷ text " "
        ∷ number 11
        ∷ text " "
        ∷ number 12
        ∷ text " "
        ∷ endl
        ∷ text "Stream "
        ∷ number 3
        ∷ text ": "
        ∷ number 99
        ∷ text " "
        ∷ number 99
        ∷ text " "
        ∷ endl
        ∷ text "Stream "
        ∷ number 4
        ∷ text ": "
        ∷ number 0
        ∷ text " "
        ∷ number 100
        ∷ text " "
        ∷ number 200
        ∷ text " "
        ∷ endl
        ∷ endl
        ∷ [])
unfolding program
test_generic_stream-run = refl

test_chain_pipeline-run :
    Pipelines.test_chain_pipeline 20 waker
    ≡ some (
        text "=== Chain Pipeline ==="
        ∷ endl
        ∷ text "Chained [1-3] + [0,0] + [10-12]: "
        ∷ number 1
        ∷ text " "
        ∷ number 2
        ∷ text " "
        ∷ number 3
        ∷ text " "
        ∷ number 0
        ∷ text " "
        ∷ number 0
        ∷ text " "
        ∷ number 10
        ∷ text " "
        ∷ number 11
        ∷ text " "
        ∷ number 12
        ∷ text " "
        ∷ endl
        ∷ endl
        ∷ [])
unfolding program
test_chain_pipeline-run = refl

test_early_termination-run :
    Pipelines.test_early_termination 20 waker
    ≡ some (
        text "=== Early Termination (fold with predicate) ==="
        ∷ endl
        ∷ text "First n where n! > 1000: "
        ∷ number 7
        ∷ endl
        ∷ text "Factorial: "
        ∷ number 5040
        ∷ endl
        ∷ endl
        ∷ [])
unfolding program
test_early_termination-run = refl

test_try_lock-run :
    test_try_lock
    ≡ text "=== try_lock (non-blocking) ==="
      ∷ endl
      ∷ text "  First try_lock succeeded"
      ∷ endl
      ∷ text "  Second try_lock failed (expected - mutex is held)"
      ∷ endl
      ∷ text "  Third try_lock succeeded (after release)"
      ∷ endl
      ∷ endl
      ∷ []
unfolding test_try_lock Mutex.try_lock Mutex.destroy_guard Mutex.unlock Mutex.release
test_try_lock-run = refl

test_shared_mutex_try_lock-run :
    test_shared_mutex_try_lock
    ≡ text "=== shared_mutex try_lock variants ==="
      ∷ endl
      ∷ text "Acquiring multiple shared locks:"
      ∷ endl
      ∷ text "  try_lock_shared #1: "
      ∷ text "success"
      ∷ endl
      ∷ text "  try_lock_shared #2: "
      ∷ text "success"
      ∷ endl
      ∷ text "  try_lock (exclusive) while readers active: "
      ∷ text "failed"
      ∷ endl
      ∷ text "  try_lock (exclusive) after readers released: "
      ∷ text "success"
      ∷ endl
      ∷ text "  try_lock_shared while writer active: "
      ∷ text "failed"
      ∷ endl
      ∷ endl
      ∷ []
unfolding test_shared_mutex_try_lock SharedMutex.try_lock SharedMutex.try_lock_shared
    SharedMutex.any_writer SharedMutex.destroy_shared SharedMutex.unlock_shared
    SharedMutex.release_shared SharedMutex.wake_next size_inc size_dec
test_shared_mutex_try_lock-run = refl
