-- ===== src/Samples/Runs/WaitCombinators.antt =====
-- examples/wait_combinators.cc run to its end.
use pollcoro.Base.{[], ◌∷◌, some, ◌≡◌, refl}
use pollcoro.Waker.{Waker, wake, will_wake}
use pollcoro.Yield
use pollcoro.Wait.All
use pollcoro.Wait.First
use pollcoro.Stream.Map
use pollcoro.Task
use pollcoro.BlockOn.{await, block_on, notified}
use pollcoro.Console.{text, endl}
use pollcoro.Examples.WaitCombinators.{
  poll_task, yields, test_wait_all_variadic, test_timeout_pattern, test_wait_first_vector,
}

abbrev waker : Waker
waker = record { wake_function = 1; data_ptr = 7 }

program : Unit {0}
unfolding test_wait_all_variadic test_timeout_pattern test_wait_first_vector await block_on notified
    poll_task yields Yield.poll All.poll First.poll Map.poll Task.poll Task.resume wake will_wake
program = tt

test_timeout_pattern-run :
    test_timeout_pattern 20 waker
    ≡ some (text "=== Timeout Pattern ===" ∷ endl ∷ text "Operation timed out!" ∷ endl ∷ endl ∷ [])
unfolding program
test_timeout_pattern-run = refl
