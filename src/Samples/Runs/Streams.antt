-- ===== src/Samples/Runs/Streams.antt =====
-- examples/stream.cc run to its end.
use pollcoro.Base.{[], ◌∷◌, some, ◌≡◌, refl, size_inc, size_dec}
use pollcoro.Waker.{Waker, wake, will_wake}
use pollcoro.Yield
use pollcoro.Stream.Sources.{range_poll_next, repeat_poll_next, iter_poll_next}
use pollcoro.Stream.Take
use pollcoro.Stream.TakeWhile
use pollcoro.Stream.SkipWhile
use pollcoro.Stream.Map
use pollcoro.Stream.Chain
use pollcoro.Stream.Flatten
use pollcoro.Stream.Zip
use pollcoro.Stream.Enumerate.{index_poll_next}
use pollcoro.Stream.Last
use pollcoro.Stream.Nth
use pollcoro.Stream.Next
use pollcoro.Stream.Window
use pollcoro.Stream.Fold
use pollcoro.Stream.Coroutine
use pollcoro.BlockOn.{await, block_on, notified, sync_iter, advance}
use pollcoro.Console.{number, text, endl}
use pollcoro.Examples.Drain.{drain}
use pollcoro.Examples.Streams.{generate, counter_poll, combined_poll, poll_yielded}
use pollcoro.Examples.Streams.Tests.{
  test_fibonacci, test_async_counter, test_yield_from, test_chain, test_flatten, test_zip,
  test_last, test_nth, test_window, test_fold, test_range_repeat, test_take_while, test_iter,
  test_sync_iter,
}

abbrev waker : Waker
waker = record { wake_function = 1; data_ptr = 7 }

program : Unit {0}
unfolding test_fibonacci test_async_counter test_yield_from test_chain test_flatten test_zip
    test_last test_nth test_window test_fold test_range_repeat test_take_while test_iter
    test_sync_iter drain generate counter_poll combined_poll poll_yielded await block_on notified
    sync_iter advance wake will_wake Yield.poll range_poll_next repeat_poll_next iter_poll_next
    Take.poll_next TakeWhile.poll_next SkipWhile.poll_next Map.poll_next Chain.poll_next
    Flatten.poll_next Zip.poll_next index_poll_next Last.poll Nth.poll Next.poll Window.poll_next
    Window.new Window.window_loop Window.values Fold.poll Coroutine.poll_next Coroutine.resume
    size_inc size_dec
program = tt

test_yield_from-run :
    test_yield_from 20 waker
    ≡ some (
        text "=== Yield-From (combined ranges) ==="
        ∷ endl
        ∷ number 100
        ∷ text " "
        ∷ number 0
        ∷ text " "
        ∷ number 1
        ∷ text " "
        ∷ number 2
        ∷ text " "
        ∷ number 200
        ∷ text " "
        ∷ number 10
        ∷ text " "
        ∷ number 11
        ∷ text " "
        ∷ number 12
        ∷ text " "
        ∷ number 300
        ∷ text " "
        ∷ number 13
        ∷ text " "
        ∷ number 14
        ∷ text " "
        ∷ number 15
        ∷ text " "
        ∷ endl
        ∷ text "Expected: 100 0 1 2 200 10 11 12 300 13 14 15"
        ∷ endl
        ∷ endl
        ∷ [])
unfolding program
test_yield_from-run = refl

test_chain-run :
    test_chain 20 waker
    ≡ some (
        text "=== Chain (fib(3) + counter(5), doubled) ==="
        ∷ endl
        ∷ number 2
        ∷ text " "
        ∷ number 2
        ∷ text " "
        ∷ number 4
        ∷ text " "
        ∷ number 0
        ∷ text " "
        ∷ number 2
        ∷ text " "
        ∷ number 4
        ∷ text " "
        ∷ number 6
        ∷ text " "
        ∷ number 8
        ∷ text " "
        ∷ endl
        ∷ text "Expected: 2 2 4 0 2 4 6 8"
        ∷ endl
        ∷ endl
        ∷ [])
unfolding program
test_chain-run = refl

test_fold-run :
    test_fold 40 waker
    ≡ some (
        text "=== Fold (sum until >= 50) ==="
        ∷ endl
        ∷ text "Sum: "
        ∷ number 55
        ∷ endl
        ∷ text "Expected: 55 (0+1+2+...+10)"
        ∷ endl
        ∷ endl
        ∷ [])
unfolding program
test_fold-run = refl

test_nth-run :
    test_nth 40 waker
    ≡ some (
        text "=== Nth (get 3rd element) ==="
        ∷ endl
        ∷ text "3rd element: "
        ∷ number 2
        ∷ endl
        ∷ text "Expected: 2"
        ∷ endl
        ∷ endl
        ∷ text "=== Nth (every 2nd element) ==="
        ∷ endl
        ∷ text "Every 2nd: "
        ∷ number 1
        ∷ text " "
        ∷ number 3
        ∷ text " "
        ∷ number 5
        ∷ text " "
        ∷ number 7
        ∷ text " "
        ∷ number 9
        ∷ text " "
        ∷ endl
        ∷ text "Expected: 1 3 5 7 9"
        ∷ endl
        ∷ endl
        ∷ [])
unfolding program
test_nth-run = refl
