-- ===== src/Examples/Streams/Tests.antt =====
-- examples/stream.cc: what its tests print.
use pollcoro.Base.{
  ℕ, zero, suc, ◌+◌, ◌*◌, ltb, ◌>>=◌, true, inl, inr, List, [], ◌∷◌, ◌++◌, Option, none, some,
}
use pollcoro.Waker.{Waker}
use pollcoro.Console.{Token, number, text, endl, each_then}
use pollcoro.BlockOn.{await, either, sync_iter}
use pollcoro.Stream.Sources.{range_poll_next, repeat_poll_next, iter_poll_next}
use pollcoro.Stream.Take
use pollcoro.Stream.TakeWhile
use pollcoro.Stream.SkipWhile
use pollcoro.Stream.Map
use pollcoro.Stream.Chain
use pollcoro.Stream.Flatten
use pollcoro.Stream.Zip
use pollcoro.Stream.Enumerate.{index_poll_next}
use pollcoro.Stream.Last
use pollcoro.Stream.Nth
use pollcoro.Stream.Window
use pollcoro.Stream.Fold
use pollcoro.Examples.Drain.{drain}
use pollcoro.Examples.Streams.{
  YieldStream, CounterFrame, generate, fibonacci_step, fibonacci, counter_poll, async_counter,
  repeat_step, repeat_n, combined_poll, combined_ranges,
}

-- The entries of the tuples of `test_zip` and `test_window`.
abbrev indexed_pair : List ℕ → List Token
indexed_pair (a ∷ b ∷ index ∷ []) =
    number index ∷ text ": (" ∷ number a ∷ text ", " ∷ number b ∷ text ") " ∷ []
indexed_pair _ = []

abbrev triple : List ℕ → List Token
triple (a ∷ b ∷ c ∷ []) =
    text "(" ∷ number a ∷ text ", " ∷ number b ∷ text ", " ∷ number c ∷ text ") " ∷ []
triple _ = []

abbrev each {ℓ} : {A : Type ℓ} → (A → List Token) → List A → List Token
each f [] = []
each f (x ∷ xs) = f x ++ each f xs

module _ (rounds : ℕ) (w : Waker) where
  unfoldable pub test_fibonacci : Option (List Token)
  unfolding drain generate
  test_fibonacci = do
    values ←
        drain
          (Take.poll_next (SkipWhile.poll_next (generate fibonacci_step) (λ n. ltb n 100) rounds))
          rounds w rounds
          (record { stream = record { stream = fibonacci; skipping = true }; count = 10 })
    some (
        text "=== Fibonacci (skip_while < 100, take 10) ===" ∷ endl ∷ each_then " " values
        ++ endl ∷ endl ∷ [])

  unfoldable pub test_async_counter : Option (List Token)
  unfolding drain counter_poll
  test_async_counter = do
    values ← drain counter_poll rounds w rounds (async_counter 5)
    some (text "=== Async Counter (0-4) ===" ∷ endl ∷ each_then " " values ++ endl ∷ endl ∷ [])

  unfoldable pub test_yield_from : Option (List Token)
  unfolding drain combined_poll
  test_yield_from = do
    values ← drain combined_poll rounds w rounds combined_ranges
    some (
        text "=== Yield-From (combined ranges) ===" ∷ endl ∷ each_then " " values
        ++ endl ∷ text "Expected: 100 0 1 2 200 10 11 12 300 13 14 15" ∷ endl ∷ endl ∷ [])

  unfoldable pub test_chain : Option (List Token)
  unfolding drain counter_poll generate
  test_chain = do
    values ←
        drain
          (Map.poll_next (λ n. n * 2)
            (Chain.poll_next (either (Take.poll_next (generate fibonacci_step)) counter_poll)))
          rounds w rounds
          (record {
            streams = inl (record { stream = fibonacci; count = 3 }) ∷ inr (async_counter 5) ∷ [];
            current_index = 0;
          })
    some (
        text "=== Chain (fib(3) + counter(5), doubled) ===" ∷ endl ∷ each_then " " values
        ++ endl ∷ text "Expected: 2 2 4 0 2 4 6 8" ∷ endl ∷ endl ∷ [])

  unfoldable pub test_flatten : Option (List Token)
  unfolding drain counter_poll generate
  test_flatten = do
    values ←
        drain
          (Flatten.poll_next
            (Map.poll_next (λ n. record { stream = repeat_n n; count = n }) counter_poll)
            (Take.poll_next (generate repeat_step)) rounds)
          rounds w rounds (record { stream = async_counter 5; inner_stream = none })
    some (
        text "=== Flatten (repeat n, n times) ===" ∷ endl ∷ each_then " " values
        ++ endl ∷ text "Expected: 1 2 2 3 3 3 4 4 4 4" ∷ endl ∷ endl ∷ [])

  unfoldable pub test_zip : Option (List Token)
  unfolding drain counter_poll
  test_zip = do
    rows ←
        drain (Take.poll_next (Zip.poll_next (either counter_poll index_poll_next))) rounds w rounds
          (record {
            stream = record {
              streams = inl (async_counter 5) ∷ inl (async_counter 5) ∷ inr 0 ∷ [];
              buffered = none ∷ none ∷ none ∷ [];
            };
            count = 3;
          })
    some (
        text "=== Zip (two counters + enumerate) ===" ∷ endl ∷ each indexed_pair rows
        ++ endl ∷ endl ∷ [])

  unfoldable pub test_last : Option (List Token)
  unfolding await counter_poll
  test_last = do
    (_, result) ←
        await (Last.poll counter_poll rounds) rounds w
          (record { stream = async_counter 5; result = none })
    some (
        text "=== Last (counter 0-4) ==="
          ∷ endl
          ∷ elim result [ some v ↦ text "Last value: " ∷ number v ∷ endl ∷ [] | none ↦ [] ]
        ++ text "Expected: 4" ∷ endl ∷ endl ∷ [])

  -- `while (auto value = co_await pollcoro::nth(s, 2))`
  every_2nd : ℕ → YieldStream CounterFrame → Option (List ℕ)
  unfolding await counter_poll
  every_2nd zero s = none
  every_2nd (suc left) s = do
    (t, item) ← await (Nth.poll counter_poll rounds) rounds w (record { stream = s; n = 2 })
    elim item [ none ↦ some [] | some a ↦ do rest ← every_2nd left t.stream; some (a ∷ rest) ]

  unfoldable pub test_nth : Option (List Token)
  unfolding await counter_poll every_2nd
  test_nth = do
    (_, third) ←
        await (Nth.poll counter_poll rounds) rounds w (record { stream = async_counter 5; n = 3 })
    values ← every_2nd rounds (async_counter 10)
    some (
        text "=== Nth (get 3rd element) ==="
          ∷ endl
          ∷ elim third [ some v ↦ text "3rd element: " ∷ number v ∷ endl ∷ [] | none ↦ [] ]
        ++ text "Expected: 2"
          ∷ endl
          ∷ endl
          ∷ text "=== Nth (every 2nd element) ==="
          ∷ endl
          ∷ text "Every 2nd: "
          ∷ each_then " " values
        ++ endl ∷ text "Expected: 1 3 5 7 9" ∷ endl ∷ endl ∷ [])

  unfoldable pub test_window : Option (List Token)
  unfolding drain counter_poll
  test_window = do
    rows ←
        drain (Window.poll_next counter_poll 3) rounds w rounds
          (Window.new counter_poll 3 (async_counter 9))
    some (text "=== Window (groups of 3) ===" ∷ endl ∷ each triple rows ++ endl ∷ endl ∷ [])

  unfoldable pub test_fold : Option (List Token)
  unfolding await counter_poll
  test_fold = do
    (_, sum) ←
        await
          (Fold.poll counter_poll (λ accumulator n. (accumulator + n, ltb (accumulator + n) 50)))
          rounds w (record { stream = async_counter 10000; accumulator = 0 })
    some (
        text "=== Fold (sum until >= 50) ==="
        ∷ endl
        ∷ text "Sum: "
        ∷ number sum
        ∷ endl
        ∷ text "Expected: 55 (0+1+2+...+10)"
        ∷ endl
        ∷ endl
        ∷ [])

  unfoldable pub test_range_repeat : Option (List Token)
  unfolding drain
  test_range_repeat = do
    first ← drain range_poll_next rounds w rounds (record { current = 0; end = 5 })
    second ← drain range_poll_next rounds w rounds (record { current = 5; end = 10 })
    third ←
        drain (Take.poll_next repeat_poll_next) rounds w rounds (record { stream = 42; count = 5 })
    some (
        text "=== Range (0-4) ===" ∷ endl ∷ each_then " " first
        ++ endl ∷ endl ∷ text "=== Range (5-9) ===" ∷ endl ∷ each_then " " second
        ++ endl ∷ endl ∷ text "=== Repeat (42 x 5) ===" ∷ endl ∷ each_then " " third
        ++ endl ∷ endl ∷ [])

  unfoldable pub test_take_while : Option (List Token)
  unfolding drain
  test_take_while = do
    values ←
        drain (TakeWhile.poll_next range_poll_next (λ n. ltb n 5)) rounds w rounds
          (record { stream = record { current = 0; end = 10 }; taking = true })
    some (
        text "=== Take While (< 5) ===" ∷ endl ∷ each_then " " values
        ++ endl ∷ text "Expected: 0 1 2 3 4" ∷ endl ∷ endl ∷ [])

  unfoldable pub test_iter : Option (List Token)
  unfolding drain
  test_iter = do
    first ←
        drain iter_poll_next rounds w rounds
          (record { storage = 10 ∷ 20 ∷ 30 ∷ 40 ∷ 50 ∷ []; current = 0 })
    second ←
        drain iter_poll_next rounds w rounds
          (record { storage = 1 ∷ 2 ∷ 3 ∷ 4 ∷ 5 ∷ []; current = 0 })
    some (
        text "=== Iter (from vector) ===" ∷ endl ∷ each_then " " first
        ++ endl ∷ endl ∷ text "=== Iter (from array) ===" ∷ endl ∷ each_then " " second
        ++ endl ∷ endl ∷ [])

unfoldable pub test_sync_iter : ℕ → Option (List Token)
unfolding sync_iter
test_sync_iter rounds = do
  values ← sync_iter range_poll_next rounds (record { current = 0; end = 5 })
  some
      (text "=== Sync Iter (range-based for) ===" ∷ endl ∷ each_then " " values ++ endl ∷ endl ∷ [])

-- `main`: each test in turn.
unfoldable pub main : ℕ → Waker → Option (List Token)
unfolding test_fibonacci test_async_counter test_yield_from test_chain test_flatten test_zip
    test_last test_nth test_window test_fold test_range_repeat test_take_while test_iter
    test_sync_iter
main rounds w = do
  fibonacci_out ← test_fibonacci rounds w
  counter_out ← test_async_counter rounds w
  yield_out ← test_yield_from rounds w
  chain_out ← test_chain rounds w
  flatten_out ← test_flatten rounds w
  zip_out ← test_zip rounds w
  last_out ← test_last rounds w
  nth_out ← test_nth rounds w
  window_out ← test_window rounds w
  fold_out ← test_fold rounds w
  range_out ← test_range_repeat rounds w
  while_out ← test_take_while rounds w
  iter_out ← test_iter rounds w
  sync_out ← test_sync_iter rounds
  some (
      text "pollcoro Stream Combinators Demo"
        ∷ endl
        ∷ text "================================="
        ∷ endl
        ∷ endl
        ∷ fibonacci_out
      ++ counter_out
      ++ yield_out
      ++ chain_out
      ++ flatten_out
      ++ zip_out
      ++ last_out
      ++ nth_out
      ++ window_out
      ++ fold_out
      ++ range_out
      ++ while_out
      ++ iter_out
      ++ sync_out)
