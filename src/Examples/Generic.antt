-- ===== src/Examples/Generic.antt =====
-- examples/generic.cc. A `generic_awaitable` or a `generic_stream_awaitable` holds one of several types: it
-- is a sum of their states, polled by the poll of the type that it holds.
use pollcoro.Base.{
  ℕ, zero, suc, ◌+◌, ◌*◌, ◌%◌, ◌==◌, ltb, if◌then◌else◌, ◌>>=◌, ◌⊎◌, inl, inr, List, [], ◌∷◌, ◌++◌,
  Option, some,
}
use pollcoro.Waker.{Waker}
use pollcoro.Awaitable.{Poll, AwaitableState}
use pollcoro.StreamAwaitable.{StreamAwaitableState}
use pollcoro.Console.{Token, number, text, endl, each_then}
use pollcoro.BlockOn.{await, calm, either}
use pollcoro.Task.{Body, returns, Task, new}
use pollcoro.Task
use pollcoro.Yield.{ready_poll}
use pollcoro.Stream.Sources.{RangeStreamAwaitable, range_poll_next, repeat_poll_next}
use pollcoro.Stream.Take.{TakeStreamAwaitable}
use pollcoro.Stream.Take
use pollcoro.Stream.Map
use pollcoro.Stream.Coroutine.{Suspension, finishes, yields}
use pollcoro.Stream.Coroutine
use pollcoro.Examples.Drain.{drain}
use pollcoro.Examples.Streams.{Generator, generate, no_poll}

abbrev pub compute_task : ℕ → Body ⊥ ⊥ ⊥ ℕ
compute_task x = returns (x * 2)

-- A task, a ready value, or a mapped ready value.
abbrev pub GenericAwaitable : Type 0
GenericAwaitable = Task ⊥ ⊥ ⊥ ℕ ⊎ (ℕ ⊎ ℕ)

unfoldable pub generic_poll : Poll GenericAwaitable (AwaitableState ℕ)
generic_poll =
    either (calm (Task.poll no_poll)) (either ready_poll (Map.poll (λ n. n * 10) ready_poll))

-- `i` and `count`.
abbrev pub counter_step : ℕ × ℕ → Suspension (ℕ × ℕ) ⊥ ⊥ ⊥ ⊥ ℕ
counter_step (i, count) = if ltb i count then yields i (i + 1, count) else finishes

abbrev pub counter_stream : ℕ → Generator (ℕ × ℕ)
counter_stream count = Coroutine.new (0, count)

-- A coroutine, a range, a repeated value of which some are taken, or a range mapped by `n * 100`.
abbrev pub GenericStreamAwaitable : Type 0
GenericStreamAwaitable =
    (Generator (ℕ × ℕ) ⊎ RangeStreamAwaitable) ⊎ (TakeStreamAwaitable ℕ ⊎ RangeStreamAwaitable)

unfoldable pub generic_poll_next : Poll GenericStreamAwaitable (StreamAwaitableState ℕ)
unfolding generate
generic_poll_next =
    either (either (generate counter_step) range_poll_next)
      (either (Take.poll_next repeat_poll_next) (Map.poll_next (λ n. n * 100) range_poll_next))

abbrev pub counter : ℕ → GenericStreamAwaitable
counter count = inl (inl (counter_stream count))

abbrev pub range : ℕ → ℕ → GenericStreamAwaitable
range begin end = inl (inr (record { current = begin; end = end }))

abbrev pub repeat_taking : ℕ → ℕ → GenericStreamAwaitable
repeat_taking value count = inr (inl (record { stream = value; count = count }))

abbrev pub range_by_hundreds : ℕ → GenericStreamAwaitable
range_by_hundreds end = inr (inr (record { current = 0; end = end }))

pub data StreamType : Type 0 where
  counter_type : StreamType
  range_type : StreamType
  repeat_type : StreamType

abbrev pub create_stream : StreamType → ℕ → GenericStreamAwaitable
create_stream counter_type param = counter param
create_stream range_type param = range 0 param
create_stream repeat_type param = repeat_taking param 5

module _ (rounds : ℕ) (w : Waker) where
  -- `for (auto& awaitable : awaitables)`
  results_of : List GenericAwaitable → Option (List ℕ)
  unfolding await generic_poll
  results_of [] = some []
  results_of (a ∷ awaitables) = do
    (_, result) ← await generic_poll rounds w a
    rest ← results_of awaitables
    some (result ∷ rest)

  unfoldable pub test_generic_awaitable : Option (List Token)
  unfolding results_of
  test_generic_awaitable = do
    results ← results_of (inl (new (compute_task 10)) ∷ inr (inl 42) ∷ inr (inr 5) ∷ [])
    some (
        text "=== Generic Awaitable (Type Erasure) ==="
          ∷ endl
          ∷ text "Results: "
          ∷ each_then " " results
        ++ endl ∷ text "Expected: 20 42 50" ∷ endl ∷ endl ∷ [])

  -- `for (auto& stream : streams)`, from the number `stream_num` on.
  consume_from : ℕ → List GenericStreamAwaitable → Option (List Token)
  unfolding drain generic_poll_next
  consume_from stream_num [] = some []
  consume_from stream_num (s ∷ streams) = do
    values ← drain generic_poll_next rounds w rounds s
    rest ← consume_from (stream_num + 1) streams
    some (text "Stream " ∷ number stream_num ∷ text ": " ∷ each_then " " values ++ endl ∷ rest)

  unfoldable pub test_generic_stream : Option (List Token)
  unfolding consume_from
  test_generic_stream = do
    lines ← consume_from 1 (counter 3 ∷ range 10 13 ∷ repeat_taking 99 2 ∷ range_by_hundreds 3 ∷ [])
    some (text "=== Generic Stream (Type Erasure) ===" ∷ endl ∷ lines ++ endl ∷ [])

  unfoldable pub test_factory_function : Option (List Token)
  unfolding drain generic_poll_next
  test_factory_function = do
    first ← drain generic_poll_next rounds w rounds (create_stream counter_type 4)
    second ← drain generic_poll_next rounds w rounds (create_stream range_type 3)
    third ← drain generic_poll_next rounds w rounds (create_stream repeat_type 7)
    some (
        text "=== Factory Function with Generic Streams ==="
          ∷ endl
          ∷ text "Counter(4): "
          ∷ each_then " " first
        ++ endl ∷ text "Range(3):   " ∷ each_then " " second
        ++ endl ∷ text "Repeat(7):  " ∷ each_then " " third
        ++ endl ∷ endl ∷ [])

  -- The `for` of `test_runtime_selection`, from `i` on.
  selections_from : ℕ → ℕ → Option (List Token)
  unfolding drain generic_poll_next
  selections_from i zero = some []
  selections_from i (suc left) = do
    values ←
        drain generic_poll_next rounds w rounds
          (if i % 2 == 0 then range (i + 1) (i + 4) else repeat_taking (i * 10) 3)
    rest ← selections_from (i + 1) left
    some (text "Iteration " ∷ number i ∷ text ": " ∷ each_then " " values ++ endl ∷ rest)

  unfoldable pub test_runtime_selection : Option (List Token)
  unfolding selections_from
  test_runtime_selection = do
    lines ← selections_from 0 3
    some (text "=== Runtime Stream Selection ===" ∷ endl ∷ lines ++ endl ∷ [])

  -- `main`: each test by `block_on`.
  unfoldable pub main : Option (List Token)
  unfolding test_generic_awaitable test_generic_stream test_factory_function test_runtime_selection
  main = do
    awaitables ← test_generic_awaitable
    streams ← test_generic_stream
    factory ← test_factory_function
    selection ← test_runtime_selection
    some (
        text "pollcoro Generic Awaitable Examples"
          ∷ endl
          ∷ text "===================================="
          ∷ endl
          ∷ endl
          ∷ awaitables
        ++ streams
        ++ factory
        ++ selection)
