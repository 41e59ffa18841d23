-- ===== src/Examples/Pipelines.antt =====
-- examples/pipelines.cc. A `string` that is put together is the list of its pieces.
use pollcoro.Base.{
  ℕ, zero, suc, ◌+◌, ◌*◌, ltb, leb, ◌>>=◌, true, Bool, ◌⊎◌, inl, inr, String, List, [], ◌∷◌, ◌++◌,
  Option, none, some,
}
use pollcoro.Waker.{Waker}
use pollcoro.Console.{Token, number, text, endl, each_then}
use pollcoro.BlockOn.{await, either, sync_iter}
use pollcoro.Stream.Sources.{
  RangeStreamAwaitable, range_poll_next, repeat_poll_next, iter_poll_next,
}
use pollcoro.Stream.Take
use pollcoro.Stream.TakeWhile
use pollcoro.Stream.Skip
use pollcoro.Stream.SkipWhile
use pollcoro.Stream.Map
use pollcoro.Stream.Chain
use pollcoro.Stream.Flatten
use pollcoro.Stream.Zip
use pollcoro.Stream.Enumerate.{index_poll_next}
use pollcoro.Stream.Fold
use pollcoro.Examples.Drain.{drain}

abbrev range : ℕ → ℕ → RangeStreamAwaitable
range begin end = record { current = begin; end = end }

module _ (rounds : ℕ) where
  unfoldable pub test_zero_cost_pipeline : Option (List Token)
  unfolding sync_iter
  test_zero_cost_pipeline = do
    values ←
        sync_iter (Take.poll_next (Skip.poll_next (Map.poll_next (λ n. n * n) range_poll_next)))
          rounds (record { stream = record { stream = range 1 100; count = 5 }; count = 10 })
    some (
        text "=== Zero-Cost Pipeline ==="
          ∷ endl
          ∷ text "This pipeline uses only non-blocking combinators,"
          ∷ endl
          ∷ text "so the compiler can optimize away coroutine overhead."
          ∷ endl
          ∷ endl
          ∷ text "Squares of 6-15: "
          ∷ each_then " " values
        ++ endl ∷ endl ∷ [])

  unfoldable pub test_filter_pipeline : Option (List Token)
  unfolding sync_iter
  test_filter_pipeline = do
    values ←
        sync_iter
          (TakeWhile.poll_next
            (SkipWhile.poll_next (Map.poll_next (λ n. n * 7) range_poll_next) (λ n. ltb n 20)
              rounds)
            (λ n. leb n 50))
          rounds
          (record { stream = record { stream = range 1 100; skipping = true }; taking = true })
    some (
        text "=== Filter Pipeline (skip_while + take_while) ==="
          ∷ endl
          ∷ text "Multiples of 7 between 20 and 50: "
          ∷ each_then " " values
        ++ endl ∷ endl ∷ [])

-- The entry of a row of `test_indexed_pipeline`, and its line.
abbrev line : List (String ⊎ ℕ) → List Token
line (inl word ∷ inr index ∷ []) = number index ∷ text ": " ∷ text word ∷ []
line _ = []

abbrev lines : List (List Token) → List Token
lines [] = []
lines (tokens ∷ rest) = tokens ++ endl ∷ lines rest

module _ (rounds : ℕ) (w : Waker) where
  unfoldable pub test_fold_pipeline : Option (List Token)
  unfolding await
  test_fold_pipeline = do
    (_, sum) ←
        await (Fold.poll (Map.poll_next (λ n. n * n) range_poll_next) (λ acc n. (acc + n, true)))
          rounds w (record { stream = range 1 11; accumulator = 0 })
    some (
        text "=== Fold Pipeline (Sum of Squares 1-10) ==="
        ∷ endl
        ∷ text "Sum of squares 1-10: "
        ∷ number sum
        ∷ endl
        ∷ text "Expected: 385 (1 + 4 + 9 + 16 + 25 + 36 + 49 + 64 + 81 + 100)"
        ∷ endl
        ∷ endl
        ∷ [])

  unfoldable pub test_indexed_pipeline : Option (List Token)
  unfolding drain
  test_indexed_pipeline = do
    values ←
        drain
          (Map.poll_next line (
            Zip.poll_next
              (either (Map.poll_next inl iter_poll_next) (Map.poll_next inr index_poll_next))))
          rounds w rounds
          (record {
            streams =
                inl (record {
                  storage = "apple" ∷ "banana" ∷ "cherry" ∷ "date" ∷ "elderberry" ∷ [];
                  current = 0;
                })
                ∷ inr 0
                ∷ [];
            buffered = none ∷ none ∷ [];
          })
    some (text "=== Indexed Pipeline ===" ∷ endl ∷ lines values ++ endl ∷ [])

  unfoldable pub test_flatten_pipeline : Option (List Token)
  unfolding drain
  test_flatten_pipeline = do
    values ←
        drain
          (Flatten.poll_next (Map.poll_next (λ n. record { stream = n; count = n }) range_poll_next)
            (Take.poll_next repeat_poll_next) rounds)
          rounds w rounds (record { stream = range 1 5; inner_stream = none })
    some (
        text "=== Flatten Pipeline ===" ∷ endl ∷ text "Flattened: " ∷ each_then " " values
        ++ endl ∷ text "Expected: 1 2 2 3 3 3 4 4 4 4" ∷ endl ∷ endl ∷ [])

  unfoldable pub test_chain_pipeline : Option (List Token)
  unfolding drain
  test_chain_pipeline = do
    values ←
        drain
          (Chain.poll_next (
            either (Chain.poll_next (either range_poll_next (Take.poll_next repeat_poll_next)))
              range_poll_next))
          rounds w rounds
          (record {
            streams =
                inl (record {
                  streams = inl (range 1 4) ∷ inr (record { stream = 0; count = 2 }) ∷ [];
                  current_index = 0;
                })
                ∷ inr (range 10 13)
                ∷ [];
            current_index = 0;
          })
    some (
        text "=== Chain Pipeline ==="
          ∷ endl
          ∷ text "Chained [1-3] + [0,0] + [10-12]: "
          ∷ each_then " " values
        ++ endl ∷ endl ∷ [])

  -- The `for` of `test_pagination`, from the page `page` on.
  pages_from : ℕ → ℕ → Option (List Token)
  unfolding drain
  pages_from page zero = some []
  pages_from page (suc left) = do
    values ←
        drain (Take.poll_next (Skip.poll_next range_poll_next)) rounds w rounds
          (record { stream = record { stream = range 0 100; count = page * 5 }; count = 5 })
    rest ← pages_from (page + 1) left
    some (text "Page " ∷ number page ∷ text ": " ∷ each_then " " values ++ endl ∷ rest)

  unfoldable pub test_pagination : Option (List Token)
  unfolding pages_from
  test_pagination = do
    pages ← pages_from 0 3
    some (text "=== Pagination (skip + take) ===" ∷ endl ∷ pages ++ endl ∷ [])

  -- The lambda of `test_early_termination`, on a number and a factorial.
  abbrev next_factorial : ℕ × ℕ → ℕ → (ℕ × ℕ) × Bool
  next_factorial (_, factorial) n = ((n, factorial * n), leb (factorial * n) 1000)

  unfoldable pub test_early_termination : Option (List Token)
  unfolding await
  test_early_termination = do
    (_, (reached, factorial)) ←
        await (Fold.poll range_poll_next next_factorial) rounds w
          (record { stream = range 1 20; accumulator = (1, 1) })
    some (
        text "=== Early Termination (fold with predicate) ==="
        ∷ endl
        ∷ text "First n where n! > 1000: "
        ∷ number reached
        ∷ endl
        ∷ text "Factorial: "
        ∷ number factorial
        ∷ endl
        ∷ endl
        ∷ [])
