-- ===== src/Samples/Results.antt =====
-- The adapters of src/ that have one result, and the awaitables that wait for several.
use pollcoro.Base.{ℕ, zero, suc, ltb, refl, List, [], ◌∷◌, none, some, ◌+◌, ◌≡◌, Bool}
use pollcoro.Waker.{Waker, wake}
use pollcoro.Awaitable.{Poll, AwaitableState, ready, pending}
use pollcoro.Stream.{Emits, Resolves}
use pollcoro.Stream.Sources.{IterStreamAwaitable, iter_poll_next, Emits-iter}
use pollcoro.Stream.Nth
use pollcoro.Stream.Fold
use pollcoro.Wait.All
use pollcoro.Wait.Iter
use pollcoro.Wait.Iter.Agreement.{iter_outcome, poll-poll}

abbrev waker : Waker
waker = record { wake_function = 1; data_ptr = 7 }

abbrev container : List ℕ → IterStreamAwaitable ℕ
container xs = record { storage = xs; current = 0 }

abbrev numbers : List ℕ
numbers = 5 ∷ 6 ∷ 9 ∷ []

numbers-Emits : Emits iter_poll_next waker (container numbers) numbers
numbers-Emits = Emits-iter waker numbers

-- A sum, up to the first item above 5.
abbrev add : ℕ → ℕ → ℕ × Bool
add acc x = (acc + x, ltb x 6)

Resolves-fold_example :
    (t : Fold.FoldStreamAwaitable (IterStreamAwaitable ℕ) ℕ) × Resolves
      (Fold.poll iter_poll_next add)
      waker
      (record { stream = container numbers; accumulator = 1 })
      (Fold.fold_items add 1 numbers)
      t
Resolves-fold_example = Fold.Resolves-fold iter_poll_next add numbers-Emits 1

-- Ready with the number once it has counted down to 0.
abbrev countdown : Poll (ℕ × ℕ) (AwaitableState ℕ)
countdown w (zero, a) = some ((0, a), ready a, [])
countdown w (suc k, a) = some ((k, a), pending, wake w)

poll-poll_example :
    Iter.poll countdown waker
      (record { awaitables = (2, 4) ∷ (0, 5) ∷ (0, 6) ∷ []; results = (2, 6) ∷ [] })
    ≡ iter_outcome countdown (
        All.poll countdown waker (record {
          awaitables = (2, 4) ∷ (0, 5) ∷ (0, 6) ∷ [];
          results = none ∷ none ∷ some 6 ∷ [];
        }))
poll-poll_example = poll-poll countdown waker _ refl
