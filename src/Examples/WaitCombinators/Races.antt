-- ===== src/Examples/WaitCombinators/Races.antt =====
-- examples/wait_combinators.cc: `wait_first` and `wait_all` over tasks with delays.
use pollcoro.Base.{
  ℕ, suc, ◌+◌, ◌≤◌, ◌≡◌, refl, arith, List, [], ◌∷◌, ◌++◌, map, none, length, ap, sym,
}
use pollcoro.Waker.{Waker}
use pollcoro.Awaitable.Timing.{ReadyAfter, AllWait, none_left, one_more, Waits-of_ReadyAfter}
use pollcoro.Stream.{Resolves}
use pollcoro.Task.{new}
use pollcoro.Wait.All.{WaitAllAwaitable, Progress, ResolvesBy-of_ReadyAfter, Resolves-wait_all}
use pollcoro.Wait.All
use pollcoro.Wait.First
use pollcoro.Wait.First.Race.{ReadyAfter-wait_first}
use pollcoro.BlockOn.Progress.{ReadyAfter-calm}
use pollcoro.Examples.WaitCombinators.{yields, poll_task, delayed_value, delayed_values}
use pollcoro.Examples.WaitCombinators.Timing.{Settles-delayed_value}
use pollcoro.Task

-- Every delay is at least `k`.
abbrev pub DelaysFrom : ℕ → List (ℕ × ℕ) → Type 0
DelaysFrom k [] = Unit
DelaysFrom k ((v, delay) ∷ xs) = (k ≤ delay) × DelaysFrom k xs

-- Every delay is at most `k`.
abbrev DelaysUpTo : ℕ → List (ℕ × ℕ) → Type 0
DelaysUpTo k [] = Unit
DelaysUpTo k ((v, delay) ∷ xs) = (delay ≤ k) × DelaysUpTo k xs

-- The values, without the delays.
abbrev pub values_of : List (ℕ × ℕ) → List ℕ
values_of [] = []
values_of ((v, delay) ∷ xs) = v ∷ values_of xs

abbrev total_delay : List (ℕ × ℕ) → ℕ
total_delay [] = 0
total_delay ((v, delay) ∷ xs) = delay + total_delay xs

DelaysUpTo-weaken : (xs : List (ℕ × ℕ)) {j k : ℕ} → j ≤ k → DelaysUpTo j xs → DelaysUpTo k xs
DelaysUpTo-weaken [] h d = tt
DelaysUpTo-weaken ((v, delay) ∷ xs) h (d, ds) = (omega arith, DelaysUpTo-weaken xs h ds)

DelaysUpTo-total : (xs : List (ℕ × ℕ)) → DelaysUpTo (total_delay xs) xs
DelaysUpTo-total [] = tt
DelaysUpTo-total ((v, delay) ∷ xs) =
    (omega arith, DelaysUpTo-weaken xs (omega arith) (DelaysUpTo-total xs))

delayed_values-append :
    (xs ys : List (ℕ × ℕ)) → delayed_values (xs ++ ys) ≡ delayed_values xs ++ delayed_values ys
delayed_values-append [] ys = refl
delayed_values-append ((v, delay) ∷ xs) ys =
    ap (◌∷◌ (new (delayed_value v delay))) (delayed_values-append xs ys)

length-delayed_values : (xs : List (ℕ × ℕ)) → length (delayed_values xs) ≡ length xs
length-delayed_values [] = refl
length-delayed_values ((v, delay) ∷ xs) = ap suc (length-delayed_values xs)

module _ (w : Waker) where
  ReadyAfter-delayed_value :
      (v delay : ℕ) → ReadyAfter poll_task w delay (new (delayed_value v delay)) v
  unfolding poll_task
  ReadyAfter-delayed_value v delay =
      ReadyAfter-calm (Task.poll yields) (Settles-delayed_value w (λ _. Unit) (λ _. tt) v delay)

  AllWait-delayed_values :
      (k : ℕ) (xs : List (ℕ × ℕ)) → DelaysFrom k xs → AllWait poll_task w k (delayed_values xs)
  AllWait-delayed_values k [] d = none_left
  AllWait-delayed_values k ((v, delay) ∷ xs) (d, ds) =
      one_more (Waits-of_ReadyAfter poll_task w (ReadyAfter-delayed_value v delay) k d)
        (AllWait-delayed_values k xs ds)

  -- If the delay of a `delayed_value` is below all delays before it and at most those behind it,
  -- then `wait_first` over these tasks is pending as often as that delay says and then ready with
  -- its value and its index.
  ReadyAfter-fastest :
      (v delay : ℕ) (before after : List (ℕ × ℕ))
      → DelaysFrom (suc delay) before
      → DelaysFrom delay after
      → ReadyAfter
          (First.poll poll_task)
          w
          delay
          (delayed_values (before ++ (v, delay) ∷ after))
          (v, length before)
  ReadyAfter-fastest v delay before after slower slow =
      rw (delayed_values-append before ((v, delay) ∷ after), sym (length-delayed_values before))
        (ReadyAfter-wait_first poll_task w (AllWait-delayed_values (suc delay) before slower)
          (ReadyAfter-delayed_value v delay) (AllWait-delayed_values delay after slow))

  Progress-delayed_values :
      (k : ℕ) (xs : List (ℕ × ℕ))
      → DelaysUpTo k xs
      → Progress poll_task w k
          (delayed_values xs)
          (map (λ _. none) (delayed_values xs))
          (values_of xs)
  Progress-delayed_values k [] d = All.none_left
  Progress-delayed_values k ((v, delay) ∷ xs) (d, ds) =
      All.running (ResolvesBy-of_ReadyAfter poll_task (ReadyAfter-delayed_value v delay) k d)
        (Progress-delayed_values k xs ds)

  -- `wait_all` over tasks `delayed_value` becomes ready with their values in order.
  Resolves-delayed_values :
      (xs : List (ℕ × ℕ))
      → (t : WaitAllAwaitable _ ℕ) × Resolves
          (All.poll poll_task)
          w
          (All.new (delayed_values xs))
          (values_of xs)
          t
  Resolves-delayed_values xs =
      Resolves-wait_all poll_task (total_delay xs) (All.new (delayed_values xs))
        (Progress-delayed_values (total_delay xs) xs (DelaysUpTo-total xs))
