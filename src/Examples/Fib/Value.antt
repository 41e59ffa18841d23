-- ===== src/Examples/Fib/Value.antt =====
-- examples/fib.cc: what its tasks come to.
use pollcoro.Base.{
  ap, ℕ, zero, suc, ◌+◌, ◌-◌, ◌<◌, ◌≤◌, leb, List, [], ◌∷◌, ◌++◌, some, ◌≡◌, refl, arith, false,
  >>=-some,
}
use pollcoro.Waker.{Waker, wake}
use pollcoro.Awaitable.{Poll}
use pollcoro.Task.{Outcome, new, awaits}
use pollcoro.Task
use pollcoro.Task.Evaluation.{
  Result, value, exception, Settles, Settles-task, Evaluates, returning, awaiting_value, plus,
}
use pollcoro.Task.Evaluation
use pollcoro.Wait.All
use pollcoro.Wait.All.Alert.{SettlesBy, EachSettles, running, none_left, Settles-wait_all}
use pollcoro.Wait.All.Alert
use pollcoro.BlockOn.{lift, calm, block_on}
use pollcoro.BlockOn.Progress.{
  Notifies, Notifies-wake, notified-append, notified-append_left, block_on-Settles,
}
use pollcoro.Examples.Fib.{FibTask, add_two, fib_poll, async_fibonacci}

-- The Fibonacci numbers.
abbrev pub fibonacci : ℕ → ℕ
fibonacci zero = 0
fibonacci (suc zero) = 1
fibonacci (suc (suc n)) = fibonacci (suc n) + fibonacci n

module _ {ℓ κ} {S : Type ℓ} {R : Type κ} (poll : Poll S (Outcome ⊥ R)) (w : Waker)
    (P : List Waker → Type 0) where
  SettlesBy-calm :
      {n : ℕ} {s : S} {a : R}
      → Settles poll w P n s (value a)
      → (k : ℕ) → n ≤ k
      → SettlesBy (calm poll) w P k s a
  SettlesBy-calm (Evaluation.now p) k h = Alert.now (>>=-some _ p)
  SettlesBy-calm (Evaluation.later p c st) zero h = absurd (omega arith)
  SettlesBy-calm (Evaluation.later {k = n} p c st) (suc k) h =
      Alert.later (>>=-some _ p) c (SettlesBy-calm {n = n} st k (omega arith))

-- The task that awaits two tasks.
abbrev both : (depth : ℕ) → FibTask depth → FibTask depth → FibTask (suc depth)
both depth s t = new (awaits (All.new (s ∷ t ∷ [])) add_two (λ e. absurd e))

async_fibonacci-both :
    (depth n : ℕ)
    → async_fibonacci (suc depth) (suc (suc n))
      ≡ both depth (async_fibonacci depth (suc n)) (async_fibonacci depth n)
unfolding async_fibonacci
async_fibonacci-both depth n = rw (large, minus_one, minus_two) refl
  where
    large : leb (suc (suc n)) 1 ≡ false
    large = ground arith

    minus_one : suc (suc n) - 1 ≡ suc n
    minus_one = omega arith

    minus_two : suc (suc n) - 2 ≡ n
    minus_two = omega arith

plus-zero : (m : ℕ) → plus m 0 ≡ m
plus-zero zero = refl
plus-zero (suc m) = ap suc (plus-zero m)

module _ (w : Waker) (P : List Waker → Type 0) (first : (xs ys : List Waker) → P xs → P (xs ++ ys))
    (second : (xs ys : List Waker) → P ys → P (xs ++ ys))
    (notifies : (woken : List Waker) → P (woken ++ wake w)) where
  -- The task settles with the number in at most so many pending polls.
  abbrev FibSettles : (depth bound : ℕ) → FibTask (suc depth) → ℕ → Type 0
  FibSettles depth bound s v =
      (k : ℕ) × (k ≤ bound)
      × Settles (Task.poll (lift (All.poll (fib_poll depth)))) w P k s (value v)

  FibSettles-both :
      (depth bound : ℕ) (s t : FibTask (suc depth)) {a b : ℕ}
      → FibSettles depth bound s a
      → FibSettles depth bound t b
      → FibSettles (suc depth) (suc bound) (both (suc depth) s t) (a + b)
  unfolding fib_poll
  FibSettles-both depth bound s t {a} {b} (k, le, st) (j, le', st') =
      let (m, most, settled) =
        Settles-wait_all (fib_poll (suc depth)) w P first second bound (All.new (s ∷ t ∷ [])) (
          running (SettlesBy-calm _ w P {n = k} st bound le)
            (running (SettlesBy-calm _ w P {n = j} st' bound le') none_left)) in
      (
        suc (plus m 0),
        omega (arith, plus-zero m),
        Settles-task _ w P notifies (awaiting_value settled (returning (a + b))),
      )

  FibSettles-weaken :
      (depth : ℕ) (s : FibTask (suc depth)) {b b' v : ℕ}
      → b ≤ b'
      → FibSettles depth b s v
      → FibSettles depth b' s v
  FibSettles-weaken depth s h (k, le, st) = (k, omega arith, st)

  FibSettles-async_fibonacci :
      (depth n : ℕ) → n ≤ depth → FibSettles depth n (async_fibonacci (suc depth) n) (fibonacci n)
  FibSettles-async_fibonacci depth zero h =
      (0, omega arith, unfold async_fibonacci in Settles-task _ w P notifies (returning 0))
  FibSettles-async_fibonacci depth (suc zero) h =
      (0, omega arith, unfold async_fibonacci in Settles-task _ w P notifies (returning 1))
  FibSettles-async_fibonacci zero (suc (suc n)) h = absurd (omega arith)
  FibSettles-async_fibonacci (suc depth) (suc (suc n)) h = rw (async_fibonacci-both (suc depth) n) (
      FibSettles-both depth (suc n) _ _ (FibSettles-async_fibonacci depth (suc n) (omega arith)) (
        FibSettles-weaken depth _ {b = n} (omega arith)
          (FibSettles-async_fibonacci depth n (omega arith))))

-- `block_on` of the task `async_fibonacci(n)`, whose type is nested to a depth above `n`, gives
-- the `n`-th Fibonacci number, with a waker that has a function, in any number of rounds above
-- `n`.
pub block_on-async_fibonacci :
    (w : Waker) {k : ℕ}
    → w.wake_function ≡ suc k
    → (n depth : ℕ) → n ≤ depth
    → (rounds : ℕ) → n < rounds
    → (s : FibTask (suc depth)) × (block_on
          (Task.poll (lift (All.poll (fib_poll depth))))
          rounds
          w
          (async_fibonacci (suc depth) n)
        ≡ some (s, value (fibonacci n)))
block_on-async_fibonacci w {k} h n depth le rounds enough =
    let (polls, most, st) =
      FibSettles-async_fibonacci w (Notifies w) (notified-append_left w) (notified-append w)
        (Notifies-wake w k h) depth n le in
    block_on-Settles _ {n = polls} st rounds (omega arith)
