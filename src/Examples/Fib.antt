-- ===== src/Examples/Fib.antt =====
-- examples/fib.cc. A task for `n` awaits two tasks for smaller numbers: `depth` bounds the nesting.
pub mod Value
use pollcoro.Base.{
  ℕ, zero, suc, ◌+◌, ◌-◌, leb, if◌then◌else◌, ◌>>=◌, List, [], ◌∷◌, Option, none, some,
}
use pollcoro.Waker.{Waker}
use pollcoro.Awaitable.{Poll, AwaitableState}
use pollcoro.Task.{Body, returns, awaits, Task, new}
use pollcoro.Task
use pollcoro.Wait.All.{WaitAllAwaitable}
use pollcoro.Wait.All
use pollcoro.BlockOn.{lift, calm, await}
use pollcoro.Console.{Token, number, text, endl}

-- `task<int>`, whose body awaits `wait_all` of two such tasks.
abbrev pub FibTask : ℕ → Type 0
FibTask zero = Unit {0}
FibTask (suc depth) = Task (WaitAllAwaitable (FibTask depth) ℕ) (List ℕ) ⊥ ℕ

-- `auto [a, b] = ...; co_return a + b`. There are two results.
abbrev pub add_two : {S : Type 0} → List ℕ → Body S (List ℕ) ⊥ ℕ
add_two (a ∷ b ∷ []) = returns (a + b)
add_two _ = returns 0

-- `none` at the bottom of the nesting.
unfoldable pub fib_poll : (depth : ℕ) → Poll (FibTask depth) (AwaitableState ℕ)
fib_poll zero w task = none
fib_poll (suc depth) w task = calm (Task.poll (lift (All.poll (fib_poll depth)))) w task

unfoldable pub async_fibonacci : (depth : ℕ) → ℕ → FibTask depth
async_fibonacci zero n = tt
async_fibonacci (suc depth) n = new (
    if leb n 1
    then returns n
    else awaits (All.new (async_fibonacci depth (n - 1) ∷ async_fibonacci depth (n - 2) ∷ []))
        add_two (λ e. absurd e))

-- What `main` prints.
unfoldable pub main : ℕ → Waker → ℕ → Option (List Token)
unfolding async_fibonacci fib_poll await
main rounds w depth = do
  (_, result) ← await (fib_poll depth) rounds w (async_fibonacci depth 10)
  some (text "Fibonacci(10) = " ∷ number result ∷ endl ∷ [])
