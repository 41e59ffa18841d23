-- ===== src/Examples/Exceptions.antt =====
-- examples/exceptions.cc. An exception is its message and what the program printed before it was thrown.
use pollcoro.Base.{ℕ, ◌/◌, ◌==◌, if◌then◌else◌, ◌>>=◌, String, List, [], ◌∷◌, ◌++◌, Option, some}
use pollcoro.Waker.{Waker}
use pollcoro.Task.{Body, returns, throws, awaits, Task, new}
use pollcoro.Task
use pollcoro.Task.Evaluation.{value, exception}
use pollcoro.BlockOn.{block_on}
use pollcoro.Console.{Token, number, text, endl}
use pollcoro.Examples.Streams.{no_poll}

abbrev pub Thrown : Type 0
Thrown = String × List Token

abbrev pub async_divide : ℕ → ℕ → Body ⊥ ⊥ Thrown ℕ
async_divide a b = if b == 0 then throws ("division by zero", []) else returns (a / b)

-- `e.what()` printed behind a text.
abbrev caught : String → Thrown → List Token
caught place (what, printed) = printed ++ text place ∷ text what ∷ endl ∷ []

abbrev pub do_work : Body (Task ⊥ ⊥ Thrown ℕ) ℕ Thrown ℕ
do_work =
    awaits (new (async_divide 10 0)) (λ result. returns result)
      (λ e. throws (e.0, caught "Caught exception at do_work: " e))

-- The result, and what is printed.
abbrev pub catch_exception : Body (Task (Task ⊥ ⊥ Thrown ℕ) ℕ Thrown ℕ) ℕ Thrown (ℕ × List Token)
catch_exception =
    awaits (new do_work) (λ result. returns (result, []))
      (λ e. returns (0, caught "Caught exception at catch_exception: " e))

-- The exit code, and what is printed.
unfoldable pub main : ℕ → Waker → Option (ℕ × List Token)
main rounds w = do
  (_, result) ← block_on (Task.poll (Task.poll (Task.poll no_poll))) rounds w (new catch_exception)
  some (elim result [
    | value (n, printed) ↦ (0, printed ++ text "Result: " ∷ number n ∷ endl ∷ [])
    | exception e ↦ (1, caught "Caught exception at main: " e)
  ])
