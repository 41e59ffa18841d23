-- ===== src/Examples/References.antt =====
-- examples/reference.cc and examples/modules.cc. A reference is polled as what it refers to.
use pollcoro.Base.{ℕ, ◌+◌, ◌>>=◌, List, [], ◌∷◌, ◌++◌, Option, some}
use pollcoro.Waker.{Waker}
use pollcoro.Awaitable.{Poll, AwaitableState}
use pollcoro.Task.{Body, returns, Task, new}
use pollcoro.Task
use pollcoro.BlockOn.{await, calm}
use pollcoro.Console.{Token, number, text, endl}
use pollcoro.Stream.Sources.{range_poll_next}
use pollcoro.Examples.Drain.{drain}
use pollcoro.Examples.Streams.{no_poll}

-- `ref_awaitable` and `ref_stream_awaitable`, whose state is that of what they refer to.
abbrev pub ref {ℓ κ} : {S : Type ℓ} {R : Type κ} → Poll S R → Poll S R
ref poll w s = poll w s

abbrev pub async_add : ℕ → ℕ → Body ⊥ ⊥ ⊥ ℕ
async_add a b = returns (a + b)

unfoldable pub add_poll : Poll (Task ⊥ ⊥ ⊥ ℕ) (AwaitableState ℕ)
add_poll = calm (Task.poll no_poll)

abbrev each_result : List ℕ → List Token
each_result [] = []
each_result (x ∷ xs) = text "Result: " ∷ number x ∷ endl ∷ each_result xs

module _ (rounds : ℕ) (w : Waker) where
  unfoldable pub test_reference : Option (List Token)
  unfolding await add_poll
  test_reference = do
    (task, result) ← await (ref add_poll) rounds w (new (async_add 10 20))
    some (text "Result: " ∷ number result ∷ endl ∷ [])

  unfoldable pub test_reference_stream : Option (List Token)
  unfolding drain
  test_reference_stream = do
    values ← drain (ref range_poll_next) rounds w rounds (record { current = 0; end = 10 })
    some (each_result values)

  unfoldable pub test_reference_rvalue : Option (List Token)
  unfolding await add_poll
  test_reference_rvalue = do
    (_, result) ← await (ref add_poll) rounds w (new (async_add 10 20))
    some (text "Result: " ∷ number result ∷ endl ∷ [])

  -- `main` of examples/reference.cc
  unfoldable pub main : Option (List Token)
  unfolding test_reference test_reference_stream test_reference_rvalue
  main = do
    first ← test_reference
    second ← test_reference_stream
    third ← test_reference_rvalue
    some (first ++ second ++ third)

  -- `main` of examples/modules.cc
  unfoldable pub modules_main : Option (List Token)
  unfolding await add_poll
  modules_main = do
    (_, result) ← await add_poll rounds w (new (async_add 10 20))
    some (text "Result: " ∷ number result ∷ endl ∷ [])
