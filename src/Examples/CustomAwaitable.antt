-- ===== src/Examples/CustomAwaitable.antt =====
-- examples/custom_awaitable.cc
pub mod Behaviour
use pollcoro.Base.{
  ℕ, ◌+◌, ◌-◌, ◌*◌, leb, Bool, true, false, if◌then◌else◌, ◌>>=◌, ◌⊎◌, inl, inr, List, [], ◌∷◌,
  ◌++◌, Option, none, some,
}
use pollcoro.Waker.{Waker, wake}
use pollcoro.Awaitable.{Poll, AwaitableState, ready, pending, is_ready, take_result}
use pollcoro.Yield.{ready_poll}
use pollcoro.Stream.Map
use pollcoro.Wait.All
use pollcoro.BlockOn.{either, await}
use pollcoro.Console.{Token, number, text, endl}

-- `add_awaitable`: its state is `result_`.
abbrev pub add : ℕ → ℕ → ℕ
add a b = a + b

unfoldable pub add_poll : Poll ℕ (AwaitableState ℕ)
add_poll w result = some (result, ready result, [])

-- `countdown_awaitable`: its state is `count_`.
abbrev pub countdown : ℕ → ℕ
countdown start = start

unfoldable pub countdown_poll : Poll ℕ (AwaitableState ℕ)
countdown_poll w count =
    if leb count 0 then some (count, ready 0, []) else some (count - 1, pending, wake w)

-- `double_awaitable`: its state is that of `inner_`.
unfoldable pub double_poll {ℓ} :
    {S : Type ℓ} → Poll S (AwaitableState ℕ) → Poll S (AwaitableState ℕ)
double_poll inner w s = do
  (s', state, woken) ← inner w s
  if is_ready state
      then (do (result, _) ← take_result state; some (s', ready (result * 2), woken))
      else some (s', pending, woken)

-- `retry_awaitable`, with what it has printed.
pub record RetryAwaitable : Type 0 where
  pub attempts : ℕ
  pub max_attempts : ℕ
  pub succeed_on : ℕ
  pub printed : List Token

abbrev pub retry_operation : ℕ → ℕ → RetryAwaitable
retry_operation max_attempts succeed_on = record {
  attempts = 0;
  max_attempts = max_attempts;
  succeed_on = succeed_on;
  printed = [];
}

abbrev pub attempt : RetryAwaitable → RetryAwaitable
attempt t = record t {
  attempts = t.attempts + 1;
  printed =
      t.printed
      ++ text "  Attempt " ∷ number (t.attempts + 1) ∷ text "/" ∷ number t.max_attempts ∷ endl ∷ [];
}

abbrev pub print : RetryAwaitable → List Token → RetryAwaitable
print t tokens = record t { printed = t.printed ++ tokens }

unfoldable pub retry_poll : Poll RetryAwaitable (AwaitableState Bool)
retry_poll w t =
    if leb t.succeed_on (t.attempts + 1)
    then some (print (attempt t) (text "  Success!" ∷ endl ∷ []), ready true, [])
    else if leb t.max_attempts (t.attempts + 1)
    then some (
      print (attempt t)
          (text "  Failed after " ∷ number t.max_attempts ∷ text " attempts" ∷ endl ∷ []),
      ready false,
      [],
    )
    else some (attempt t, pending, wake w)

-- The components of a result tuple.
abbrev three : List ℕ → Option (ℕ × ℕ × ℕ)
three (a ∷ b ∷ c ∷ []) = some (a, b, c)
three _ = none

module _ (rounds : ℕ) (w : Waker) where
  unfoldable pub test_simple_awaitable : Option (List Token)
  unfolding await add_poll
  test_simple_awaitable = do
    (_, result) ← await add_poll rounds w (add 10 20)
    (_, ready_result) ← await ready_poll rounds w 42
    (_, mapped) ← await (Map.poll (λ n. n * 10) add_poll) rounds w (add 5 5)
    some (
        text "=== Simple Non-Blocking Awaitable ==="
        ∷ endl
        ∷ text "add(10, 20) = "
        ∷ number result
        ∷ endl
        ∷ text "ready(42) = "
        ∷ number ready_result
        ∷ endl
        ∷ text "add(5, 5) | map(*10) = "
        ∷ number mapped
        ∷ endl
        ∷ endl
        ∷ [])

  unfoldable pub test_stateful_awaitable : Option (List Token)
  unfolding await countdown_poll
  test_stateful_awaitable = do
    (_, result) ← await countdown_poll rounds w (countdown 5)
    some (
        text "=== Stateful Awaitable (Countdown) ==="
        ∷ endl
        ∷ text "countdown(5) completed with: "
        ∷ number result
        ∷ endl
        ∷ endl
        ∷ [])

  -- The static assertions are the compiler's.
  unfoldable pub test_wrapper_awaitable : Option (List Token)
  unfolding await add_poll double_poll
  test_wrapper_awaitable = do
    (_, result1) ← await (double_poll add_poll) rounds w (add 10 5)
    (_, result2) ← await (double_poll ready_poll) rounds w 21
    some (
        text "=== Wrapper Awaitable (Double) ==="
        ∷ endl
        ∷ text "double(add(10, 5)) = "
        ∷ number result1
        ∷ endl
        ∷ text "double(ready(21)) = "
        ∷ number result2
        ∷ endl
        ∷ text "Blocking traits verified at compile time!"
        ∷ endl
        ∷ endl
        ∷ [])

  unfoldable pub test_retry_awaitable : Option (List Token)
  unfolding await retry_poll
  test_retry_awaitable = do
    (t, success) ← await retry_poll rounds w (retry_operation 5 3)
    some (
        text "=== Retry Awaitable ==="
          ∷ endl
          ∷ text "Operation that succeeds on attempt 3:"
          ∷ endl
          ∷ t.printed
        ++ text "Result: "
          ∷ (if success then text "success" else text "failure")
          ∷ endl
          ∷ endl
          ∷ [])

  unfoldable pub test_concurrent_custom : Option (List Token)
  unfolding await add_poll double_poll
  test_concurrent_custom = do
    (_, results) ←
        await (All.poll (either add_poll (double_poll add_poll))) rounds w
          (All.new (inl (add 1 2) ∷ inl (add 3 4) ∷ inr (add 5 5) ∷ []))
    (a, b, c) ← three results
    some (
        text "=== Concurrent Custom Awaitables ==="
        ∷ endl
        ∷ text "wait_all(add(1,2), add(3,4), double(add(5,5))) = "
        ∷ number a
        ∷ text ", "
        ∷ number b
        ∷ text ", "
        ∷ number c
        ∷ endl
        ∷ endl
        ∷ [])

  -- `main`: each test by `block_on`.
  unfoldable pub main : Option (List Token)
  unfolding test_simple_awaitable test_stateful_awaitable test_wrapper_awaitable
      test_retry_awaitable test_concurrent_custom
  main = do
    simple ← test_simple_awaitable
    stateful ← test_stateful_awaitable
    wrapper ← test_wrapper_awaitable
    retry ← test_retry_awaitable
    concurrent ← test_concurrent_custom
    some (
        text "pollcoro Custom Awaitable Examples"
          ∷ endl
          ∷ text "==================================="
          ∷ endl
          ∷ endl
          ∷ simple
        ++ stateful
        ++ wrapper
        ++ retry
        ++ concurrent)
