-- ===== src/Examples/CInterop.antt =====
-- examples/c_interop_impl.cc, and the client examples/c_interop.c.
pub mod Waiting
use pollcoro.Base.{
  ℕ, zero, suc, ◌+◌, Bool, true, false, if◌then◌else◌, ◌>>=◌, List, [], ◌∷◌, ◌++◌, Option, none,
  some,
}
use pollcoro.Waker.{Waker, will_wake}
use pollcoro.Awaitable.{Poll, AwaitableState, is_ready}
use pollcoro.Task.{Body, returns, awaits, Task, new}
use pollcoro.Task
use pollcoro.Yield
use pollcoro.BlockOn.{lift, calm}
use pollcoro.Console.{Token, number, text, endl}

-- `future_poll_result_t`
pub data FuturePollResult : Type 0 where
  future_poll_ready : FuturePollResult
  future_poll_pending : FuturePollResult

-- `task`
abbrev pub task : Body ℕ (Unit {0}) ⊥ (Unit {0})
task = awaits 10 (λ _. returns tt) (λ e. absurd e)

abbrev pub Future : Type 0
Future = Task ℕ (Unit {0}) ⊥ (Unit {0})

abbrev pub future_create : Future
future_create = new task

unfoldable pub future_poll : Poll Future FuturePollResult
future_poll w future = do
  (future', state, woken) ← calm (Task.poll (lift Yield.poll)) w future
  some (future', if is_ready state then future_poll_ready else future_poll_pending, woken)

-- `struct waker_data_t`, with what the program has printed.
pub record WakerData : Type 0 where
  pub notified : Bool
  pub polls : ℕ
  pub wakes : ℕ
  pub printed : List Token

abbrev pub waker_wake : WakerData → WakerData
waker_wake wd = record {
  notified = true;
  polls = wd.polls;
  wakes = wd.wakes + 1;
  printed = wd.printed ++ text "waker called wakes: " ∷ number (wd.wakes + 1) ∷ endl ∷ [];
}

-- The calls of the waker during a poll.
unfoldable pub called : Waker → List Waker → WakerData → WakerData
called w [] wd = wd
called w (v ∷ woken) wd =
    let next = called w woken (waker_wake wd) in
    let other = called w woken wd in if will_wake w v then next else other

-- The start of a round of the loop of `main`.
abbrev pub polling : WakerData → WakerData
polling wd = record {
  notified = false;
  polls = wd.polls + 1;
  wakes = wd.wakes;
  printed = wd.printed ++ text "polling " ∷ number (wd.polls + 1) ∷ endl ∷ [];
}

-- The waker is called so many times by other threads.
unfoldable pub woken_by : ℕ → WakerData → WakerData
woken_by zero wd = wd
woken_by (suc n) wd = woken_by n (waker_wake wd)

-- `if (!wd.notified) cnd_wait(...)`. For each return of `cnd_wait`, `waits` has how often other threads
-- have called the waker by then: 0 where it returns without a reason. `none`: it does not return.
unfoldable pub wait_notified : Bool → List ℕ → WakerData → Option (List ℕ × WakerData)
unfolding woken_by
wait_notified true waits wd = some (waits, wd)
wait_notified false [] wd = none
wait_notified false (n ∷ waits) wd = some (waits, woken_by n wd)

-- The loop has ended, or waits for good.
pub data LoopResult : Type 0 where
  ended : WakerData → LoopResult
  blocked : WakerData → LoopResult

module _ {ℓ} {S : Type ℓ} (poll : Poll S FuturePollResult) (w : Waker) where
  -- The `while` of `main`. What other threads call while a poll runs is among the wakers that it calls.
  unfoldable pub main_loop : ℕ → List ℕ → WakerData → S → Option LoopResult
  unfolding called wait_notified
  main_loop zero waits wd future = none
  main_loop (suc rounds) waits wd future = do
    (future', result, woken) ← poll w future
    let wd' = called w woken (polling wd)
    elim (wait_notified wd'.notified waits wd') [
      | none ↦ some (blocked wd')
      | some (waits', wd'') ↦ elim result [
        | future_poll_ready ↦ some (ended wd'')
        | future_poll_pending ↦ main_loop rounds waits' wd'' future'
      ]
    ]

abbrev pub initial_data : WakerData
initial_data = record { notified = false; polls = 0; wakes = 0; printed = [] }

-- What `main` prints. `none` also where it waits for good.
unfoldable pub main : ℕ → List ℕ → Waker → Option (List Token)
unfolding main_loop future_poll
main rounds waits w = do
  r ← main_loop future_poll w rounds waits initial_data future_create
  elim r [
    | blocked wd ↦ none
    | ended wd ↦ some (
        wd.printed
        ++ text "future is ready after "
          ∷ number wd.polls
          ∷ text " polls and "
          ∷ number wd.wakes
          ∷ text " wakes"
          ∷ endl
          ∷ [])
  ]
