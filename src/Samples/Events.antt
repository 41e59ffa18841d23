-- ===== src/Samples/Events.antt =====
-- src/single_event.cppm and src/task.cppm on concrete calls.
use pollcoro.Base.{ℕ, zero, suc, refl, List, [], ◌∷◌, some, none, ◌+◌, ◌≡◌, false}
use pollcoro.Waker.{Waker, noop, wake}
use pollcoro.Awaitable.{Poll, pending, ready}
use pollcoro.SingleEvent.{
  EventState, create, set_waker, poll, Call, polls, sets, run, content, outcome, poll-run,
}
use pollcoro.Task.{Outcome, returned, thrown, Body, returns, throws, awaits, new}
use pollcoro.Task
use pollcoro.Task.Evaluation.{
  value, Settles, now, later, Evaluates, returning, awaiting_value, awaiting_exception,
  Settles-task,
}

abbrev waker : Waker
waker = record { wake_function = 1; data_ptr = 7 }

-- Polled, set to 3, polled, and set to 4; 0 is what a move leaves.
abbrev calls : List (Call ℕ)
calls = polls waker ∷ sets 3 ∷ polls waker ∷ sets 4 ∷ []

poll-run_example :
    (s : EventState ℕ) × (run (λ _. 0) calls create ≡ some s)
    × ((s' : EventState ℕ) × (poll (λ _. 0) waker s
          ≡ some (s', outcome (content (λ _. 0) calls), (set_waker waker s).1)))
poll-run_example = poll-run (λ _. 0) calls waker

abbrev unset : EventState ℕ
unset = record { result = none; ready = false; waker = noop }

-- Counts down to 0, and then is ready with its number, or throws 9 if that is 0.
abbrev countdown : Poll (ℕ × ℕ) (Outcome ℕ ℕ)
countdown w (zero, zero) = some ((0, 0), thrown 9, [])
countdown w (zero, suc a) = some ((0, suc a), returned (ready (suc a)), [])
countdown w (suc k, a) = some ((k, a), returned pending, wake w)

-- It awaits 4, and then an exception, which it catches and adds.
abbrev body : Body (ℕ × ℕ) ℕ ℕ ℕ
body = awaits (2, 4) (λ r. awaits (0, 0) (λ r'. returns r') (λ e. returns (r + e))) (λ e. throws e)

body-Evaluates : Evaluates countdown waker (λ _. Unit) 4 body (value 13)
body-Evaluates =
    awaiting_value {m = 2} {n = 1}
      (later {s' = (1, 4)} refl tt (later {s' = (0, 4)} refl tt (now refl)))
      (awaiting_exception {m = 0} {n = 0} {e = 9} (now refl) (returning 13))

Settles-task_example : Settles (Task.poll countdown) waker (λ _. Unit) 4 (new body) (value 13)
Settles-task_example = Settles-task countdown waker (λ _. Unit) (λ _. tt) body-Evaluates
