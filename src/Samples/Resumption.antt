-- ===== src/Samples/Resumption.antt =====
-- src/resumable.cppm and src/sleep.cppm on concrete calls.
use pollcoro.Base.{ℕ, zero, suc, ◌+◌, leb, ◌>>=◌, List, [], ◌∷◌, true, none, some, ◌≡◌, refl, inl}
use pollcoro.Waker.{Waker, wake}
use pollcoro.Awaitable.{Poll, ready, pending}
use pollcoro.Task.{Outcome, returned, returns, throws, awaits}
use pollcoro.Task
use pollcoro.Task.Evaluation.{value, exception, last}
use pollcoro.BlockOn.{notified}
use pollcoro.Resumable.ToPollable.{
  ResumableSharedState, to_pollable, completed, PendingPolls, completed-wakes_last,
}
use pollcoro.Resumable.ToPollable
use pollcoro.Resumable.ToResumable.{
  Resumable, final, awaiting, scheduling, to_resumable, start, await_suspend, call_waker,
  take_result, resume_at, poll_round, after_poll,
}
use pollcoro.Resumable.ToResumable.Safety.{Inv, Reach, later, resumed_once, starts, wakes}
use pollcoro.Resumable.ToResumable.Safety
use pollcoro.Resumable.ToResumable.Progress.{SettlesQuietly, drive, start-drive, start-task}
use pollcoro.Resumable.ToResumable.Progress
use pollcoro.Sleep.{Timer, SleepAwaitable, sleep_until, reset, callback, poll}
use pollcoro.Sleep.Waking.{callback-wakes, early_callback, here}

abbrev waker : Waker
waker = record { wake_function = 1; data_ptr = 7 }

abbrev other : Waker
other = record { wake_function = 1; data_ptr = 8 }

completed-wakes_last_example :
    (s : ResumableSharedState ℕ ℕ) × PendingPolls (waker ∷ other ∷ []) (to_pollable 0) s
    × ((completed (exception 4) s).1 ≡ wake other)
    × ((t : ResumableSharedState ℕ ℕ) × (ToPollable.poll waker (completed (exception 4) s).0
          ≡ some (t, last (exception 4), [])))
completed-wakes_last_example = completed-wakes_last 0 (waker ∷ other ∷ []) (exception 4) waker

-- Counts down to 0, and is ready with 5. It calls no waker.
abbrev countdown : Poll ℕ (Outcome ℕ ℕ)
countdown w zero = some (0, returned (ready 5), [])
countdown w (suc k) = some (k, returned pending, [])

-- Polled for the first time, and woken.
abbrev waiting : Resumable ℕ ℕ ℕ
waiting = record (to_resumable 1) { awaitable = 0; place = awaiting }

abbrev woken : Resumable ℕ ℕ ℕ
woken = record waiting { place = scheduling; resumed = true; scheduled = 1 }

woken-Reach : Reach countdown waker 1 woken
unfolding start call_waker resume_at poll_round after_poll notified
woken-Reach =
    later {t = waiting} (later {t = to_resumable 1} Safety.new (starts refl refl))
      (wakes (inl refl) refl)

resumed_once_example : Inv countdown waker woken
resumed_once_example = resumed_once countdown waker woken-Reach

quiet : SettlesQuietly countdown waker 2 2 (value 5)
unfolding notified
quiet =
    Progress.later {s' = 1} refl refl (Progress.later {s' = 0} refl refl (Progress.now refl refl))

start-drive_example :
    (t : Resumable ℕ ℕ ℕ) × ((do
      t1 ← start countdown waker (to_resumable 2)
      drive countdown waker (0 ∷ 3 ∷ []) t1)
      ≡ some t)
    × (t.place ≡ final)
    × (take_result t ≡ some (value 5))
start-drive_example = start-drive countdown waker quiet (0 ∷ 3 ∷ []) refl

start-task_example :
    (start (Task.poll countdown) waker (to_resumable (Task.new (awaits 2 returns throws))) ≡ none)
    × (await_suspend (Task.poll countdown) waker (to_resumable (Task.new (awaits 2 returns throws)))
        ≡ none)
start-task_example = start-task countdown waker refl 2 returns throws

-- A timer is its clock with its callbacks.
abbrev clock : Timer (ℕ × List ℕ) ℕ ℕ
clock = record {
  now = λ t. t.0;
  add = λ p d. p + d;
  ge = λ p q. leb q p;
  register_callback = λ t p. (t.0, p ∷ t.1);
  callbacks = λ t. t.1;
  callbacks-register_callback = λ t p. refl;
}

abbrev sleeper : SleepAwaitable (ℕ × List ℕ) ℕ
sleeper = sleep_until clock 10 (3, [])

callback-wakes_example :
    (s : SleepAwaitable (ℕ × List ℕ) ℕ) × (poll clock waker sleeper ≡ some (s, pending, []))
    × (clock.callbacks s.timer ≡ 10 ∷ [])
    × (callback s ≡ wake waker)
    × (callback (reset s) ≡ [])
    × (poll clock other (record s { timer = (12, []) })
        ≡ some (record s { timer = (12, []) }, ready tt, []))
callback-wakes_example = callback-wakes clock waker other sleeper (12, []) refl refl refl

abbrev started : SleepAwaitable (ℕ × List ℕ) ℕ
started = record sleeper { waker = waker; started = true; timer = (3, 10 ∷ []) }

early_callback_example :
    (u : SleepAwaitable (ℕ × List ℕ) ℕ) × (poll clock other (record started { timer = (9, []) })
      ≡ some (u, pending, []))
    × (clock.callbacks u.timer ≡ [])
early_callback_example =
    early_callback clock other (9, []) {s = started} refl refl refl here refl refl
