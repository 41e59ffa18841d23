-- ===== src/Samples/Locks.antt =====
-- src/mutex.cppm on concrete runs.
use pollcoro.Base.{ℕ, refl, [], ◌∷◌, some, ◌≡◌, Bool, true, false}
use pollcoro.Waker.{Waker, noop}
use pollcoro.Mutex.{update, MutexGuard, MutexLockAwaitable, lock, poll_fast, poll_slow, try_lock}
use pollcoro.Mutex.Queue.{mem}
use pollcoro.Mutex.System.{
  absent, awaiting, polling, dropping, holding, System, locks, tries, polls, waits, reads, Reach,
  Steps, start, later, with_client, initial,
}
use pollcoro.Mutex.Invariant.{Inv}
use pollcoro.Mutex.Safety.{
  mutual_exclusion, IsHeld, waiting-IsHeld, IsLost, Step-IsLost, deregister_race,
}

abbrev waker : Waker
waker = record { wake_function = 1; data_ptr = 7 }

abbrev guard : MutexGuard
guard = record { state = true }

-- Client 0 has the lock.
abbrev held : System
held = with_client initial (record initial.mutex { locked = true }) 0 (holding guard)

held-Reach : {racy : Bool} → Reach racy held
unfolding try_lock
held-Reach = later start (tries 0 refl refl)

mutual_exclusion_example : ◌≡◌ {A = ℕ} 0 0
mutual_exclusion_example =
    mutual_exclusion (held-Reach {racy = false}) 0 0 {g = guard} {g' = guard} refl refl

-- Client 1 asks for it, polls, and waits.
abbrev fresh : MutexLockAwaitable
fresh = record { state = true; waiter = some 1; registered = false }

abbrev in_queue : MutexLockAwaitable
in_queue = record { state = true; waiter = some 1; registered = true }

abbrev asked : System
asked =
    with_client held
      (record held.mutex {
        heap = update held.mutex.heap 1 (record { waker = noop; is_ready = false });
      })
      1 (awaiting fresh)

abbrev waiting : System
waiting =
    with_client (with_client asked asked.mutex 1 (polling fresh))
      (record {
        locked = true;
        waiters = 1 ∷ [];
        heap = update asked.mutex.heap 1 (record { waker = waker; is_ready = false });
      })
      1 (awaiting in_queue)

waiting-Reach : {racy : Bool} → Reach racy waiting
unfolding lock poll_fast poll_slow
waiting-Reach =
    later (later (later held-Reach (locks 1 refl)) (polls 1 {a = fresh} refl refl))
      (waits 1 waker {a = fresh} {a' = in_queue} refl refl)

waiting-IsHeld_example : (mem 1 (1 ∷ []) ≡ true) × IsHeld waiting
waiting-IsHeld_example = waiting-IsHeld waiting-Reach 1 {a = in_queue} refl refl refl

-- Client 1 drops its awaitable: it has read `is_ready_` and not yet taken `mtx_`.
abbrev leaving : System
leaving = with_client waiting waiting.mutex 1 (dropping in_queue false)

leaving-Reach : Reach true leaving
unfolding poll_fast
leaving-Reach = later waiting-Reach (reads 1 {a = in_queue} {saw = false} refl refl refl)

deregister_race_example :
    (t : System) × Steps true leaving t × ((u : System) → Steps true t u → IsLost u)
deregister_race_example =
    deregister_race {s = leaving} {a = in_queue} {g = guard} {rest = []} leaving-Reach 1 0 refl refl
      refl

-- The lock is taken, and there are no clients.
abbrev lost : System
lost = record { mutex = record initial.mutex { locked = true }; client = λ _. absent }

lost-Inv : Inv lost
unfolding mem
lost-Inv = record {
  unique = λ i j p q. cc;
  guarded = λ i p. refl;
  queued = λ i p. cc;
  waiting = λ i p q. cc;
  distinct = tt;
  idle = λ _. refl;
  sound = λ _. tt;
}

Step-IsLost_example :
    IsLost (with_client lost (lock 2 lost.mutex).0 2 (awaiting (lock 2 lost.mutex).1))
Step-IsLost_example =
    Step-IsLost {racy = false} lost-Inv (locks 2 refl)
      (record { locked = refl; unowned = λ i. refl })
