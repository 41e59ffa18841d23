-- ===== src/Resumable/ToResumable/Progress.antt =====
-- src/resumable.cppm: what `to_resumable` comes to, driven by its waker and its scheduler.
use pollcoro.Base.{
  ℕ, zero, suc, ◌∷◌, length, true, false, ◌>>=◌, List, [], Option, none, some, ◌≡◌, refl, arith,
}
use pollcoro.Waker.{Waker}
use pollcoro.Awaitable.{Poll, pending}
use pollcoro.Task.{Outcome, returned, thrown, Body, awaits, resume}
use pollcoro.Task
use pollcoro.Task.Evaluation.{Result, value, exception, last}
use pollcoro.BlockOn.{notified}
use pollcoro.BlockOn.Progress.{Notifies-wake}
use pollcoro.Resumable.ToResumable.Interrupts.{poll_round-quiet, poll_round-interrupted}
use pollcoro.Resumable.ToResumable.{
  scheduling, final, Resumable, to_resumable, end_poll, poll_round, resume_at, start, await_suspend,
  call_waker, run_scheduled, take_result, finish,
}

module _ {ℓ κ μ} {S : Type ℓ} {E : Type κ} {T : Type μ} (poll : Poll S (Outcome E T))
    (w : Waker) where
  -- The awaitable is pending exactly so many times, and then it gives the result; none of these polls
  -- calls the waker before it returns.
  pub data SettlesQuietly : ℕ → S → Result E T → Type (ℓ ⊔ κ ⊔ μ) where
    now :
        {s s' : S} {r : Result E T} {woken : List Waker}
        → poll w s ≡ some (s', last r, woken)
        → notified w woken ≡ false
        → SettlesQuietly zero s r
    later :
        {k : ℕ} {s s' : S} {r : Result E T} {woken : List Waker}
        → poll w s ≡ some (s', returned pending, woken)
        → notified w woken ≡ false
        → SettlesQuietly k s' r
        → SettlesQuietly (suc k) s r

  -- So many calls of the waker in a row.
  call_times : ℕ → Resumable S E T → Option (Resumable S E T)
  call_times zero t = some t
  call_times (suc n) t = do t' ← call_waker poll w t; call_times n t'

  -- In each round the waker is called once, and further times, and then the scheduler resumes the coroutine.
  unfoldable pub drive : List ℕ → Resumable S E T → Option (Resumable S E T)
  unfolding call_times
  drive [] t = some t
  drive (further ∷ rounds) t = do
    t1 ← call_times (suc further) t
    t2 ← run_scheduled poll w t1
    drive rounds t2

  call_times_resumed : (n : ℕ) (t : Resumable S E T) → t.resumed ≡ true → call_times n t ≡ some t
  unfolding call_times call_waker
  call_times_resumed zero t h = refl
  call_times_resumed (suc n) t h = simp h (call_times_resumed n t h)

  -- After a call of the waker.
  abbrev woken_up : Resumable S E T → Resumable S E T
  woken_up t = record t { place = scheduling; resumed = true; scheduled = 1 }

  poll_round-drive :
      {n : ℕ} {r : Result E T} (t : Resumable S E T)
      → SettlesQuietly n t.awaitable r
      → (rounds : List ℕ) → length rounds ≡ n
      → (t' : Resumable S E T) × ((do
        t1 ← poll_round poll w (record t { scheduled = 0 })
        drive rounds t1)
          ≡ some t')
        × (t'.place ≡ final)
        × (take_result t' ≡ some r)
  unfolding end_poll drive call_times call_waker resume_at run_scheduled
  poll_round-drive {r = value v} t (now {s'} p q) [] len = (
    finish (value v) (record t { awaitable = s'; resumed = false; scheduled = 0 }),
    rw (poll_round-quiet poll w (record t { scheduled = 0 }) p q) refl,
    refl,
    refl,
  )
  poll_round-drive {r = exception e} t (now {s'} p q) [] len = (
    finish (exception e) (record t { awaitable = s'; resumed = false; scheduled = 0 }),
    rw (poll_round-quiet poll w (record t { scheduled = 0 }) p q) refl,
    refl,
    refl,
  )
  poll_round-drive t (now p q) (x ∷ rounds) len = absurd (omega arith)
  poll_round-drive t (later p q st) [] len = absurd (omega arith)
  poll_round-drive t (later {k} {s'} p q st) (further ∷ rounds) len =
      let t2 = woken_up (record t { awaitable = s' }) in
      let (t', driven, ended, result) = poll_round-drive {n = k} t2 st rounds (omega arith) in
      (
        t',
        rw
            (
              poll_round-quiet poll w (record t { scheduled = 0 }) p q,
              call_times_resumed further t2 refl,
            )
            driven,
        ended,
        result,
      )

  -- If the awaitable is pending `n` times and then gives a value or throws an exception, and no
  -- poll calls the waker before it returns, then the coroutine of `to_resumable`, started and then
  -- driven through `n` rounds, in each of which its waker is called once or more and then the
  -- scheduler runs, is at its end with that result.
  pub start-drive :
      {n : ℕ} {s : S} {r : Result E T}
      → SettlesQuietly n s r
      → (rounds : List ℕ) → length rounds ≡ n
      → (t : Resumable S E T) × ((do t1 ← start poll w (to_resumable s); drive rounds t1) ≡ some t)
        × (t.place ≡ final)
        × (take_result t ≡ some r)
  unfolding start resume_at
  start-drive {s} st rounds len = poll_round-drive (to_resumable s) st rounds len

module _ {ℓ κ μ ν} {S : Type ℓ} {R : Type κ} {E : Type μ} {T : Type ν} where
  -- To start or to await `to_resumable` of a task whose body awaits anything before it ends is
  -- undefined: its first poll calls the waker, which finds `resumed` reset and resumes the
  -- coroutine in the middle of `await_suspend`.
  pub start-task :
      (poll : Poll S (Outcome E R)) (w : Waker) {m : ℕ}
      → w.wake_function ≡ suc m
      → (s : S) (k : R → Body S R E T) (h : E → Body S R E T)
      → (start (Task.poll poll) w (to_resumable (Task.new (awaits s k h))) ≡ none)
        × (await_suspend (Task.poll poll) w (to_resumable (Task.new (awaits s k h))) ≡ none)
  unfolding start await_suspend resume_at Task.poll resume
  start-task poll w {m} e s k h =
      let t = to_resumable (Task.new (awaits s k h)) in
      (
        poll_round-interrupted (Task.poll poll) w t refl (Notifies-wake w m e []),
        poll_round-interrupted (Task.poll poll) w (record t { continuation = true }) refl
            (Notifies-wake w m e []),
      )
