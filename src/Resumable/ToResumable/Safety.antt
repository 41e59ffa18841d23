-- ===== src/Resumable/ToResumable/Safety.antt =====
-- src/resumable.cppm: however often the waker of `to_resumable` is called, its coroutine is resumed once.
use pollcoro.Base.{
  ℕ, ◌+◌, ◌⊎◌, inl, inr, Bool, true, false, if◌then◌else◌, Option, none, some, ◌≡◌, refl, arith,
  subst, some-injective, Option-cases, Bool-cases,
}
use pollcoro.Waker.{Waker}
use pollcoro.Awaitable.{Poll}
use pollcoro.Task.{Outcome, returned, thrown}
use pollcoro.Task.Evaluation.{Result, value, exception}
use pollcoro.BlockOn.{notified}
use pollcoro.Resumable.ToResumable.Interrupts.{
  in_poll, poll_round-undefined, poll_round-quiet, poll_round-interrupted,
}
use pollcoro.Resumable.ToResumable.{
  Place, initial, polling, awaiting, scheduling, final, Resumable, to_resumable, end_poll,
  poll_round, resume_at, start, await_suspend, call_waker, run_scheduled,
}

module _ {ℓ κ μ} {S : Type ℓ} {E : Type κ} {T : Type μ} (poll : Poll S (Outcome E T))
    (w : Waker) where
  -- The task is started or awaited, its waker is called any number of times before the end, and the
  -- scheduler resumes what was scheduled.
  pub data Step (t t' : Resumable S E T) : Type (ℓ ⊔ κ ⊔ μ) where
    starts : t.place ≡ initial → start poll w t ≡ some t' → Step t t'
    awaits : t.place ≡ initial → await_suspend poll w t ≡ some t' → Step t t'
    wakes :
        (t.place ≡ awaiting) ⊎ (t.place ≡ scheduling) → call_waker poll w t ≡ some t' → Step t t'
    resumes : run_scheduled poll w t ≡ some t' → Step t t'

  pub data Reach (s : S) : Resumable S E T → Type (ℓ ⊔ κ ⊔ μ) where
    new : Reach s (to_resumable s)
    later : {t t' : Resumable S E T} → Reach s t → Step t t' → Reach s t'

  -- At each place at which calls can find it: what the scheduler owes, whether there is a result, and how often the continuation
  -- was resumed.
  abbrev pub AtPlace : Place → Resumable S E T → Type (κ ⊔ μ)
  AtPlace initial t =
      (t.scheduled ≡ 0) × (t.result ≡ none) × (t.continuation ≡ false) × (t.continued ≡ 0)
  AtPlace polling t = (t.result ≡ none) × ⊥
  AtPlace awaiting t =
      (t.scheduled ≡ 0) × (t.resumed ≡ false) × (t.result ≡ none) × (t.continued ≡ 0)
  AtPlace scheduling t =
      (t.scheduled ≡ 1) × (t.resumed ≡ true) × (t.result ≡ none) × (t.continued ≡ 0)
  AtPlace final t =
      (t.scheduled ≡ 0)
      × ((r : Result E T) × (t.result ≡ some r))
      × (t.continued ≡ (if t.continuation then 1 else 0))

  abbrev pub Inv : Resumable S E T → Type (κ ⊔ μ)
  Inv t = AtPlace t.place t

  -- What an operation comes to, where it is defined.
  abbrev Keeps : Option (Resumable S E T) → Type (κ ⊔ μ)
  Keeps none = Unit
  Keeps (some t) = Inv t

  Inv-of_Keeps : {t : Resumable S E T} (o : Option (Resumable S E T)) → Keeps o → o ≡ some t → Inv t
  Inv-of_Keeps none k e = cc
  Inv-of_Keeps (some t) k e = subst Inv (some-injective e) k

  continued_once :
      (continuation : Bool) (n : ℕ)
      → n ≡ 0
      → (if continuation then n + 1 else n) ≡ (if continuation then 1 else 0)
  continued_once true n e = omega arith
  continued_once false n e = e

  -- Between two suspensions: nothing is scheduled, and there is no result yet.
  record IsRunning (t : Resumable S E T) : Type (κ ⊔ μ) where
    unscheduled : t.scheduled ≡ 0
    unfinished : t.result ≡ none
    uncontinued : t.continued ≡ 0

  end_poll-Inv :
      (outcome : Outcome E T) (t : Resumable S E T)
      → IsRunning t
      → t.resumed ≡ false
      → Inv (end_poll outcome t)
  unfolding end_poll
  end_poll-Inv (thrown x) t run e = (
    run.unscheduled,
    (exception x, refl),
    continued_once t.continuation t.continued run.uncontinued,
  )
  end_poll-Inv (returned state) t run e = elim (Option-cases state.result) [
    | inl unready ↦ rw unready (run.unscheduled, e, run.unfinished, run.uncontinued)
    | inr (r, ready) ↦ rw ready (
      run.unscheduled,
      (value r, refl),
      continued_once t.continuation t.continued run.uncontinued,
    )
  ]

  poll_round-Keeps : (t : Resumable S E T) → IsRunning t → Keeps (poll_round poll w t)
  poll_round-Keeps t run = elim (Option-cases (poll w t.awaitable)) [
    | inl undefined ↦ rw (poll_round-undefined poll w t undefined) tt
    | inr ((s, outcome, woken), p) ↦ elim (Bool-cases (notified w woken)) [
      | inl woke ↦ rw (poll_round-interrupted poll w t p woke) tt
      | inr quiet ↦ rw (poll_round-quiet poll w t p quiet) (
          end_poll-Inv outcome (in_poll poll w s t)
            (record {
              unscheduled = run.unscheduled;
              unfinished = run.unfinished;
              uncontinued = run.uncontinued;
            })
            refl)
    ]
  ]

  starts-Keeps :
      (t : Resumable S E T) (continuation : Bool)
      → t.place ≡ initial
      → AtPlace initial t
      → Keeps (resume_at poll w t.place (record t { continuation = continuation }))
  unfolding resume_at
  starts-Keeps t continuation e at = rw e (
      poll_round-Keeps (record t { place = initial; continuation = continuation })
        (record { unscheduled = at.0; unfinished = at.1; uncontinued = at.3 }))

  call_waker-Keeps :
      (t : Resumable S E T)
      → Inv t
      → (t.place ≡ awaiting) ⊎ (t.place ≡ scheduling)
      → Keeps (call_waker poll w t)
  unfolding call_waker resume_at
  call_waker-Keeps t inv (inl e) =
      let at = subst (λ p. AtPlace p t) e inv in rw (at.1, e) (rw at.0 refl, refl, at.2, at.3)
  call_waker-Keeps t inv (inr e) = let at = subst (λ p. AtPlace p t) e inv in simp (at.1) inv

  run_scheduled-Keeps :
      (t : Resumable S E T) (p : Place) → t.place ≡ p → AtPlace p t → Keeps (run_scheduled poll w t)
  unfolding run_scheduled resume_at
  run_scheduled-Keeps t initial e at = rw at.0 tt
  run_scheduled-Keeps t awaiting e at = rw at.0 tt
  run_scheduled-Keeps t polling e at = absurd at.1
  run_scheduled-Keeps t final e at = rw at.0 tt
  run_scheduled-Keeps t scheduling e at =
      rw (at.0, e)
        (poll_round-Keeps (record t { place = scheduling; scheduled = 0 })
          (record { unscheduled = refl; unfinished = at.2; uncontinued = at.3 }))

  Step-Inv : {t t' : Resumable S E T} → Step t t' → Inv t → Inv t'
  unfolding start await_suspend
  Step-Inv {t} (starts at e) inv =
      Inv-of_Keeps _ (starts-Keeps t t.continuation at (subst (λ p. AtPlace p t) at inv)) e
  Step-Inv {t} (awaits at e) inv =
      Inv-of_Keeps _ (starts-Keeps t true at (subst (λ p. AtPlace p t) at inv)) e
  Step-Inv {t} (wakes at e) inv = Inv-of_Keeps _ (call_waker-Keeps t inv at) e
  Step-Inv {t} (resumes e) inv = Inv-of_Keeps _ (run_scheduled-Keeps t t.place refl inv) e

  -- Whatever order the start, calls of the waker before the end and runs of the scheduler come in,
  -- the scheduler owes the coroutine of `to_resumable` one resumption while it waits for
  -- `schedule()` and none elsewhere, and at its end there is a result and its continuation, if one
  -- is set, has been resumed once.
  pub resumed_once : {s : S} {t : Resumable S E T} → Reach s t → Inv t
  resumed_once new = (refl, refl, refl, refl)
  resumed_once (later r st) = Step-Inv st (resumed_once r)
