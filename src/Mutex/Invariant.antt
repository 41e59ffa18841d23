-- ===== src/Mutex/Invariant.antt =====
-- src/mutex.cppm: who owns the lock.
use pollcoro.Base.{
  ℕ, Bool, true, false, ◌&&◌, ◌⊎◌, List, [], ◌∷◌, ◌++◌, some, ◌≡◌, refl, ap, subst, arith,
  Bool-cases, inl, inr,
}
use pollcoro.Waker.{Waker}
use pollcoro.Awaitable.{ready, pending}
use pollcoro.Mutex.{
  Waiter, MutexState, update, release, release_to, MutexGuard, unlock, MutexLockAwaitable, lock,
  poll_fast, poll_slow, deregister_after, try_lock, remove_waiter,
}
use pollcoro.Mutex.Queue.{
  mem, Distinct, mem-append, mem-erase, Distinct-append, Distinct-erase, erase-nil,
}
use pollcoro.Mutex.System.{
  Client, absent, awaiting, polling, dropping, holding, System, Step, locks, tries, polls_ready,
  polls, acquires, waits, drops, reads, deregisters, unlocks, Reach, start, later, with_client,
}

abbrev pub registered : Client → Bool
registered absent = false
registered (awaiting a) = a.registered
registered (polling a) = a.registered
registered (dropping a saw) = true
registered (holding g) = false

-- A guard owns the lock, and so does a registered waiter that has been made ready.
abbrev pub owns : Waiter → Client → Bool
owns v (holding g) = true
owns v absent = false
owns v (awaiting a) = a.registered && v.is_ready
owns v (polling a) = a.registered && v.is_ready
owns v (dropping a saw) = v.is_ready

abbrev pub IsIntact : ℕ → MutexLockAwaitable → Type 0
IsIntact i a = (a.state ≡ true) × (a.waiter ≡ some i)

-- The pointers are set, only a registered waiter is ready, and a flag that was read as true is still
-- true.
abbrev pub IsSound : ℕ → Waiter → Client → Type 0
IsSound i v absent = Unit
IsSound i v (awaiting a) = IsIntact i a × ((a.registered ≡ true) ⊎ (v.is_ready ≡ false))
IsSound i v (polling a) = IsIntact i a × ((a.registered ≡ true) ⊎ (v.is_ready ≡ false))
IsSound i v (dropping a saw) =
    IsIntact i a × (a.registered ≡ true) × ((saw ≡ false) ⊎ (v.is_ready ≡ true))
IsSound i v (holding g) = g.state ≡ true

abbrev pub owner : System → ℕ → Bool
owner s i = owns (s.mutex.heap i) (s.client i)

pub record Inv (s : System) : Type 0 where
  pub unique : (i j : ℕ) → owner s i ≡ true → owner s j ≡ true → i ≡ j
  pub guarded : (i : ℕ) → owner s i ≡ true → s.mutex.locked ≡ true
  pub queued :
      (i : ℕ)
      → mem i s.mutex.waiters ≡ true
      → (registered (s.client i) ≡ true) × ((s.mutex.heap i).is_ready ≡ false)
  pub waiting :
      (i : ℕ)
      → registered (s.client i) ≡ true
      → (s.mutex.heap i).is_ready ≡ false
      → mem i s.mutex.waiters ≡ true
  pub distinct : Distinct s.mutex.waiters
  pub idle : s.mutex.locked ≡ false → s.mutex.waiters ≡ []
  pub sound : (i : ℕ) → IsSound i (s.mutex.heap i) (s.client i)

-- A client moves and leaves the mutex alone; it owns no more than before.
module _ {s : System} (inv : Inv s) (i : ℕ) where
  open inv use {unique, guarded, queued, waiting, distinct, idle, sound}

  move-Inv :
      (c : Client)
      → (owns (s.mutex.heap i) c ≡ true → owner s i ≡ true)
      → registered c ≡ registered (s.client i) ⊎ ((registered c ≡ false) × (owner s i ≡ true))
      → IsSound i (s.mutex.heap i) c
      → Inv (with_client s s.mutex i c)
  move-Inv c own reg ok = record {
    unique = λ j k p q. ground (arith, unique j k, unique i k, unique i j, unique j i, own);
    guarded = λ j p. ground (arith, guarded j, guarded i, own);
    queued = λ j p. ground (arith, queued j);
    waiting = λ j p q. ground (arith, waiting j);
    distinct = distinct;
    idle = idle;
    sound = λ j. ground (arith, sound j);
  }

  -- The lock is free, and client `i` takes it.
  grant-Inv :
      (h : ℕ → Waiter) {g : MutexGuard}
      → ((j : ℕ) → (h j).is_ready ≡ (s.mutex.heap j).is_ready)
      → s.mutex.locked ≡ false
      → g.state ≡ true
      → Inv (
          with_client s
            (record { locked = true; waiters = s.mutex.waiters; heap = h })
            i
            (holding g))
  unfolding mem
  grant-Inv h same free ok = record {
    unique = λ j k p q. ground (arith, guarded j, guarded k, same j, same k);
    guarded = λ j p. refl;
    queued = λ j p. ground (arith, queued j, same j, idle free);
    waiting = λ j p q. ground (arith, waiting j, same j);
    distinct = distinct;
    idle = λ e. cc;
    sound = λ j. ground (arith, sound j, same j);
  }

  -- A new awaitable with a new waiter.
  lock-Inv :
      s.client i ≡ absent → Inv (with_client s (lock i s.mutex).0 i (awaiting (lock i s.mutex).1))
  unfolding lock
  lock-Inv e = record {
    unique = λ j k p q. ground (arith, unique j k);
    guarded = λ j p. ground (arith, guarded j);
    queued = λ j p. ground (arith, queued j);
    waiting = λ j p q. ground (arith, waiting j);
    distinct = distinct;
    idle = idle;
    sound = λ j. ground (arith, sound j);
  }

  -- A client that is not registered goes to the end of the queue.
  enqueue-Inv :
      (h : ℕ → Waiter) (a : MutexLockAwaitable)
      → ((j : ℕ) → (h j).is_ready ≡ (s.mutex.heap j).is_ready)
      → s.client i ≡ polling a
      → a.registered ≡ false
      → (s.mutex.heap i).is_ready ≡ false
      → s.mutex.locked ≡ true
      → Inv (
          with_client s
            (record { locked = s.mutex.locked; waiters = s.mutex.waiters ++ i ∷ []; heap = h })
            i
            (awaiting (record a { registered = true })))
  enqueue-Inv h a same e new unready held = record {
    unique = λ j k p q. ground (arith, unique j k, same j, same k, same i);
    guarded = λ j p. held;
    queued = λ j p. ground (arith, queued j, same j, mem-append j s.mutex.waiters i);
    waiting = λ j p q. ground (arith, waiting j, same j, mem-append j s.mutex.waiters i);
    distinct = Distinct-append s.mutex.waiters i distinct (ground (arith, queued i));
    idle = λ p. cc;
    sound = λ j. ground (arith, sound j, same j);
  }

  -- The owner gives the lock back, and nobody waits.
  free-Inv :
      owner s i ≡ true
      → s.mutex.waiters ≡ []
      → Inv (with_client s (record s.mutex { locked = false }) i absent)
  unfolding mem
  free-Inv own e = record {
    unique = λ j k p q. ground (arith, unique i j, unique i k, unique j k);
    guarded = λ j p. ground (arith, unique i j);
    queued = λ j p. ground (arith, queued j);
    waiting = λ j p q. ground (arith, waiting j);
    distinct = distinct;
    idle = λ _. e;
    sound = λ j. ground (arith, sound j);
  }

  -- The owner hands the lock over to the front waiter.
  hand_over-Inv :
      (next : ℕ) (rest : List ℕ)
      → owner s i ≡ true
      → s.mutex.waiters ≡ next ∷ rest
      → Inv (with_client s (release_to (next ∷ rest) s.mutex).0 i absent)
  unfolding mem release_to
  hand_over-Inv next rest own e = record {
    unique = λ j k p q. ground (arith, unique i j, unique i k, unique j k);
    guarded = λ j p. guarded i own;
    queued = λ j p. ground (arith, queued j, queued i, ap (mem j) e, ahead);
    waiting = λ j p q. ground (arith, waiting j, ap (mem j) e);
    distinct = ahead.1;
    idle = λ p. ground (arith, guarded i own);
    sound = λ j. ground (arith, sound j, queued j, ap (mem j) e);
  }
    where
      ahead : Distinct (next ∷ rest)
      ahead = subst Distinct e distinct

  release-Inv : owner s i ≡ true → Inv (with_client s (release s.mutex).0 i absent)
  unfolding release release_to
  release-Inv own = by_queue s.mutex.waiters refl
    where
      by_queue :
          (q : List ℕ) → s.mutex.waiters ≡ q → Inv (with_client s (release_to q s.mutex).0 i absent)
      by_queue [] e = free-Inv own e
      by_queue (next ∷ rest) e = hand_over-Inv next rest own e

  -- A waiter that drops out without the lock.
  remove-Inv : Inv (with_client s (remove_waiter i s.mutex) i absent)
  unfolding remove_waiter
  remove-Inv = record {
    unique = λ j k p q. ground (arith, unique j k);
    guarded = λ j p. ground (arith, guarded j);
    queued = λ j p. ground (arith, queued j, mem-erase i j s.mutex.waiters distinct);
    waiting = λ j p q. ground (arith, waiting j, mem-erase i j s.mutex.waiters distinct);
    distinct = Distinct-erase i s.mutex.waiters distinct;
    idle = λ p. erase-nil i (idle p);
    sound = λ j. ground (arith, sound j);
  }

  -- A waiter that was handed the lock takes its guard.
  claim-Inv :
      (h : ℕ → Waiter) {g : MutexGuard}
      → ((j : ℕ) → (h j).is_ready ≡ (s.mutex.heap j).is_ready)
      → owner s i ≡ true
      → g.state ≡ true
      → Inv (
          with_client s
            (record { locked = true; waiters = s.mutex.waiters; heap = h })
            i
            (holding g))
  claim-Inv h same own ok = record {
    unique = λ j k p q. ground (arith, unique j k, unique i j, unique i k, same j, same k);
    guarded = λ j p. refl;
    queued = λ j p. ground (arith, queued j, queued i, same j);
    waiting = λ j p q. ground (arith, waiting j, same j);
    distinct = distinct;
    idle = λ e. cc;
    sound = λ j. ground (arith, sound j, same j);
  }

  -- A waiter that is still not ready notes its waker.
  note-Inv :
      (h : ℕ → Waiter) (a : MutexLockAwaitable)
      → ((j : ℕ) → (h j).is_ready ≡ (s.mutex.heap j).is_ready)
      → s.client i ≡ polling a
      → Inv (
          with_client s
            (record { locked = s.mutex.locked; waiters = s.mutex.waiters; heap = h })
            i
            (awaiting a))
  note-Inv h a same e = record {
    unique = λ j k p q. ground (arith, unique j k, same j, same k);
    guarded = λ j p. ground (arith, guarded j, same j);
    queued = λ j p. ground (arith, queued j, same j);
    waiting = λ j p q. ground (arith, waiting j, same j);
    distinct = distinct;
    idle = idle;
    sound = λ j. ground (arith, sound j, same j);
  }

  noted : Waker → ℕ → Waiter
  noted w = update s.mutex.heap i (record { waker = w; is_ready = (s.mutex.heap i).is_ready })

  noted_same : (w : Waker) (j : ℕ) → (noted w j).is_ready ≡ (s.mutex.heap j).is_ready
  unfolding noted
  noted_same w j = ground arith

  acquires-Inv :
      (w : Waker) {a a' : MutexLockAwaitable} {m : MutexState} {g : MutexGuard}
      → s.client i ≡ polling a
      → poll_slow w s.mutex a ≡ some (m, a', ready g)
      → Inv (with_client s m i (holding g))
  unfolding poll_slow noted
  acquires-Inv w {a} {m} {g} e p = elim (Bool-cases a.registered) [
    | inl old ↦
        subst (λ m'. Inv (with_client s m' i (holding g)))
          {x = record { locked = true; waiters = s.mutex.waiters; heap = noted w }}
          (ground (arith, sound i))
          (claim-Inv (noted w) (noted_same w) (ground (arith, sound i)) (ground (arith, sound i)))
    | inr new ↦
        subst (λ m'. Inv (with_client s m' i (holding g)))
          {x = record { locked = true; waiters = s.mutex.waiters; heap = noted w }}
          (ground (arith, sound i))
          (grant-Inv (noted w) (noted_same w) (ground (arith, sound i)) (ground (arith, sound i)))
  ]

  waits-Inv :
      (w : Waker) {a a' : MutexLockAwaitable} {m : MutexState}
      → s.client i ≡ polling a
      → poll_slow w s.mutex a ≡ some (m, a', pending)
      → Inv (with_client s m i (awaiting a'))
  unfolding poll_slow noted
  waits-Inv w {a} {a'} {m} e p = elim (Bool-cases a.registered) [
    | inl old ↦
        subst (λ m'. Inv (with_client s m' i (awaiting a')))
          {x = record { locked = s.mutex.locked; waiters = s.mutex.waiters; heap = noted w }}
          (ground (arith, sound i)) (note-Inv (noted w) a' (noted_same w) (ground (arith, sound i)))
    | inr new ↦
        subst (λ (r : MutexState × MutexLockAwaitable). Inv (with_client s r.0 i (awaiting r.1)))
          {x = (
            record { locked = s.mutex.locked; waiters = s.mutex.waiters ++ i ∷ []; heap = noted w },
            record a { registered = true },
          )}
          {y = (m, a')} (ground (arith, sound i))
          (enqueue-Inv (noted w) a (noted_same w) e new (ground (arith, sound i))
            (ground (arith, sound i)))
  ]

tries-Inv :
    {s : System} {m : MutexState} {g : MutexGuard}
    → Inv s
    → (i : ℕ) → s.client i ≡ absent
    → try_lock s.mutex ≡ (m, some g)
    → Inv (with_client s m i (holding g))
unfolding try_lock
tries-Inv {s} {m} {g} inv i e p =
    subst (λ m'. Inv (with_client s m' i (holding g)))
      {x = record { locked = true; waiters = s.mutex.waiters; heap = s.mutex.heap }} (ground arith)
      (grant-Inv inv i s.mutex.heap (λ j. refl) (ground arith) (ground arith))

deregisters-Inv :
    {s : System} {a : MutexLockAwaitable}
    → Inv s
    → (i : ℕ) (saw : Bool) → s.client i ≡ dropping a saw
    → Inv (with_client s (deregister_after saw i s.mutex).0 i absent)
unfolding deregister_after
deregisters-Inv inv i true e = release-Inv inv i (ground (arith, inv.sound i))
deregisters-Inv inv i false e = remove-Inv inv i

unlocks-Inv :
    {s : System} {g : MutexGuard}
    → Inv s
    → (i : ℕ) → s.client i ≡ holding g
    → Inv (with_client s (unlock s.mutex g).0 i absent)
unfolding unlock
unlocks-Inv {s} {g} inv i e = rw (held) (release-Inv inv i (ground arith))
  where
    held : g.state ≡ true
    held = ground (arith, inv.sound i)

pub Step-Inv : {racy : Bool} {s t : System} → Step racy s t → Inv s → Inv t
unfolding poll_fast
Step-Inv (locks i e) inv = lock-Inv inv i e
Step-Inv (tries i e p) inv = tries-Inv inv i e p
Step-Inv (polls_ready i e p) inv =
    move-Inv inv i _ (λ _. ground (arith, inv.sound i)) (ground (arith, inv.sound i))
      (ground (arith, inv.sound i))
Step-Inv (polls i e p) inv =
    move-Inv inv i _ (λ q. ground arith) (ground arith) (ground (arith, inv.sound i))
Step-Inv (acquires i w e p) inv = acquires-Inv inv i w e p
Step-Inv (waits i w e p) inv = waits-Inv inv i w e p
Step-Inv (drops i e r) inv = move-Inv inv i absent (λ q. cc) (ground (arith, inv.sound i)) tt
Step-Inv (reads i e r p) inv =
    move-Inv inv i _ (λ q. ground (arith, inv.sound i)) (ground (arith, inv.sound i))
      (ground (arith, inv.sound i))
Step-Inv (deregisters i {saw} e r) inv = deregisters-Inv inv i saw e
Step-Inv (unlocks i e) inv = unlocks-Inv inv i e

pub Reach-Inv : {racy : Bool} {s : System} → Reach racy s → Inv s
unfolding mem
Reach-Inv start = record {
  unique = λ i j p q. cc;
  guarded = λ i p. cc;
  queued = λ i p. cc;
  waiting = λ i p q. cc;
  distinct = tt;
  idle = λ _. refl;
  sound = λ _. tt;
}
Reach-Inv (later r st) = Step-Inv st (Reach-Inv r)
