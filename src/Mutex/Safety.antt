-- ===== src/Mutex/Safety.antt =====
-- src/mutex.cppm: what every interleaving keeps, and the race between `deregister` and `release`.
use pollcoro.Base.{ℕ, Bool, true, false, inl, inr, List, [], ◌∷◌, ◌≡◌, refl, ap, arith, Bool-cases}
use pollcoro.Mutex.{
  release, release_to, MutexGuard, unlock, MutexLockAwaitable, lock, poll_fast, poll_slow,
  deregister_after, try_lock, remove_waiter,
}
use pollcoro.Mutex.Queue.{mem}
use pollcoro.Mutex.System.{
  absent, awaiting, dropping, holding, System, Step, locks, tries, polls_ready, polls, acquires,
  waits, drops, reads, deregisters, unlocks, Reach, start, later, with_client, Steps, done, step,
}
use pollcoro.Mutex.Invariant.{Inv, owner, Reach-Inv, Step-Inv}

-- In every state that any interleaving of clients of one mutex reaches, the racing steps of
-- `deregister` included, two clients that hold guards are the same client.
pub mutual_exclusion :
    {racy : Bool} {s : System}
    → Reach racy s
    → (i j : ℕ) {g g' : MutexGuard} → s.client i ≡ holding g
    → s.client j ≡ holding g'
    → i ≡ j
mutual_exclusion r i j p q = (Reach-Inv r).unique i j (ground arith) (ground arith)

abbrev pub IsHeld : System → Type 0
IsHeld s = (i : ℕ) × (owner s i ≡ true)

release-IsHeld :
    {s : System}
    → Inv s
    → (i : ℕ) (q : List ℕ) → s.mutex.waiters ≡ q
    → owner s i ≡ true
    → (release_to q s.mutex).0.locked ≡ true
    → IsHeld (with_client s (release_to q s.mutex).0 i absent)
unfolding release_to mem
release-IsHeld inv i [] e own h = cc
release-IsHeld inv i (next ∷ rest) e own h =
    (next, ground (arith, inv.queued next, inv.queued i, ap (mem next) e))

deregisters-IsHeld :
    {s : System} {a : MutexLockAwaitable}
    → Inv s
    → (s.mutex.locked ≡ true → IsHeld s)
    → (i : ℕ) (saw : Bool) → s.client i ≡ dropping a saw
    → (s.mutex.heap i).is_ready ≡ saw
    → (deregister_after saw i s.mutex).0.locked ≡ true
    → IsHeld (with_client s (deregister_after saw i s.mutex).0 i absent)
unfolding deregister_after release remove_waiter
deregisters-IsHeld {s} inv held i true e r h =
    release-IsHeld inv i s.mutex.waiters refl (ground arith) h
deregisters-IsHeld inv held i false e r h = let (j, own) = held h in (j, ground arith)

unlocks-IsHeld :
    {s : System} {g : MutexGuard}
    → Inv s
    → (i : ℕ) → s.client i ≡ holding g
    → (unlock s.mutex g).0.locked ≡ true
    → IsHeld (with_client s (unlock s.mutex g).0 i absent)
unfolding unlock release
unlocks-IsHeld {s} {g} inv i e = rw full (release-IsHeld inv i s.mutex.waiters refl (ground arith))
  where
    full : g.state ≡ true
    full = ground (arith, inv.sound i)

-- The owner stays, whoever else moves, and hands the lock over when it leaves.
Step-IsHeld :
    {s t : System}
    → Step false s t
    → Inv s
    → (s.mutex.locked ≡ true → IsHeld s)
    → t.mutex.locked ≡ true
    → IsHeld t
unfolding lock try_lock poll_fast poll_slow
Step-IsHeld (locks i e) inv held h = let (j, own) = held h in (j, ground arith)
Step-IsHeld (tries i e p) inv held h = (i, ground arith)
Step-IsHeld (polls_ready i e p) inv held h = let (j, own) = held h in (j, ground arith)
Step-IsHeld (polls i e p) inv held h = let (j, own) = held h in (j, ground arith)
Step-IsHeld (acquires i w e p) inv held h = (i, ground arith)
Step-IsHeld (waits i w e p) inv held h =
    let (j, own) = held (ground (arith, inv.sound i)) in (j, ground (arith, inv.sound i))
Step-IsHeld (drops i e r) inv held h = let (j, own) = held h in (j, ground (arith, inv.sound i))
Step-IsHeld (reads i e r p) inv held h = let (j, own) = held h in (j, ground (arith, inv.sound i))
Step-IsHeld (deregisters i {saw} e r) inv held h =
    deregisters-IsHeld inv held i saw e (ground (arith, inv.sound i)) h
Step-IsHeld (unlocks i e) inv held h = unlocks-IsHeld inv i e h

pub locked-IsHeld : {s : System} → Reach false s → s.mutex.locked ≡ true → IsHeld s
locked-IsHeld start h = cc
locked-IsHeld (later r st) h = Step-IsHeld st (Reach-Inv r) (locked-IsHeld r) h

-- In every reachable state without the race of `deregister`, a client whose awaitable is
-- registered and not ready is in the queue, and some client owns the lock: it has a guard, or it
-- has been handed the lock and has yet to poll.
pub waiting-IsHeld :
    {s : System}
    → Reach false s
    → (i : ℕ) {a : MutexLockAwaitable} → s.client i ≡ awaiting a
    → a.registered ≡ true
    → (s.mutex.heap i).is_ready ≡ false
    → (mem i s.mutex.waiters ≡ true) × IsHeld s
unfolding mem
waiting-IsHeld {s} r i e reg unready = (in_queue, locked-IsHeld r taken)
  where
    in_queue : mem i s.mutex.waiters ≡ true
    in_queue = (Reach-Inv r).waiting i (ground arith) unready

    taken : s.mutex.locked ≡ true
    taken = elim (Bool-cases s.mutex.locked) [
      | inl yes_ ↦ yes_
      | inr free ↦ ground (arith, in_queue, ap (mem i) ((Reach-Inv r).idle free))
    ]

-- The lock is taken and nobody has it.
pub record IsLost (s : System) : Type 0 where
  pub locked : s.mutex.locked ≡ true
  pub unowned : (i : ℕ) → owner s i ≡ false

deregisters-IsLost :
    {s : System} {a : MutexLockAwaitable}
    → Inv s
    → (i : ℕ) (saw : Bool) → s.client i ≡ dropping a saw
    → IsLost s
    → IsLost (with_client s (deregister_after saw i s.mutex).0 i absent)
unfolding deregister_after remove_waiter
deregisters-IsLost inv i true e l = absurd (ground (arith, l.unowned i, inv.sound i))
deregisters-IsLost inv i false e l = record {
  locked = l.locked;
  unowned = λ j. ground (arith, l.unowned j);
}

-- From a state that satisfies the invariant, in which the mutex is locked and no client owns the
-- lock, every step of any client leads to such a state again.
pub Step-IsLost : {racy : Bool} {s t : System} → Inv s → Step racy s t → IsLost s → IsLost t
unfolding lock try_lock poll_fast poll_slow
Step-IsLost inv (locks i e) l = record {
  locked = l.locked;
  unowned = λ j. ground (arith, l.unowned j);
}
Step-IsLost inv (tries i e p) l = ground (arith, l.locked)
Step-IsLost inv (polls_ready i e p) l = absurd (ground (arith, l.unowned i, inv.sound i))
Step-IsLost inv (polls i e p) l = record {
  locked = l.locked;
  unowned = λ j. ground (arith, l.unowned j, l.unowned i);
}
Step-IsLost inv (acquires i w e p) l = absurd (ground (arith, l.locked, l.unowned i, inv.sound i))
Step-IsLost inv (waits i w e p) l = record {
  locked = ground (arith, l.locked, inv.sound i);
  unowned = λ j. ground (arith, l.unowned j, l.unowned i, inv.sound i);
}
Step-IsLost inv (drops i e r) l = record {
  locked = l.locked;
  unowned = λ j. ground (arith, l.unowned j);
}
Step-IsLost inv (reads i e r p) l = record {
  locked = l.locked;
  unowned = λ j. ground (arith, l.unowned j, l.unowned i, inv.sound i);
}
Step-IsLost inv (deregisters i {saw} e r) l = deregisters-IsLost inv i saw e l
Step-IsLost inv (unlocks i e) l = absurd (ground (arith, l.unowned i))

Steps-IsLost : {racy : Bool} {s t : System} → Inv s → IsLost s → Steps racy s t → Inv t × IsLost t
Steps-IsLost inv l done = (inv, l)
Steps-IsLost inv l (step steps st) =
    let (inv', l') = Steps-IsLost inv l steps in (Step-Inv st inv', Step-IsLost inv' st l')

Reach-Steps : {racy : Bool} {s t : System} → Reach racy s → Steps racy s t → Reach racy t
Reach-Steps r done = r
Reach-Steps r (step steps st) = later (Reach-Steps r steps) st

-- The race. A client drops its awaitable: `deregister` has read `is_ready_` as false and has not yet
-- taken `mtx_`. It is at the front of the queue, and the owner unlocks.
module _ {s : System} {a : MutexLockAwaitable} {g : MutexGuard} {rest : List ℕ} (r : Reach true s)
    (i j : ℕ) (drop : s.client i ≡ dropping a false) (front : s.mutex.waiters ≡ i ∷ rest)
    (own : s.client j ≡ holding g) where
  unlocked : System
  unlocked = with_client s (unlock s.mutex g).0 j absent

  raced : System
  unfolding unlocked
  raced = with_client unlocked (deregister_after false i unlocked.mutex).0 i absent

  raced-Steps : Steps true s raced
  unfolding raced
  raced-Steps =
      step (step done (unlocks j own)) (deregisters i {a = a} {saw = false} still (inl refl))
    where
      still : unlocked.client i ≡ dropping a false
      still = ground arith

  raced-IsLost : IsLost raced
  unfolding raced deregister_after remove_waiter unlock release release_to
  raced-IsLost = record {
    locked = ground (arith, inv.guarded j, inv.sound j);
    unowned = λ k. ground (arith, inv.unique j k, inv.sound j);
  }
    where
      inv : Inv s
      inv = Reach-Inv r

  -- A client that is dropping its registered awaitable has read `is_ready_` as false and stands at
  -- the front of the queue, and another client holds the guard: then there are steps from this
  -- state to one from which, after any further steps, the mutex is locked and no client owns the
  -- lock.
  pub deregister_race : (t : System) × Steps true s t × ((u : System) → Steps true t u → IsLost u)
  deregister_race = (
    raced,
    raced-Steps,
    λ u steps. (Steps-IsLost (Reach-Inv (Reach-Steps r raced-Steps)) raced-IsLost steps).1,
  )
