-- ===== src/SharedMutex/System/Waiting.antt =====
-- src/shared_mutex.cppm: who stands in the queue, however the clients' steps interleave.
use pollcoro.Base.{
  ℕ, ◌==◌, Bool, true, false, not, ◌&&◌, ◌⊎◌, inl, inr, List, [], ◌∷◌, ◌++◌, some, ◌≡◌, refl, ◌∙◌,
  ap, subst, arith, Bool-cases,
}
use pollcoro.Waker.{Waker}
use pollcoro.Awaitable.{ready, pending}
use pollcoro.Mutex.Queue.{mem, Distinct, mem-append, mem-erase, Distinct-append, Distinct-erase}
use pollcoro.Mutex
use pollcoro.SharedMutex.System.Serving.{
  Served, Served-self, Served-if, Served-release_shared, Served-release_exclusive,
}
use pollcoro.SharedMutex.{
  SharedWaiter, SharedMutexState, SharedLockGuard, UniqueLockGuard, unlock_shared, unlock_unique,
  LockAwaitable, new_awaitable, poll_fast, read_slow, write_slow, deregister, try_lock,
  try_lock_shared, erase, remove_waiter,
}
use pollcoro.SharedMutex.System.{
  Client, absent, awaiting, polling, reading, writing, System, with_client, Step, locks, tries,
  tries_shared, reads_ready, writes_ready, polls, reads, writes, read_waits, write_waits, drops,
  unlocks_shared, unlocks, Reach, start, later,
}

abbrev pub registered : Client → Bool
registered absent = false
registered (awaiting wr a) = a.registered
registered (polling wr a) = a.registered
registered (reading g) = false
registered (writing g) = false

-- The pointers of an awaitable are set, and only a registered waiter is ready.
abbrev IsSound : ℕ → SharedWaiter → Client → Type 0
IsSound i v absent = Unit
IsSound i v (awaiting wr a) =
    (a.state ≡ true) × (a.waiter ≡ some i) × ((a.registered ≡ true) ⊎ (v.is_ready ≡ false))
IsSound i v (polling wr a) =
    (a.state ≡ true) × (a.waiter ≡ some i) × ((a.registered ≡ true) ⊎ (v.is_ready ≡ false))
IsSound i v (reading g) = Unit
IsSound i v (writing g) = Unit

abbrev pub waits : System → ℕ → Bool
waits s i = registered (s.client i) && not (s.mutex.heap i).is_ready

record Inv (s : System) : Type 0 where
  member : (i : ℕ) → mem i s.mutex.waiters ≡ waits s i
  distinct : Distinct s.mutex.waiters
  sound : (i : ℕ) → IsSound i (s.mutex.heap i) (s.client i)

module _ {s : System} (inv : Inv s) (i : ℕ) where
  open inv use {member, distinct, sound}

  -- A client moves, and the other clients and their places in the queue stay.
  move-Inv :
      (m : SharedMutexState) (c : Client)
      → Distinct m.waiters
      → ((j : ℕ)
          → (j == i) ≡ false
          → (mem j m.waiters ≡ mem j s.mutex.waiters)
            × ((m.heap j).is_ready ≡ (s.mutex.heap j).is_ready))
      → mem i m.waiters ≡ (registered c && not (m.heap i).is_ready)
      → IsSound i (m.heap i) c
      → Inv (with_client s m i c)
  move-Inv m c d same own ok = record {
    member = λ j. ground (arith, member j, same j);
    distinct = d;
    sound = λ j. ground (arith, sound j, same j);
  }

  -- A client that stays where it is in the queue.
  stay-Inv :
      (m : SharedMutexState) (c : Client)
      → m.waiters ≡ s.mutex.waiters
      → ((j : ℕ) → (m.heap j).is_ready ≡ (s.mutex.heap j).is_ready)
      → (registered c && not (m.heap i).is_ready) ≡ waits s i
      → IsSound i (m.heap i) c
      → Inv (with_client s m i c)
  stay-Inv m c e same own ok =
      move-Inv m c (subst Distinct {x = s.mutex.waiters} (ground arith) distinct)
        (λ j h. (ap (mem j) e, same j)) (ap (mem i) e ∙ member i ∙ ground arith) ok

  -- A client goes to the end of the queue.
  join-Inv :
      (m : SharedMutexState) (c : Client)
      → m.waiters ≡ s.mutex.waiters ++ i ∷ []
      → ((j : ℕ) → (m.heap j).is_ready ≡ (s.mutex.heap j).is_ready)
      → waits s i ≡ false
      → (registered c && not (m.heap i).is_ready) ≡ true
      → IsSound i (m.heap i) c
      → Inv (with_client s m i c)
  join-Inv m c e same out own ok =
      move-Inv m c
        (subst Distinct {x = s.mutex.waiters ++ i ∷ []} (ground arith)
          (Distinct-append s.mutex.waiters i distinct (ground (arith, member i))))
        (λ j h. (ground (arith, ap (mem j) e, mem-append j s.mutex.waiters i), same j))
        (ground (arith, ap (mem i) e, mem-append i s.mutex.waiters i)) ok

  -- A client that holds the lock gives it back.
  serve-Inv :
      (m : SharedMutexState)
      → registered (s.client i) ≡ false
      → Served s.mutex m
      → Inv (with_client s m i absent)
  serve-Inv m out v = record {
    member = λ j. ground (arith, member j, v.kept j, v.served j, v.others j);
    distinct = v.distinct;
    sound = λ j. ground (arith, sound j, member j, v.kept j, v.served j, v.others j);
  }

erase-erase : (i : ℕ) (xs : List ℕ) → erase i xs ≡ Mutex.erase i xs
unfolding erase Mutex.erase
erase-erase i [] = refl
erase-erase i (x ∷ xs) = rw (erase-erase i xs) refl

module _ {s : System} (inv : Inv s) (i : ℕ) where
  open inv use {member, distinct, sound}

  unlocks_shared-Inv :
      {g : SharedLockGuard}
      → s.client i ≡ reading g
      → Inv (with_client s (unlock_shared s.mutex g).0 i absent)
  unfolding unlock_shared
  unlocks_shared-Inv {g} e = serve-Inv inv i ((unlock_shared s.mutex g).0) (ground arith) (
      Served-if (λ (r : SharedMutexState × SharedLockGuard × List Waker). r.0) g.state
        (Served-release_shared s.mutex distinct) (Served-self s.mutex distinct))

  unlocks-Inv :
      {g : UniqueLockGuard}
      → s.client i ≡ writing g
      → Inv (with_client s (unlock_unique s.mutex g).0 i absent)
  unfolding unlock_unique
  unlocks-Inv {g} e = serve-Inv inv i ((unlock_unique s.mutex g).0) (ground arith) (
      Served-if (λ (r : SharedMutexState × UniqueLockGuard × List Waker). r.0) g.state
        (Served-release_exclusive s.mutex distinct) (Served-self s.mutex distinct))

  reads-Inv :
      (w : Waker) {a a' : LockAwaitable} {m : SharedMutexState} {g : SharedLockGuard}
      → s.client i ≡ polling false a
      → read_slow w s.mutex a ≡ some (m, a', ready g)
      → Inv (with_client s m i (reading g))
  unfolding read_slow
  reads-Inv w {m} e p =
      stay-Inv inv i m _ (ground (arith, sound i)) (λ j. ground (arith, sound i))
        (ground (arith, sound i)) tt

  writes-Inv :
      (w : Waker) {a a' : LockAwaitable} {m : SharedMutexState} {g : UniqueLockGuard}
      → s.client i ≡ polling true a
      → write_slow w s.mutex a ≡ some (m, a', ready g)
      → Inv (with_client s m i (writing g))
  unfolding write_slow
  writes-Inv w {m} e p =
      stay-Inv inv i m _ (ground (arith, sound i)) (λ j. ground (arith, sound i))
        (ground (arith, sound i)) tt

  read_waits-Inv :
      (w : Waker) {a a' : LockAwaitable} {m : SharedMutexState}
      → s.client i ≡ polling false a
      → read_slow w s.mutex a ≡ some (m, a', pending)
      → Inv (with_client s m i (awaiting false a'))
  unfolding read_slow
  read_waits-Inv w {a} {m} e p = elim (Bool-cases a.registered) [
    | inl old ↦
        stay-Inv inv i m _ (ground (arith, sound i)) (λ j. ground (arith, sound i))
          (ground (arith, sound i)) (ground (arith, sound i))
    | inr new ↦
        join-Inv inv i m _ (ground (arith, sound i)) (λ j. ground (arith, sound i)) (ground arith)
          (ground (arith, sound i)) (ground (arith, sound i))
  ]

  write_waits-Inv :
      (w : Waker) {a a' : LockAwaitable} {m : SharedMutexState}
      → s.client i ≡ polling true a
      → write_slow w s.mutex a ≡ some (m, a', pending)
      → Inv (with_client s m i (awaiting true a'))
  unfolding write_slow
  write_waits-Inv w {a} {m} e p = elim (Bool-cases a.registered) [
    | inl old ↦
        stay-Inv inv i m _ (ground (arith, sound i)) (λ j. ground (arith, sound i))
          (ground (arith, sound i)) (ground (arith, sound i))
    | inr new ↦
        join-Inv inv i m _ (ground (arith, sound i)) (λ j. ground (arith, sound i)) (ground arith)
          (ground (arith, sound i)) (ground (arith, sound i))
  ]

  drops-Inv :
      {wr : Bool} {a : LockAwaitable}
      → s.client i ≡ awaiting wr a
      → Inv (with_client s (deregister s.mutex a).0 i absent)
  unfolding deregister remove_waiter
  drops-Inv {a} e = elim (Bool-cases a.registered) [
    | inl old ↦
        subst (λ m. Inv (with_client s m i absent))
          {x = record s.mutex { waiters = Mutex.erase i s.mutex.waiters }}
          (ground (arith, sound i, erase-erase i s.mutex.waiters))
          (move-Inv inv i _ absent (Distinct-erase i s.mutex.waiters distinct)
            (λ j h. (ground (arith, mem-erase i j s.mutex.waiters distinct), refl))
            (ground (arith, mem-erase i i s.mutex.waiters distinct)) tt)
    | inr new ↦ stay-Inv inv i _ absent (ground arith) (λ j. ground arith) (ground arith) tt
  ]

tries-Inv :
    {s : System}
    → Inv s
    → (i : ℕ) {m : SharedMutexState} {g : UniqueLockGuard} → s.client i ≡ absent
    → try_lock s.mutex ≡ (m, some g)
    → Inv (with_client s m i (writing g))
unfolding try_lock
tries-Inv inv i {m} e p = stay-Inv inv i m _ (ground arith) (λ j. ground arith) (ground arith) tt

tries_shared-Inv :
    {s : System}
    → Inv s
    → (i : ℕ) {m : SharedMutexState} {g : SharedLockGuard} → s.client i ≡ absent
    → try_lock_shared s.mutex ≡ (m, some g)
    → Inv (with_client s m i (reading g))
unfolding try_lock_shared
tries_shared-Inv inv i {m} e p =
    stay-Inv inv i m _ (ground arith) (λ j. ground arith) (ground arith) tt

locks-Inv :
    {s : System}
    → Inv s
    → (i : ℕ) (wr : Bool) → s.client i ≡ absent
    → Inv (
        with_client s (new_awaitable wr i s.mutex).0 i (awaiting wr (new_awaitable wr i s.mutex).1))
unfolding new_awaitable
locks-Inv inv i wr e =
    move-Inv inv i _ _ inv.distinct (λ j h. ground arith) (ground (arith, inv.member i))
      (ground arith)

Step-Inv : {s t : System} → Step s t → Inv s → Inv t
unfolding poll_fast
Step-Inv (locks i wr e) inv = locks-Inv inv i wr e
Step-Inv (tries i e p) inv = tries-Inv inv i e p
Step-Inv (tries_shared i e p) inv = tries_shared-Inv inv i e p
Step-Inv {s} (reads_ready i e p) inv =
    stay-Inv inv i s.mutex _ refl (λ j. refl) (ground (arith, inv.sound i)) tt
Step-Inv {s} (writes_ready i e p) inv =
    stay-Inv inv i s.mutex _ refl (λ j. refl) (ground (arith, inv.sound i)) tt
Step-Inv {s} (polls i e p) inv =
    stay-Inv inv i s.mutex _ refl (λ j. refl) (ground (arith, inv.sound i))
      (ground (arith, inv.sound i))
Step-Inv (reads i w e p) inv = reads-Inv inv i w e p
Step-Inv (writes i w e p) inv = writes-Inv inv i w e p
Step-Inv (read_waits i w e p) inv = read_waits-Inv inv i w e p
Step-Inv (write_waits i w e p) inv = write_waits-Inv inv i w e p
Step-Inv (drops i e) inv = drops-Inv inv i e
Step-Inv (unlocks_shared i e) inv = unlocks_shared-Inv inv i e
Step-Inv (unlocks i e) inv = unlocks-Inv inv i e

Reach-Inv : {s : System} → Reach s → Inv s
unfolding mem
Reach-Inv start = record { member = λ i. refl; distinct = tt; sound = λ i. tt }
Reach-Inv (later r st) = Step-Inv st (Reach-Inv r)

-- In every state that any interleaving of clients of one read-write lock reaches, the queue has no
-- waiter twice, and it has exactly the waiters whose awaitable is registered and that have not
-- been made ready.
pub queue_waits :
    {s : System}
    → Reach s
    → Distinct s.mutex.waiters × ((i : ℕ) → mem i s.mutex.waiters ≡ waits s i)
queue_waits r = ((Reach-Inv r).distinct, (Reach-Inv r).member)
