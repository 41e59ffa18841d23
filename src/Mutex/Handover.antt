-- ===== src/Mutex/Handover.antt =====
-- src/mutex.cppm: to whom `release` gives the lock, and what that client's next poll finds.
use pollcoro.Base.{ℕ, true, false, List, [], ◌∷◌, ◌++◌, some, ◌≡◌, refl, arith}
use pollcoro.Waker.{Waker, wake}
use pollcoro.Awaitable.{ready, pending}
use pollcoro.Mutex.{MutexState, MutexLockAwaitable, update, release, poll}

-- With waiters in the queue, `release` calls the waker of the front one alone, takes it off the
-- queue and leaves `locked_` as it is, and the next poll of its awaitable is ready with a guard.
release_serves_front :
    (w : Waker) (m : MutexState) (a : MutexLockAwaitable) (next : ℕ) (rest : List ℕ)
    → m.waiters ≡ next ∷ rest
    → a.waiter ≡ some next
    → a.state ≡ true
    → let m' = (release m).0 in
      ((release m).1 ≡ wake (m.heap next).waker)
      × (m'.waiters ≡ rest)
      × (m'.locked ≡ m.locked)
      × (poll w (m', a)
          ≡ some ((m', record a { state = false }), ready (record { state = true }), []))
unfolding release poll
release_serves_front w m a next rest e p q = (rw e, rw e, rw e, ground arith)

-- A poll of an awaitable that is not registered, while the mutex is locked, is pending, puts its
-- waiter at the end of the queue and leaves the waker of the poll there.
poll_queues :
    (w : Waker) (m : MutexState) (a : MutexLockAwaitable) (i : ℕ)
    → a.waiter ≡ some i
    → a.state ≡ true
    → a.registered ≡ false
    → m.locked ≡ true
    → (m.heap i).is_ready ≡ false
    → (m' : MutexState) × (poll w (m, a) ≡ some ((m', record a { registered = true }), pending, []))
      × (m'.waiters ≡ m.waiters ++ i ∷ [])
      × ((m'.heap i).waker ≡ w)
unfolding poll
poll_queues w m a i p q n l u = (
  record {
    locked = m.locked;
    waiters = m.waiters ++ i ∷ [];
    heap = update m.heap i (record { waker = w; is_ready = (m.heap i).is_ready });
  },
  ground arith,
  refl,
  ground arith,
)
