-- ===== src/SharedMutex/HandOver.antt =====
-- src/shared_mutex.cppm: what a waiter that `wake_next` has chosen finds, and what the state records.
use pollcoro.Base.{
  ℕ, ◌+◌, true, false, List, [], ◌∷◌, none, some, ◌≡◌, arith, size_mod, size_dec-zero,
}
use pollcoro.Waker.{Waker}
use pollcoro.Awaitable.{ready}
use pollcoro.SharedMutex.{
  SharedMutexState, unlock_shared, unlock_unique, LockAwaitable, read_poll, write_poll, try_lock,
}

-- With no readers and a writer at the front of the queue, a unique guard is unlocked and that
-- writer polls: it gets a unique guard, and `try_lock` then gives out another.
pub handed_writer_is_not_alone :
    (w : Waker) (m : SharedMutexState) (a : LockAwaitable) (next : ℕ) (rest : List ℕ)
    → m.readers ≡ 0
    → m.waiters ≡ next ∷ rest
    → (m.heap next).is_writer ≡ true
    → a.waiter ≡ some next
    → a.state ≡ true
    → (m' : SharedMutexState) × (write_poll w ((unlock_unique m (record { state = true })).0, a)
        ≡ some ((m', record a { state = false }), ready (record { state = true }), []))
      × ((try_lock m').1 ≡ some (record { state = true }))
unfolding unlock_unique write_poll try_lock
handed_writer_is_not_alone w m a next rest r q k p s =
    ((unlock_unique m (record { state = true })).0, ground arith, ground arith)

-- With no readers counted and one reader alone in the queue, a unique guard is unlocked and that
-- reader polls: it gets a shared guard, and when it unlocks, `readers_` wraps round to the largest
-- value and `try_lock` is refused.
pub handed_reader_is_not_counted :
    (w : Waker) (m : SharedMutexState) (a : LockAwaitable) (next : ℕ)
    → m.readers ≡ 0
    → m.waiters ≡ next ∷ []
    → (m.heap next).is_writer ≡ false
    → a.waiter ≡ some next
    → a.state ≡ true
    → (m' : SharedMutexState) × (read_poll w ((unlock_unique m (record { state = true })).0, a)
        ≡ some ((m', record a { state = false }), ready (record { state = true }), []))
      × ((unlock_shared m' (record { state = true })).0.readers + 1 ≡ size_mod)
      × ((try_lock (unlock_shared m' (record { state = true })).0).1 ≡ none)
unfolding unlock_unique read_poll unlock_shared try_lock
handed_reader_is_not_counted w m a next r q k p s = (
  (unlock_unique m (record { state = true })).0,
  ground arith,
  ground (arith, size_dec-zero),
  ground (arith, size_dec-zero),
)
