-- ===== src/SharedMutex.antt =====
-- src/shared_mutex.cppm: the shared state of a read-write lock, its two awaitables and its two guards.
pub mod WakeNext
pub mod Direct
pub mod HandOver
pub mod System
use pollcoro.Base.{
  ℕ, ◌==◌, if◌then◌else◌, ◌>>=◌, Bool, true, false, not, ◌&&◌, ◌||◌, List, [], ◌∷◌, ◌++◌, Option,
  none, some, size_inc, size_dec,
}
use pollcoro.Waker.{Waker, noop, wake}
use pollcoro.Awaitable.{Poll, AwaitableState, ready, pending}

-- `detail::shared_waiter`
pub record SharedWaiter : Type 0 where
  pub waker : Waker
  pub is_ready : Bool
  pub is_writer : Bool

-- `detail::shared_mutex_state`. A `shared_ptr<shared_waiter>` is a number, and `heap` is what it
-- points to.
pub record SharedMutexState : Type 0 where
  pub readers : ℕ
  pub writer_active : Bool
  pub waiters : List ℕ
  pub heap : ℕ → SharedWaiter

abbrev pub update {ℓ} : {A : Type ℓ} → (ℕ → A) → ℕ → A → ℕ → A
update f i a j = if i == j then a else f j

-- `waiters_.pop_front()`, `is_ready_ = true` and `wake()` for the front waiter.
abbrev pub wake_front : ℕ → List ℕ → SharedMutexState → SharedMutexState
wake_front next rest m = record m {
  waiters = rest;
  heap = update m.heap next (record (m.heap next) { is_ready = true });
}

-- The `while` of `wake_next`, over the queue: every reader at its front.
wake_readers : List ℕ → SharedMutexState → SharedMutexState × List Waker
wake_readers [] m = (m, [])
wake_readers (next ∷ rest) m =
    let (m', woken) = wake_readers rest (wake_front next rest m) in
    if (m.heap next).is_writer then (m, []) else (m', wake (m.heap next).waker ++ woken)

wake_queue : List ℕ → SharedMutexState → SharedMutexState × List Waker
unfolding wake_readers
wake_queue [] m = (m, [])
wake_queue (next ∷ rest) m =
    if (m.heap next).is_writer
    then (wake_front next rest m, wake (m.heap next).waker)
    else wake_readers (next ∷ rest) m

unfoldable pub wake_next : SharedMutexState → SharedMutexState × List Waker
unfolding wake_queue
wake_next m = wake_queue m.waiters m

unfoldable pub release_shared : SharedMutexState → SharedMutexState × List Waker
unfolding wake_next
release_shared m =
    let fewer = record m { readers = size_dec m.readers } in
    if fewer.readers == 0 then wake_next fewer else (fewer, [])

unfoldable pub release_exclusive : SharedMutexState → SharedMutexState × List Waker
unfolding wake_next
release_exclusive m = wake_next (record m { writer_active = false })

-- `std::find` and `erase`.
unfoldable pub erase : ℕ → List ℕ → List ℕ
erase i [] = []
erase i (x ∷ xs) = if x == i then xs else x ∷ erase i xs

unfoldable pub remove_waiter : ℕ → SharedMutexState → SharedMutexState
unfolding erase
remove_waiter i m = record m { waiters = erase i m.waiters }

-- `shared_lock_guard` and `unique_lock_guard`: whether the pointer to the state is set.
pub record SharedLockGuard : Type 0 where
  pub state : Bool

pub record UniqueLockGuard : Type 0 where
  pub state : Bool

-- `unlock()` of each guard.
unfoldable pub unlock_shared :
    SharedMutexState → SharedLockGuard → SharedMutexState × SharedLockGuard × List Waker
unfolding release_shared
unlock_shared m g =
    if g.state
    then (let (m', woken) = release_shared m in (m', record { state = false }, woken))
    else (m, g, [])

unfoldable pub unlock_unique :
    SharedMutexState → UniqueLockGuard → SharedMutexState × UniqueLockGuard × List Waker
unfolding release_exclusive
unlock_unique m g =
    if g.state
    then (let (m', woken) = release_exclusive m in (m', record { state = false }, woken))
    else (m, g, [])

-- The destructors.
unfoldable pub destroy_shared : SharedMutexState → SharedLockGuard → SharedMutexState × List Waker
unfolding release_shared
destroy_shared m g = if g.state then release_shared m else (m, [])

unfoldable pub destroy_unique : SharedMutexState → UniqueLockGuard → SharedMutexState × List Waker
unfolding release_exclusive
destroy_unique m g = if g.state then release_exclusive m else (m, [])

-- A move onto the guard `g`: the state, the two guards and the wakers called. Into a guard whose
-- pointer is not set this is the move constructor.
pub assign_shared :
    SharedMutexState
    → SharedLockGuard
    → SharedLockGuard
    → SharedMutexState × SharedLockGuard × SharedLockGuard × List Waker
unfolding destroy_shared
assign_shared m g other =
    let (m', woken) = destroy_shared m g in (m', other, record { state = false }, woken)

pub assign_unique :
    SharedMutexState
    → UniqueLockGuard
    → UniqueLockGuard
    → SharedMutexState × UniqueLockGuard × UniqueLockGuard × List Waker
unfolding destroy_unique
assign_unique m g other =
    let (m', woken) = destroy_unique m g in (m', other, record { state = false }, woken)

-- `shared_mutex_read_awaitable` and `shared_mutex_write_awaitable` have the same fields: whether the
-- pointer to the state is set, the waiter (`none` once moved from), and whether it is registered.
pub record LockAwaitable : Type 0 where
  pub state : Bool
  pub waiter : Option ℕ
  pub registered : Bool

abbrev pub WriteAwaitable : Type 0
WriteAwaitable = LockAwaitable

-- `lock()` and `lock_shared()`: the new waiter is the number `i`.
unfoldable pub new_awaitable : Bool → ℕ → SharedMutexState → SharedMutexState × LockAwaitable
new_awaitable is_writer i m = (
  record m {
    heap = update m.heap i (record { waker = noop; is_ready = false; is_writer = is_writer });
  },
  record { state = true; waiter = some i; registered = false },
)

unfoldable pub lock : ℕ → SharedMutexState → SharedMutexState × WriteAwaitable
unfolding new_awaitable
lock = new_awaitable true

unfoldable pub lock_shared : ℕ → SharedMutexState → SharedMutexState × LockAwaitable
unfolding new_awaitable
lock_shared = new_awaitable false

-- `std::any_of` over the waiters.
unfoldable pub any_writer : (ℕ → SharedWaiter) → List ℕ → Bool
any_writer heap [] = false
any_writer heap (i ∷ is) = (heap i).is_writer || any_writer heap is

-- The first lines of both polls, before they take `mtx_`: is the waiter ready? `none` for a null
-- waiter.
unfoldable pub poll_fast : SharedMutexState → LockAwaitable → Option Bool
poll_fast m a = do i ← a.waiter; some (m.heap i).is_ready

-- `waiter_->waker_ = w`
abbrev pub note : Waker → ℕ → SharedMutexState → SharedMutexState
note w i m = record m { heap = update m.heap i (record (m.heap i) { waker = w }) }

-- The rest of `shared_mutex_read_awaitable::poll`, under `mtx_`. `none` for a null pointer.
unfoldable pub read_slow :
    Waker
    → SharedMutexState
    → LockAwaitable
    → Option (SharedMutexState × LockAwaitable × AwaitableState SharedLockGuard)
unfolding any_writer
read_slow w m a = do
  i ← a.waiter
  let noted = note w i m
  if not a.state
      then none
      else if not a.registered
      then (if not m.writer_active && not (any_writer m.heap m.waiters)
          then some (
            record noted { readers = size_inc m.readers },
            record a { state = false },
            ready (record { state = true }),
          )
          else some (
            record noted { waiters = m.waiters ++ i ∷ [] },
            record a { registered = true },
            pending,
          ))
      else if not (m.heap i).is_ready
      then some (noted, a, pending)
      else some (
        record noted { readers = size_inc m.readers },
        record a { registered = false },
        ready (record { state = a.state }),
      )

-- The rest of `shared_mutex_write_awaitable::poll`, under `mtx_`. `none` for a null pointer.
unfoldable pub write_slow :
    Waker
    → SharedMutexState
    → WriteAwaitable
    → Option (SharedMutexState × WriteAwaitable × AwaitableState UniqueLockGuard)
write_slow w m a = do
  i ← a.waiter
  let noted = note w i m
  if not a.state
      then none
      else if not a.registered
      then (if not m.writer_active && (m.readers == 0)
          then some (
            record noted { writer_active = true },
            record a { state = false },
            ready (record { state = true }),
          )
          else some (
            record noted { waiters = m.waiters ++ i ∷ [] },
            record a { registered = true },
            pending,
          ))
      else if not (m.heap i).is_ready
      then some (noted, a, pending)
      else some (
        record noted { writer_active = true },
        record a { state = false; registered = false },
        ready (record { state = a.state }),
      )

-- Each `poll` with nothing in between.
unfoldable pub read_poll : Poll (SharedMutexState × LockAwaitable) (AwaitableState SharedLockGuard)
unfolding poll_fast read_slow
read_poll w (m, a) = do
  fast ← poll_fast m a
  if fast
      then some ((m, record a { state = false }), ready (record { state = a.state }), [])
      else (do (m', a', state) ← read_slow w m a; some ((m', a'), state, []))

unfoldable pub write_poll :
    Poll (SharedMutexState × WriteAwaitable) (AwaitableState UniqueLockGuard)
unfolding poll_fast write_slow
write_poll w (m, a) = do
  fast ← poll_fast m a
  if fast
      then some ((m, record a { state = false }), ready (record { state = a.state }), [])
      else (do (m', a', state) ← write_slow w m a; some ((m', a'), state, []))

-- `deregister` of both awaitables.
unfoldable pub deregister : SharedMutexState → LockAwaitable → SharedMutexState × LockAwaitable
unfolding remove_waiter
deregister m a =
    if a.registered && a.state
    then elim a.waiter [
      | none ↦ (m, record a { registered = false })
      | some i ↦ (remove_waiter i m, record a { registered = false })
    ]
    else (m, a)

-- A move onto the awaitable `a`: the state and the two awaitables.
pub assign_awaitable :
    SharedMutexState
    → LockAwaitable
    → LockAwaitable
    → SharedMutexState × LockAwaitable × LockAwaitable
unfolding deregister
assign_awaitable m a other =
    let (m', _) = deregister m a in
    (m', other, record { state = false; waiter = none; registered = false })

unfoldable pub try_lock : SharedMutexState → SharedMutexState × Option UniqueLockGuard
try_lock m =
    if not m.writer_active && (m.readers == 0)
    then (record m { writer_active = true }, some (record { state = true }))
    else (m, none)

unfoldable pub try_lock_shared : SharedMutexState → SharedMutexState × Option SharedLockGuard
unfolding any_writer
try_lock_shared m =
    if not m.writer_active && not (any_writer m.heap m.waiters)
    then (record m { readers = size_inc m.readers }, some (record { state = true }))
    else (m, none)

pub reader_count : SharedMutexState → ℕ
reader_count m = m.readers

pub is_writer_active : SharedMutexState → Bool
is_writer_active m = m.writer_active
