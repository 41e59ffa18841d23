-- ===== src/Mutex.antt =====
-- src/mutex.cppm: the shared state of a mutex, its awaitable and its guard.
pub mod Queue
pub mod System
pub mod Invariant
pub mod Safety
pub mod Handover
use pollcoro.Base.{
  ℕ, ◌==◌, if◌then◌else◌, ◌>>=◌, Bool, true, false, not, ◌&&◌, List, [], ◌∷◌, ◌++◌, Option, none,
  some,
}
use pollcoro.Waker.{Waker, noop, wake}
use pollcoro.Awaitable.{Poll, AwaitableState, ready, pending}

-- `detail::waiter`
pub record Waiter : Type 0 where
  pub waker : Waker
  pub is_ready : Bool

-- `detail::mutex_state`. A `shared_ptr<waiter>` is a number, and `heap` is what it points to.
pub record MutexState : Type 0 where
  pub locked : Bool
  pub waiters : List ℕ
  pub heap : ℕ → Waiter

abbrev pub update {ℓ} : {A : Type ℓ} → (ℕ → A) → ℕ → A → ℕ → A
update f i a j = if i == j then a else f j

-- The branches of `release`: hand the lock over to the front waiter, or free it.
release_to : List ℕ → MutexState → MutexState × List Waker
release_to [] m = (record m { locked = false }, [])
release_to (next ∷ rest) m = (
  record m { waiters = rest; heap = update m.heap next (record (m.heap next) { is_ready = true }) },
  wake (m.heap next).waker,
)

unfoldable pub release : MutexState → MutexState × List Waker
unfolding release_to
release m = release_to m.waiters m

-- `std::find` and `erase`.
unfoldable pub erase : ℕ → List ℕ → List ℕ
erase i [] = []
erase i (x ∷ xs) = if x == i then xs else x ∷ erase i xs

unfoldable pub remove_waiter : ℕ → MutexState → MutexState
unfolding erase
remove_waiter i m = record m { waiters = erase i m.waiters }

-- `mutex_guard`: whether its pointer to the state is set.
pub record MutexGuard : Type 0 where
  pub state : Bool

-- `unlock()`
unfoldable pub unlock : MutexState → MutexGuard → MutexState × MutexGuard × List Waker
unfolding release
unlock m g =
    if g.state
    then (let (m', woken) = release m in (m', record { state = false }, woken))
    else (m, g, [])

-- The destructor.
unfoldable pub destroy_guard : MutexState → MutexGuard → MutexState × List Waker
unfolding release
destroy_guard m g = if g.state then release m else (m, [])

-- A move onto the guard `g`: the mutex, the two guards and the wakers called. Into a guard whose
-- pointer is not set this is the move constructor.
pub assign_guard :
    MutexState → MutexGuard → MutexGuard → MutexState × MutexGuard × MutexGuard × List Waker
unfolding destroy_guard
assign_guard m g other =
    let (m', woken) = destroy_guard m g in (m', other, record { state = false }, woken)

-- `operator bool`
pub holds : MutexGuard → Bool
holds g = g.state

-- `mutex_lock_awaitable`: whether its pointer to the state is set, its waiter (`none` once it has
-- been moved from) and whether it is registered.
pub record MutexLockAwaitable : Type 0 where
  pub state : Bool
  pub waiter : Option ℕ
  pub registered : Bool

-- `lock()`: a new awaitable, whose new waiter is the number `i`.
unfoldable pub lock : ℕ → MutexState → MutexState × MutexLockAwaitable
lock i m = (
  record m { heap = update m.heap i (record { waker = noop; is_ready = false }) },
  record { state = true; waiter = some i; registered = false },
)

-- The first lines of `poll`, before it takes `mtx_`: is the waiter ready? `none` for a null waiter.
unfoldable pub poll_fast : MutexState → MutexLockAwaitable → Option Bool
poll_fast m a = do i ← a.waiter; some (m.heap i).is_ready

-- `state_type::ready(mutex_guard(std::exchange(state_, nullptr)))`
abbrev pub take_guard : MutexLockAwaitable → MutexLockAwaitable × AwaitableState MutexGuard
take_guard a = (record a { state = false }, ready (record { state = a.state }))

-- The rest of `poll`, under `mtx_`. `none` for a null pointer.
unfoldable pub poll_slow :
    Waker
    → MutexState
    → MutexLockAwaitable
    → Option (MutexState × MutexLockAwaitable × AwaitableState MutexGuard)
poll_slow w m a = do
  i ← a.waiter
  let is_ready = (m.heap i).is_ready
  let noted = record m { heap = update m.heap i (record { waker = w; is_ready = is_ready }) }
  if not a.state
      then none
      else if not a.registered
      then (if not m.locked
          then (let (a', state) = take_guard a in some (record noted { locked = true }, a', state))
          else some (
            record noted { waiters = m.waiters ++ i ∷ [] },
            record a { registered = true },
            pending,
          ))
      else if not is_ready
      then some (noted, a, pending)
      else (let (a', state) = take_guard a in some (record noted { locked = true }, a', state))

-- `poll` with nothing in between.
unfoldable pub poll : Poll (MutexState × MutexLockAwaitable) (AwaitableState MutexGuard)
unfolding poll_fast poll_slow
poll w (m, a) = do
  fast ← poll_fast m a
  if fast
      then (let (a', state) = take_guard a in some ((m, a'), state, []))
      else (do (m', a', state) ← poll_slow w m a; some ((m', a'), state, []))

-- The test of `deregister`: is there anything to do?
abbrev pub is_registered : MutexLockAwaitable → Bool
is_registered a = a.registered && a.state && (elim a.waiter [ none ↦ false | some i ↦ true ])

-- What `deregister` does after it has read `is_ready_` as `saw`.
unfoldable pub deregister_after : Bool → ℕ → MutexState → MutexState × List Waker
unfolding release remove_waiter
deregister_after saw i m = if saw then release m else (remove_waiter i m, [])

-- `deregister` with nothing in between. What it has read as ready stays registered.
unfoldable pub deregister :
    MutexState → MutexLockAwaitable → MutexState × MutexLockAwaitable × List Waker
unfolding deregister_after
deregister m a =
    if is_registered a
    then elim a.waiter [
      | none ↦ (m, a, [])
      | some i ↦
          let (m', woken) = deregister_after (m.heap i).is_ready i m in
          (m', record a { registered = (m.heap i).is_ready }, woken)
    ]
    else (m, a, [])

-- A move onto the awaitable `a`: the mutex, the two awaitables and the wakers called.
pub assign_awaitable :
    MutexState
    → MutexLockAwaitable
    → MutexLockAwaitable
    → MutexState × MutexLockAwaitable × MutexLockAwaitable × List Waker
unfolding deregister
assign_awaitable m a other =
    let (m', _, woken) = deregister m a in
    (m', other, record { state = false; waiter = none; registered = false }, woken)

unfoldable pub try_lock : MutexState → MutexState × Option MutexGuard
try_lock m =
    if not m.locked then (record m { locked = true }, some (record { state = true })) else (m, none)

pub is_locked : MutexState → Bool
is_locked m = m.locked
