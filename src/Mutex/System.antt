-- ===== src/Mutex/System.antt =====
-- src/mutex.cppm: any number of clients of one mutex, interleaved. Each client has at most one
-- awaitable or guard. The parts of a call that take `mtx_`, or read `is_ready_`, are single steps.
use pollcoro.Base.{ℕ, Bool, true, false, ◌⊎◌, [], some, ◌≡◌}
use pollcoro.Waker.{Waker, noop}
use pollcoro.Awaitable.{ready, pending}
use pollcoro.Mutex.{
  MutexState, update, MutexGuard, unlock, MutexLockAwaitable, lock, poll_fast, poll_slow,
  is_registered, deregister_after, try_lock,
}

pub data Client : Type 0 where
  absent : Client
  awaiting : MutexLockAwaitable → Client  -- between the calls of `poll`
  polling : MutexLockAwaitable → Client  -- in `poll`, before it takes `mtx_`
  dropping : MutexLockAwaitable → (saw : Bool) → Client  -- in `deregister`, `is_ready_` read as `saw`
  holding : MutexGuard → Client

pub record System : Type 0 where
  pub mutex : MutexState
  pub client : ℕ → Client

abbrev pub with_client : System → MutexState → ℕ → Client → System
with_client s m i c = record { mutex = m; client = update s.client i c }

-- One step of client `i`. Without `racy`, `is_ready_` is not written between the read in
-- `deregister` and what follows it.
pub data Step (racy : Bool) (s : System) : System → Type 0 where
  locks :
      (i : ℕ)
      → s.client i ≡ absent
      → Step racy s (with_client s (lock i s.mutex).0 i (awaiting (lock i s.mutex).1))
  tries :
      (i : ℕ) {m : MutexState} {g : MutexGuard}
      → s.client i ≡ absent
      → try_lock s.mutex ≡ (m, some g)
      → Step racy s (with_client s m i (holding g))
  polls_ready :
      (i : ℕ) {a : MutexLockAwaitable}
      → s.client i ≡ awaiting a
      → poll_fast s.mutex a ≡ some true
      → Step racy s (with_client s s.mutex i (holding (record { state = a.state })))
  polls :
      (i : ℕ) {a : MutexLockAwaitable}
      → s.client i ≡ awaiting a
      → poll_fast s.mutex a ≡ some false
      → Step racy s (with_client s s.mutex i (polling a))
  acquires :
      (i : ℕ) (w : Waker) {a a' : MutexLockAwaitable} {m : MutexState} {g : MutexGuard}
      → s.client i ≡ polling a
      → poll_slow w s.mutex a ≡ some (m, a', ready g)
      → Step racy s (with_client s m i (holding g))
  waits :
      (i : ℕ) (w : Waker) {a a' : MutexLockAwaitable} {m : MutexState}
      → s.client i ≡ polling a
      → poll_slow w s.mutex a ≡ some (m, a', pending)
      → Step racy s (with_client s m i (awaiting a'))
  drops :
      (i : ℕ) {a : MutexLockAwaitable}
      → s.client i ≡ awaiting a
      → is_registered a ≡ false
      → Step racy s (with_client s s.mutex i absent)
  reads :
      (i : ℕ) {a : MutexLockAwaitable} {saw : Bool}
      → s.client i ≡ awaiting a
      → is_registered a ≡ true
      → poll_fast s.mutex a ≡ some saw
      → Step racy s (with_client s s.mutex i (dropping a saw))
  deregisters :
      (i : ℕ) {a : MutexLockAwaitable} {saw : Bool}
      → s.client i ≡ dropping a saw
      → (racy ≡ true) ⊎ (poll_fast s.mutex a ≡ some saw)
      → Step racy s (with_client s (deregister_after saw i s.mutex).0 i absent)
  unlocks :
      (i : ℕ) {g : MutexGuard}
      → s.client i ≡ holding g
      → Step racy s (with_client s (unlock s.mutex g).0 i absent)

abbrev pub initial : System
initial = record {
  mutex = record {
    locked = false;
    waiters = [];
    heap = λ _. record { waker = noop; is_ready = false };
  };
  client = λ _. absent;
}

pub data Reach (racy : Bool) : System → Type 0 where
  start : Reach racy initial
  later : {s t : System} → Reach racy s → Step racy s t → Reach racy t

-- Any number of steps.
pub data Steps (racy : Bool) (s : System) : System → Type 0 where
  done : Steps racy s s
  step : {t u : System} → Steps racy s t → Step racy t u → Steps racy s u
