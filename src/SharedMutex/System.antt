-- ===== src/SharedMutex/System.antt =====
-- src/shared_mutex.cppm: any number of clients of one read-write lock, interleaved. Each client has
-- at most one awaitable or guard. What a call does while it holds `mtx_`, and the read of
-- `is_ready_` before it, are single steps.
pub mod Serving
pub mod Waiting
use pollcoro.Base.{ℕ, Bool, true, false, [], some, ◌≡◌}
use pollcoro.Waker.{Waker, noop}
use pollcoro.Awaitable.{ready, pending}
use pollcoro.SharedMutex.{
  SharedMutexState, update, SharedLockGuard, UniqueLockGuard, unlock_shared, unlock_unique,
  LockAwaitable, new_awaitable, poll_fast, read_slow, write_slow, deregister, try_lock,
  try_lock_shared,
}

pub data Client : Type 0 where
  absent : Client
  awaiting : (is_writer : Bool) → LockAwaitable → Client  -- between the calls of `poll`
  polling : (is_writer : Bool) → LockAwaitable → Client  -- in `poll`, before it takes `mtx_`
  reading : SharedLockGuard → Client
  writing : UniqueLockGuard → Client

pub record System : Type 0 where
  pub mutex : SharedMutexState
  pub client : ℕ → Client

abbrev pub with_client : System → SharedMutexState → ℕ → Client → System
with_client s m i c = record { mutex = m; client = update s.client i c }

-- One step of client `i`.
pub data Step (s : System) : System → Type 0 where
  -- `lock()` and `lock_shared()`
  locks :
      (i : ℕ) (is_writer : Bool)
      → s.client i ≡ absent
      → Step s (
          with_client s
            (new_awaitable is_writer i s.mutex).0
            i
            (awaiting is_writer (new_awaitable is_writer i s.mutex).1))
  tries :
      (i : ℕ) {m : SharedMutexState} {g : UniqueLockGuard}
      → s.client i ≡ absent
      → try_lock s.mutex ≡ (m, some g)
      → Step s (with_client s m i (writing g))
  tries_shared :
      (i : ℕ) {m : SharedMutexState} {g : SharedLockGuard}
      → s.client i ≡ absent
      → try_lock_shared s.mutex ≡ (m, some g)
      → Step s (with_client s m i (reading g))
  reads_ready :
      (i : ℕ) {a : LockAwaitable}
      → s.client i ≡ awaiting false a
      → poll_fast s.mutex a ≡ some true
      → Step s (with_client s s.mutex i (reading (record { state = a.state })))
  writes_ready :
      (i : ℕ) {a : LockAwaitable}
      → s.client i ≡ awaiting true a
      → poll_fast s.mutex a ≡ some true
      → Step s (with_client s s.mutex i (writing (record { state = a.state })))
  polls :
      (i : ℕ) {is_writer : Bool} {a : LockAwaitable}
      → s.client i ≡ awaiting is_writer a
      → poll_fast s.mutex a ≡ some false
      → Step s (with_client s s.mutex i (polling is_writer a))
  reads :
      (i : ℕ) (w : Waker) {a a' : LockAwaitable} {m : SharedMutexState} {g : SharedLockGuard}
      → s.client i ≡ polling false a
      → read_slow w s.mutex a ≡ some (m, a', ready g)
      → Step s (with_client s m i (reading g))
  writes :
      (i : ℕ) (w : Waker) {a a' : LockAwaitable} {m : SharedMutexState} {g : UniqueLockGuard}
      → s.client i ≡ polling true a
      → write_slow w s.mutex a ≡ some (m, a', ready g)
      → Step s (with_client s m i (writing g))
  read_waits :
      (i : ℕ) (w : Waker) {a a' : LockAwaitable} {m : SharedMutexState}
      → s.client i ≡ polling false a
      → read_slow w s.mutex a ≡ some (m, a', pending)
      → Step s (with_client s m i (awaiting false a'))
  write_waits :
      (i : ℕ) (w : Waker) {a a' : LockAwaitable} {m : SharedMutexState}
      → s.client i ≡ polling true a
      → write_slow w s.mutex a ≡ some (m, a', pending)
      → Step s (with_client s m i (awaiting true a'))
  -- The awaitable is destroyed.
  drops :
      (i : ℕ) {is_writer : Bool} {a : LockAwaitable}
      → s.client i ≡ awaiting is_writer a
      → Step s (with_client s (deregister s.mutex a).0 i absent)
  unlocks_shared :
      (i : ℕ) {g : SharedLockGuard}
      → s.client i ≡ reading g
      → Step s (with_client s (unlock_shared s.mutex g).0 i absent)
  unlocks :
      (i : ℕ) {g : UniqueLockGuard}
      → s.client i ≡ writing g
      → Step s (with_client s (unlock_unique s.mutex g).0 i absent)

abbrev pub initial : System
initial = record {
  mutex = record {
    readers = 0;
    writer_active = false;
    waiters = [];
    heap = λ _. record { waker = noop; is_ready = false; is_writer = false };
  };
  client = λ _. absent;
}

pub data Reach : System → Type 0 where
  start : Reach initial
  later : {s t : System} → Reach s → Step s t → Reach t
