-- ===== src/Examples/Locks.antt =====
-- examples/mutex.cc: the tests of one coroutine alone. What the guards' destructors do at the end of a
-- test, after the last line that it prints, is left out.
use pollcoro.Base.{ℕ, false, ◌>>=◌, String, List, [], ◌∷◌, ◌++◌, Option, none, some}
use pollcoro.Waker.{Waker, noop}
use pollcoro.Mutex.{MutexState, lock, poll, try_lock, unlock, destroy_guard, deregister}
use pollcoro.SharedMutex.{
  SharedMutexState, SharedLockGuard, UniqueLockGuard, destroy_shared, try_lock_shared,
}
use pollcoro.SharedMutex
use pollcoro.Yield
use pollcoro.BlockOn.{await}
use pollcoro.Console.{Token, text, endl}

-- `pollcoro::mutex mtx` and `pollcoro::shared_mutex mtx`.
abbrev new_mutex : MutexState
new_mutex = record {
  locked = false;
  waiters = [];
  heap = λ _. record { waker = noop; is_ready = false };
}

abbrev new_shared_mutex : SharedMutexState
new_shared_mutex = record {
  readers = 0;
  writer_active = false;
  waiters = [];
  heap = λ _. record { waker = noop; is_ready = false; is_writer = false };
}

-- The second `try_lock` of `test_try_lock`, while the first guard is held.
abbrev second_try : MutexState → MutexState × List Token
second_try m =
    let (m', guard2) = try_lock m in
    elim guard2 [
      | some g ↦
          ((destroy_guard m' g).0, text "  Second try_lock succeeded (unexpected!)" ∷ endl ∷ [])
      | none ↦ (m', text "  Second try_lock failed (expected - mutex is held)" ∷ endl ∷ [])
    ]

abbrev first_try : MutexState → MutexState × List Token
first_try m =
    let (m', guard) = try_lock m in
    elim guard [
      | some g ↦
          let (m'', out) = second_try m' in
          ((destroy_guard m'' g).0, text "  First try_lock succeeded" ∷ endl ∷ out)
      | none ↦ (m', [])
    ]

abbrev third_try : MutexState → MutexState × List Token
third_try m =
    let (m', guard) = try_lock m in
    elim guard [
      | some g ↦
          ((destroy_guard m' g).0, text "  Third try_lock succeeded (after release)" ∷ endl ∷ [])
      | none ↦ (m', [])
    ]

unfoldable pub test_try_lock : List Token
test_try_lock =
    let (m, first) = first_try new_mutex in
    let (m', third) = third_try m in
    text "=== try_lock (non-blocking) ===" ∷ endl ∷ first ++ third ++ endl ∷ []

unfoldable pub test_early_unlock : ℕ → Waker → Option (List Token)
unfolding await
test_early_unlock rounds w = do
  ((m, awaitable), guard) ← await poll rounds w (lock 0 new_mutex)
  (_, _) ← await Yield.poll rounds w 1
  let (m', guard', woken) = unlock (deregister m awaitable).0 guard
  (_, _) ← await Yield.poll rounds w 1
  some (
      text "=== Early Unlock ==="
      ∷ endl
      ∷ text "  Lock acquired"
      ∷ endl
      ∷ text "  Doing critical work..."
      ∷ endl
      ∷ text "  Lock released early"
      ∷ endl
      ∷ text "  Doing non-critical work (no lock held)..."
      ∷ endl
      ∷ endl
      ∷ [])

abbrev outcome {ℓ} : {G : Type ℓ} → Option G → String
outcome (some g) = "success"
outcome none = "failed"

-- `reset` of an optional guard.
abbrev reset : SharedMutexState → Option SharedLockGuard → SharedMutexState
reset m (some g) = (destroy_shared m g).0
reset m none = m

unfoldable pub test_shared_mutex_try_lock : List Token
test_shared_mutex_try_lock =
    let (m1, shared1) = try_lock_shared new_shared_mutex in
    let (m2, shared2) = try_lock_shared m1 in
    let (m3, exclusive) = SharedMutex.try_lock m2 in
    let m4 = reset (reset m3 shared1) shared2 in
    let (m5, exclusive') = SharedMutex.try_lock m4 in
    let (m6, shared3) = try_lock_shared m5 in
    text "=== shared_mutex try_lock variants ==="
    ∷ endl
    ∷ text "Acquiring multiple shared locks:"
    ∷ endl
    ∷ text "  try_lock_shared #1: "
    ∷ text (outcome shared1)
    ∷ endl
    ∷ text "  try_lock_shared #2: "
    ∷ text (outcome shared2)
    ∷ endl
    ∷ text "  try_lock (exclusive) while readers active: "
    ∷ text (outcome exclusive)
    ∷ endl
    ∷ text "  try_lock (exclusive) after readers released: "
    ∷ text (outcome exclusive')
    ∷ endl
    ∷ text "  try_lock_shared while writer active: "
    ∷ text (outcome shared3)
    ∷ endl
    ∷ endl
    ∷ []
