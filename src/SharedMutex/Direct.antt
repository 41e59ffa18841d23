-- ===== src/SharedMutex/Direct.antt =====
-- src/shared_mutex.cppm: the lock as long as nobody has to wait, that is with `try_lock` and
-- `try_lock_shared` alone.
use pollcoro.Base.{
  ℕ, suc, ◌⊎◌, ◌+◌, ◌<◌, Bool, true, false, [], some, ◌≡◌, refl, arith, inl, size_mod, size_dec-suc,
  size_inc_lem,
}
use pollcoro.SharedMutex.{
  SharedWaiter, SharedMutexState, SharedLockGuard, UniqueLockGuard, unlock_shared, unlock_unique,
  try_lock, try_lock_shared,
}

-- How many shared guards there are, and whether there is a unique guard.
pub record System : Type 0 where
  pub mutex : SharedMutexState
  pub shared : ℕ
  pub unique : Bool

pub data Step (s : System) : System → Type 0 where
  tries :
      {m : SharedMutexState} {g : UniqueLockGuard}
      → try_lock s.mutex ≡ (m, some g)
      → Step s (record s { mutex = m; unique = true })
  tries_shared :
      {m : SharedMutexState} {g : SharedLockGuard}
      → try_lock_shared s.mutex ≡ (m, some g)
      → s.shared + 1 < size_mod
      → Step s (record s { mutex = m; shared = s.shared + 1 })
  unlocks :
      s.unique ≡ true
      → Step s
          (record s { mutex = (unlock_unique s.mutex (record { state = true })).0; unique = false })
  unlocks_shared :
      (k : ℕ)
      → s.shared ≡ suc k
      → Step s
          (record s { mutex = (unlock_shared s.mutex (record { state = true })).0; shared = k })

abbrev pub initial : (ℕ → SharedWaiter) → System
initial heap = record {
  mutex = record { readers = 0; writer_active = false; waiters = []; heap = heap };
  shared = 0;
  unique = false;
}

pub data Reach (heap : ℕ → SharedWaiter) : System → Type 0 where
  start : Reach heap (initial heap)
  later : {s t : System} → Reach heap s → Step s t → Reach heap t

-- The state counts the guards, and a unique guard is alone.
pub record Inv (s : System) : Type 0 where
  pub counted : s.mutex.readers ≡ s.shared
  pub active : s.mutex.writer_active ≡ s.unique
  pub alone : (s.unique ≡ false) ⊎ (s.shared ≡ 0)
  pub bounded : s.shared < size_mod
  pub nobody_waits : s.mutex.waiters ≡ []

Step-Inv : {s t : System} → Step s t → Inv s → Inv t
unfolding try_lock try_lock_shared unlock_unique unlock_shared
Step-Inv (tries p) v = ground arith
Step-Inv {s} (tries_shared p b) v = ground (arith, size_inc_lem s.shared)
Step-Inv (unlocks u) v = ground arith
Step-Inv {s} (unlocks_shared k e) v = ground (arith, size_dec-suc k)

-- As long as the lock is taken by `try_lock` and `try_lock_shared` alone, and fewer than 2 ^ 64
-- shared guards exist, `readers_` is the number of shared guards, `writer_active_` says whether
-- there is a unique guard, a unique guard is alone, and nobody waits.
pub direct-Inv : {heap : ℕ → SharedWaiter} {s : System} → Reach heap s → Inv s
direct-Inv start = record {
  counted = refl;
  active = refl;
  alone = inl refl;
  bounded = omega arith;
  nobody_waits = refl;
}
direct-Inv (later r st) = Step-Inv st (direct-Inv r)
