-- ===== src/SharedMutex/System/Serving.antt =====
-- src/shared_mutex.cppm: what `wake_next` and the releases do to the queue.
use pollcoro.Base.{
  ℕ, ◌==◌, if◌then◌else◌, Bool, true, false, List, [], ◌∷◌, ◌≡◌, refl, ap, arith, size_dec,
}
use pollcoro.Waker.{Waker}
use pollcoro.Mutex.Queue.{mem, Distinct}
use pollcoro.SharedMutex.{
  SharedMutexState, wake_front, wake_readers, wake_queue, wake_next, release_shared,
  release_exclusive,
}

-- What `wake_next` does to the queue and to the waiters: some leave the queue and are made ready.
pub record Served (m m' : SharedMutexState) : Type 0 where
  pub kept :
      (j : ℕ)
      → mem j m'.waiters ≡ true
      → (mem j m.waiters ≡ true) × ((m'.heap j).is_ready ≡ (m.heap j).is_ready)
  pub served :
      (j : ℕ) → mem j m.waiters ≡ true → mem j m'.waiters ≡ false → (m'.heap j).is_ready ≡ true
  pub others : (j : ℕ) → mem j m.waiters ≡ false → (m'.heap j).is_ready ≡ (m.heap j).is_ready
  pub distinct : Distinct m'.waiters

pub Served-self : (m : SharedMutexState) → Distinct m.waiters → Served m m
Served-self m d = record {
  kept = λ j h. (h, refl);
  served = λ j h k. cc;
  others = λ j h. refl;
  distinct = d;
}

Served-then : {m m' m'' : SharedMutexState} → Served m m' → Served m' m'' → Served m m''
Served-then {m} {m'} {m''} a b = record {
  kept = λ j h. ground (arith, a.kept j, b.kept j);
  served = λ j h k. ground (arith, a.served j, a.kept j, b.served j, b.kept j, b.others j);
  others = λ j h. ground (arith, a.others j, a.kept j, b.others j);
  distinct = b.distinct;
}

Served-front :
    (next : ℕ) (rest : List ℕ) (m : SharedMutexState)
    → m.waiters ≡ next ∷ rest
    → Distinct (next ∷ rest)
    → Served m (wake_front next rest m)
unfolding mem
Served-front next rest m e d = record {
  kept = λ j h. ground (arith, ap (mem j) e);
  served = λ j h k. ground (arith, ap (mem j) e);
  others = λ j h. ground (arith, ap (mem j) e);
  distinct = d.1;
}

pub Served-if :
    {A : Type 0} (result : A → SharedMutexState) {m : SharedMutexState} (b : Bool) {x y : A}
    → Served m (result x)
    → Served m (result y)
    → Served m (result (if b then x else y))
Served-if result true p q = p
Served-if result false p q = q

Served-wake_readers :
    (q : List ℕ) (m : SharedMutexState) → m.waiters ≡ q → Distinct q → Served m (wake_readers q m).0
unfolding wake_readers
Served-wake_readers [] m e d = Served-self m (rw e tt)
Served-wake_readers (next ∷ rest) m e d =
    Served-if (λ (r : SharedMutexState × List Waker). r.0) (m.heap next).is_writer
      (Served-self m (rw e d))
      (Served-then (Served-front next rest m e d)
        (Served-wake_readers rest (wake_front next rest m) refl d.1))

Served-wake_queue :
    (q : List ℕ) (m : SharedMutexState) → m.waiters ≡ q → Distinct q → Served m (wake_queue q m).0
unfolding wake_queue
Served-wake_queue [] m e d = Served-self m (rw e tt)
Served-wake_queue (next ∷ rest) m e d =
    Served-if (λ (r : SharedMutexState × List Waker). r.0) (m.heap next).is_writer
      (Served-front next rest m e d) (Served-wake_readers (next ∷ rest) m e d)

Served-wake_next : (m : SharedMutexState) → Distinct m.waiters → Served m (wake_next m).0
unfolding wake_next
Served-wake_next m d = Served-wake_queue m.waiters m refl d

-- What an unlock or a poll changes besides the queue does not matter.
pub Served-release_shared :
    (m : SharedMutexState) → Distinct m.waiters → Served m (release_shared m).0
unfolding release_shared
Served-release_shared m d =
    let v = Served-wake_next (record m { readers = size_dec m.readers }) d in
    Served-if (λ (r : SharedMutexState × List Waker). r.0) (size_dec m.readers == 0)
      (record { kept = v.kept; served = v.served; others = v.others; distinct = v.distinct })
      (record { kept = λ j h. (h, refl); served = λ j h k. cc; others = λ j h. refl; distinct = d })

pub Served-release_exclusive :
    (m : SharedMutexState) → Distinct m.waiters → Served m (release_exclusive m).0
unfolding release_exclusive
Served-release_exclusive m d =
    let v = Served-wake_next (record m { writer_active = false }) d in
    record { kept = v.kept; served = v.served; others = v.others; distinct = v.distinct }
