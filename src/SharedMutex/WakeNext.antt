-- ===== src/SharedMutex/WakeNext.antt =====
-- src/shared_mutex.cppm: which waiters `wake_next` chooses.
use pollcoro.Base.{
  ℕ, ◌==◌, if◌then◌else◌, Bool, false, List, [], ◌∷◌, ◌++◌, ◌≡◌, refl, arith, Bool-cases, ◌||◌, inl,
  inr,
}
use mathlib.Core.List.{append-nil}
use pollcoro.Waker.{Waker, wake}
use pollcoro.SharedMutex.{SharedMutexState, wake_front, wake_readers, wake_queue, wake_next}

-- The readers at the front of the queue, and what stands behind them.
readers_of : (ℕ → Bool) → List ℕ → List ℕ
readers_of writer [] = []
readers_of writer (i ∷ is) = if writer i then [] else i ∷ readers_of writer is

behind : (ℕ → Bool) → List ℕ → List ℕ
behind writer [] = []
behind writer (i ∷ is) = if writer i then i ∷ is else behind writer is

-- A writer at the front alone, or else all the readers at the front.
pub chosen : (ℕ → Bool) → List ℕ → List ℕ
unfolding readers_of
chosen writer [] = []
chosen writer (i ∷ is) = if writer i then i ∷ [] else readers_of writer (i ∷ is)

pub left_over : (ℕ → Bool) → List ℕ → List ℕ
unfolding behind
left_over writer [] = []
left_over writer (i ∷ is) = if writer i then is else behind writer (i ∷ is)

pub wakes : (ℕ → Waker) → List ℕ → List Waker
wakes waker [] = []
wakes waker (i ∷ is) = wake (waker i) ++ wakes waker is

pub mem : ℕ → List ℕ → Bool
mem i [] = false
mem i (x ∷ xs) = (x == i) || mem i xs

-- `m'` comes from `m` by making the given waiters ready and leaving the others in the queue.
pub record Woke (m m' : SharedMutexState) (woken : List Waker) (is left : List ℕ) : Type 0 where
  pub queue : m'.waiters ≡ left
  pub flags : (j : ℕ) → (m'.heap j).is_ready ≡ (mem j is || (m.heap j).is_ready)
  pub calls : woken ≡ wakes (λ j. (m.heap j).waker) is
  pub readers : m'.readers ≡ m.readers
  pub writer : m'.writer_active ≡ m.writer_active

module _ (writer : ℕ → Bool) (waker : ℕ → Waker) where
  record WokeReaders (m : SharedMutexState) (q : List ℕ) : Type 0 where
    queue : (wake_readers q m).0.waiters ≡ behind writer q
    flags :
        (j : ℕ)
        → ((wake_readers q m).0.heap j).is_ready
          ≡ (mem j (readers_of writer q) || (m.heap j).is_ready)
    calls : (wake_readers q m).1 ≡ wakes waker (readers_of writer q)
    readers : (wake_readers q m).0.readers ≡ m.readers
    active : (wake_readers q m).0.writer_active ≡ m.writer_active

  -- One round of the loop.
  wake_readers-cons :
      (i : ℕ) (is : List ℕ) (m : SharedMutexState)
      → m.waiters ≡ i ∷ is
      → (m.heap i).is_writer ≡ writer i
      → (m.heap i).waker ≡ waker i
      → WokeReaders (wake_front i is m) is
      → WokeReaders m (i ∷ is)
  unfolding wake_readers readers_of behind wakes mem
  wake_readers-cons i is m e hw hk rest = record {
    queue = ground (arith, rest.queue);
    flags = λ j. ground (arith, rest.flags j);
    calls = ground (arith, rest.calls);
    readers = ground (arith, rest.readers);
    active = ground (arith, rest.active);
  }

  wake_readers_lem :
      (q : List ℕ) (m : SharedMutexState)
      → m.waiters ≡ q
      → ((j : ℕ) → (m.heap j).is_writer ≡ writer j)
      → ((j : ℕ) → (m.heap j).waker ≡ waker j)
      → WokeReaders m q
  unfolding wake_readers readers_of behind wakes mem
  wake_readers_lem [] m e hw hk = record {
    queue = e;
    flags = λ j. refl;
    calls = refl;
    readers = refl;
    active = refl;
  }
  wake_readers_lem (i ∷ is) m e hw hk = wake_readers-cons i is m e (hw i) (hk i) (
      wake_readers_lem is (wake_front i is m) refl (λ j. ground (arith, hw j))
        (λ j. ground (arith, hk j)))

abbrev writers : SharedMutexState → ℕ → Bool
writers m j = (m.heap j).is_writer

wake_queue_lem :
    (m : SharedMutexState) (q : List ℕ)
    → m.waiters ≡ q
    → Woke m (wake_queue q m).0 (wake_queue q m).1 (chosen (writers m) q) (left_over (writers m) q)
unfolding wake_queue chosen left_over mem wakes
wake_queue_lem m [] e = record {
  queue = e;
  flags = λ j. refl;
  calls = refl;
  readers = refl;
  writer = refl;
}
wake_queue_lem m (i ∷ is) e = elim (Bool-cases (m.heap i).is_writer) [
  | inl alone ↦ record {
    queue = ground arith;
    flags = λ j. ground arith;
    calls = ground (arith, append-nil (wake (m.heap i).waker));
    readers = ground arith;
    writer = ground arith;
  }
  | inr reader ↦
      let r =
        wake_readers_lem (writers m) (λ j. (m.heap j).waker) (i ∷ is) m e (λ j. refl) (λ j. refl) in
      record {
        queue = ground (arith, r.queue);
        flags = λ j. ground (arith, r.flags j);
        calls = ground (arith, r.calls);
        readers = ground (arith, r.readers);
        writer = ground (arith, r.active);
      }
]

-- `wake_next` takes off the queue the writer at its front, or all the readers at its front, makes
-- exactly these ready and calls their wakers in the order of the queue; it changes neither
-- `readers_` nor `writer_active_`.
pub wake_next-Woke :
    (m : SharedMutexState)
    → Woke m
        (wake_next m).0
        (wake_next m).1
        (chosen (writers m) m.waiters)
        (left_over (writers m) m.waiters)
unfolding wake_next
wake_next-Woke m = wake_queue_lem m m.waiters refl
