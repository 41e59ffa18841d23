-- ===== src/Samples/SharedLocks.antt =====
-- src/shared_mutex.cppm on concrete states.
use pollcoro.Base.{
  ℕ, size_inc, not, ◌&&◌, ◌+◌, ◌==◌, refl, List, [], ◌∷◌, some, none, ◌≡◌, true, false, arith,
  size_mod,
}
use pollcoro.Waker.{Waker}
use pollcoro.Awaitable.{ready}
use pollcoro.SharedMutex.{
  SharedWaiter, SharedMutexState, LockAwaitable, note, lock, poll_fast, write_slow, wake_next,
  unlock_shared, unlock_unique, read_poll, write_poll, try_lock, try_lock_shared,
}
use pollcoro.SharedMutex.WakeNext.{Woke, wake_next-Woke, chosen, left_over}
use pollcoro.SharedMutex.Direct
use pollcoro.SharedMutex.Direct.{
  Inv, Reach, initial, start, later, tries_shared, unlocks_shared, direct-Inv,
}
use pollcoro.Mutex.Queue.{mem, Distinct}
use pollcoro.SharedMutex.System
use pollcoro.SharedMutex.System.{
  absent, awaiting, polling, writing, with_client, locks, tries, polls, write_waits,
}
use pollcoro.SharedMutex.System.Waiting.{waits, queue_waits}
use pollcoro.SharedMutex.HandOver.{handed_writer_is_not_alone, handed_reader_is_not_counted}

abbrev waker : Waker
waker = record { wake_function = 1; data_ptr = 7 }

-- The waiters below 3 are readers and the others are writers.
abbrev heap : ℕ → SharedWaiter
heap i = record { waker = waker; is_ready = false; is_writer = not (i == 1) && not (i == 2) }

-- A writer has the lock, and the given waiters are in the queue.
abbrev queued : List ℕ → SharedMutexState
queued waiters = record { readers = 0; writer_active = true; waiters = waiters; heap = heap }

wake_next-Woke_example :
    let m = queued (1 ∷ 2 ∷ 3 ∷ 1 ∷ []) in
    Woke m
      (wake_next m).0
      (wake_next m).1
      (chosen (λ j. (heap j).is_writer) m.waiters)
      (left_over (λ j. (heap j).is_writer) m.waiters)
wake_next-Woke_example = wake_next-Woke (queued (1 ∷ 2 ∷ 3 ∷ 1 ∷ []))

abbrev awaitable : ℕ → LockAwaitable
awaitable i = record { state = true; waiter = some i; registered = true }

handed_writer_is_not_alone_example :
    (m : SharedMutexState) × (write_poll waker
        ((unlock_unique (queued (3 ∷ 1 ∷ [])) (record { state = true })).0, awaitable 3)
      ≡ some ((m, record (awaitable 3) { state = false }), ready (record { state = true }), []))
    × ((try_lock m).1 ≡ some (record { state = true }))
handed_writer_is_not_alone_example =
    handed_writer_is_not_alone waker (queued (3 ∷ 1 ∷ [])) (awaitable 3) 3 (1 ∷ []) refl refl refl
      refl refl

handed_reader_is_not_counted_example :
    (m : SharedMutexState) × (read_poll waker
        ((unlock_unique (queued (1 ∷ [])) (record { state = true })).0, awaitable 1)
      ≡ some ((m, record (awaitable 1) { state = false }), ready (record { state = true }), []))
    × ((unlock_shared m (record { state = true })).0.readers + 1 ≡ size_mod)
    × ((try_lock (unlock_shared m (record { state = true })).0).1 ≡ none)
handed_reader_is_not_counted_example =
    handed_reader_is_not_counted waker (queued (1 ∷ [])) (awaitable 1) 1 refl refl refl refl refl

-- Two readers.
abbrev read_twice : Direct.System
read_twice = record {
  mutex = record { readers = 2; writer_active = false; waiters = []; heap = heap };
  shared = 2;
  unique = false;
}

read_twice-Reach : Reach heap read_twice
unfolding try_lock_shared size_inc
read_twice-Reach =
    later (later start (tries_shared {g = record { state = true }} refl (omega arith)))
      (tries_shared {g = record { state = true }} refl (omega arith))

direct-Inv_example : Inv read_twice
direct-Inv_example = direct-Inv read_twice-Reach

-- Client 1 has a unique guard, and client 2 waits for one.
abbrev with_writer : System.System
with_writer =
    with_client System.initial (record System.initial.mutex { writer_active = true }) 1
      (writing (record { state = true }))

abbrev new_writer : System.System
new_writer =
    with_client with_writer (lock 2 with_writer.mutex).0 2
      (awaiting true (lock 2 with_writer.mutex).1)

abbrev polling_writer : System.System
polling_writer =
    with_client new_writer new_writer.mutex 2 (polling true (lock 2 with_writer.mutex).1)

abbrev waiting_writer : System.System
waiting_writer =
    with_client polling_writer (record (note waker 2 new_writer.mutex) { waiters = 2 ∷ [] }) 2
      (awaiting true (awaitable 2))

waiting_writer-Reach : System.Reach waiting_writer
unfolding try_lock lock poll_fast write_slow
waiting_writer-Reach =
    System.later
      (System.later
        (System.later (System.later System.start (tries 1 refl refl)) (locks 2 true refl))
        (polls 2 refl refl))
      (write_waits 2 waker refl refl)

queue_waits_example :
    Distinct waiting_writer.mutex.waiters
    × ((i : ℕ) → mem i waiting_writer.mutex.waiters ≡ waits waiting_writer i)
queue_waits_example = queue_waits waiting_writer-Reach
