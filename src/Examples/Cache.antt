-- ===== src/Examples/Cache.antt =====
-- examples/mutex.cc: the cache, in the hands of one coroutine at a time. A map is the list of its entries.
pub mod Entries
use pollcoro.Base.{
  ℕ, false, Bool, if◌then◌else◌, ◌>>=◌, String, List, [], ◌∷◌, ◌++◌, Option, none, some,
}
use package.text.Mathlib.Text.{◌==◌}
use pollcoro.Waker.{Waker, noop}
use pollcoro.SharedMutex.{
  SharedMutexState, SharedLockGuard, UniqueLockGuard, lock, lock_shared, read_poll, write_poll,
  deregister, destroy_shared, destroy_unique,
}
use pollcoro.BlockOn.{await}
use pollcoro.Console.{Token, number, text, endl}

-- `data.find(key)`
unfoldable pub find : String → List (String × ℕ) → Option ℕ
find key [] = none
find key ((k, v) ∷ entries) = if k == key then some v else find key entries

-- `data[key] = value`
unfoldable pub assign : String → ℕ → List (String × ℕ) → List (String × ℕ)
assign key value [] = (key, value) ∷ []
assign key value ((k, v) ∷ entries) =
    let rest = assign key value entries in if k == key then (k, value) ∷ entries else (k, v) ∷ rest

pub record Cache : Type 0 where
  pub mtx : SharedMutexState
  pub data_ : List (String × ℕ)

abbrev pub new_cache : Cache
new_cache = record {
  mtx = record {
    readers = 0;
    writer_active = false;
    waiters = [];
    heap = λ _. record { waker = noop; is_ready = false; is_writer = false };
  };
  data_ = [];
}

module _ (rounds : ℕ) (w : Waker) where
  -- `auto guard = co_await mtx.lock_shared()`: the awaitable is gone at the end of the line.
  unfoldable pub hold_shared : SharedMutexState → Option (SharedMutexState × SharedLockGuard)
  unfolding await lock_shared read_poll deregister
  hold_shared m = do
    ((m', awaitable), guard) ← await read_poll rounds w (lock_shared 0 m)
    some ((deregister m' awaitable).0, guard)

  -- `auto guard = co_await mtx.lock()`
  unfoldable pub hold : SharedMutexState → Option (SharedMutexState × UniqueLockGuard)
  unfolding await lock write_poll deregister
  hold m = do
    ((m', awaitable), guard) ← await write_poll rounds w (lock 0 m)
    some ((deregister m' awaitable).0, guard)

  unfoldable pub get : String → Cache → Option (Cache × Option ℕ)
  unfolding hold_shared find destroy_shared
  get key c = do
    (m, guard) ← hold_shared c.mtx
    some (record c { mtx = (destroy_shared m guard).0 }, find key c.data_)

  unfoldable pub set : String → ℕ → Cache → Option Cache
  unfolding hold assign destroy_unique
  set key value c = do
    (m, guard) ← hold c.mtx
    some (record { mtx = (destroy_unique m guard).0; data_ = assign key value c.data_ })

  -- What `get_or_compute` does under the write lock: the second search found this.
  abbrev pub second_search :
      Option ℕ → String → ℕ → List (String × ℕ) → SharedMutexState → Cache × ℕ
  second_search (some value) key default_value entries m =
      (record { mtx = m; data_ = entries }, value)
  second_search none key default_value entries m =
      (record { mtx = m; data_ = assign key default_value entries }, default_value)

  -- The part of `get_or_compute` behind the read lock.
  unfoldable pub insert_missing : String → ℕ → Cache → Option (Cache × ℕ)
  unfolding hold find assign destroy_unique
  insert_missing key default_value c = do
    (m, guard) ← hold c.mtx
    some (second_search (find key c.data_) key default_value c.data_ (destroy_unique m guard).0)

  -- What `get_or_compute` does once the first search found this, and the read lock is given back.
  abbrev pub first_search : Option ℕ → String → ℕ → Cache → Option (Cache × ℕ)
  first_search (some value) key default_value c = some (c, value)
  first_search none key default_value c = insert_missing key default_value c

  unfoldable pub get_or_compute : String → ℕ → Cache → Option (Cache × ℕ)
  unfolding hold_shared find destroy_shared insert_missing
  get_or_compute key default_value c = do
    (m, guard) ← hold_shared c.mtx
    first_search (find key c.data_) key default_value
        (record c { mtx = (destroy_shared m guard).0 })

  unfoldable pub cache_reader : String → ℕ → Cache → Option (Cache × List Token)
  unfolding get
  cache_reader key id c = do
    (c', value) ← get key c
    some (
      c',
      elim value [
        | some v ↦
            text "  Reader "
            ∷ number id
            ∷ text " got "
            ∷ text key
            ∷ text " = "
            ∷ number v
            ∷ endl
            ∷ []
        | none ↦
            text "  Reader "
            ∷ number id
            ∷ text " found "
            ∷ text key
            ∷ text " not in cache"
            ∷ endl
            ∷ []
      ],
    )
