-- ===== src/Examples/Cache/Entries.antt =====
-- examples/mutex.cc: what the cache returns.
use pollcoro.Base.{
  if◌then◌else◌, size_inc, size_dec, Option-cases, ℕ, suc, true, false, String, List, [], ◌∷◌,
  Option, none, some, ◌≡◌, refl, >>=-some, ◌∙◌, ap, arith, inl, inr,
}
use package.text.Mathlib.Text.{◌==◌}
use package.text.Mathlib.TextEquality.{eq_iff}
use pollcoro.Waker.{Waker}
use pollcoro.SharedMutex.{
  SharedWaiter, new_awaitable, write_slow, read_slow, unlock_unique, unlock_shared,
  release_exclusive, release_shared, wake_next, any_writer, SharedMutexState, lock, lock_shared,
  read_poll, write_poll, deregister, destroy_shared, destroy_unique,
}
use pollcoro.BlockOn.{await, block_on}
use pollcoro.Examples.Cache.{
  find, assign, Cache, hold, hold_shared, get, set, get_or_compute, insert_missing, first_search,
  second_search,
}

-- A lock that nobody holds or waits for, and a cache with such a lock.
abbrev pub free_mutex : (ℕ → SharedWaiter) → SharedMutexState
free_mutex heap = record { readers = 0; writer_active = false; waiters = []; heap = heap }

abbrev pub free_cache : (ℕ → SharedWaiter) → List (String × ℕ) → Cache
free_cache heap entries = record { mtx = free_mutex heap; data_ = entries }

-- The value that was found, or the default.
abbrev pub the_value : Option ℕ → ℕ → ℕ
the_value none d = d
the_value (some v) d = v

find-assign :
    (key other : String) (v : ℕ) (xs : List (String × ℕ))
    → find other (assign key v xs) ≡ (if key == other then some v else find other xs)
unfolding find assign
find-assign key other v [] = ground (arith, eq_iff key other)
find-assign key other v ((k, u) ∷ xs) =
    ground (arith, find-assign key other v xs, eq_iff k key, eq_iff k other, eq_iff key other)

module _ (rounds : ℕ) (w : Waker) where
  hold_shared-free :
      (heap : ℕ → SharedWaiter)
      → (heap' : ℕ → SharedWaiter) × (hold_shared (suc rounds) w (free_mutex heap)
          ≡ some (record (free_mutex heap') { readers = 1 }, record { state = true }))
  unfolding hold_shared await block_on lock_shared new_awaitable read_poll read_slow any_writer
      deregister size_inc
  hold_shared-free heap = (_, refl)

  hold-free :
      (heap : ℕ → SharedWaiter)
      → (heap' : ℕ → SharedWaiter) × (hold (suc rounds) w (free_mutex heap)
          ≡ some (record (free_mutex heap') { writer_active = true }, record { state = true }))
  unfolding hold await block_on lock new_awaitable write_poll write_slow deregister
  hold-free heap = (_, refl)

  set-free :
      (key : String) (v : ℕ) (heap : ℕ → SharedWaiter) (xs : List (String × ℕ))
      → (heap' : ℕ → SharedWaiter) × (set (suc rounds) w key v (free_cache heap xs)
          ≡ some (free_cache heap' (assign key v xs)))
  unfolding set destroy_unique unlock_unique release_exclusive wake_next
  set-free key v heap xs =
      let (heap', p) = hold-free heap in
      (
        heap',
        >>=-some (λ x. some (record { mtx = (destroy_unique x.0 x.1).0; data_ = assign key v xs }))
            p,
      )

  get-free :
      (key : String) (heap : ℕ → SharedWaiter) (xs : List (String × ℕ))
      → (heap' : ℕ → SharedWaiter) × (get (suc rounds) w key (free_cache heap xs)
          ≡ some (free_cache heap' xs, find key xs))
  unfolding get destroy_shared unlock_shared release_shared wake_next size_dec
  get-free key heap xs =
      let (heap', p) = hold_shared-free heap in
      (
        heap',
        >>=-some (λ x. some (record { mtx = (destroy_shared x.0 x.1).0; data_ = xs }, find key xs))
            p,
      )

  -- On a cache whose lock is free, `get` after `set` gives the value that was set if the keys are
  -- equal, and what was there before if they are not.
  get-set :
      (key other : String) (v : ℕ) (heap : ℕ → SharedWaiter) (xs : List (String × ℕ))
      → (c c' : Cache) × (set (suc rounds) w key v (free_cache heap xs) ≡ some c)
        × (get (suc rounds) w other c ≡ some (c', if key == other then some v else find other xs))
  get-set key other v heap xs =
      let (heap', p) = set-free key v heap xs in
      let (heap'', q) = get-free other heap' (assign key v xs) in
      (
        free_cache heap' (assign key v xs),
        free_cache heap'' (assign key v xs),
        p,
        rw (q, find-assign key other v xs) refl,
      )

  -- The read lock is taken and given back, and what follows depends on the search.
  get_or_compute-there :
      (key : String) (d : ℕ) (heap : ℕ → SharedWaiter) (xs : List (String × ℕ)) {v : ℕ}
      → find key xs ≡ some v
      → (heap' : ℕ → SharedWaiter) × (get_or_compute (suc rounds) w key d (free_cache heap xs)
          ≡ some (free_cache heap' xs, v))
  unfolding get_or_compute destroy_shared unlock_shared release_shared wake_next size_dec
  get_or_compute-there key d heap xs e =
      let (heap', p) = hold_shared-free heap in
      (
        heap',
        >>=-some
              (λ x.
                first_search (suc rounds) w (find key xs) key d
                  (record { mtx = (destroy_shared x.0 x.1).0; data_ = xs }))
              p
            ∙ ap (λ o. first_search (suc rounds) w o key d (free_cache heap' xs)) e,
      )

  get_or_compute-missing :
      (key : String) (d : ℕ) (heap : ℕ → SharedWaiter) (xs : List (String × ℕ))
      → find key xs ≡ none
      → (heap' : ℕ → SharedWaiter) × (get_or_compute (suc rounds) w key d (free_cache heap xs)
          ≡ some (free_cache heap' (assign key d xs), d))
  unfolding get_or_compute insert_missing destroy_shared destroy_unique unlock_shared unlock_unique
      release_exclusive release_shared wake_next size_dec
  get_or_compute-missing key d heap xs e =
      let (heap', p) = hold_shared-free heap in
      let (heap'', q) = hold-free heap' in
      (
        heap'',
        >>=-some
              (λ x.
                first_search (suc rounds) w (find key xs) key d
                  (record { mtx = (destroy_shared x.0 x.1).0; data_ = xs }))
              p
            ∙ (ap (λ o. first_search (suc rounds) w o key d (free_cache heap' xs)) e
                ∙ (>>=-some
                      (λ x. some (
                        second_search (suc rounds) w (find key xs) key d xs
                          (destroy_unique x.0 x.1).0))
                      q
                    ∙ ap (λ o. some (second_search (suc rounds) w o key d xs (free_mutex heap'')))
                        e)),
      )

  -- On a cache whose lock is free, `get_or_compute` gives the value of the key, or the default if
  -- there is none, and a second `get_or_compute` of the key gives the same value, whatever its
  -- default.
  pub get_or_compute_keeps :
      (key : String) (d d' : ℕ) (heap : ℕ → SharedWaiter) (xs : List (String × ℕ))
      → (c c' : Cache) × (v : ℕ) × (get_or_compute (suc rounds) w key d (free_cache heap xs)
          ≡ some (c, v))
        × (get_or_compute (suc rounds) w key d' c ≡ some (c', v))
        × (v ≡ the_value (find key xs) d)
  get_or_compute_keeps key d d' heap xs = elim (Option-cases (find key xs)) [
    | inl missing ↦
        let (heap', p) = get_or_compute-missing key d heap xs missing in
        let (heap'', q) = get_or_compute-there key d' heap' (assign key d xs) (
          find-assign key key d xs
          ∙ ap (λ b. if b then some d else find key xs) ((eq_iff key key).1 refl)) in
        (
          free_cache heap' (assign key d xs),
          free_cache heap'' (assign key d xs),
          d,
          p,
          q,
          rw missing refl,
        )
    | inr (v, there) ↦
        let (heap', p) = get_or_compute-there key d heap xs there in
        let (heap'', q) = get_or_compute-there key d' heap' xs there in
        (free_cache heap' xs, free_cache heap'' xs, v, p, q, rw there refl)
  ]
