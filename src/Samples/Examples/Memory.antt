-- ===== src/Samples/Examples/Memory.antt =====
-- examples/allocator.cc and the cache of examples/mutex.cc at concrete inputs.
use pollcoro.Base.{
  ℕ, Bool, true, false, String, List, [], ◌∷◌, some, set, replicate, ◌≡◌, refl, arith,
}
use pollcoro.Waker.{Waker, noop}
use pollcoro.SharedMutex.{SharedWaiter}
use pollcoro.Examples.Allocator.{countr_one, allocate_from, allocate, deallocate}
use pollcoro.Examples.Allocator.Bitmap.{Allocated, allocate-Allocated}
use pollcoro.Examples.Allocator.RoundTrip.{deallocate-allocate}
use pollcoro.Examples.Cache.{Cache, find, get_or_compute}
use pollcoro.Examples.Cache.Entries.{free_cache, the_value, get_or_compute_keeps}

-- 64 blocks at the address 4096, the first of which is taken.
abbrev word : List Bool
word = true ∷ replicate 63 false

abbrev bitmap : List (List Bool)
bitmap = word ∷ []

allocate-Allocated_example : Allocated 128 64 4096 0 bitmap (allocate 128 64 4096 bitmap)
allocate-Allocated_example = allocate-Allocated 128 64 4096 bitmap (refl, tt)

-- The second block.
second : allocate 128 64 4096 bitmap ≡ some (set word 1 true ∷ [], 4224)
unfolding allocate allocate_from countr_one
second = refl

deallocate-allocate_example : deallocate 128 64 4096 4224 (set word 1 true ∷ []) ≡ bitmap
deallocate-allocate_example = deallocate-allocate 128 64 4096 bitmap (refl, tt) (omega arith) second

abbrev waker : Waker
waker = record { wake_function = 1; data_ptr = 7 }

abbrev heap : ℕ → SharedWaiter
heap i = record { waker = noop; is_ready = false; is_writer = false }

abbrev entries : List (String × ℕ)
entries = ("a", 1) ∷ ("b", 2) ∷ []

get_or_compute_keeps_example :
    (c c' : Cache) × (v : ℕ) × (get_or_compute 1 waker "d" 42 (free_cache heap entries)
      ≡ some (c, v))
    × (get_or_compute 1 waker "d" 99 c ≡ some (c', v))
    × (v ≡ the_value (find "d" entries) 42)
get_or_compute_keeps_example = get_or_compute_keeps 0 waker "d" 42 99 heap entries
