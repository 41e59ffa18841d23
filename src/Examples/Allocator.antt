-- ===== src/Examples/Allocator.antt =====
-- examples/allocator.cc. A word of the bitmap is its 64 bits, the lowest first; a pointer is
-- its address.
pub mod Bitmap
pub mod RoundTrip
use pollcoro.Base.{
  ℕ, zero, suc, ◌+◌, ◌-◌, ◌*◌, ◌/◌, ◌%◌, ltb, leb, Bool, true, false, not, ◌&&◌, if◌then◌else◌,
  ◌>>=◌, List, [], ◌∷◌, Option, none, some, get_elem?, set, replicate,
}
use pollcoro.Console.{Token, number, text, endl}

-- `~0ULL`, and a word that is all zero.
abbrev pub all_ones : List Bool → Bool
all_ones [] = true
all_ones (b ∷ bs) = b && all_ones bs

-- `std::countr_one`
unfoldable pub countr_one : List Bool → ℕ
countr_one [] = 0
countr_one (b ∷ bs) = let rest = countr_one bs in if b then suc rest else 0

-- `std::popcount`
unfoldable pub popcount : List Bool → ℕ
popcount [] = 0
popcount (b ∷ bs) = if b then suc (popcount bs) else popcount bs

-- `BitmapSize`
unfoldable pub bitmap_size : ℕ → ℕ
bitmap_size block_count = (block_count + 63) / 64

unfoldable pub empty_bitmap : ℕ → List (List Bool)
unfolding bitmap_size
empty_bitmap block_count = replicate (bitmap_size block_count) (replicate 64 false)

-- `bitmap_allocator<BlockSize, BlockCount>`, with the address of its `data_`: its state is `bitmap_`.
module _ (block_size block_count data_ : ℕ) where
  unfoldable pub owns : ℕ → Bool
  owns ptr = leb data_ ptr && ltb ptr (data_ + block_size * block_count)

  -- The `for` of `allocate`, from the word `i` on: the words, and the pointer. `none` for `bad_alloc`.
  unfoldable pub allocate_from : ℕ → List (List Bool) → Option (List (List Bool) × ℕ)
  unfolding countr_one
  allocate_from i [] = none
  allocate_from i (word ∷ words) =
      let later = allocate_from (i + 1) words in
      let bit = countr_one word in
      let index = i * 64 + bit in
      if not (all_ones word)
      then (if leb block_count index
          then none
          else some (set word bit true ∷ words, data_ + index * block_size))
      else (do (words', ptr) ← later; some (word ∷ words', ptr))

  unfoldable pub allocate : List (List Bool) → Option (List (List Bool) × ℕ)
  unfolding allocate_from
  allocate bitmap = allocate_from 0 bitmap

  -- Outside the bitmap nothing is written: there the source's behaviour is undefined.
  unfoldable pub deallocate : ℕ → List (List Bool) → List (List Bool)
  deallocate ptr bitmap =
      let index = (ptr - data_) / block_size in
      elim (get_elem? bitmap (index / 64)) [
        | none ↦ bitmap
        | some word ↦ set bitmap (index / 64) (set word (index % 64) false)
      ]

-- `allocated_count`
unfoldable pub allocated_count : List (List Bool) → ℕ
unfolding popcount
allocated_count [] = 0
allocated_count (word ∷ words) = popcount word + allocated_count words

unfoldable pub allocated_bytes : ℕ → List (List Bool) → ℕ
unfolding allocated_count
allocated_bytes block_size bitmap = allocated_count bitmap * block_size

-- `slab_allocator<N>`: the bitmaps of its three allocators.
pub record SlabAllocator : Type 0 where
  pub small : List (List Bool)
  pub medium : List (List Bool)
  pub large : List (List Bool)

-- The addresses of the three `data_` are the compiler's choice.
module _ (n small_data medium_data large_data : ℕ) where
  unfoldable pub new_slab : SlabAllocator
  unfolding empty_bitmap
  new_slab = record {
    small = empty_bitmap (n / 128);
    medium = empty_bitmap (n / 512);
    large = empty_bitmap (n / 1024);
  }

  -- `allocate`, with what it prints. `none` for `bad_alloc`.
  unfoldable pub slab_allocate : ℕ → SlabAllocator → Option (SlabAllocator × ℕ) × List Token
  unfolding allocate
  slab_allocate size t = (
    if leb size 128
        then (do
          (small, ptr) ← allocate 128 (n / 128) small_data t.small
          some (record t { small = small }, ptr))
        else if leb size 512
        then (do
          (medium, ptr) ← allocate 512 (n / 512) medium_data t.medium
          some (record t { medium = medium }, ptr))
        else if leb size 1024
        then (do
          (large, ptr) ← allocate 1024 (n / 1024) large_data t.large
          some (record t { large = large }, ptr))
        else none,
    text "slab_allocator::allocate " ∷ number size ∷ endl ∷ [],
  )

  unfoldable pub slab_deallocate : ℕ → SlabAllocator → SlabAllocator
  unfolding owns deallocate
  slab_deallocate ptr t =
      if owns 128 (n / 128) small_data ptr
      then record t { small = deallocate 128 (n / 128) small_data ptr t.small }
      else if owns 512 (n / 512) medium_data ptr
      then record t { medium = deallocate 512 (n / 512) medium_data ptr t.medium }
      else if owns 1024 (n / 1024) large_data ptr
      then record t { large = deallocate 1024 (n / 1024) large_data ptr t.large }
      else t

unfoldable pub slab_allocated_bytes : SlabAllocator → ℕ
unfolding allocated_bytes
slab_allocated_bytes t =
    allocated_bytes 128 t.small + allocated_bytes 512 t.medium + allocated_bytes 1024 t.large

unfoldable pub slab_allocated_count : SlabAllocator → ℕ
unfolding allocated_count
slab_allocated_count t =
    allocated_count t.small + allocated_count t.medium + allocated_count t.large
