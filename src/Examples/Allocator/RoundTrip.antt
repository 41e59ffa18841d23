-- ===== src/Examples/Allocator/RoundTrip.antt =====
-- examples/allocator.cc: `deallocate` undoes `allocate`, and what `allocated_count` counts.
use pollcoro.Base.{
  ℕ, suc, ◌+◌, ◌-◌, ◌*◌, ◌/◌, ◌%◌, ◌<◌, Bool, true, false, List, [], ◌∷◌, ◌++◌, Option, some, ◌≡◌,
  refl, sym, ap, subst, ◌∙◌, arith, length, length-append, get_elem?-front, set-front,
  some-injective,
}
use native.Mathlib.Nat.{mul-div_left}
use pollcoro.Examples.Allocator.{popcount, allocate, deallocate, allocated_count}
use pollcoro.Examples.Allocator.Bitmap.{
  AllOfLength, TakesFirst, Allocated, took, bad_alloc, allocate-Allocated,
}

word_length :
    (front : List (List Bool)) (word : List Bool) (back : List (List Bool))
    → AllOfLength 64 (front ++ word ∷ back)
    → length word ≡ 64
word_length [] word back (size, sizes) = size
word_length (w ∷ front) word back (size, sizes) = word_length front word back sizes

popcount-append : (xs ys : List Bool) → popcount (xs ++ ys) ≡ popcount xs + popcount ys
unfolding popcount
popcount-append [] ys = omega arith
popcount-append (true ∷ xs) ys = omega (arith, popcount-append xs ys)
popcount-append (false ∷ xs) ys = popcount-append xs ys

allocated_count-append :
    (xs ys : List (List Bool))
    → allocated_count (xs ++ ys) ≡ allocated_count xs + allocated_count ys
unfolding allocated_count
allocated_count-append [] ys = omega arith
allocated_count-append (x ∷ xs) ys = omega (arith, allocated_count-append xs ys)

-- One bit more.
popcount-set :
    (before after : List Bool)
    → popcount (before ++ true ∷ after) ≡ suc (popcount (before ++ false ∷ after))
unfolding popcount
popcount-set before after =
    omega (arith, popcount-append before (true ∷ after), popcount-append before (false ∷ after))

module _ (block_size block_count data_ : ℕ) where
  takes_first :
      {bitmap bitmap' : List (List Bool)} {ptr : ℕ} {o : Option (List (List Bool) × ℕ)}
      → Allocated block_size block_count data_ 0 bitmap o
      → o ≡ some (bitmap', ptr)
      → TakesFirst block_size block_count data_ 0 bitmap bitmap' ptr
  takes_first {bitmap} (took t) e =
      subst (λ x. TakesFirst block_size block_count data_ 0 bitmap x.0 x.1) (some-injective e) t
  takes_first (bad_alloc free) e = cc

  -- The bit at such a place is reset.
  deallocate-at :
      (front : List (List Bool)) (before after : List Bool) (back : List (List Bool))
      → 0 < block_size
      → length before < 64
      → deallocate block_size block_count data_
          (data_ + ((0 + length front) * 64 + length before) * block_size)
          (front ++ (before ++ true ∷ after) ∷ back)
        ≡ front ++ (before ++ false ∷ after) ∷ back
  unfolding deallocate
  deallocate-at front before after back positive below =
      rw
        (
          deallocate,
          offset,
          quotient,
          get_elem?-front front (before ++ true ∷ after) back,
          offset,
          quotient,
          rest,
          set-front before true after false,
          set-front front (before ++ true ∷ after) back (before ++ false ∷ after),
        )
        refl
    where
      index : ℕ
      index = (0 + length front) * 64 + length before

      offset : (data_ + index * block_size - data_) / block_size ≡ index
      offset = ap (λ x. x / block_size) (omega arith) ∙ mul-div_left index positive

      quotient : index / 64 ≡ length front
      quotient = omega (arith, below)

      rest : index % 64 ≡ length before
      rest = omega (arith, below)

  -- If all words of the bitmap have 64 bits, blocks are not empty, and `allocate` gives a pointer,
  -- then `deallocate` of that pointer gives back the bitmap from before.
  pub deallocate-allocate :
      (bitmap : List (List Bool)) {bitmap' : List (List Bool)} {ptr : ℕ}
      → AllOfLength 64 bitmap
      → 0 < block_size
      → allocate block_size block_count data_ bitmap ≡ some (bitmap', ptr)
      → deallocate block_size block_count data_ ptr bitmap' ≡ bitmap
  deallocate-allocate bitmap sizes positive e =
      let t = takes_first (allocate-Allocated block_size block_count data_ bitmap sizes) e in
      rw (t.block, t.taken)
        (deallocate-at t.front t.before t.after t.back positive (below t) ∙ sym t.free)
    where
      below :
          {bitmap' : List (List Bool)} {ptr : ℕ}
          (t : TakesFirst block_size block_count data_ 0 bitmap bitmap' ptr)
          → length t.before < 64
      below t = omega (
        arith,
        length-append t.before (false ∷ t.after),
        word_length t.front (t.before ++ false ∷ t.after) t.back
            (subst (AllOfLength 64) t.free sizes),
      )

  -- A successful `allocate` raises `allocated_count` by one, where all words have 64 bits.
  allocated_count-allocate :
      (bitmap : List (List Bool)) {bitmap' : List (List Bool)} {ptr : ℕ}
      → AllOfLength 64 bitmap
      → allocate block_size block_count data_ bitmap ≡ some (bitmap', ptr)
      → allocated_count bitmap' ≡ suc (allocated_count bitmap)
  unfolding allocated_count
  allocated_count-allocate bitmap sizes e =
      let t = takes_first (allocate-Allocated block_size block_count data_ bitmap sizes) e in
      rw (t.taken, t.free)
        (omega (
          arith,
          allocated_count-append t.front ((t.before ++ true ∷ t.after) ∷ t.back),
          allocated_count-append t.front ((t.before ++ false ∷ t.after) ∷ t.back),
          popcount-set t.before t.after,
        ))
