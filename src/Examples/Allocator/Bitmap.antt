-- ===== src/Examples/Allocator/Bitmap.antt =====
-- examples/allocator.cc: which block `allocate` takes, and when it has none.
use pollcoro.Base.{
  ℕ, zero, suc, ◌+◌, ◌*◌, ◌<◌, leb, Bool, true, false, if◌then◌else◌, ◌>>=◌, List, [], ◌∷◌, ◌++◌,
  Option, none, some, ◌≡◌, refl, sym, ap, subst, ◌∙◌, arith, length, length-append, get_elem?, set,
  set-front, inl, inr, Bool-cases, some-injective,
}
use pollcoro.Examples.Allocator.{all_ones, countr_one, allocate_from, allocate}

-- Every word has the length.
abbrev pub AllOfLength : ℕ → List (List Bool) → Type 0
AllOfLength n [] = Unit
AllOfLength n (word ∷ words) = (length word ≡ n) × AllOfLength n words

-- The first free bit of a word.
pub record FreeBit (word : List Bool) : Type 0 where
  pub before : List Bool
  pub after : List Bool
  pub split : word ≡ before ++ false ∷ after
  pub full : all_ones before ≡ true
  pub place : length before ≡ countr_one word

free_bit : (word : List Bool) → all_ones word ≡ false → FreeBit word
unfolding countr_one
free_bit [] h = cc
free_bit (false ∷ bs) h = record {
  before = [];
  after = bs;
  split = refl;
  full = refl;
  place = refl;
}
free_bit (true ∷ bs) h =
    let r = free_bit bs h in
    record {
      before = true ∷ r.before;
      after = r.after;
      split = ap (◌∷◌ true) r.split;
      full = r.full;
      place = ap suc r.place;
    }

bit_of_full :
    (word : List Bool) (r : ℕ) {b : Bool}
    → all_ones word ≡ true
    → get_elem? word r ≡ some b
    → b ≡ true
bit_of_full [] r h e = cc
bit_of_full (false ∷ bs) r h e = cc
bit_of_full (true ∷ bs) zero h e = sym (some-injective e)
bit_of_full (true ∷ bs) (suc r) h e = bit_of_full bs r h e

bit_of_front :
    (front back : List Bool) (r : ℕ) {b : Bool}
    → r < length front
    → all_ones front ≡ true
    → get_elem? (front ++ back) r ≡ some b
    → b ≡ true
bit_of_front [] back r k h e = absurd (omega arith)
bit_of_front (false ∷ bs) back r k h e = cc
bit_of_front (true ∷ bs) back zero k h e = sym (some-injective e)
bit_of_front (true ∷ bs) back (suc r) k h e = bit_of_front bs back r (omega arith) h e

place_below : {word : List Bool} (f : FreeBit word) → length word ≡ 64 → countr_one word < 64
place_below {word} f size = ground (arith, whole, length-append f.before (false ∷ f.after), f.place)
  where
    whole : length word ≡ length (f.before ++ false ∷ f.after)
    whole = ap length f.split

-- Every word of the list is all ones.
abbrev pub AllFull : List (List Bool) → Type 0
AllFull [] = Unit
AllFull (word ∷ words) = (all_ones word ≡ true) × AllFull words

module _ (block_size block_count data_ : ℕ) where
  -- `allocate` sets the first bit that is not set, counted from the word `i` on, and gives its block.
  pub record TakesFirst (i : ℕ) (words words' : List (List Bool)) (ptr : ℕ) : Type 0 where
    pub front : List (List Bool)
    pub before : List Bool
    pub after : List Bool
    pub back : List (List Bool)
    pub free : words ≡ front ++ (before ++ false ∷ after) ∷ back
    pub taken : words' ≡ front ++ (before ++ true ∷ after) ∷ back
    pub words_full : AllFull front
    pub bits_full : all_ones before ≡ true
    pub in_bounds : (i + length front) * 64 + length before < block_count
    pub block : ptr ≡ data_ + ((i + length front) * 64 + length before) * block_size

  -- The word has a free bit.
  TakesFirst-here :
      (i : ℕ) (word : List Bool) (words : List (List Bool))
      → FreeBit word
      → leb block_count (i * 64 + countr_one word) ≡ false
      → TakesFirst i
          (word ∷ words)
          (set word (countr_one word) true ∷ words)
          (data_ + (i * 64 + countr_one word) * block_size)
  TakesFirst-here i word words r h = record {
    front = [];
    before = r.before;
    after = r.after;
    back = words;
    free = ap (λ x. x ∷ words) r.split;
    taken = ap (λ x. x ∷ words) marked;
    words_full = tt;
    bits_full = r.full;
    in_bounds = ground (arith, r.place);
    block = rw (r.place) (ap (λ x. data_ + (x * 64 + countr_one word) * block_size) index);
  }
    where
      marked : set word (countr_one word) true ≡ r.before ++ true ∷ r.after
      marked =
          ap (λ x. set x (countr_one word) true) r.split
          ∙ (ap (λ n. set (r.before ++ false ∷ r.after) n true) (sym r.place)
              ∙ set-front r.before false r.after true)

      index : i ≡ i + 0
      index = omega arith

  -- The word has none, and a later word has.
  TakesFirst-later :
      {i : ℕ} {word : List Bool} {words words' : List (List Bool)} {ptr : ℕ}
      → all_ones word ≡ true
      → TakesFirst (i + 1) words words' ptr
      → TakesFirst i (word ∷ words) (word ∷ words') ptr
  TakesFirst-later {i} {word} h r = record {
    front = word ∷ r.front;
    before = r.before;
    after = r.after;
    back = r.back;
    free = ap (◌∷◌ word) r.free;
    taken = ap (◌∷◌ word) r.taken;
    words_full = (h, r.words_full);
    bits_full = r.bits_full;
    in_bounds = omega (arith, r.in_bounds);
    block = r.block ∙ ap (λ x. data_ + (x * 64 + length r.before) * block_size) index;
  }
    where
      index : i + 1 + length r.front ≡ i + length (word ∷ r.front)
      index = omega arith

  -- Every bit of a block below `block_count` is set.
  abbrev pub NoFreeBlock : ℕ → List (List Bool) → Type 0
  NoFreeBlock i words =
      (q r : ℕ) (word : List Bool) (b : Bool)
      → get_elem? words q ≡ some word
      → get_elem? word r ≡ some b
      → (i + q) * 64 + r < block_count
      → b ≡ true

  -- What `allocate` comes to.
  pub data Allocated (i : ℕ) (words : List (List Bool))
      : Option (List (List Bool) × ℕ) → Type 0 where
    took :
        {words' : List (List Bool)} {ptr : ℕ}
        → TakesFirst i words words' ptr
        → Allocated i words (some (words', ptr))
    bad_alloc : NoFreeBlock i words → Allocated i words none

  NoFreeBlock-later :
      (i : ℕ) (word : List Bool) (words : List (List Bool))
      → all_ones word ≡ true
      → NoFreeBlock (i + 1) words
      → NoFreeBlock i (word ∷ words)
  NoFreeBlock-later i word words h free zero r word' b e e' k =
      bit_of_full word r h (subst (λ x. get_elem? x r ≡ some b) (sym (some-injective e)) e')
  NoFreeBlock-later i word words h free (suc q) r word' b e e' k =
      free q r word' b e e' (omega (arith, k))

  NoFreeBlock-past :
      (i : ℕ) (word : List Bool) (words : List (List Bool)) (f : FreeBit word)
      → length word ≡ 64
      → leb block_count (i * 64 + countr_one word) ≡ true
      → NoFreeBlock i (word ∷ words)
  NoFreeBlock-past i word words f size past zero r word' b e e' k =
      bit_of_front f.before (false ∷ f.after) r (ground (arith, f.place)) f.full
        (subst (λ x. get_elem? x r ≡ some b) (sym (some-injective e) ∙ f.split) e')
  NoFreeBlock-past i word words f size past (suc q) r word' b e e' k =
      absurd (ground (arith, place_below f size))

  Allocated-first :
      (i : ℕ) (word : List Bool) (words : List (List Bool)) (last : Bool)
      → leb block_count (i * 64 + countr_one word) ≡ last
      → FreeBit word
      → length word ≡ 64
      → Allocated i (word ∷ words) (
          if last
          then none
          else some (
            set word (countr_one word) true ∷ words,
            data_ + (i * 64 + countr_one word) * block_size,
          ))
  Allocated-first i word words true e f size = bad_alloc (NoFreeBlock-past i word words f size e)
  Allocated-first i word words false e f size = took (TakesFirst-here i word words f e)

  Allocated-later :
      {i : ℕ} {word : List Bool} {words : List (List Bool)} {o : Option (List (List Bool) × ℕ)}
      → all_ones word ≡ true
      → Allocated (i + 1) words o
      → Allocated i (word ∷ words) (do (words', ptr) ← o; some (word ∷ words', ptr))
  Allocated-later {i} {word} h (took t) = took (TakesFirst-later h t)
  Allocated-later {i} {word} {words} h (bad_alloc free) =
      bad_alloc (NoFreeBlock-later i word words h free)

  allocate_from-Allocated :
      (i : ℕ) (words : List (List Bool))
      → AllOfLength 64 words
      → Allocated i words (allocate_from block_size block_count data_ i words)
  unfolding allocate_from
  allocate_from-Allocated i [] sizes = bad_alloc (λ q r word b e e' k. cc)
  allocate_from-Allocated i (word ∷ words) (size, sizes) = elim (Bool-cases (all_ones word)) [
    | inl full ↦ rw full (Allocated-later full (allocate_from-Allocated (i + 1) words sizes))
    | inr has ↦ rw has (
        Allocated-first i word words (leb block_count (i * 64 + countr_one word)) refl
          (free_bit word has) size)
  ]

  -- If all words of the bitmap have 64 bits, then `allocate` either sets the first bit that is not
  -- set, whose index is below `BlockCount`, and no other, and gives the address of that block, or
  -- it throws `bad_alloc` and the bits of all blocks below `BlockCount` are set.
  pub allocate-Allocated :
      (bitmap : List (List Bool))
      → AllOfLength 64 bitmap
      → Allocated 0 bitmap (allocate block_size block_count data_ bitmap)
  unfolding allocate
  allocate-Allocated bitmap sizes = allocate_from-Allocated 0 bitmap sizes
