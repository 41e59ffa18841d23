-- ===== src/Stream/Zip/Rows.antt =====
-- src/zip.cppm: the rows that zipped lists have.
use pollcoro.Base.{
  Bool, true, false, List, [], ◌∷◌, Option, none, some, ◌≡◌, refl, arith, length, map,
}

module _ {κ} {A : Type κ} where
  zip_with_heads : List A → List (List A) → List (List A)
  zip_with_heads [] rows = []
  zip_with_heads (x ∷ xs) [] = []
  zip_with_heads (x ∷ xs) (row ∷ rows) = (x ∷ row) ∷ zip_with_heads xs rows

  -- The first items of the lists, the second ones, and so on, as long as every list has one.
  pub rows : List (List A) → List (List A)
  unfolding zip_with_heads
  rows [] = []
  rows (xs ∷ []) = map (λ x. x ∷ []) xs
  rows (xs ∷ ys ∷ yss) = zip_with_heads xs (rows (ys ∷ yss))

  abbrev pub conses : List A → List (List A) → List (List A)
  conses [] xss = []
  conses (x ∷ xs) [] = []
  conses (x ∷ xs) (ys ∷ yss) = (x ∷ ys) ∷ conses xs yss

  abbrev pub has_empty : List (List A) → Bool
  has_empty [] = false
  has_empty ([] ∷ xss) = true
  has_empty ((x ∷ xs) ∷ xss) = has_empty xss

  abbrev pub all_some : List (Option A) → Bool
  all_some [] = true
  all_some (none ∷ os) = false
  all_some (some a ∷ os) = all_some os

  pub has_empty-cons :
      (xs : List A) (xss : List (List A)) → has_empty xss ≡ true → has_empty (xs ∷ xss) ≡ true
  has_empty-cons [] xss h = refl
  has_empty-cons (x ∷ xs) xss h = h

  zip_with_heads-nil : (xs : List A) → zip_with_heads xs [] ≡ []
  unfolding zip_with_heads
  zip_with_heads-nil [] = refl
  zip_with_heads-nil (x ∷ xs) = refl

  pub rows-empty : (xss : List (List A)) → has_empty xss ≡ true → rows xss ≡ []
  unfolding rows zip_with_heads
  rows-empty [] h = refl
  rows-empty ([] ∷ []) h = refl
  rows-empty ((x ∷ xs) ∷ []) h = cc
  rows-empty ([] ∷ ys ∷ yss) h = refl
  rows-empty ((x ∷ xs) ∷ ys ∷ yss) h = rw (rows-empty (ys ∷ yss) h)

  pub rows-conses :
      (x : A) (xs : List A) (ys : List A) (yss : List (List A))
      → length xs ≡ length yss
      → rows (conses (x ∷ xs) (ys ∷ yss)) ≡ (x ∷ xs) ∷ rows (ys ∷ yss)
  unfolding rows zip_with_heads
  rows-conses x [] ys [] h = refl
  rows-conses x [] ys (zs ∷ zss) h = absurd (omega arith)
  rows-conses x (x' ∷ xs) ys [] h = absurd (omega arith)
  rows-conses x (x' ∷ xs) ys (zs ∷ zss) h = rw (rows-conses x' xs zs zss (omega arith))
