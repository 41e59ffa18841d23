-- ===== src/Mutex/Queue.antt =====
-- Membership in the queue of waiters of src/mutex.cppm, and what `erase` does to it.
use pollcoro.Base.{ℕ, ◌==◌, if◌then◌else◌, Bool, false, ◌||◌, List, [], ◌∷◌, ◌++◌, ◌≡◌, refl, arith}
use pollcoro.Mutex.{erase}

unfoldable pub mem : ℕ → List ℕ → Bool
mem i [] = false
mem i (x ∷ xs) = (x == i) || mem i xs

abbrev pub Distinct : List ℕ → Type 0
Distinct [] = Unit
Distinct (x ∷ xs) = (mem x xs ≡ false) × Distinct xs

pub mem-append : (i : ℕ) (xs : List ℕ) (j : ℕ) → mem i (xs ++ j ∷ []) ≡ (mem i xs || (j == i))
unfolding mem
mem-append i [] j = ground arith
mem-append i (x ∷ xs) j = ground (arith, mem-append i xs j)

pub mem-erase :
    (i j : ℕ) (xs : List ℕ)
    → Distinct xs
    → mem j (erase i xs) ≡ (if i == j then false else mem j xs)
unfolding mem erase
mem-erase i j [] d = ground arith
mem-erase i j (x ∷ xs) d = ground (arith, mem-erase i j xs d.1)

pub Distinct-append :
    (xs : List ℕ) (j : ℕ) → Distinct xs → mem j xs ≡ false → Distinct (xs ++ j ∷ [])
unfolding mem
Distinct-append [] j d h = (refl, tt)
Distinct-append (x ∷ xs) j d h =
    (ground (arith, mem-append x xs j), Distinct-append xs j d.1 (ground arith))

pub Distinct-erase : (i : ℕ) (xs : List ℕ) → Distinct xs → Distinct (erase i xs)
unfolding mem erase
Distinct-erase i [] d = tt
Distinct-erase i (x ∷ xs) d = ground (arith, mem-erase i x xs d.1, Distinct-erase i xs d.1)

pub erase-nil : (i : ℕ) {xs : List ℕ} → xs ≡ [] → erase i xs ≡ []
unfolding erase
erase-nil i e = rw e
