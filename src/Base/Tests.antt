-- ===== src/Base/Tests.antt =====
-- Boolean tests on the native numbers, the conditional, and `std::size_t`.
use Prim.Native.Nat.{ℕ, suc, ◌+◌, ◌-◌, ◌%◌, ◌^◌, ◌<◌, compare, Ordering}
use mathlib.Core.Path.{◌≡◌, refl, ap}
use mathlib.Core.Logic.{◌⊎◌, inl, inr}
use mathlib.Core.Bool.{Bool, true, false}
use mathlib.Core.Option.{Option, none, some}
use native.Mathlib.Omega.{arith}

abbrev pub ltb : ℕ → ℕ → Bool
ltb a b = elim (compare a b) [ Ordering.lt ↦ true | _ ↦ false ]

abbrev pub leb : ℕ → ℕ → Bool
leb a b = elim (compare a b) [ Ordering.gt ↦ false | _ ↦ true ]

infix 50 ◌==◌
abbrev pub ◌==◌ : ℕ → ℕ → Bool
a == b = elim (compare a b) [ Ordering.eq ↦ true | _ ↦ false ]

infix 1 if◌then◌else◌
abbrev pub if◌then◌else◌ {ℓ} : {A : Type ℓ} → Bool → A → A → A
if true then x else y = x
if false then x else y = y

pub Bool-cases : (b : Bool) → (b ≡ true) ⊎ (b ≡ false)
Bool-cases true = inl refl
Bool-cases false = inr refl

pub Option-cases {ℓ} : {A : Type ℓ} (o : Option A) → (o ≡ none) ⊎ ((a : A) × (o ≡ some a))
Option-cases none = inl refl
Option-cases (some a) = inr (a, refl)

-- The values of `std::size_t` on a 64-bit target: arithmetic on it is modulo `size_mod`.
abbrev pub size_mod : ℕ
size_mod = 2 ^ 64

unfoldable pub size_inc : ℕ → ℕ
size_inc n = (n + 1) % size_mod

unfoldable pub size_dec : ℕ → ℕ
size_dec n = (n + size_mod - 1) % size_mod

pub size_inc_lem : (n : ℕ) → n + 1 < size_mod → size_inc n ≡ n + 1
unfolding size_inc
size_inc_lem n h = omega arith

pub size_dec-suc : (n : ℕ) → n < size_mod → size_dec (suc n) ≡ n
unfolding size_dec
size_dec-suc n h = omega arith

-- It wraps round.
pub size_dec-zero : size_dec 0 + 1 ≡ size_mod
unfolding size_dec
size_dec-zero = refl

-- Fallible steps are chained by `do`.
infixl 5 ◌>>=◌
abbrev pub ◌>>=◌ {ℓ κ} : {A : Type ℓ} {B : Type κ} → Option A → (A → Option B) → Option B
none >>= f = none
some a >>= f = f a

pub >>=-some {ℓ κ} :
    {A : Type ℓ} {B : Type κ} {o : Option A} {a : A} (f : A → Option B)
    → o ≡ some a
    → (o >>= f) ≡ f a
>>=-some f p = ap (λ o. o >>= f) p

abbrev get_or {ℓ} : {A : Type ℓ} → A → Option A → A
get_or a none = a
get_or a (some b) = b

pub some-injective {ℓ} : {A : Type ℓ} {a b : A} → some a ≡ some b → a ≡ b
some-injective {a} p = ap (get_or a) p
