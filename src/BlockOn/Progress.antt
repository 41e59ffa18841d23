-- ===== src/BlockOn/Progress.antt =====
-- src/block_on.cppm: `block_on` gives the result when the pending polls call its waker.
use pollcoro.Base.{
  ℕ, zero, suc, ◌<◌, true, List, [], ◌∷◌, ◌++◌, some, ◌≡◌, refl, arith, >>=-some, Bool, false, ◌||◌,
  Bool-cases, inl, inr,
}
use pollcoro.Waker.{Waker, wake, will_wake}
use pollcoro.Awaitable.{Poll}
use pollcoro.Task.{Outcome}
use pollcoro.Task.Evaluation.{Settles, now, later, Result, value, exception}
use pollcoro.Awaitable.Timing
use pollcoro.Awaitable.Timing.{ReadyAfter}
use pollcoro.BlockOn.{calm, notified, block_on}

-- The poll called the waker.
abbrev pub Notifies : Waker → List Waker → Type 0
Notifies w woken = notified w woken ≡ true

module _ {ℓ κ μ} {S : Type ℓ} {E : Type μ} {R : Type κ} (poll : Poll S (Outcome E R)) where
  -- If the awaitable is pending `n` times, each of these polls calls the waker, and then it gives
  -- a value or throws an exception, then `block_on` gives that result in any number of rounds
  -- above `n`.
  pub block_on-Settles :
      {w : Waker} {n : ℕ} {s : S} {r : Result E R}
      → Settles poll w (Notifies w) n s r
      → (rounds : ℕ) → n < rounds
      → (s' : S) × (block_on poll rounds w s ≡ some (s', r))
  unfolding block_on
  block_on-Settles st zero h = absurd (omega arith)
  block_on-Settles {r = value v} (now {s'} p) (suc rounds) h = (s', >>=-some _ p)
  block_on-Settles {r = exception e} (now {s'} p) (suc rounds) h = (s', >>=-some _ p)
  block_on-Settles {w} (later {k} {s' = s1} p c st) (suc rounds) h =
      let (s', q) = block_on-Settles {n = k} st rounds (omega arith) in (s', rw (p, c) q)

module _ {ℓ κ} {S : Type ℓ} {R : Type κ} (poll : Poll S (Outcome ⊥ R))
    {P : List Waker → Type 0} where
  pub ReadyAfter-calm :
      {w : Waker} {n : ℕ} {s : S} {a : R}
      → Settles poll w P n s (value a)
      → ReadyAfter (calm poll) w n s a
  ReadyAfter-calm (now p) = Timing.now (>>=-some _ p)
  ReadyAfter-calm (later p c st) = Timing.later (>>=-some _ p) (ReadyAfter-calm st)

or_true : (b : Bool) → (b || true) ≡ true
or_true false = refl
or_true true = refl

pub notified-append :
    (w : Waker) (xs ys : List Waker) → notified w ys ≡ true → notified w (xs ++ ys) ≡ true
unfolding notified
notified-append w [] ys h = h
notified-append w (x ∷ xs) ys h = rw (notified-append w xs ys h) (or_true (will_wake w x))

pub notified-append_left :
    (w : Waker) (xs ys : List Waker) → notified w xs ≡ true → notified w (xs ++ ys) ≡ true
unfolding notified
notified-append_left w [] ys h = cc
notified-append_left w (x ∷ xs) ys h = elim (Bool-cases (will_wake w x)) [
  | inl wakes ↦ rw wakes refl
  | inr not_it ↦ rw not_it (notified-append_left w xs ys (rw not_it at h))
]

-- A list that ends with the calls that a waker with a function makes has one of its own.
pub Notifies-wake :
    (w : Waker) (k : ℕ)
    → w.wake_function ≡ suc k
    → (woken : List Waker) → Notifies w (woken ++ wake w)
unfolding notified wake will_wake
Notifies-wake w k h woken = notified-append w woken (wake w) (ground arith)
