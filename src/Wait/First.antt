-- ===== src/Wait/First.antt =====
-- src/wait_first.cppm
pub mod Race
use pollcoro.Base.{
  ℕ, ◌+◌, ◌>>=◌, List, [], ◌∷◌, ◌++◌, Option, none, some, ◌≡◌, refl, ◌∙◌, arith, length, >>=-some,
}
use mathlib.Core.List.{append_assoc}
use pollcoro.Waker.{Waker}
use pollcoro.Awaitable.{Poll, AwaitableState, ready, pending}

module _ {ℓ κ} {S : Type ℓ} {A : Type κ} (awaitable : Poll S (AwaitableState A)) where
  -- The loop of `poll`, from the `i`th awaitable on. It stops at the first that is ready, and leaves
  -- the others as they are.
  first_loop : ℕ → Waker → List S → Option (List S × AwaitableState (A × ℕ) × List Waker)
  first_loop i w [] = some ([], pending, [])
  first_loop i w (s ∷ ss) = do
    (s', state, woken) ← awaitable w s
    elim state.result [
      | some a ↦ some (s' ∷ ss, ready (a, i), woken)
      | none ↦ do
        (ss', state', woken') ← first_loop (i + 1) w ss
        some (s' ∷ ss', state', woken ++ woken')
    ]

  unfoldable pub poll : Poll (List S) (AwaitableState (A × ℕ))
  unfolding first_loop
  poll w ss = first_loop 0 w ss

  -- Every awaitable of the list is polled and is pending. The second list has their new states, and
  -- the third the wakers that they woke.
  pub data AllPending (w : Waker) : List S → List S → List Waker → Type (ℓ ⊔ κ) where
    none_left : AllPending w [] [] []
    one_more :
        {s s' : S} {ss ss' : List S} {woken woken' : List Waker}
        → awaitable w s ≡ some (s', pending, woken)
        → AllPending w ss ss' woken'
        → AllPending w (s ∷ ss) (s' ∷ ss') (woken ++ woken')

  first_loop-ready :
      {w : Waker} {before before' : List S} {s s' : S} {a : A} {earlier woken : List Waker}
      → AllPending w before before' earlier
      → awaitable w s ≡ some (s', ready a, woken)
      → (after : List S) (i : ℕ)
      → first_loop i w (before ++ s ∷ after)
        ≡ some (before' ++ s' ∷ after, ready (a, i + length before), earlier ++ woken)
  unfolding first_loop
  first_loop-ready none_left q after i = >>=-some _ q ∙ ground arith
  first_loop-ready {woken = last} (one_more {woken} {woken'} p ps) q after i =
      rw (p, first_loop-ready ps q after (i + 1)) (ground (arith, append_assoc woken woken' last))

  first_loop-pending :
      {w : Waker} {ss ss' : List S} {woken : List Waker}
      → AllPending w ss ss' woken
      → (i : ℕ) → first_loop i w ss ≡ some (ss', pending, woken)
  unfolding first_loop
  first_loop-pending none_left i = refl
  first_loop-pending (one_more p ps) i = rw (p, first_loop-pending ps (i + 1))

  -- If the awaitables before one are pending and that one is ready, then `wait_first` is ready
  -- with its value and its index, and polls none of those behind it.
  pub poll-first_ready :
      {w : Waker} {before before' : List S} {s s' : S} {a : A} {earlier woken : List Waker}
      → AllPending w before before' earlier
      → awaitable w s ≡ some (s', ready a, woken)
      → (after : List S)
      → poll w (before ++ s ∷ after)
        ≡ some (before' ++ s' ∷ after, ready (a, length before), earlier ++ woken)
  unfolding poll
  poll-first_ready {before} ps q after = first_loop-ready ps q after 0 ∙ ground arith

  -- If all awaitables are pending, then `wait_first` polls each of them and is pending.
  pub poll-AllPending :
      {w : Waker} {ss ss' : List S} {woken : List Waker}
      → AllPending w ss ss' woken
      → poll w ss ≡ some (ss', pending, woken)
  unfolding poll
  poll-AllPending ps = first_loop-pending ps 0
