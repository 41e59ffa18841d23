-- ===== src/Wait/Iter.antt =====
-- src/wait_all.cppm: `wait_all_iter_awaitable`, for results that are no `void`, beside
-- `wait_all_awaitable`.
pub mod Agreement
use pollcoro.Base.{
  ℕ, zero, suc, ◌+◌, ◌<◌, ◌≤◌, Bool, true, false, ◌&&◌, ◌||◌, ◌==◌, ltb, if◌then◌else◌, ◌>>=◌, List,
  [], ◌∷◌, ◌++◌, Option, none, some, ◌≡◌, refl, sym, ap, ◌∙◌, arith, length, inl, inr, Bool-cases,
  Option-cases, >>=-some, length-append,
}
use mathlib.Core.List.{append_assoc}
use pollcoro.Waker.{Waker}
use pollcoro.Awaitable.{Poll, AwaitableState, ready, pending}
use pollcoro.Wait.All.{WaitAllAwaitable, poll_one, poll_all, build_result}
use pollcoro.Wait.All

-- `wait_all_iter_result`: a `std::map` is the list of its entries, in the order of the keys.
module _ {κ} {A : Type κ} where
  has_result : ℕ → List (ℕ × A) → Bool
  has_result i [] = false
  has_result i ((j, a) ∷ results) = (j == i) || has_result i results

  -- `emplace`, which leaves an entry that is there as it is.
  insert : ℕ → A → List (ℕ × A) → List (ℕ × A)
  insert i a [] = (i, a) ∷ []
  insert i a ((j, b) ∷ results) =
      let rest = insert i a results in
      if j == i
      then (j, b) ∷ results
      else if ltb i j
      then (i, a) ∷ (j, b) ∷ results
      else (j, b) ∷ rest

  build : List (ℕ × A) → List A
  build [] = []
  build ((i, a) ∷ results) = a ∷ build results

pub record WaitAllIterAwaitable {ℓ κ} (S : Type ℓ) (A : Type κ) : Type (ℓ ⊔ κ) where
  pub awaitables : List S
  pub results : List (ℕ × A)

-- The constructor: no results yet.
abbrev pub new {ℓ κ} : {S : Type ℓ} {A : Type κ} → List S → WaitAllIterAwaitable S A
new ss = record { awaitables = ss; results = [] }

module _ {ℓ κ} {S : Type ℓ} {A : Type κ} (awaitable : Poll S (AwaitableState A)) where
  -- What a round makes of the results.
  abbrev noted : ℕ → AwaitableState A → List (ℕ × A) → List (ℕ × A)
  noted i state results = elim state.result [ none ↦ results | some a ↦ insert i a results ]

  -- The `for` of `poll`, from the `i`th awaitable on.
  iter_loop : ℕ → Waker → List S → List (ℕ × A) → Option (List S × List (ℕ × A) × List Waker)
  unfolding has_result insert
  iter_loop i w [] results = some ([], results, [])
  iter_loop i w (s ∷ ss) results =
      let rest = iter_loop (i + 1) w ss results in
      if has_result i results
      then (do (ss', results', woken) ← rest; some (s ∷ ss', results', woken))
      else (do
        (s', state, woken) ← awaitable w s
        (ss', results', woken') ← iter_loop (i + 1) w ss (noted i state results)
        some (s' ∷ ss', results', woken ++ woken'))

  unfoldable pub poll : Poll (WaitAllIterAwaitable S A) (AwaitableState (List A))
  unfolding iter_loop build
  poll w t = do
    (awaitables, results, woken) ← iter_loop 0 w t.awaitables t.results
    let t' : WaitAllIterAwaitable S A = record { awaitables = awaitables; results = results }
    if length results == length awaitables
        then some (t', ready (build results), woken)
        else some (t', pending, woken)
