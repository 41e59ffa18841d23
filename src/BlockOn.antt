-- ===== src/BlockOn.antt =====
-- src/block_on.cppm, and src/sync_iter.cppm, which poll until there is a result.
pub mod Progress
use pollcoro.Base.{
  ℕ, zero, suc, Bool, false, ◌||◌, if◌then◌else◌, ◌>>=◌, List, [], ◌∷◌, Option, none, some, ◌⊎◌,
  inl, inr,
}
use pollcoro.Waker.{Waker, noop, will_wake}
use pollcoro.Awaitable.{Poll, AwaitableState}
use pollcoro.Awaitable
use pollcoro.StreamAwaitable.{StreamAwaitableState}
use pollcoro.Task.{Outcome, returned, thrown}
use pollcoro.Task.Evaluation.{Result, value, exception}

-- An awaitable that throws nothing.
abbrev pub lift {ℓ κ μ} :
    {S : Type ℓ} {E : Type μ} {R : Type κ} → Poll S (AwaitableState R) → Poll S (Outcome E R)
lift poll w s = do (s', state, woken) ← poll w s; some (s', returned state, woken)

abbrev calm_outcome {κ} : {R : Type κ} → Outcome ⊥ R → AwaitableState R
calm_outcome (returned state) = state
calm_outcome (thrown e) = absurd e

-- An awaitable that cannot throw.
abbrev pub calm {ℓ κ} : {S : Type ℓ} {R : Type κ} → Poll S (Outcome ⊥ R) → Poll S (AwaitableState R)
calm poll w s = do (s', outcome, woken) ← poll w s; some (s', calm_outcome outcome, woken)

-- One of two types of awaitable, or of stream.
abbrev pub either {ℓ κ μ} :
    {S : Type ℓ} {T : Type κ} {R : Type μ} → Poll S R → Poll T R → Poll (S ⊎ T) R
either poll poll' w (inl s) = do (s', state, woken) ← poll w s; some (inl s', state, woken)
either poll poll' w (inr t) = do (t', state, woken) ← poll' w t; some (inr t', state, woken)

-- Whether a poll called the waker: `notified`.
unfoldable pub notified : Waker → List Waker → Bool
notified w [] = false
notified w (v ∷ woken) = will_wake w v || notified w woken

module _ {ℓ κ μ} {S : Type ℓ} {E : Type μ} {R : Type κ} (poll : Poll S (Outcome E R)) where
  -- The loop over a blocking awaitable, for a number of rounds. Where nothing called the waker
  -- during a pending poll, `wait` waits for another thread, and there is none: no outcome.
  unfoldable pub block_on : ℕ → Waker → S → Option (S × Result E R)
  unfolding notified
  block_on zero w s = none
  block_on (suc rounds) w s = do
    (s', outcome, woken) ← poll w s
    let rest = block_on rounds w s'
    elim outcome [
      | thrown e ↦ some (s', exception e)
      | returned state ↦ elim state.result [
        | some r ↦ some (s', value r)
        | none ↦ if notified w woken then rest else none
      ]
    ]

abbrev the_value {κ} : {R : Type κ} → Result ⊥ R → R
the_value (value r) = r
the_value (exception e) = absurd e

-- `co_await` of an awaitable that throws nothing, in a coroutine that `block_on` runs: the value, and
-- what is left of the awaitable.
unfoldable pub await {ℓ κ} :
    {S : Type ℓ} {R : Type κ} → Poll S (AwaitableState R) → ℕ → Waker → S → Option (S × R)
unfolding block_on
await poll rounds w s = do
  (s', result) ← block_on {E = ⊥} (lift poll) rounds w s
  some (s', the_value result)

module _ {ℓ κ} {S : Type ℓ} {A : Type κ} (poll_next : Poll S (StreamAwaitableState A)) where
  -- `advance`, which polls with a null waker again and again. `none` for the end.
  unfoldable pub advance : ℕ → S → Option (S × Option A)
  advance zero s = none
  advance (suc rounds) s = do
    (s', state, woken) ← poll_next noop s
    let rest = advance rounds s'
    if state.done
        then some (s', none)
        else elim state.result [ some a ↦ some (s', some a) | none ↦ rest ]

  -- The items that a `for` over `sync_iter` goes through.
  unfoldable pub sync_iter : ℕ → S → Option (List A)
  unfolding advance
  sync_iter zero s = none
  sync_iter (suc rounds) s = do
    (s', item) ← advance (suc rounds) s
    elim item [ none ↦ some [] | some a ↦ do rest ← sync_iter rounds s'; some (a ∷ rest) ]
