-- ===== src/Wait/Iter/Agreement.antt =====
-- src/wait_all.cppm: the two forms of `wait_all` side by side.
use pollcoro.Base.{
  ℕ, ◌+◌, ◌<◌, ◌≤◌, Bool, true, false, ◌&&◌, ◌==◌, List, [], ◌∷◌, ◌++◌, Option, none, some, ◌≡◌,
  refl, sym, ap, ◌∙◌, arith, length, inl, inr, Bool-cases, Option-cases,
}
use mathlib.Core.List.{append_assoc}
use pollcoro.Waker.{Waker}
use pollcoro.Awaitable.{Poll, AwaitableState}
use pollcoro.Wait.All.{WaitAllAwaitable, poll_one, poll_all, build_result}
use pollcoro.Wait.All
use pollcoro.Wait.Iter.{WaitAllIterAwaitable, has_result, insert, build, iter_loop, poll}

module _ {κ} {A : Type κ} where
  -- The results that are there, each under its index, counted from `i`.
  abbrev pub entries : ℕ → List (Option A) → List (ℕ × A)
  entries i [] = []
  entries i (none ∷ os) = entries (i + 1) os
  entries i (some a ∷ os) = (i, a) ∷ entries (i + 1) os

  abbrev has_value : Option A → Bool
  has_value none = false
  has_value (some a) = true

  abbrev all_some : List (Option A) → Bool
  all_some [] = true
  all_some (o ∷ os) = has_value o && all_some os

  -- Every key is below `i`.
  abbrev Below : ℕ → List (ℕ × A) → Type 0
  Below i [] = Unit
  Below i ((j, a) ∷ m) = (j < i) × Below i m

  Below-append : (i : ℕ) (a : A) (m : List (ℕ × A)) → Below i m → Below (i + 1) (m ++ (i, a) ∷ [])
  Below-append i a [] h = (omega arith, tt)
  Below-append i a ((j, b) ∷ m) h = (omega (arith, h.0), Below-append i a m h.1)

  Below-suc : (i : ℕ) (m : List (ℕ × A)) → Below i m → Below (i + 1) m
  Below-suc i [] h = tt
  Below-suc i ((j, b) ∷ m) h = (omega (arith, h.0), Below-suc i m h.1)

  has_result-above : (i k : ℕ) (os : List (Option A)) → i < k → has_result i (entries k os) ≡ false
  unfolding has_result
  has_result-above i k [] h = refl
  has_result-above i k (none ∷ os) h = has_result-above i (k + 1) os (omega arith)
  has_result-above i k (some a ∷ os) h = ground (arith, has_result-above i (k + 1) os (omega arith))

  insert-above :
      (i k : ℕ) (a : A) (os : List (Option A))
      → i < k
      → insert i a (entries k os) ≡ (i, a) ∷ entries k os
  unfolding insert
  insert-above i k a [] h = refl
  insert-above i k a (none ∷ os) h = insert-above i (k + 1) a os (omega arith)
  insert-above i k a (some b ∷ os) h = ground arith

  has_result-entries :
      (i : ℕ) (before : List (ℕ × A)) (o : Option A) (os : List (Option A))
      → Below i before
      → has_result i (before ++ entries i (o ∷ os)) ≡ has_value o
  unfolding has_result
  has_result-entries i [] none os h = has_result-above i (i + 1) os (omega arith)
  has_result-entries i [] (some a) os h = ground arith
  has_result-entries i ((j, b) ∷ before) o os h =
      ground (arith, h.0, has_result-entries i before o os h.1)

  insert-entries :
      (i : ℕ) (a : A) (before : List (ℕ × A)) (os : List (Option A))
      → Below i before
      → insert i a (before ++ entries (i + 1) os) ≡ before ++ (i, a) ∷ entries (i + 1) os
  unfolding insert
  insert-entries i a [] os h = insert-above i (i + 1) a os (omega arith)
  insert-entries i a ((j, b) ∷ before) os h = ground (arith, h.0, insert-entries i a before os h.1)

  length-entries : (i : ℕ) (os : List (Option A)) → length (entries i os) ≤ length os
  length-entries i [] = omega arith
  length-entries i (none ∷ os) = omega (arith, length-entries (i + 1) os)
  length-entries i (some a ∷ os) = omega (arith, length-entries (i + 1) os)

  -- The test of sizes.
  count-entries :
      (i : ℕ) (os : List (Option A)) → (length (entries i os) == length os) ≡ all_some os
  count-entries i [] = refl
  count-entries i (none ∷ os) = ground (arith, length-entries (i + 1) os)
  count-entries i (some a ∷ os) = ground (arith, count-entries (i + 1) os)

  build-entries :
      (i : ℕ) (os : List (Option A))
      → all_some os ≡ true
      → build_result os ≡ some (build (entries i os))
  unfolding build_result build
  build-entries i [] h = refl
  build-entries i (none ∷ os) h = cc
  build-entries i (some a ∷ os) h = rw (build-entries (i + 1) os h)

module _ {ℓ κ} {S : Type ℓ} {A : Type κ} (awaitable : Poll S (AwaitableState A)) where
  -- What the loop makes of a round of `wait_all_awaitable`.
  abbrev within :
      List (ℕ × A)
      → ℕ
      → Option (List S × List (Option A) × Bool × List Waker)
      → Option (List S × List (ℕ × A) × List Waker)
  within before i none = none
  within before i (some (ss, os, all_ready, woken)) = some (ss, before ++ entries i os, woken)

  -- The rest of the loop, whatever the results before.
  abbrev Agrees : ℕ → Waker → List S → List (Option A) → Type (ℓ ⊔ κ)
  Agrees i w ss os =
      (before : List (ℕ × A))
      → Below i before
      → iter_loop awaitable i w ss (before ++ entries i os)
        ≡ within before i (poll_all awaitable w ss os)

  -- The rest of the loop, with the result of the `i`th awaitable there.
  Agrees-some :
      (i : ℕ) (w : Waker) (ss : List S) (os : List (Option A)) (before : List (ℕ × A)) (a : A)
      → Agrees (i + 1) w ss os
      → Below i before
      → iter_loop awaitable (i + 1) w ss (before ++ (i, a) ∷ entries (i + 1) os)
        ≡ within (before ++ (i, a) ∷ []) (i + 1) (poll_all awaitable w ss os)
  Agrees-some i w ss os before a next h =
      ap (iter_loop awaitable (i + 1) w ss)
        (sym (append_assoc before ((i, a) ∷ []) (entries (i + 1) os)))
      ∙ next (before ++ (i, a) ∷ []) (Below-append i a before h)

  Agrees-finished :
      (i : ℕ) (w : Waker) (s : S) (ss : List S) (a : A) (os : List (Option A))
      → Agrees (i + 1) w ss os
      → Agrees i w (s ∷ ss) (some a ∷ os)
  unfolding iter_loop poll_all poll_one
  Agrees-finished i w s ss a os next before h =
      rw (has_result-entries i before (some a) os h, Agrees-some i w ss os before a next h)
        (elim (Option-cases (poll_all awaitable w ss os)) [
          | inl q ↦ rw q
          | inr ((ss', os', all, woken), q) ↦
              rw (q, append_assoc before ((i, a) ∷ []) (entries (i + 1) os'))
        ])

  Agrees-running :
      (i : ℕ) (w : Waker) (s : S) (ss : List S) (os : List (Option A))
      → Agrees (i + 1) w ss os
      → Agrees i w (s ∷ ss) (none ∷ os)
  unfolding iter_loop poll_all poll_one
  Agrees-running i w s ss os next before h =
      rw (has_result-entries i before none os h) (elim (Option-cases (awaitable w s)) [
        | inl p ↦ rw p
        | inr ((s', state, woken), p) ↦ elim (Option-cases state.result) [
          | inl empty ↦
              rw (p, empty, next before (Below-suc i before h))
                (elim (Option-cases (poll_all awaitable w ss os)) [
                  | inl q ↦ rw q
                  | inr (r, q) ↦ rw q
                ])
          | inr (a, full) ↦
              rw (p, full, insert-entries i a before os h, Agrees-some i w ss os before a next h)
                (elim (Option-cases (poll_all awaitable w ss os)) [
                  | inl q ↦ rw q
                  | inr ((ss', os', all, woken'), q) ↦
                      rw (q, append_assoc before ((i, a) ∷ []) (entries (i + 1) os'))
                ])
        ]
      ])

  iter_loop-poll_all :
      (i : ℕ) (w : Waker) (ss : List S) (os : List (Option A))
      → length ss ≡ length os
      → Agrees i w ss os
  unfolding iter_loop poll_all
  iter_loop-poll_all i w [] [] e = λ before h. refl
  iter_loop-poll_all i w [] (o ∷ os) e = absurd (omega arith)
  iter_loop-poll_all i w (s ∷ ss) [] e = absurd (omega arith)
  iter_loop-poll_all i w (s ∷ ss) (some a ∷ os) e =
      Agrees-finished i w s ss a os (iter_loop-poll_all (i + 1) w ss os (omega arith))
  iter_loop-poll_all i w (s ∷ ss) (none ∷ os) e =
      Agrees-running i w s ss os (iter_loop-poll_all (i + 1) w ss os (omega arith))

  -- A round leaves the two lists at one length, and says whether all results are there.
  poll_all-shape :
      (w : Waker) (ss : List S) (os : List (Option A)) {ss' : List S} {os' : List (Option A)}
      {all : Bool} {woken : List Waker}
      → poll_all awaitable w ss os ≡ some (ss', os', all, woken)
      → (length ss' ≡ length os') × (all ≡ all_some os')
  unfolding poll_all poll_one
  poll_all-shape w [] [] q = ground arith
  poll_all-shape w [] (o ∷ os) q = cc
  poll_all-shape w (s ∷ ss) [] q = cc
  poll_all-shape w (s ∷ ss) (some a ∷ os) q = elim (Option-cases (poll_all awaitable w ss os)) [
    | inl e ↦ ground arith
    | inr ((ss', os', all, woken), e) ↦ ground (arith, poll_all-shape w ss os e)
  ]
  poll_all-shape w (s ∷ ss) (none ∷ os) q = elim (Option-cases (awaitable w s)) [
    | inl p ↦ ground arith
    | inr ((s', state, woken'), p) ↦ elim (Option-cases (poll_all awaitable w ss os)) [
      | inl e ↦ ground arith
      | inr ((ss', os', all, woken), e) ↦ ground (arith, poll_all-shape w ss os e)
    ]
  ]

  -- The object of the one form as that of the other.
  abbrev pub as_iter : WaitAllAwaitable S A → WaitAllIterAwaitable S A
  as_iter t = record { awaitables = t.awaitables; results = entries 0 t.results }

  abbrev pub iter_outcome :
      Option (WaitAllAwaitable S A × AwaitableState (List A) × List Waker)
      → Option (WaitAllIterAwaitable S A × AwaitableState (List A) × List Waker)
  iter_outcome none = none
  iter_outcome (some (t, state, woken)) = some (as_iter t, state, woken)

  -- For as many awaitables as places for results, a poll of `wait_all_iter_awaitable`, whose map
  -- has the results that are there under their indices, gives the outcome, the new state and the
  -- wakers called that a poll of `wait_all_awaitable` gives.
  pub poll-poll :
      (w : Waker) (t : WaitAllAwaitable S A)
      → length t.awaitables ≡ length t.results
      → poll awaitable w (as_iter t) ≡ iter_outcome (All.poll awaitable w t)
  unfolding poll All.poll
  poll-poll w t e =
      rw (iter_loop-poll_all 0 w t.awaitables t.results e [] tt)
        (elim (Option-cases (poll_all awaitable w t.awaitables t.results)) [
          | inl q ↦ rw q
          | inr ((ss', os', all, woken), q) ↦
              let (same, full) = poll_all-shape w t.awaitables t.results q in
              let test = ap (◌==◌ (length (entries 0 os'))) same ∙ count-entries 0 os' in
              elim (Bool-cases all) [
                | inl yes_ ↦ rw (q, test, sym full, yes_, build-entries 0 os' (sym full ∙ yes_))
                | inr no_ ↦ rw (q, test, sym full, no_)
              ]
        ])
