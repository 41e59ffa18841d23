-- ===== src/Wait/All.antt =====
-- src/wait_all.cppm: `wait_all_awaitable`, for results that are no `void`.
pub mod Alert
use pollcoro.Base.{
  Bool, true, false, ◌&&◌, ◌⊎◌, ℕ, zero, suc, ◌≤◌, if◌then◌else◌, ◌>>=◌, List, [], ◌∷◌, ◌++◌,
  Option, none, some, map, ◌≡◌, refl, inl, inr, arith, Bool-cases, >>=-some,
}
use pollcoro.Waker.{Waker}
use pollcoro.Stream.{Resolves}
use pollcoro.Stream
use pollcoro.Awaitable.Timing
use pollcoro.Awaitable.Timing.{ReadyAfter}
use pollcoro.Awaitable.{Poll, AwaitableState, ready, pending}

-- The awaitables and, for each, its result once it has one.
pub record WaitAllAwaitable {ℓ κ} (S : Type ℓ) (A : Type κ) : Type (ℓ ⊔ κ) where
  pub awaitables : List S
  pub results : List (Option A)

-- The constructor: no results yet.
abbrev pub new {ℓ κ} : {S : Type ℓ} {A : Type κ} → List S → WaitAllAwaitable S A
new ss = record { awaitables = ss; results = map (λ _. none) ss }

-- `build_result`: `none` where the source dereferences no value.
unfoldable pub build_result {κ} : {A : Type κ} → List (Option A) → Option (List A)
build_result [] = some []
build_result (none ∷ os) = none
build_result (some x ∷ os) = do xs ← build_result os; some (x ∷ xs)

module _ {ℓ κ} {S : Type ℓ} {A : Type κ} (awaitable : Poll S (AwaitableState A)) where
  -- `poll_one`: an awaitable that has its result is not polled again.
  unfoldable pub poll_one : Waker → S → Option A → Option (S × Option A × List Waker)
  poll_one w s (some a) = some (s, some a, [])
  poll_one w s none = do (s', state, woken) ← awaitable w s; some (s', state.result, woken)

  abbrev has_value : Option A → Bool
  has_value none = false
  has_value (some a) = true

  -- `poll_all`: every awaitable in turn, and whether all have their results. `none` for lists of
  -- unequal lengths, which the source's tuples cannot be.
  unfoldable pub poll_all :
      Waker → List S → List (Option A) → Option (List S × List (Option A) × Bool × List Waker)
  unfolding poll_one
  poll_all w [] [] = some ([], [], true, [])
  poll_all w (s ∷ ss) (o ∷ os) = do
    (s', o', woken) ← poll_one w s o
    (ss', os', all_ready, woken') ← poll_all w ss os
    some (s' ∷ ss', o' ∷ os', has_value o' && all_ready, woken ++ woken')
  poll_all w _ _ = none

  unfoldable pub poll : Poll (WaitAllAwaitable S A) (AwaitableState (List A))
  unfolding poll_all build_result
  poll w t = do
    (awaitables, results, all_ready, woken) ← poll_all w t.awaitables t.results
    let t' : WaitAllAwaitable S A = record { awaitables = awaitables; results = results }
    if all_ready
        then (do result ← build_result results; some (t', ready result, woken))
        else some (t', pending, woken)

  -- The awaitable is ready with `a` after at most `k` pending polls.
  pub data ResolvesBy (w : Waker) : ℕ → S → A → Type (ℓ ⊔ κ) where
    now :
        {k : ℕ} {s s' : S} {a : A} {woken : List Waker}
        → awaitable w s ≡ some (s', ready a, woken)
        → ResolvesBy w k s a
    later :
        {k : ℕ} {s s' : S} {a : A} {woken : List Waker}
        → awaitable w s ≡ some (s', pending, woken)
        → ResolvesBy w k s' a
        → ResolvesBy w (suc k) s a

  pub ResolvesBy-of_ReadyAfter :
      {w : Waker} {n : ℕ} {s : S} {a : A}
      → ReadyAfter awaitable w n s a
      → (k : ℕ) → n ≤ k
      → ResolvesBy w k s a
  ResolvesBy-of_ReadyAfter (Timing.now p) k h = now p
  ResolvesBy-of_ReadyAfter (Timing.later p r) zero h = absurd (omega arith)
  ResolvesBy-of_ReadyAfter (Timing.later {k = n} p r) (suc k) h =
      later p (ResolvesBy-of_ReadyAfter {n = n} r k (omega arith))

  -- Each place of the lists has its result, or will have it after at most `k` pending polls.
  pub data Progress (w : Waker) (k : ℕ) : List S → List (Option A) → List A → Type (ℓ ⊔ κ) where
    none_left : Progress w k [] [] []
    finished :
        {s : S} {a : A} {ss : List S} {os : List (Option A)} {as_ : List A}
        → Progress w k ss os as_
        → Progress w k (s ∷ ss) (some a ∷ os) (a ∷ as_)
    running :
        {s : S} {a : A} {ss : List S} {os : List (Option A)} {as_ : List A}
        → ResolvesBy w k s a
        → Progress w k ss os as_
        → Progress w k (s ∷ ss) (none ∷ os) (a ∷ as_)

  -- A round of polls with at most one pending poll less to come.
  record Round (w : Waker) (k : ℕ) (ss : List S) (os : List (Option A)) (xs : List A)
      : Type (ℓ ⊔ κ) where
    ss' : List S
    os' : List (Option A)
    all_ready : Bool
    woken : List Waker
    polled : poll_all w ss os ≡ some (ss', os', all_ready, woken)
    progress : Progress w k ss' os' xs
    complete : all_ready ≡ true → build_result os' ≡ some xs

  cons-Round :
      {w : Waker} {k : ℕ} {s s' : S} {o o' : Option A} {a : A} {ss : List S} {os : List (Option A)}
      {xs : List A} {woken : List Waker}
      → poll_one w s o ≡ some (s', o', woken)
      → ((ss' : List S) (os' : List (Option A))
          → Progress w k ss' os' xs
          → Progress w k (s' ∷ ss') (o' ∷ os') (a ∷ xs))
      → (o' ≡ none) ⊎ (o' ≡ some a)
      → Round w k ss os xs
      → Round w k (s ∷ ss) (o ∷ os) (a ∷ xs)
  unfolding poll_all build_result
  cons-Round {s'} {o'} {woken} p grow here r = record {
    ss' = s' ∷ r.ss';
    os' = o' ∷ r.os';
    all_ready = has_value o' && r.all_ready;
    woken = woken ++ r.woken;
    polled = rw (p, r.polled);
    progress = grow r.ss' r.os' r.progress;
    complete = λ h. ground arith;
  }

  round :
      {w : Waker} {k : ℕ} {ss : List S} {os : List (Option A)} {xs : List A}
      → Progress w (suc k) ss os xs
      → Round w k ss os xs
  unfolding poll_all poll_one build_result
  round none_left = record {
    ss' = [];
    os' = [];
    all_ready = true;
    woken = [];
    polled = refl;
    progress = none_left;
    complete = λ _. refl;
  }
  round (finished pr) = cons-Round refl (λ ss' os'. finished) (inr refl) (round pr)
  round (running (now p) pr) = cons-Round (>>=-some _ p) (λ ss' os'. finished) (inr refl) (round pr)
  round (running (later p r) pr) =
      cons-Round (>>=-some _ p) (λ ss' os'. running r) (inl refl) (round pr)

  -- The last round, in which all have their results.
  last_round :
      {w : Waker} {ss : List S} {os : List (Option A)} {xs : List A}
      → Progress w 0 ss os xs
      → (r : Round w 0 ss os xs) × (r.all_ready ≡ true)
  unfolding poll_all poll_one build_result cons-Round
  last_round none_left = (
    record {
      ss' = [];
      os' = [];
      all_ready = true;
      woken = [];
      polled = refl;
      progress = none_left;
      complete = λ _. refl;
    },
    refl,
  )
  last_round (finished pr) =
      let (r, e) = last_round pr in (cons-Round refl (λ ss' os'. finished) (inr refl) r, e)
  last_round (running (now p) pr) =
      let (r, e) = last_round pr in
      (cons-Round (>>=-some _ p) (λ ss' os'. finished) (inr refl) r, e)

  abbrev round_end :
      {w : Waker} {k : ℕ} {ss : List S} {os : List (Option A)} {xs : List A}
      → Round w k ss os xs
      → WaitAllAwaitable S A
  round_end r = record { awaitables = r.ss'; results = r.os' }

  poll-ready :
      {w : Waker} {k : ℕ} (t : WaitAllAwaitable S A) {xs : List A}
      (r : Round w k t.awaitables t.results xs)
      → r.all_ready ≡ true
      → poll w t ≡ some (round_end r, ready xs, r.woken)
  unfolding poll
  poll-ready t r all = ground (arith, r.polled, r.complete all)

  poll-pending :
      {w : Waker} {k : ℕ} (t : WaitAllAwaitable S A) {xs : List A}
      (r : Round w k t.awaitables t.results xs)
      → r.all_ready ≡ false
      → poll w t ≡ some (round_end r, pending, r.woken)
  unfolding poll
  poll-pending t r not_all = ground (arith, r.polled)

  -- If each awaitable that has no result yet becomes ready after at most `k` pending polls, then
  -- `wait_all` is pending a number of times and then ready with all results in the order of the
  -- awaitables.
  pub Resolves-wait_all :
      {w : Waker} (k : ℕ) (t : WaitAllAwaitable S A) {xs : List A}
      → Progress w k t.awaitables t.results xs
      → (t' : WaitAllAwaitable S A) × Resolves poll w t xs t'
  Resolves-wait_all zero t pr =
      let (r, e) = last_round pr in (round_end r, Stream.now (poll-ready t r e))
  Resolves-wait_all (suc k) t pr =
      let r = round pr in
      elim (Bool-cases r.all_ready) [
        | inl all ↦ (round_end r, Stream.now (poll-ready t r all))
        | inr some_ ↦
            let (t', rest) = Resolves-wait_all k (round_end r) r.progress in
            (t', Stream.later (poll-pending t r some_) rest)
      ]
