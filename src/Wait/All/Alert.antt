-- ===== src/Wait/All/Alert.antt =====
-- src/wait_all.cppm: `wait_all` wakes whenever one of its awaitables does.
use pollcoro.Base.{
  true, false, ℕ, zero, suc, ◌≤◌, List, [], ◌∷◌, ◌++◌, Option, none, some, ◌≡◌, refl, arith,
  >>=-some,
}
use pollcoro.Waker.{Waker}
use pollcoro.Awaitable.{Poll, AwaitableState, ready, pending}
use pollcoro.Task.Evaluation
use pollcoro.Task.Evaluation.{Settles, value}
use pollcoro.BlockOn.{lift}
use pollcoro.Wait.All.{WaitAllAwaitable, build_result, poll_one, poll_all, poll}

module _ {ℓ κ} {S : Type ℓ} {A : Type κ} (awaitable : Poll S (AwaitableState A)) (w : Waker)
    (P : List Waker → Type 0) where
  -- The awaitable is pending at most so many times, what each of these polls wakes satisfies `P`,
  -- and then it is ready with the value.
  pub data SettlesBy : ℕ → S → A → Type (ℓ ⊔ κ) where
    now :
        {k : ℕ} {s s' : S} {a : A} {woken : List Waker}
        → awaitable w s ≡ some (s', ready a, woken)
        → SettlesBy k s a
    later :
        {k : ℕ} {s s' : S} {a : A} {woken : List Waker}
        → awaitable w s ≡ some (s', pending, woken)
        → P woken
        → SettlesBy k s' a
        → SettlesBy (suc k) s a

  -- Each place of the lists has its result, or its awaitable will have it in at most `k` polls more.
  pub data EachSettles (k : ℕ) : List S → List (Option A) → List A → Type (ℓ ⊔ κ) where
    none_left : EachSettles k [] [] []
    finished :
        {s : S} {a : A} {ss : List S} {os : List (Option A)} {xs : List A}
        → EachSettles k ss os xs
        → EachSettles k (s ∷ ss) (some a ∷ os) (a ∷ xs)
    running :
        {s : S} {a : A} {ss : List S} {os : List (Option A)} {xs : List A}
        → SettlesBy k s a
        → EachSettles k ss os xs
        → EachSettles k (s ∷ ss) (none ∷ os) (a ∷ xs)

  -- A round of polls after which all have their results.
  data Complete (ss : List S) (os : List (Option A)) (xs : List A) : Type (ℓ ⊔ κ) where
    complete :
        {ss' : List S} {os' : List (Option A)} {woken : List Waker}
        → poll_all awaitable w ss os ≡ some (ss', os', true, woken)
        → ((j : ℕ) → EachSettles j ss' os' xs)
        → build_result os' ≡ some xs
        → Complete ss os xs

  -- A round of polls, after which at most `j` pending polls are left.
  data Round (j : ℕ) (ss : List S) (os : List (Option A)) (xs : List A) : Type (ℓ ⊔ κ) where
    last_one : Complete ss os xs → Round j ss os xs
    partial :
        {ss' : List S} {os' : List (Option A)} {woken : List Waker}
        → poll_all awaitable w ss os ≡ some (ss', os', false, woken)
        → EachSettles j ss' os' xs
        → P woken
        → Round j ss os xs

  Complete-cons :
      {s s' : S} {a : A} {o : Option A} {ss : List S} {os : List (Option A)} {xs : List A}
      {woken : List Waker}
      → poll_one awaitable w s o ≡ some (s', some a, woken)
      → Complete ss os xs
      → Complete (s ∷ ss) (o ∷ os) (a ∷ xs)
  unfolding poll_all build_result
  Complete-cons {s'} {a} {woken} p (complete {ss'} {os'} {woken = woken'} q settled built) =
      complete {ss' = s' ∷ ss'} {os' = some a ∷ os'} {woken = woken ++ woken'} (rw (p, q) refl)
        (λ j. finished (settled j)) (rw built refl)

  -- With no pending poll left, all have their results.
  last_round :
      {ss : List S} {os : List (Option A)} {xs : List A}
      → EachSettles 0 ss os xs
      → Complete ss os xs
  unfolding poll_all poll_one build_result
  last_round none_left = complete refl (λ j. none_left) refl
  last_round (finished each) = Complete-cons refl (last_round each)
  last_round (running (now p) each) = Complete-cons (>>=-some _ p) (last_round each)

  module _ (first : (xs ys : List Waker) → P xs → P (xs ++ ys))
      (second : (xs ys : List Waker) → P ys → P (xs ++ ys)) where
    Round-ready :
        {j : ℕ} {s s' : S} {a : A} {o : Option A} {ss : List S} {os : List (Option A)} {xs : List A}
        {woken : List Waker}
        → poll_one awaitable w s o ≡ some (s', some a, woken)
        → Round j ss os xs
        → Round j (s ∷ ss) (o ∷ os) (a ∷ xs)
    unfolding poll_all
    Round-ready p (last_one c) = last_one (Complete-cons p c)
    Round-ready {s'} {a} {woken} p (partial {ss'} {os'} {woken = woken'} q each n) =
        partial {ss' = s' ∷ ss'} {os' = some a ∷ os'} {woken = woken ++ woken'} (rw (p, q) refl)
          (finished each) (second woken woken' n)

    Round-pending :
        {j : ℕ} {s s' : S} {a : A} {ss : List S} {os : List (Option A)} {xs : List A}
        {woken : List Waker}
        → poll_one awaitable w s none ≡ some (s', none, woken)
        → SettlesBy j s' a
        → P woken
        → Round j ss os xs
        → Round j (s ∷ ss) (none ∷ os) (a ∷ xs)
    unfolding poll_all
    Round-pending {j} {s'} {woken} p st n
          (last_one (complete {ss'} {os'} {woken = woken'} q settled built)) =
        partial {ss' = s' ∷ ss'} {os' = none ∷ os'} {woken = woken ++ woken'} (rw (p, q) refl)
          (running st (settled j)) (first woken woken' n)
    Round-pending {s'} {woken} p st n (partial {ss'} {os'} {woken = woken'} q each n') =
        partial {ss' = s' ∷ ss'} {os' = none ∷ os'} {woken = woken ++ woken'} (rw (p, q) refl)
          (running st each) (first woken woken' n)

    round :
        {j : ℕ} {ss : List S} {os : List (Option A)} {xs : List A}
        → EachSettles (suc j) ss os xs
        → Round j ss os xs
    unfolding poll_all poll_one build_result
    round none_left = last_one (complete refl (λ j. none_left) refl)
    round (finished each) = Round-ready refl (round each)
    round (running (now p) each) = Round-ready (>>=-some _ p) (round each)
    round (running (later p n st) each) = Round-pending (>>=-some _ p) st n (round each)

    Settles-complete :
        (t : WaitAllAwaitable S A) {xs : List A}
        → Complete t.awaitables t.results xs
        → Settles (lift {E = ⊥} (poll awaitable)) w P 0 t (value xs)
    unfolding poll
    Settles-complete t (complete {ss'} {os'} {woken} q settled built) =
        Evaluation.now {s' = record { awaitables = ss'; results = os' }} {woken = woken}
          (rw (q, built) refl)

    -- The awaitable settles in at most so many pending polls.
    abbrev Within : ℕ → WaitAllAwaitable S A → List A → Type (ℓ ⊔ κ)
    Within k t xs = (n : ℕ) × (n ≤ k) × Settles (lift {E = ⊥} (poll awaitable)) w P n t (value xs)

    Within-of_Round :
        (k : ℕ) (t : WaitAllAwaitable S A) {xs : List A}
        → ((t' : WaitAllAwaitable S A) → EachSettles k t'.awaitables t'.results xs → Within k t' xs)
        → Round k t.awaitables t.results xs
        → Within (suc k) t xs
    unfolding poll
    Within-of_Round k t go_on (last_one c) = (0, omega arith, Settles-complete t c)
    Within-of_Round k t go_on (partial {ss'} {os'} q each n) =
        let (m, h, rest) = go_on (record { awaitables = ss'; results = os' }) each in
        (suc m, omega arith, Evaluation.later (rw q refl) n rest)

    -- If each awaitable that has no result yet becomes ready after at most `k` pending polls,
    -- where what each pending poll calls satisfies a property that lists keep when they are joined
    -- to others, then `wait_all` has at most `k` pending polls, what these call satisfies the
    -- property, and then it is ready with all results in the order of the awaitables.
    pub Settles-wait_all :
        (k : ℕ) (t : WaitAllAwaitable S A) {xs : List A}
        → EachSettles k t.awaitables t.results xs
        → (n : ℕ) × (n ≤ k) × Settles (lift {E = ⊥} (poll awaitable)) w P n t (value xs)
    Settles-wait_all zero t each = (0, omega arith, Settles-complete t (last_round each))
    Settles-wait_all (suc k) t each =
        Within-of_Round k t (λ t' each'. Settles-wait_all k t' each') (round each)
