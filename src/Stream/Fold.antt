-- ===== src/Stream/Fold.antt =====
-- src/fold.cppm
use pollcoro.Base.{
  Option-cases, if◌then◌else◌, ◌>>=◌, List, [], ◌∷◌, ◌++◌, some, Bool, not, Bool-cases,
  Option-cases, ◌⊎◌, inl, inr, ◌≡◌, >>=-some, arith,
}
use pollcoro.Waker.{Waker, wake}
use pollcoro.Awaitable.{Poll, AwaitableState}
use pollcoro.Awaitable
use pollcoro.StreamAwaitable.{StreamAwaitableState, pending, is_ready, is_done, take_result}
use pollcoro.Stream.{Emits, stop, wait, item, Resolves, now, later}

pub record FoldStreamAwaitable {ℓ κ} (S : Type ℓ) (Acc : Type κ) : Type (ℓ ⊔ κ) where
  pub stream : S
  pub accumulator : Acc

-- The accumulator after the items, up to the first at which the function answers `false`.
pub fold_items {κ μ} : {A : Type κ} {Acc : Type μ} → (Acc → A → Acc × Bool) → Acc → List A → Acc
fold_items f acc [] = acc
fold_items f acc (x ∷ xs) =
    let rest = fold_items f (f acc x).0 xs in if (f acc x).1 then rest else (f acc x).0

module _ {ℓ κ μ} {S : Type ℓ} {A : Type κ} {Acc : Type μ}
    (upstream : Poll S (StreamAwaitableState A)) (fold_function : Acc → A → Acc × Bool) where
  -- The function changes the accumulator in place and may answer `false` to stop; one that
  -- returns `void` goes on as if it answered `true`.
  unfoldable pub poll : Poll (FoldStreamAwaitable S Acc) (AwaitableState Acc)
  poll w t = do
    (s, state, woken) ← upstream w t.stream
    if is_done state
        then some (record t { stream = s }, Awaitable.ready t.accumulator, woken)
        else if is_ready state
        then (do
          (result, _) ← take_result state
          let (acc, more) = fold_function t.accumulator result
          if not more
              then some (record { stream = s; accumulator = acc }, Awaitable.ready acc, woken)
              else some
                  (record { stream = s; accumulator = acc }, Awaitable.pending, woken ++ wake w))
        else some (record t { stream = s }, Awaitable.pending, woken)

  abbrev at : S → Acc → FoldStreamAwaitable S Acc
  at s acc = record { stream = s; accumulator = acc }

  -- If the stream delivers a list and ends, then `fold` becomes ready with the accumulator after
  -- the items, up to the first at which the function answers false.
  pub Resolves-fold :
      {w : Waker} {s : S} {xs : List A}
      → Emits upstream w s xs
      → (acc : Acc)
      → (t : FoldStreamAwaitable S Acc) × Resolves poll w
          (at s acc)
          (fold_items fold_function acc xs)
          t
  unfolding poll fold_items
  Resolves-fold (stop {s'} p) acc = (at s' acc, now (>>=-some _ p))
  Resolves-fold (wait p e) acc = let (t, r) = Resolves-fold e acc in (t, later (>>=-some _ p) r)
  Resolves-fold {w} (item {s'} {x} {woken} p e) acc = elim (Bool-cases (fold_function acc x).1) [
    | inl more ↦
        let (t, r) = Resolves-fold e (fold_function acc x).0 in
        rw more
          (t, later {s' = at s' (fold_function acc x).0} {woken = woken ++ wake w} (rw (p, more)) r)
    | inr enough ↦ rw enough (at s' (fold_function acc x).0, now {woken = woken} (rw (p, enough)))
  ]

  -- A pending poll of `fold` has called its waker last, or the upstream was polled with the waker
  -- and is pending.
  wake_when_pending :
      {w : Waker} {s : S} {t' : FoldStreamAwaitable S Acc} {woken : List Waker} (acc : Acc)
      → poll w (at s acc) ≡ some (t', Awaitable.pending, woken)
      → (before : List Waker) × ((woken ≡ before ++ wake w)
          ⊎ (upstream w s ≡ some (t'.stream, pending, before)))
  unfolding poll
  wake_when_pending {w} {s} acc h = elim (Option-cases (upstream w s)) [
    | inl e ↦ ground arith
    | inr ((s', state, before), e) ↦ (before, ground arith)
  ]
