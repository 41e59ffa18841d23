-- ===== src/Stream/Last.antt =====
-- src/last.cppm
use pollcoro.Base.{
  ℕ, zero, suc, ◌<◌, if◌then◌else◌, ◌>>=◌, List, [], ◌∷◌, Option, none, some, >>=-some, arith,
  length,
}
use pollcoro.Waker.{Waker}
use pollcoro.Awaitable.{Poll, AwaitableState}
use pollcoro.Awaitable
use pollcoro.StreamAwaitable.{StreamAwaitableState, is_ready, is_done, take_result}
use pollcoro.Stream.{
  prepend, Emits, stop, wait, item, Resolves, now, later, Settling, Resolves-of_Settling,
  Settling-prepend,
}

pub record LastStreamAwaitable {ℓ κ} (S : Type ℓ) (A : Type κ) : Type (ℓ ⊔ κ) where
  pub stream : S
  pub result : Option A

-- The last item, or the given one if there is none.
pub last_or {κ} : {A : Type κ} → Option A → List A → Option A
last_or o [] = o
last_or o (x ∷ xs) = last_or (some x) xs

module _ {ℓ κ} {S : Type ℓ} {A : Type κ} (upstream : Poll S (StreamAwaitableState A))
    (fuel : ℕ) where
  -- The `while (true)` of `poll`; `none` when the fuel runs out. At the end `result_` is moved
  -- from, which leaves the optional engaged: it is kept.
  last_loop :
      ℕ
      → Waker
      → LastStreamAwaitable S A
      → Option (LastStreamAwaitable S A × AwaitableState (Option A) × List Waker)
  last_loop zero w t = none
  last_loop (suc rounds) w t = do
    (s, state, woken) ← upstream w t.stream
    if is_done state
        then some (record t { stream = s }, Awaitable.ready t.result, woken)
        else if is_ready state
        then (do
          (result, _) ← take_result state
          prepend woken (last_loop rounds w (record { stream = s; result = some result })))
        else some (record t { stream = s }, Awaitable.pending, woken)

  unfoldable pub poll : Poll (LastStreamAwaitable S A) (AwaitableState (Option A))
  unfolding last_loop
  poll w t = last_loop fuel w t

  abbrev at : S → Option A → LastStreamAwaitable S A
  at s o = record { stream = s; result = o }

  Settling-last :
      {w : Waker} {s : S} {xs : List A}
      → Emits upstream w s xs
      → length xs < fuel
      → (rounds : ℕ) → length xs < rounds
      → (o : Option A)
      → (t : LastStreamAwaitable S A) × Settling poll w
          (last_loop rounds w (at s o))
          (last_or o xs)
          t
  unfolding poll last_or
  Settling-last e h zero k o = absurd (omega arith)
  Settling-last (stop {s'} p) h (suc rounds) k o = (at s' o, now (>>=-some _ p))
  Settling-last {w} (wait p e) h (suc rounds) k o =
      let (t, r) = Settling-last e h fuel h o in
      (t, later (>>=-some _ p) (Resolves-of_Settling poll w r))
  Settling-last {w} (item {x} {woken} p e) h (suc rounds) k o =
      let (t, r) = Settling-last e (omega arith) rounds (omega arith) (some x) in
      (t, Settling-prepend poll w woken (>>=-some _ p) r)

  -- If the stream delivers a list and ends, then a new `last` becomes ready with the last item, or
  -- no value if there is none, with fuel above the length of the list.
  Resolves-last :
      {w : Waker} {s : S} {xs : List A}
      → Emits upstream w s xs
      → length xs < fuel
      → (t : LastStreamAwaitable S A) × Resolves poll w
          (record { stream = s; result = none })
          (last_or none xs)
          t
  unfolding poll
  Resolves-last {w} e h =
      let (t, r) = Settling-last e h fuel h none in (t, Resolves-of_Settling poll w r)
