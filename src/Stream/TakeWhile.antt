-- ===== src/Stream/TakeWhile.antt =====
-- src/take_while.cppm
use pollcoro.Base.{
  if◌then◌else◌, ◌>>=◌, List, [], ◌∷◌, some, Bool, true, false, ◌&&◌, not, Bool-cases, inl, inr,
  >>=-some,
}
use pollcoro.Waker.{Waker}
use pollcoro.Awaitable.{Poll}
use pollcoro.StreamAwaitable.{StreamAwaitableState, ready, finished, is_ready, is_done, take_result}
use pollcoro.Stream.{Emits, stop, wait, item}

pub record TakeWhileStreamAwaitable {ℓ} (S : Type ℓ) : Type ℓ where
  pub stream : S
  pub taking : Bool

-- The items before the first that fails the predicate.
pub take_while {κ} : {A : Type κ} → (A → Bool) → List A → List A
take_while predicate [] = []
take_while predicate (x ∷ xs) = if predicate x then x ∷ take_while predicate xs else []

module _ {ℓ κ} {S : Type ℓ} {A : Type κ} (upstream : Poll S (StreamAwaitableState A))
    (predicate : A → Bool) where
  unfoldable pub poll_next : Poll (TakeWhileStreamAwaitable S) (StreamAwaitableState A)
  poll_next w t = do
    (s, state, woken) ← upstream w t.stream
    if is_done state
        then some (record t { stream = s }, finished, woken)
        else if is_ready state && t.taking
        then (do
          (result, _) ← take_result state
          let taking = predicate result
          if not taking
              then some (record { stream = s; taking = taking }, finished, woken)
              else some (record { stream = s; taking = taking }, ready result, woken))
        else some (record t { stream = s }, state, woken)

  abbrev taking_from : S → TakeWhileStreamAwaitable S
  taking_from s = record { stream = s; taking = true }

  -- If the stream delivers a list and ends, then a new `take_while` delivers the items before the
  -- first that fails the predicate, and is done.
  Emits-take_while :
      {w : Waker} {s : S} {xs : List A}
      → Emits upstream w s xs
      → Emits poll_next w (taking_from s) (take_while predicate xs)
  unfolding poll_next take_while
  Emits-take_while (stop p) = stop (>>=-some _ p)
  Emits-take_while (wait p e) = wait (>>=-some _ p) (Emits-take_while e)
  Emits-take_while (item {s'} {x} {woken} p e) = elim (Bool-cases (predicate x)) [
    | inl passes ↦
        rw passes (item {s' = taking_from s'} {woken = woken} (rw (p, passes)) (Emits-take_while e))
    | inr fails ↦
        rw fails
          (stop {s' = record { stream = s'; taking = false }} {woken = woken} (rw (p, fails)))
  ]

  -- Once `taking_` is false, `take_while` delivers whatever the stream still delivers, without
  -- asking the predicate.
  Emits-not_taking :
      {w : Waker} {s : S} {xs : List A}
      → Emits upstream w s xs
      → Emits poll_next w (record { stream = s; taking = false }) xs
  unfolding poll_next
  Emits-not_taking (stop p) = stop (>>=-some _ p)
  Emits-not_taking (wait p e) = wait (>>=-some _ p) (Emits-not_taking e)
  Emits-not_taking (item p e) = item (>>=-some _ p) (Emits-not_taking e)
