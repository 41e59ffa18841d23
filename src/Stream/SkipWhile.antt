-- ===== src/Stream/SkipWhile.antt =====
-- src/skip_while.cppm
use pollcoro.Base.{
  ℕ, zero, suc, ◌<◌, if◌then◌else◌, ◌>>=◌, List, [], ◌∷◌, Option, none, some, Bool, true, false,
  ◌&&◌, Bool-cases, inl, inr, >>=-some, arith, length,
}
use pollcoro.Waker.{Waker}
use pollcoro.Awaitable.{Poll}
use pollcoro.StreamAwaitable.{StreamAwaitableState, ready, finished, is_ready, is_done, take_result}
use pollcoro.Stream.{prepend, Emits, stop, wait, item, Opening, Emits-of_Opening, Opening-prepend}

pub record SkipWhileStreamAwaitable {ℓ} (S : Type ℓ) : Type ℓ where
  pub stream : S
  pub skipping : Bool

-- The items from the first that fails the predicate.
pub skip_while {κ} : {A : Type κ} → (A → Bool) → List A → List A
skip_while predicate [] = []
skip_while predicate (x ∷ xs) = if predicate x then skip_while predicate xs else x ∷ xs

module _ {ℓ κ} {S : Type ℓ} {A : Type κ} (upstream : Poll S (StreamAwaitableState A))
    (predicate : A → Bool) (fuel : ℕ) where
  -- The `while (true)` of `poll_next`; `none` when the fuel runs out.
  skip_loop :
      ℕ
      → Waker
      → SkipWhileStreamAwaitable S
      → Option (SkipWhileStreamAwaitable S × StreamAwaitableState A × List Waker)
  skip_loop zero w t = none
  skip_loop (suc rounds) w t = do
    (s, state, woken) ← upstream w t.stream
    let rest = skip_loop rounds w (record { stream = s; skipping = true })
    if is_done state
        then some (record t { stream = s }, finished, woken)
        else if is_ready state && t.skipping
        then (do
          (result, _) ← take_result state
          if predicate result
              then prepend woken rest
              else some (record { stream = s; skipping = false }, ready result, woken))
        else some (record t { stream = s }, state, woken)

  unfoldable pub poll_next : Poll (SkipWhileStreamAwaitable S) (StreamAwaitableState A)
  unfolding skip_loop
  poll_next w t = skip_loop fuel w t

  abbrev past : S → SkipWhileStreamAwaitable S
  past s = record { stream = s; skipping = false }

  Opening-past :
      {w : Waker} {s : S} {xs : List A}
      → Emits upstream w s xs
      → 0 < fuel
      → (rounds : ℕ) → 0 < rounds
      → Opening poll_next w (skip_loop rounds w (past s)) xs
  unfolding poll_next
  Opening-past e h zero k = absurd (omega arith)
  Opening-past (stop p) h (suc rounds) k = stop (>>=-some _ p)
  Opening-past {w} (wait p e) h (suc rounds) k =
      wait (>>=-some _ p) (Emits-of_Opening poll_next w (Opening-past e h fuel h))
  Opening-past {w} (item p e) h (suc rounds) k =
      item (>>=-some _ p) (Emits-of_Opening poll_next w (Opening-past e h fuel h))

  abbrev skipping_from : S → SkipWhileStreamAwaitable S
  skipping_from s = record { stream = s; skipping = true }

  Opening-skip_loop :
      {w : Waker} {s : S} {xs : List A}
      → Emits upstream w s xs
      → length xs < fuel
      → (rounds : ℕ) → length xs < rounds
      → Opening poll_next w (skip_loop rounds w (skipping_from s)) (skip_while predicate xs)
  unfolding poll_next skip_while
  Opening-skip_loop e h zero k = absurd (omega arith)
  Opening-skip_loop (stop p) h (suc rounds) k = stop (>>=-some _ p)
  Opening-skip_loop (wait p e) h (suc rounds) k =
      wait (>>=-some _ p) (Emits-of_Opening poll_next _ (Opening-skip_loop e h fuel h))
  Opening-skip_loop (item {s'} {x} {woken} p e) h (suc rounds) k = elim (Bool-cases (predicate x)) [
    | inl passes ↦ rw passes (
        Opening-prepend poll_next _ woken (rw (p, passes))
          (Opening-skip_loop e (omega arith) rounds (omega arith)))
    | inr fails ↦ rw fails (
        item {s' = past s'} {woken = woken} (rw (p, fails))
          (Emits-of_Opening poll_next _ (Opening-past e (omega arith) fuel (omega arith))))
  ]

  -- If the stream delivers a list and ends, then a new `skip_while` delivers the items from the
  -- first that fails the predicate on and ends, with fuel above the length of the list.
  pub Emits-skip_while :
      {w : Waker} {s : S} {xs : List A}
      → Emits upstream w s xs
      → length xs < fuel
      → Emits poll_next w (skipping_from s) (skip_while predicate xs)
  unfolding poll_next
  Emits-skip_while {w} e h = Emits-of_Opening poll_next w (Opening-skip_loop e h fuel h)
