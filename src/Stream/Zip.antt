-- ===== src/Stream/Zip.antt =====
-- src/zip.cppm. The tuple of streams is a list of states with one poll, and a row of items is a list.
pub mod Rows
pub mod Emission
use pollcoro.Base.{
  ℕ, zero, suc, ◌+◌, ◌<◌, ◌≤◌, Bool, true, false, ◌||◌, if◌then◌else◌, ◌>>=◌, List, [], ◌∷◌, ◌++◌,
  Option, none, some, ◌≡◌, refl, sym, arith, length, map, ◌⊎◌, inl, inr, Bool-cases, >>=-some,
}
use pollcoro.Waker.{Waker}
use pollcoro.Awaitable.{Poll}
use pollcoro.StreamAwaitable.{
  StreamAwaitableState, ready, pending, finished, is_ready, is_done, take_result,
}
use pollcoro.Stream.{EachEmits, no_streams, each, Emits, stop, wait, item}

pub record ZipStreamAwaitable {ℓ κ} (S : Type ℓ) (A : Type κ) : Type (ℓ ⊔ κ) where
  pub streams : List S
  pub buffered : List (Option A)

-- The buffered values: `none` where the source dereferences no value.
pub buffered_values {κ} : {A : Type κ} → List (Option A) → Option (List A)
buffered_values [] = some []
buffered_values (none ∷ os) = none
buffered_values (some x ∷ os) = do xs ← buffered_values os; some (x ∷ xs)

abbrev pub reset {κ} : {A : Type κ} → Option A → Option A
reset o = none

-- What a round of `poll_one` finds: `any_pending`, `any_done` and the wakers called.
pub record Flags : Type 0 where
  pub any_pending : Bool
  pub any_done : Bool
  pub woken : List Waker

module _ {ℓ κ} {S : Type ℓ} {A : Type κ} (upstream : Poll S (StreamAwaitableState A)) where
  -- `poll_one`: a stream with a buffered value is not polled.
  poll_one : Waker → S → Option A → Option (S × Option A × Flags)
  poll_one w s (some a) =
      some (s, some a, record { any_pending = false; any_done = false; woken = [] })
  poll_one w s none = do
    (s', state, woken) ← upstream w s
    if is_done state
        then some (s', none, record { any_pending = false; any_done = true; woken = woken })
        else if is_ready state
        then (do
          (result, _) ← take_result state
          some (s', some result, record { any_pending = false; any_done = false; woken = woken }))
        else some (s', none, record { any_pending = true; any_done = false; woken = woken })

  -- Every stream in turn. `none` for lists of unequal lengths, which the source's tuples cannot be.
  poll_all : Waker → List S → List (Option A) → Option (List S × List (Option A) × Flags)
  unfolding poll_one
  poll_all w [] [] = some ([], [], record { any_pending = false; any_done = false; woken = [] })
  poll_all w (s ∷ ss) (o ∷ os) = do
    (s', o', f) ← poll_one w s o
    (ss', os', g) ← poll_all w ss os
    some (
      s' ∷ ss',
      o' ∷ os',
      record {
        any_pending = f.any_pending || g.any_pending;
        any_done = f.any_done || g.any_done;
        woken = f.woken ++ g.woken;
      },
    )
  poll_all w _ _ = none

  unfoldable pub poll_next : Poll (ZipStreamAwaitable S A) (StreamAwaitableState (List A))
  unfolding poll_all buffered_values
  poll_next w t = do
    (streams, buffered, flags) ← poll_all w t.streams t.buffered
    if flags.any_done
        then some (record { streams = streams; buffered = buffered }, finished, flags.woken)
        else if flags.any_pending
        then some (record { streams = streams; buffered = buffered }, pending, flags.woken)
        else (do
          result ← buffered_values buffered
          some (
            record { streams = streams; buffered = map reset buffered },
            ready result,
            flags.woken,
          ))
