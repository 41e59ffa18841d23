-- ===== src/Stream/Enumerate.antt =====
-- src/enumerate.cppm
use pollcoro.Base.{
  ℕ, ◌+◌, ◌<◌, size_mod, size_inc, size_inc_lem, if◌then◌else◌, ◌>>=◌, List, [], ◌∷◌, some,
  >>=-some, arith, length,
}
use pollcoro.Waker.{Waker}
use pollcoro.Awaitable.{Poll}
use pollcoro.StreamAwaitable.{
  StreamAwaitableState, ready, pending, finished, is_ready, is_done, take_result,
}
use pollcoro.Stream.{Emits, stop, wait, item}

pub record EnumerateStreamAwaitable {ℓ} (S : Type ℓ) : Type ℓ where
  pub stream : S
  pub index : ℕ

-- Each item with its place, counted from `i`.
pub enumerate_from {κ} : {A : Type κ} → ℕ → List A → List (ℕ × A)
enumerate_from i [] = []
enumerate_from i (x ∷ xs) = (i, x) ∷ enumerate_from (i + 1) xs

-- `enumerate_stream_composable`, a stream of its own: its state is `index_`.
unfoldable pub index_poll_next : Poll ℕ (StreamAwaitableState ℕ)
index_poll_next w index = some (size_inc index, ready index, [])

module _ {ℓ κ} {S : Type ℓ} {A : Type κ} (upstream : Poll S (StreamAwaitableState A)) where
  unfoldable pub poll_next : Poll (EnumerateStreamAwaitable S) (StreamAwaitableState (ℕ × A))
  poll_next w t = do
    (s, state, woken) ← upstream w t.stream
    if is_done state
        then some (record t { stream = s }, finished, woken)
        else if is_ready state
        then (do
          (result, _) ← take_result state
          some (record { stream = s; index = size_inc t.index }, ready (t.index, result), woken))
        else some (record t { stream = s }, pending, woken)

  -- If the stream delivers a list and ends, and `index_` plus the length of the list is below 2 ^
  -- 64, then `enumerate` delivers each item with its index, counted from `index_`, and ends.
  Emits-enumerate :
      {w : Waker} {s : S} {xs : List A}
      → Emits upstream w s xs
      → (i : ℕ) → i + length xs < size_mod
      → Emits poll_next w (record { stream = s; index = i }) (enumerate_from i xs)
  unfolding poll_next enumerate_from
  Emits-enumerate (stop p) i h = stop (>>=-some _ p)
  Emits-enumerate (wait p e) i h = wait (>>=-some _ p) (Emits-enumerate e i h)
  Emits-enumerate (item p e) i h =
      item (>>=-some _ p)
        (rw (size_inc_lem i (omega arith)) (Emits-enumerate e (i + 1) (omega arith)))
