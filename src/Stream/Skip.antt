-- ===== src/Stream/Skip.antt =====
-- src/skip.cppm
use pollcoro.Base.{ℕ, zero, suc, if◌then◌else◌, ◌>>=◌, List, Option, some, >>=-some, drop}
use pollcoro.Waker.{Waker}
use pollcoro.Awaitable.{Poll}
use pollcoro.StreamAwaitable.{StreamAwaitableState, pending, finished, is_ready, is_done}
use pollcoro.Stream.{
  prepend, Emits, stop, wait, item, Emits-of_Opening, Opening-of_Emits, Opening-prepend,
}

pub record SkipStreamAwaitable {ℓ} (S : Type ℓ) : Type ℓ where
  pub stream : S
  pub count : ℕ

module _ {ℓ κ} {S : Type ℓ} {A : Type κ} (upstream : Poll S (StreamAwaitableState A)) where
  -- The `while (true)` of `poll_next`: every round but the last takes one off `count_`.
  skip_loop : ℕ → Waker → S → Option (SkipStreamAwaitable S × StreamAwaitableState A × List Waker)
  skip_loop zero w stream = do
    (s, state, woken) ← upstream w stream
    some (record { stream = s; count = 0 }, state, woken)
  skip_loop (suc count) w stream = do
    (s, state, woken) ← upstream w stream
    let rest = skip_loop count w s
    if is_done state
        then some (record { stream = s; count = suc count }, finished, woken)
        else if is_ready state
        then prepend woken rest
        else some (record { stream = s; count = suc count }, pending, woken)

  unfoldable pub poll_next : Poll (SkipStreamAwaitable S) (StreamAwaitableState A)
  unfolding skip_loop
  poll_next w t = skip_loop t.count w t.stream

  -- If the stream delivers a list and ends, then `skip` delivers the list without its first `n`
  -- items and ends.
  Emits-skip :
      {w : Waker} {s : S} {xs : List A}
      → Emits upstream w s xs
      → (n : ℕ) → Emits poll_next w (record { stream = s; count = n }) (drop n xs)
  unfolding poll_next
  Emits-skip (stop p) zero = stop (>>=-some _ p)
  Emits-skip (stop p) (suc n) = stop (>>=-some _ p)
  Emits-skip (wait p e) zero = wait (>>=-some _ p) (Emits-skip e zero)
  Emits-skip (wait p e) (suc n) = wait (>>=-some _ p) (Emits-skip e (suc n))
  Emits-skip (item p e) zero = item (>>=-some _ p) (Emits-skip e zero)
  Emits-skip {w} (item {woken} p e) (suc n) = Emits-of_Opening poll_next w (
      Opening-prepend poll_next w woken (>>=-some _ p)
        (Opening-of_Emits poll_next w (Emits-skip e n)))
