-- ===== src/Stream/Map.antt =====
-- src/map.cppm: both the awaitable and the stream adapter.
use pollcoro.Base.{map, ◌>>=◌, List, some, >>=-some}
use pollcoro.Waker.{Waker}
use pollcoro.Awaitable.{Poll, AwaitableState}
use pollcoro.Awaitable
use pollcoro.StreamAwaitable.{
  StreamAwaitableState, ready, pending, finished, is_ready, is_done, take_result,
}
use pollcoro.StreamAwaitable
use pollcoro.Stream.{Emits, stop, wait, item, Resolves, now, later}

module _ {ℓ κ μ} {S : Type ℓ} {A : Type κ} {B : Type μ} (func : A → B) where
  unfoldable pub poll : Poll S (AwaitableState A) → Poll S (AwaitableState B)
  poll upstream w s = do
    (s', state, woken) ← upstream w s
    some (s', Awaitable.map func state, woken)

  unfoldable pub poll_next : Poll S (StreamAwaitableState A) → Poll S (StreamAwaitableState B)
  poll_next upstream w s = do
    (s', state, woken) ← upstream w s
    mapped ← StreamAwaitable.map func state
    some (s', mapped, woken)

  -- If the awaitable becomes ready with `a`, then `map` becomes ready with the value of the
  -- function at `a`.
  Resolves-map :
      {upstream : Poll S (AwaitableState A)} {w : Waker} {s t : S} {a : A}
      → Resolves upstream w s a t
      → Resolves (poll upstream) w s (func a) t
  unfolding poll
  Resolves-map (now p) = now (>>=-some _ p)
  Resolves-map (later p r) = later (>>=-some _ p) (Resolves-map r)

  -- If the stream delivers a list and ends, then `map` delivers the values of the function at its
  -- items, in order, and ends.
  Emits-map :
      {upstream : Poll S (StreamAwaitableState A)} {w : Waker} {s : S} {xs : List A}
      → Emits upstream w s xs
      → Emits (poll_next upstream) w s (map func xs)
  unfolding poll_next
  Emits-map (stop p) = stop (>>=-some _ p)
  Emits-map (wait p e) = wait (>>=-some _ p) (Emits-map e)
  Emits-map (item p e) = item (>>=-some _ p) (Emits-map e)
