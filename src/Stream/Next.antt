-- ===== src/Stream/Next.antt =====
-- src/next.cppm. The stream is held by reference: its state is that of the awaitable.
use pollcoro.Base.{if◌then◌else◌, ◌>>=◌, List, ◌∷◌, Option, none, some, >>=-some}
use pollcoro.Waker.{Waker}
use pollcoro.Awaitable.{Poll, AwaitableState}
use pollcoro.Awaitable
use pollcoro.StreamAwaitable.{StreamAwaitableState, is_ready, is_done, take_result}
use pollcoro.Stream.{Emits, wait, item, Resolves, now, later}

module _ {ℓ κ} {S : Type ℓ} {A : Type κ} (upstream : Poll S (StreamAwaitableState A)) where
  unfoldable pub poll : Poll S (AwaitableState (Option A))
  poll w stream = do
    (s, state, woken) ← upstream w stream
    if is_done state
        then some (s, Awaitable.ready none, woken)
        else if is_ready state
        then (do (result, _) ← take_result state; some (s, Awaitable.ready (some result), woken))
        else some (s, Awaitable.pending, woken)

  -- If the stream delivers an item and then a list, then `next` becomes ready with the item, and
  -- the stream is left to deliver the list.
  Resolves-next :
      {w : Waker} {s : S} {x : A} {xs : List A}
      → Emits upstream w s (x ∷ xs)
      → (s' : S) × Resolves poll w s (some x) s' × Emits upstream w s' xs
  unfolding poll
  Resolves-next (wait p e) =
      let (s', r, rest) = Resolves-next e in (s', later (>>=-some _ p) r, rest)
  Resolves-next (item {s'} p e) = (s', now (>>=-some _ p), e)
