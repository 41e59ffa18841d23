-- ===== src/Awaitable/Trace.antt =====
-- src/awaitable.cppm, src/stream_awaitable.cppm: what a series of polls gives, for the wrappers of awaitables.
use pollcoro.Base.{◌>>=◌, List, [], ◌∷◌, Option, some}
use pollcoro.Waker.{Waker}
use pollcoro.Awaitable.{Poll}

module _ {ℓ κ} {S : Type ℓ} {O : Type κ} (poll : Poll S O) where
  -- Polls with these wakers, one after the other: the state after them, and each outcome with the wakers
  -- called. `none` if one of them is undefined.
  unfoldable pub trace : List Waker → S → Option (S × List (O × List Waker))
  trace [] s = some (s, [])
  trace (w ∷ ws) s = do
    (s', outcome, woken) ← poll w s
    (t, outcomes) ← trace ws s'
    some (t, (outcome, woken) ∷ outcomes)
