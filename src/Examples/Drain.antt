-- ===== src/Examples/Drain.antt =====
-- The loop `while (auto value = co_await next(s))` of the programs.
pub mod Completion
use pollcoro.Base.{ℕ, zero, suc, ◌>>=◌, List, [], ◌∷◌, Option, none, some}
use pollcoro.Waker.{Waker}
use pollcoro.Awaitable.{Poll}
use pollcoro.StreamAwaitable.{StreamAwaitableState}
use pollcoro.Stream.Next
use pollcoro.BlockOn.{await}

module _ {ℓ κ} {S : Type ℓ} {A : Type κ} (poll_next : Poll S (StreamAwaitableState A)) (polls : ℕ)
    (w : Waker) where
  -- The values that the loop goes through, in so many rounds, with so many polls for each.
  unfoldable pub drain : ℕ → S → Option (List A)
  unfolding await
  drain zero s = none
  drain (suc rounds) s = do
    (s', item) ← await (Next.poll poll_next) polls w s
    elim item [ none ↦ some [] | some a ↦ do rest ← drain rounds s'; some (a ∷ rest) ]
