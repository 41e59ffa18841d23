-- ===== src/Stream/Take.antt =====
-- src/take.cppm
use pollcoro.Base.{
  ℕ, zero, suc, ◌-◌, ◌==◌, if◌then◌else◌, ◌>>=◌, List, [], some, ◌≡◌, refl, arith, take, length,
  ◌∷◌,
}
use pollcoro.Waker.{Waker}
use pollcoro.Awaitable.{Poll}
use pollcoro.StreamAwaitable.{StreamAwaitableState, finished, is_ready}
use pollcoro.Stream.{Emits, Delivers, here, stop, wait, item}

pub record TakeStreamAwaitable {ℓ} (S : Type ℓ) : Type ℓ where
  pub stream : S
  pub count : ℕ

module _ {ℓ κ} {S : Type ℓ} {A : Type κ} (upstream : Poll S (StreamAwaitableState A)) where
  unfoldable pub poll_next : Poll (TakeStreamAwaitable S) (StreamAwaitableState A)
  poll_next w t = if t.count == 0 then some (t, finished, []) else do
    (s, state, woken) ← upstream w t.stream
    some (
      record { stream = s; count = if is_ready state then t.count - 1 else t.count },
      state,
      woken,
    )

  -- One poll while items are left to take: the upstream's outcome, counted if it is an item.
  poll_next-suc :
      {w : Waker} {s s' : S} {state : StreamAwaitableState A} {woken : List Waker} (n : ℕ)
      → upstream w s ≡ some (s', state, woken)
      → poll_next w (record { stream = s; count = suc n })
        ≡ some (record { stream = s'; count = if is_ready state then n else suc n }, state, woken)
  unfolding poll_next
  poll_next-suc n p = ground arith

  -- If the stream delivers a list and ends, then `take` delivers the first `n` items of the list,
  -- or all if there are fewer, and ends.
  Emits-take :
      {w : Waker} {s : S} {xs : List A}
      → Emits upstream w s xs
      → (n : ℕ) → Emits poll_next w (record { stream = s; count = n }) (take n xs)
  unfolding poll_next
  Emits-take (stop p) zero = stop refl
  Emits-take (stop p) (suc n) = stop (poll_next-suc n p)
  Emits-take (wait p e) zero = stop refl
  Emits-take (wait p e) (suc n) = wait (poll_next-suc n p) (Emits-take e (suc n))
  Emits-take (item p e) zero = stop refl
  Emits-take (item p e) (suc n) = item (poll_next-suc n p) (Emits-take e n)

  -- If the stream delivers a list of `n` items, whether it ends or not, then `take` with the count
  -- `n` delivers that list and ends.
  Emits-take_of_Delivers :
      {w : Waker} {s t : S} {xs : List A}
      → Delivers upstream w s xs t
      → Emits poll_next w (record { stream = s; count = length xs }) xs
  unfolding poll_next
  Emits-take_of_Delivers here = stop refl
  Emits-take_of_Delivers (wait {xs = []} p d) = stop refl
  Emits-take_of_Delivers (wait {xs = x ∷ xs} p d) =
      wait (poll_next-suc (length xs) p) (Emits-take_of_Delivers d)
  Emits-take_of_Delivers (item {xs} p d) =
      item (poll_next-suc (length xs) p) (Emits-take_of_Delivers d)
