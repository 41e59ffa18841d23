-- ===== src/Stream/Nth.antt =====
-- src/nth.cppm. The stream is held by reference: its state is a part of the state here.
use pollcoro.Base.{
  ℕ, zero, suc, ◌+◌, ◌<◌, ◌==◌, size_mod, size_dec, size_dec-suc, size_dec-zero, ◌⊎◌, if◌then◌else◌,
  ◌>>=◌, List, Option, none, some, false, not, ◌≡◌, >>=-some, arith, length,
}
use pollcoro.Waker.{Waker}
use pollcoro.Awaitable.{Poll, AwaitableState}
use pollcoro.Awaitable
use pollcoro.StreamAwaitable.{StreamAwaitableState, is_ready, is_done, take_result}
use pollcoro.Stream.{
  prepend, Emits, stop, wait, item, Resolves, now, later, Settling, Resolves-of_Settling,
  Settling-prepend,
}

pub record NthStreamAwaitable {ℓ} (S : Type ℓ) : Type ℓ where
  pub stream : S
  pub n : ℕ

module _ {ℓ κ} {S : Type ℓ} {A : Type κ} (upstream : Poll S (StreamAwaitableState A))
    (fuel : ℕ) where
  -- The `while (true)` of `poll`; `none` when the fuel runs out.
  nth_loop :
      ℕ
      → Waker
      → NthStreamAwaitable S
      → Option (NthStreamAwaitable S × AwaitableState (Option A) × List Waker)
  nth_loop zero w t = none
  nth_loop (suc rounds) w t = do
    (s, state, woken) ← upstream w t.stream
    let n = size_dec t.n
    let rest = nth_loop rounds w (record { stream = s; n = n })
    if is_done state
        then some (record t { stream = s }, Awaitable.ready none, woken)
        else if not (is_ready state)
        then some (record t { stream = s }, Awaitable.pending, woken)
        else if n == 0
        then (do
          (result, _) ← take_result state
          some (record { stream = s; n = n }, Awaitable.ready (some result), woken))
        else prepend woken rest

  unfoldable pub poll : Poll (NthStreamAwaitable S) (AwaitableState (Option A))
  unfolding nth_loop
  poll w t = nth_loop fuel w t

  abbrev at : S → ℕ → NthStreamAwaitable S
  at s n = record { stream = s; n = n }

  -- The count does not reach 0 within `k` items; from 0 it wraps round.
  abbrev Outlasts : ℕ → ℕ → Type 0
  Outlasts n k = (n < size_mod) × ((k < n) ⊎ ((n ≡ 0) × (k + 1 < size_mod)))

  Outlasts-dec :
      (n k : ℕ) → Outlasts n (suc k) → Outlasts (size_dec n) k × ((size_dec n == 0) ≡ false)
  Outlasts-dec zero k h = ground (arith, size_dec-zero)
  Outlasts-dec (suc n) k h = ground (arith, size_dec-suc n)

  Settling-nth_end :
      {w : Waker} {s : S} {xs : List A}
      → Emits upstream w s xs
      → (n : ℕ) → Outlasts n (length xs)
      → length xs < fuel
      → (rounds : ℕ) → length xs < rounds
      → (t : NthStreamAwaitable S) × Settling poll w (nth_loop rounds w (at s n)) none t
  unfolding poll
  Settling-nth_end e n o h zero k = absurd (omega arith)
  Settling-nth_end (stop {s'} p) n o h (suc rounds) k = (at s' n, now (>>=-some _ p))
  Settling-nth_end {w} (wait p e) n o h (suc rounds) k =
      let (t, r) = Settling-nth_end e n o h fuel h in
      (t, later (>>=-some _ p) (Resolves-of_Settling poll w r))
  Settling-nth_end {w} (item {xs} {woken} p e) n o h (suc rounds) k =
      let (o', nonzero) = Outlasts-dec n (length xs) o in
      let (t, r) = Settling-nth_end e (size_dec n) o' (omega arith) rounds (omega arith) in
      (t, Settling-prepend poll w woken (rw (p, nonzero)) r)

  -- If the stream delivers a list and ends, and `n` is above its length, or `n` is 0 and the
  -- length is below 2 ^ 64 - 1, then `nth` becomes ready with no value, with fuel above the
  -- length.
  Resolves-nth_end :
      {w : Waker} {s : S} {xs : List A}
      → Emits upstream w s xs
      → (n : ℕ) → n < size_mod
      → (length xs < n) ⊎ ((n ≡ 0) × (length xs + 1 < size_mod))
      → length xs < fuel
      → (t : NthStreamAwaitable S) × Resolves poll w (at s n) none t
  unfolding poll
  Resolves-nth_end {w} e n b o h =
      let (t, r) = Settling-nth_end e n (b, o) h fuel h in (t, Resolves-of_Settling poll w r)
