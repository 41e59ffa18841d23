-- ===== src/Stream/Flatten.antt =====
-- src/flatten.cppm
use pollcoro.Base.{
  ℕ, zero, suc, ◌+◌, ◌<◌, if◌then◌else◌, ◌>>=◌, List, ◌++◌, Option, none, some, >>=-some, arith,
  length,
}
use mathlib.Core.List.{flatten}
use pollcoro.Waker.{Waker}
use pollcoro.Awaitable.{Poll}
use pollcoro.StreamAwaitable.{
  StreamAwaitableState, pending, finished, is_ready, is_done, take_result,
}
use pollcoro.Stream.{
  prepend, EachEmits, no_streams, each, Emits, stop, wait, item, Opening, Emits-of_Opening,
  Opening-prepend,
}

-- A stream of streams delivers states of inner streams, which are polled by `inner`.
pub record FlattenStreamAwaitable {ℓ μ} (S : Type ℓ) (T : Type μ) : Type (ℓ ⊔ μ) where
  pub stream : S
  pub inner_stream : Option T

module _ {ℓ κ μ} {S : Type ℓ} {T : Type μ} {A : Type κ} (upstream : Poll S (StreamAwaitableState T))
    (inner : Poll T (StreamAwaitableState A)) (fuel : ℕ) where
  -- The `while (true)` of `poll_next`; `none` when the fuel runs out.
  flatten_loop :
      ℕ
      → Waker
      → FlattenStreamAwaitable S T
      → Option (FlattenStreamAwaitable S T × StreamAwaitableState A × List Waker)
  flatten_loop zero w t = none
  flatten_loop (suc rounds) w t = elim t.inner_stream [
    | some i ↦ do
      (i', state, woken) ← inner w i
      let rest = flatten_loop rounds w (record t { inner_stream = none })
      if is_done state
          then prepend woken rest
          else some (record t { inner_stream = some i' }, state, woken)
    | none ↦ do
      (s, state, woken) ← upstream w t.stream
      if is_done state
          then some (record { stream = s; inner_stream = none }, finished, woken)
          else if is_ready state
          then (do
            (i, _) ← take_result state
            prepend woken (flatten_loop rounds w (record { stream = s; inner_stream = some i })))
          else some (record { stream = s; inner_stream = none }, pending, woken)
  ]

  unfoldable pub poll_next : Poll (FlattenStreamAwaitable S T) (StreamAwaitableState A)
  unfolding flatten_loop
  poll_next w t = flatten_loop fuel w t

  abbrev at : S → Option T → FlattenStreamAwaitable S T
  at s o = record { stream = s; inner_stream = o }

  -- The rest of one inner stream, and then whatever comes when it is gone.
  Opening-inner :
      {w : Waker} (s : S) {i : T} {xs ys : List A} (k : ℕ)
      → Emits inner w i xs
      → ((rounds : ℕ) → k < rounds → Opening poll_next w (flatten_loop rounds w (at s none)) ys)
      → k + 1 < fuel
      → (rounds : ℕ) → k + 1 < rounds
      → Opening poll_next w (flatten_loop rounds w (at s (some i))) (xs ++ ys)
  unfolding poll_next
  Opening-inner s k e next h zero r = absurd (omega arith)
  Opening-inner {w} s k (stop {woken} p) next h (suc rounds) r =
      Opening-prepend poll_next w woken (>>=-some _ p) (next rounds (omega arith))
  Opening-inner {w} s k (wait p e) next h (suc rounds) r =
      wait (>>=-some _ p) (Emits-of_Opening poll_next w (Opening-inner s k e next h fuel h))
  Opening-inner {w} s k (item p e) next h (suc rounds) r =
      item (>>=-some _ p) (Emits-of_Opening poll_next w (Opening-inner s k e next h fuel h))

  Opening-outer :
      {w : Waker} {s : S} {is : List T} {xss : List (List A)}
      → Emits upstream w s is
      → EachEmits inner w is xss
      → length is + length is < fuel
      → (rounds : ℕ) → length is + length is < rounds
      → Opening poll_next w (flatten_loop rounds w (at s none)) (flatten xss)
  unfolding poll_next flatten
  Opening-outer e es h zero r = absurd (omega arith)
  Opening-outer (stop p) no_streams h (suc rounds) r = stop (>>=-some _ p)
  Opening-outer {w} (wait p e) es h (suc rounds) r =
      wait (>>=-some _ p) (Emits-of_Opening poll_next w (Opening-outer e es h fuel h))
  Opening-outer {w} (item {s'} {xs = is} {woken} p e) (each ei es) h (suc rounds) r =
      Opening-prepend poll_next w woken (>>=-some _ p) (
        Opening-inner s' (length is + length is) ei (Opening-outer e es (omega arith)) (omega arith)
          rounds (omega arith))

  -- If a stream delivers streams and ends, and each of these delivers a list and ends, then
  -- `flatten` delivers the concatenation of the lists and ends, with fuel for two rounds per inner
  -- stream and one more.
  pub Emits-flatten :
      {w : Waker} {s : S} {is : List T} {xss : List (List A)}
      → Emits upstream w s is
      → EachEmits inner w is xss
      → length is + length is < fuel
      → Emits poll_next w (record { stream = s; inner_stream = none }) (flatten xss)
  unfolding poll_next
  Emits-flatten {w} e es h = Emits-of_Opening poll_next w (Opening-outer e es h fuel h)
