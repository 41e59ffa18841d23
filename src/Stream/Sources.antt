-- ===== src/Stream/Sources.antt =====
-- src/range.cppm, src/repeat.cppm, src/empty.cppm and src/iter.cppm: streams that never block.
use pollcoro.Base.{
  leb, ℕ, zero, suc, ◌+◌, ◌-◌, ◌<◌, ◌==◌, size_mod, size_inc, size_inc_lem, get_elem?,
  get_elem?-front, length-append, replicate, if◌then◌else◌, ◌>>=◌, List, [], ◌∷◌, ◌++◌, some, true,
  false, Bool-cases, inl, inr, ◌≡◌, refl, arith, length,
}
use mathlib.Core.List.{append_assoc}
use pollcoro.Waker.{Waker}
use pollcoro.Awaitable.{Poll}
use pollcoro.StreamAwaitable.{StreamAwaitableState, ready, finished}
use pollcoro.Stream.{Delivers, here, Emits, stop, item}

-- `range_stream_awaitable<std::size_t>`.
pub record RangeStreamAwaitable : Type 0 where
  pub current : ℕ
  pub end : ℕ

unfoldable pub range_poll_next : Poll RangeStreamAwaitable (StreamAwaitableState ℕ)
range_poll_next w t =
    if leb t.end t.current
    then some (t, finished, [])
    else some (record t { current = size_inc t.current }, ready t.current, [])

-- `k` numbers from `i` on.
unfoldable pub count_from : ℕ → ℕ → List ℕ
count_from i zero = []
count_from i (suc k) = i ∷ count_from (i + 1) k

Emits-count :
    (w : Waker) (k i end : ℕ)
    → i + k ≡ end
    → end < size_mod
    → Emits range_poll_next w (record { current = i; end = end }) (count_from i k)
unfolding range_poll_next count_from
Emits-count w zero i end e h =
    stop {s' = record { current = i; end = end }} {woken = []} (ground arith)
Emits-count w (suc k) i end e h =
    item {s' = record { current = i + 1; end = end }} {woken = []} (ground (arith, size_inc_lem i))
      (Emits-count w k (i + 1) end (omega arith) h)

-- A range whose end is below 2 ^ 64 delivers the numbers from its begin up to, and without, its
-- end, and ends; none if the begin is not below the end.
Emits-range :
    (w : Waker) (begin end : ℕ)
    → end < size_mod
    → Emits range_poll_next w
        (record { current = begin; end = end })
        (count_from begin (end - begin))
unfolding range_poll_next count_from
Emits-range w begin end h = elim (Bool-cases (leb begin end)) [
  | inl up ↦ Emits-count w (end - begin) begin end (ground arith) h
  | inr down ↦
      rw (none_left down)
        (stop {s' = record { current = begin; end = end }} {woken = []} (ground arith))
]
  where
    none_left : leb begin end ≡ false → end - begin ≡ 0
    none_left down = ground arith

module _ {κ} {A : Type κ} where
  -- `repeat_stream_awaitable`: its state is the value, which every poll copies.
  unfoldable pub repeat_poll_next : Poll A (StreamAwaitableState A)
  repeat_poll_next w value = some (value, ready value, [])

  Delivers-repeat :
      (w : Waker) (n : ℕ) (value : A) → Delivers repeat_poll_next w value (replicate n value) value
  unfolding repeat_poll_next
  Delivers-repeat w zero value = here
  Delivers-repeat w (suc n) value = item refl (Delivers-repeat w n value)

  -- `empty_stream_awaitable` has no state.
  unfoldable pub empty_poll_next : Poll (Unit {0}) (StreamAwaitableState A)
  empty_poll_next w t = some (t, finished, [])

-- `iter_stream_awaitable` in its copying mode over a container that it owns: the iterators are
-- positions in the container, and the end is the container's length.
pub record IterStreamAwaitable {κ} (A : Type κ) : Type κ where
  pub storage : List A
  pub current : ℕ

module _ {κ} {A : Type κ} where
  unfoldable pub iter_poll_next : Poll (IterStreamAwaitable A) (StreamAwaitableState A)
  iter_poll_next w t = if t.current == length t.storage then some (t, finished, []) else (do
    x ← get_elem? t.storage t.current
    some (record t { current = t.current + 1 }, ready x, []))

  abbrev iter_at : List A → List A → IterStreamAwaitable A
  iter_at gone left = record { storage = gone ++ left; current = length gone }

  iter_at-snoc :
      (gone : List A) (x : A) (left : List A)
      → iter_at (gone ++ x ∷ []) left
        ≡ record { storage = gone ++ x ∷ left; current = length gone + 1 }
  iter_at-snoc gone x left = rw (append_assoc gone (x ∷ []) left, length-append gone (x ∷ [])) refl

  iter_poll_next-at :
      (w : Waker) (gone : List A) (x : A) (left : List A)
      → iter_poll_next w (iter_at gone (x ∷ left))
        ≡ some (iter_at (gone ++ x ∷ []) left, ready x, [])
  unfolding iter_poll_next
  iter_poll_next-at w gone x left = rw (test, get_elem?-front gone x left, iter_at-snoc gone x left)
    where
      test : (length gone == length (gone ++ x ∷ left)) ≡ false
      test = ground (arith, length-append gone (x ∷ left))

  Emits-iter_at : (w : Waker) (left gone : List A) → Emits iter_poll_next w (iter_at gone left) left
  unfolding iter_poll_next
  Emits-iter_at w [] gone = stop {s' = iter_at gone []} {woken = []} (rw test)
    where
      test : (length gone == length (gone ++ [])) ≡ true
      test = ground (arith, length-append gone [])
  Emits-iter_at w (x ∷ left) gone =
      item (iter_poll_next-at w gone x left) (Emits-iter_at w left (gone ++ x ∷ []))

  -- `iter` over a container that it owns delivers the elements of the container in order and ends.
  pub Emits-iter :
      (w : Waker) (storage : List A)
      → Emits iter_poll_next w (record { storage = storage; current = 0 }) storage
  Emits-iter w storage = Emits-iter_at w storage []
