-- ===== src/Stream/Chain.antt =====
-- src/chain.cppm. The tuple of streams is a list of states with one poll: streams of several types
-- have a sum of their states and a poll by cases.
use pollcoro.Base.{
  ℕ, zero, suc, ◌+◌, ◌-◌, ltb, get_elem?, set, get_elem?-front, set-front, length-append,
  if◌then◌else◌, ◌>>=◌, List, [], ◌∷◌, ◌++◌, Option, none, some, true, false, ◌≡◌, refl, sym, ◌∙◌,
  arith, length,
}
use mathlib.Core.List.{flatten, append_assoc}
use pollcoro.Waker.{Waker}
use pollcoro.Awaitable.{Poll}
use pollcoro.StreamAwaitable.{StreamAwaitableState, finished, is_done}
use pollcoro.Stream.{
  prepend, EachEmits, no_streams, each, Emits, stop, wait, item, Opening, Emits-of_Opening,
  Opening-prepend,
}

pub record ChainStreamAwaitable {ℓ} (S : Type ℓ) : Type ℓ where
  pub streams : List S
  pub current_index : ℕ

module _ {ℓ κ} {S : Type ℓ} {A : Type κ} (upstream : Poll S (StreamAwaitableState A)) where
  -- `poll_stream<I>`, which calls `poll_stream<I + 1>`: the first argument is the number of streams
  -- from `I` on.
  poll_stream :
      ℕ
      → ℕ
      → Waker
      → ChainStreamAwaitable S
      → Option (ChainStreamAwaitable S × StreamAwaitableState A × List Waker)
  poll_stream zero i w t = none
  poll_stream (suc streams_left) i w t = do
    stream ← get_elem? t.streams i
    (s, state, woken) ← upstream w stream
    let streams = set t.streams i s
    let next =
        poll_stream streams_left (i + 1) w (record { streams = streams; current_index = i + 1 })
    if is_done state
        then (if ltb (i + 1) (length t.streams)
            then prepend woken next
            else some (record { streams = streams; current_index = i + 1 }, finished, woken))
        else some (record t { streams = streams }, state, woken)

  -- `poll_impl`: no index fits once `current_index_` is past the last stream.
  unfoldable pub poll_next : Poll (ChainStreamAwaitable S) (StreamAwaitableState A)
  unfolding poll_stream
  poll_next w t =
      if ltb t.current_index (length t.streams)
      then poll_stream (length t.streams - t.current_index) t.current_index w t
      else some (t, finished, [])

  abbrev at : List S → List S → ChainStreamAwaitable S
  at gone left = record { streams = gone ++ left; current_index = length gone }

  -- The next stream is up.
  abbrev advanced : List S → S → List S → ChainStreamAwaitable S
  advanced gone s left = record { streams = gone ++ s ∷ left; current_index = length gone + 1 }

  -- What `poll_stream` makes of the end of a stream.
  moved_on :
      List S
      → S
      → List S
      → Waker
      → List Waker
      → Option (ChainStreamAwaitable S × StreamAwaitableState A × List Waker)
  moved_on gone s left w woken =
      if ltb (length gone + 1) (length (gone ++ s ∷ left))
      then prepend woken (poll_stream (length left) (length gone + 1) w (advanced gone s left))
      else some (advanced gone s left, finished, woken)

  poll_stream-at :
      {w : Waker} {s s' : S} {state : StreamAwaitableState A} {woken : List Waker}
      (gone left : List S)
      → upstream w s ≡ some (s', state, woken)
      → poll_stream (suc (length left)) (length gone) w (at gone (s ∷ left)) ≡ (
          if is_done state
          then moved_on gone s' left w woken
          else some (at gone (s' ∷ left), state, woken))
  unfolding poll_stream moved_on
  poll_stream-at {s} {s'} gone left p = rw (
    get_elem?-front gone s left,
    p,
    set-front gone s left s',
    length-append gone (s ∷ left),
    length-append gone (s' ∷ left),
  )

  poll_next-at :
      (w : Waker) (gone : List S) (s : S) (left : List S)
      → poll_next w (at gone (s ∷ left))
        ≡ poll_stream (suc (length left)) (length gone) w (at gone (s ∷ left))
  unfolding poll_next
  poll_next-at w gone s left = rw (test, count)
    where
      test : ltb (length gone) (length (gone ++ s ∷ left)) ≡ true
      test = ground (arith, length-append gone (s ∷ left))

      count : length (gone ++ s ∷ left) - length gone ≡ suc (length left)
      count = omega (arith, length-append gone (s ∷ left))

  advanced-at :
      (gone : List S) (s : S) (left : List S) → advanced gone s left ≡ at (gone ++ s ∷ []) left
  advanced-at gone s left = rw (append_assoc gone (s ∷ []) left, length-append gone (s ∷ [])) refl

  moved_on-nil :
      (gone : List S) (s : S) (w : Waker) (woken : List Waker)
      → moved_on gone s [] w woken ≡ some (advanced gone s [], finished, woken)
  unfolding moved_on
  moved_on-nil gone s w woken = rw test
    where
      test : ltb (length gone + 1) (length (gone ++ s ∷ [])) ≡ false
      test = ground (arith, length-append gone (s ∷ []))

  moved_on-cons :
      (gone : List S) (s next : S) (left : List S) (w : Waker) (woken : List Waker)
      → moved_on gone s (next ∷ left) w woken
        ≡ prepend woken (poll_next w (at (gone ++ s ∷ []) (next ∷ left)))
  unfolding moved_on
  moved_on-cons gone s next left w woken = rw (
    test,
    advanced-at gone s (next ∷ left),
    sym (length-append gone (s ∷ [])),
    ← poll_next-at w (gone ++ s ∷ []) next left,
  )
    where
      test : ltb (length gone + 1) (length (gone ++ s ∷ next ∷ left)) ≡ true
      test = ground (arith, length-append gone (s ∷ next ∷ left))

  -- The rest of the stream that is up, and then whatever comes when it is gone.
  Opening-current :
      {w : Waker} {s : S} {xs ys : List A} (gone left : List S)
      → Emits upstream w s xs
      → ((s' : S) (woken : List Waker) → Opening poll_next w (moved_on gone s' left w woken) ys)
      → Opening poll_next w (poll_next w (at gone (s ∷ left))) (xs ++ ys)
  Opening-current {w} gone left (stop {s} {s'} {woken} p) next =
      rw (poll_next-at w gone s left, poll_stream-at gone left p) (next s' woken)
  Opening-current {w} gone left (wait {s} p e) next =
      wait (poll_next-at w gone s left ∙ poll_stream-at gone left p)
        (Emits-of_Opening poll_next w (Opening-current gone left e next))
  Opening-current {w} gone left (item {s} p e) next =
      item (poll_next-at w gone s left ∙ poll_stream-at gone left p)
        (Emits-of_Opening poll_next w (Opening-current gone left e next))

  Opening-chain :
      {w : Waker} {left : List S} {xss : List (List A)}
      → EachEmits upstream w left xss
      → {s : S} {xs : List A} → Emits upstream w s xs
      → (gone : List S) → Opening poll_next w (poll_next w (at gone (s ∷ left))) (xs ++ flatten xss)
  unfolding flatten
  Opening-chain {w} no_streams e gone =
      Opening-current gone [] e (λ s' woken. stop (moved_on-nil gone s' w woken))
  Opening-chain {w} (each {s} {ss} e' es) e gone = Opening-current gone (s ∷ ss) e λ s' woken.
      Opening-prepend poll_next w woken (moved_on-cons gone s' s ss w woken)
        (Opening-chain es e' (gone ++ s' ∷ []))

  -- If each stream of a chain delivers a list and ends, then the chain delivers the concatenation
  -- of the lists and ends.
  Emits-chain :
      {w : Waker} {ss : List S} {xss : List (List A)}
      → EachEmits upstream w ss xss
      → Emits poll_next w (record { streams = ss; current_index = 0 }) (flatten xss)
  unfolding poll_next flatten
  Emits-chain no_streams = stop refl
  Emits-chain {w} (each e es) = Emits-of_Opening poll_next w (Opening-chain es e [])
