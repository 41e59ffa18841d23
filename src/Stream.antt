-- ===== src/Stream.antt =====
-- What the polls of an awaitable and of a stream come to: the specification that the adapters are
-- proved against. The same waker `w` is passed to every poll, as `block_on` and a task do.
pub mod Take
pub mod Skip
pub mod TakeWhile
pub mod SkipWhile
pub mod Map
pub mod Enumerate
pub mod Chain
pub mod Sources
pub mod Window
pub mod Last
pub mod Next
pub mod Nth
pub mod Fold
pub mod Flatten
pub mod Zip
pub mod Coroutine
pub mod Alert
use pollcoro.Base.{List, [], ◌∷◌, ◌++◌, Option, none, some, ◌≡◌, ap, ◌∙◌}
use pollcoro.Waker.{Waker}
use pollcoro.Awaitable.{Poll, AwaitableState}
use pollcoro.Awaitable
use pollcoro.StreamAwaitable.{StreamAwaitableState, ready, pending, finished}

-- A loop polls, and goes round again: what was woken before comes first.
abbrev pub prepend {ℓ κ} :
    {S : Type ℓ} {R : Type κ}
    → List Waker
    → Option (S × R × List Waker)
    → Option (S × R × List Waker)
prepend woken none = none
prepend woken (some (s, r, woken')) = some (s, r, woken ++ woken')

module _ {ℓ κ} {S : Type ℓ} {A : Type κ} (poll_next : Poll S (StreamAwaitableState A))
    (w : Waker) where
  -- Polled again and again from the state `s`, the stream delivers exactly the items of the list,
  -- in order, with any number of pending polls between them, and then it is done.
  pub data Emits : S → List A → Type (ℓ ⊔ κ) where
    stop : {s s' : S} {woken : List Waker} → poll_next w s ≡ some (s', finished, woken) → Emits s []
    wait :
        {s s' : S} {xs : List A} {woken : List Waker}
        → poll_next w s ≡ some (s', pending, woken)
        → Emits s' xs
        → Emits s xs
    item :
        {s s' : S} {x : A} {xs : List A} {woken : List Waker}
        → poll_next w s ≡ some (s', ready x, woken)
        → Emits s' xs
        → Emits s (x ∷ xs)

  -- The stream delivers the items of the list, and stands at the second state; it may go on.
  pub data Delivers : S → List A → S → Type (ℓ ⊔ κ) where
    here : {s : S} → Delivers s [] s
    wait :
        {s s' t : S} {xs : List A} {woken : List Waker}
        → poll_next w s ≡ some (s', pending, woken)
        → Delivers s' xs t
        → Delivers s xs t
    item :
        {s s' t : S} {x : A} {xs : List A} {woken : List Waker}
        → poll_next w s ≡ some (s', ready x, woken)
        → Delivers s' xs t
        → Delivers s (x ∷ xs) t

  -- Each of the streams delivers the list at its place.
  pub data EachEmits : List S → List (List A) → Type (ℓ ⊔ κ) where
    no_streams : EachEmits [] []
    each :
        {s : S} {xs : List A} {ss : List S} {xss : List (List A)}
        → Emits s xs
        → EachEmits ss xss
        → EachEmits (s ∷ ss) (xs ∷ xss)

  -- `Emits` with the outcome of its first poll given: for a poll that is a loop.
  pub data Opening (o : Option (S × StreamAwaitableState A × List Waker))
      : List A → Type (ℓ ⊔ κ) where
    stop : {s' : S} {woken : List Waker} → o ≡ some (s', finished, woken) → Opening o []
    wait :
        {s' : S} {xs : List A} {woken : List Waker}
        → o ≡ some (s', pending, woken)
        → Emits s' xs
        → Opening o xs
    item :
        {s' : S} {x : A} {xs : List A} {woken : List Waker}
        → o ≡ some (s', ready x, woken)
        → Emits s' xs
        → Opening o (x ∷ xs)

  pub Emits-of_Opening : {s : S} {xs : List A} → Opening (poll_next w s) xs → Emits s xs
  Emits-of_Opening (stop p) = stop p
  Emits-of_Opening (wait p e) = wait p e
  Emits-of_Opening (item p e) = item p e

  pub Opening-of_Emits : {s : S} {xs : List A} → Emits s xs → Opening (poll_next w s) xs
  Opening-of_Emits (stop p) = stop p
  Opening-of_Emits (wait p e) = wait p e
  Opening-of_Emits (item p e) = item p e

  -- One more round of the loop before it.
  pub Opening-prepend :
      {o o' : Option (S × StreamAwaitableState A × List Waker)} {xs : List A} (woken : List Waker)
      → o' ≡ prepend woken o
      → Opening o xs
      → Opening o' xs
  Opening-prepend woken q (stop p) = stop (q ∙ ap (prepend woken) p)
  Opening-prepend woken q (wait p e) = wait (q ∙ ap (prepend woken) p) e
  Opening-prepend woken q (item p e) = item (q ∙ ap (prepend woken) p) e

module _ {ℓ κ} {S : Type ℓ} {A : Type κ} (poll : Poll S (AwaitableState A)) (w : Waker) where
  -- Polled again and again from the first state, the awaitable is pending any number of times and
  -- then ready with the value, and stands at the second state.
  pub data Resolves : S → A → S → Type (ℓ ⊔ κ) where
    now :
        {s s' : S} {a : A} {woken : List Waker}
        → poll w s ≡ some (s', Awaitable.ready a, woken)
        → Resolves s a s'
    later :
        {s s' t : S} {a : A} {woken : List Waker}
        → poll w s ≡ some (s', Awaitable.pending, woken)
        → Resolves s' a t
        → Resolves s a t

  -- `Resolves` with the outcome of its first poll given.
  pub data Settling (o : Option (S × AwaitableState A × List Waker)) : A → S → Type (ℓ ⊔ κ) where
    now :
        {s' : S} {a : A} {woken : List Waker}
        → o ≡ some (s', Awaitable.ready a, woken)
        → Settling o a s'
    later :
        {s' t : S} {a : A} {woken : List Waker}
        → o ≡ some (s', Awaitable.pending, woken)
        → Resolves s' a t
        → Settling o a t

  pub Resolves-of_Settling : {s t : S} {a : A} → Settling (poll w s) a t → Resolves s a t
  Resolves-of_Settling (now p) = now p
  Resolves-of_Settling (later p r) = later p r

  pub Settling-prepend :
      {o o' : Option (S × AwaitableState A × List Waker)} {a : A} {t : S} (woken : List Waker)
      → o' ≡ prepend woken o
      → Settling o a t
      → Settling o' a t
  Settling-prepend woken q (now p) = now (q ∙ ap (prepend woken) p)
  Settling-prepend woken q (later p r) = later (q ∙ ap (prepend woken) p) r
