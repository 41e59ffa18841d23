-- ===== src/Stream/Alert.antt =====
-- Streams whose pending polls wake somebody.
use pollcoro.Base.{
  Bool, true, false, ◌||◌, if◌then◌else◌, ◌>>=◌, List, Option, none, some, ◌≡◌, refl, subst,
}
use pollcoro.Waker.{Waker}
use pollcoro.Awaitable.{Poll}
use pollcoro.StreamAwaitable.{StreamAwaitableState, is_ready, is_done, pending}
use pollcoro.Stream.{Emits, stop, wait, item}

taken {ℓ} :
    {X : Type ℓ} {x y : X} (b : Bool) → (if b then some x else none) ≡ some y → some x ≡ some y
taken true p = p
taken false p = cc

taken_test {ℓ} :
    {X : Type ℓ} (x y : X) (b : Bool) → (if b then some x else none) ≡ some y → b ≡ true
taken_test x y true p = refl
taken_test x y false p = cc

module _ {ℓ κ} {S : Type ℓ} {A : Type κ} (test : List Waker → Bool) where
  -- The outcome of a poll, and none if it is pending and fails the test on what it woke.
  abbrev pub check :
      S × StreamAwaitableState A × List Waker → Option (S × StreamAwaitableState A × List Waker)
  check (s, state, woken) =
      if is_done state || (is_ready state || test woken) then some (s, state, woken) else none

  -- The stream, polled as if a pending poll that fails the test had no outcome.
  abbrev pub alert : Poll S (StreamAwaitableState A) → Poll S (StreamAwaitableState A)
  alert poll_next w s = poll_next w s >>= check

  pub polled :
      (o : Option (S × StreamAwaitableState A × List Waker))
      {r : S × StreamAwaitableState A × List Waker}
      → (o >>= check) ≡ some r
      → o ≡ some r
  polled none p = cc
  polled (some (s, state, woken)) p = taken (is_done state || (is_ready state || test woken)) p

  pub passed :
      (o : Option (S × StreamAwaitableState A × List Waker)) {s : S} {woken : List Waker}
      → (o >>= check) ≡ some (s, pending, woken)
      → test woken ≡ true
  passed o {s} {woken} p =
      taken_test (s, pending, woken) (s, pending, woken) (test woken)
        (subst (λ x. (x >>= check) ≡ some (s, pending, woken)) (polled o p) p)

  pub Emits-of_alert :
      {poll_next : Poll S (StreamAwaitableState A)} {w : Waker} {s : S} {xs : List A}
      → Emits (alert poll_next) w s xs
      → Emits poll_next w s xs
  Emits-of_alert {poll_next} {w} {s} (stop p) = stop (polled (poll_next w s) p)
  Emits-of_alert {poll_next} {w} {s} (wait p e) = wait (polled (poll_next w s) p) (Emits-of_alert e)
  Emits-of_alert {poll_next} {w} {s} (item p e) = item (polled (poll_next w s) p) (Emits-of_alert e)
