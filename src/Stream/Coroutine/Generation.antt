-- ===== src/Stream/Coroutine/Generation.antt =====
-- src/stream.cppm: what a stream delivers, beside its body run as a plain generator.
use pollcoro.Base.{ℕ, Bool, true, ◌>>=◌, List, [], ◌∷◌, ◌++◌, Option, none, some, ◌≡◌, refl, ◌∙◌}
use pollcoro.Waker.{Waker, wake}
use pollcoro.Awaitable.{Poll}
use pollcoro.StreamAwaitable.{StreamAwaitableState}
use pollcoro.Task.{Outcome}
use pollcoro.Task.Evaluation.{Settles, now, later, value, exception}
use pollcoro.Stream.{Emits, stop, wait, item, Opening, Emits-of_Opening}
use pollcoro.Stream.Alert.{check, alert, polled, passed}
use pollcoro.Stream.Coroutine.{
  Suspension, finishes, throws, awaits, yields, yields_from, Point, at, awaiting, Current, nothing,
  awaitable, stream, Coroutine, new, proceed, resume, finish, poll_next,
}

module _ {ℓ} {F S Q R E A : Type ℓ} (step : F → Suspension F S Q R E A)
    (await : Poll S (Outcome E R)) (inner : Poll Q (StreamAwaitableState A)) (w : Waker)
    (test : List Waker → Bool) where
  -- The body run as a generator, from a frame on: `co_await` is a call, `co_yield` adds to the list,
  -- and an exception that the body does not catch ends it. The pending polls of what it awaits, and of
  -- the streams that it yields from, pass the test on what they wake.
  pub data Generates : F → List A → Type ℓ where
    stopping : {f : F} → step f ≡ finishes → Generates f []
    throwing : {f : F} {e : E} → step f ≡ throws e → Generates f []
    awaiting_value :
        {f : F} {n : ℕ} {s : S} {k : R → F} {h : E → F} {r : R} {xs : List A}
        → step f ≡ awaits s k h
        → Settles await w (λ woken. test woken ≡ true) n s (value r)
        → Generates (k r) xs
        → Generates f xs
    awaiting_exception :
        {f : F} {n : ℕ} {s : S} {k : R → F} {h : E → F} {e : E} {xs : List A}
        → step f ≡ awaits s k h
        → Settles await w (λ woken. test woken ≡ true) n s (exception e)
        → Generates (h e) xs
        → Generates f xs
    yielding :
        {f f' : F} {a : A} {xs : List A}
        → step f ≡ yields a f'
        → Generates f' xs
        → Generates f (a ∷ xs)
    delegating :
        {f f' : F} {q : Q} {xs ys : List A}
        → step f ≡ yields_from q f'
        → Emits (alert test inner) w q xs
        → Generates f' ys
        → Generates f (xs ++ ys)

  abbrev polls : Poll (Coroutine F S Q R E A) (StreamAwaitableState A)
  polls = alert test (poll_next step await inner)

  -- A coroutine with no exception and no value stored.
  abbrev quiet : Point F R E → Current S Q → Option R → Coroutine F S Q R E A
  quiet p c r = record { point = p; exception = none; current = c; awaited = r; result = none }

  -- The body goes on from the frame, in the poll that resumed it.
  abbrev GoesOn : F → List A → Type ℓ
  GoesOn f xs =
      (p : Point F R E) (r : Option R) (woken : List Waker)
      → Opening polls w
          (some (finish w true woken (proceed (step f) (quiet p nothing r))) >>= check test) xs

  Opening-transport :
      {o o' : Option (Coroutine F S Q R E A × StreamAwaitableState A × List Waker)} {xs : List A}
      → o ≡ o'
      → Opening polls w o' xs
      → Opening polls w o xs
  Opening-transport q (Opening.stop p) = Opening.stop (q ∙ p)
  Opening-transport q (Opening.wait p e) = Opening.wait (q ∙ p) e
  Opening-transport q (Opening.item p e) = Opening.item (q ∙ p) e

  Emits-at :
      (f : F) {xs : List A} (r : Option R) → GoesOn f xs → Emits polls w (quiet (at f) nothing r) xs
  unfolding poll_next resume
  Emits-at f r next = Emits-of_Opening polls w (next (at f) r [])

  Emits-awaiting_value :
      {n : ℕ} {s : S} {r : R} {xs : List A} (k : R → F) (h : E → F)
      → Settles await w (λ woken. test woken ≡ true) n s (value r)
      → GoesOn (k r) xs
      → Emits polls w (quiet (awaiting k h) (awaitable s) none) xs
  unfolding poll_next resume
  Emits-awaiting_value {r = r} k h (now {woken = woken} p) next =
      Emits-of_Opening polls w (Opening-transport (rw p refl) (next (awaiting k h) (some r) woken))
  Emits-awaiting_value k h (later {s' = s'} {woken = woken} p c st) next =
      wait {s' = quiet (awaiting k h) (awaitable s') none} {woken = woken} (rw (p, c) refl)
        (Emits-awaiting_value k h st next)

  Emits-awaiting_exception :
      {n : ℕ} {s : S} {e : E} {xs : List A} (k : R → F) (h : E → F)
      → Settles await w (λ woken. test woken ≡ true) n s (exception e)
      → GoesOn (h e) xs
      → Emits polls w (quiet (awaiting k h) (awaitable s) none) xs
  unfolding poll_next resume
  Emits-awaiting_exception k h (now {woken = woken} p) next =
      Emits-of_Opening polls w (Opening-transport (rw p refl) (next (awaiting k h) none woken))
  Emits-awaiting_exception k h (later {s' = s'} {woken = woken} p c st) next =
      wait {s' = quiet (awaiting k h) (awaitable s') none} {woken = woken} (rw (p, c) refl)
        (Emits-awaiting_exception k h st next)

  Emits-delegating :
      {f : F} {q : Q} {xs ys : List A} (r : Option R)
      → Emits (alert test inner) w q xs
      → GoesOn f ys
      → Emits polls w (quiet (at f) (stream q) r) (xs ++ ys)
  unfolding poll_next resume
  Emits-delegating {f} {q} r (stop {woken} p) next =
      Emits-of_Opening polls w (rw (polled test (inner w q) p) (next (at f) r woken))
  Emits-delegating {f} {q} r (wait {s'} {woken} p e) next =
      wait {s = quiet (at f) (stream q) r} {s' = quiet (at f) (stream s') r} {woken = woken}
        (rw (polled test (inner w q) p, passed test (inner w q) p) refl) (Emits-delegating r e next)
  Emits-delegating {f} {q} r (item {s'} {x} {woken} p e) next =
      item {s = quiet (at f) (stream q) r} {s' = quiet (at f) (stream s') r} {x = x} {woken = woken}
        (rw (polled test (inner w q) p) refl) (Emits-delegating r e next)

  module _ (notifies : (woken : List Waker) → test (woken ++ wake w) ≡ true) where
    GoesOn-of_Generates : {f : F} {xs : List A} → Generates f xs → GoesOn f xs
    GoesOn-of_Generates (stopping p) at_ r woken = rw p (stop refl)
    GoesOn-of_Generates (throwing p) at_ r woken = rw p (stop refl)
    GoesOn-of_Generates (awaiting_value {k} {h} p st g) at_ r woken =
        rw (p, notifies woken) (wait refl (Emits-awaiting_value k h st (GoesOn-of_Generates g)))
    GoesOn-of_Generates (awaiting_exception {k} {h} p st g) at_ r woken =
        rw (p, notifies woken) (wait refl (Emits-awaiting_exception k h st (GoesOn-of_Generates g)))
    GoesOn-of_Generates (yielding {f'} p g) at_ r woken =
        rw p (item refl (Emits-at f' r (GoesOn-of_Generates g)))
    GoesOn-of_Generates (delegating p e g) at_ r woken =
        rw (p, notifies woken) (wait refl (Emits-delegating r e (GoesOn-of_Generates g)))

    -- If the body of a stream, run as a plain generator in which `co_await` is a call and an
    -- uncaught exception an end, gives a list, where the pending polls of what it awaits and
    -- yields from pass a test on the wakers that they call, as does any list of calls that ends
    -- with those of the waker, then the new stream delivers that list and ends, and each of its
    -- pending polls passes the test.
    pub Emits-of_Generates :
        {f : F} {xs : List A}
        → Generates f xs
        → Emits (alert test (poll_next step await inner)) w (new f) xs
    Emits-of_Generates {f} g = Emits-at f none (GoesOn-of_Generates g)
