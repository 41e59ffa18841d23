-- ===== src/Generic.antt =====
-- src/generic.cppm: awaitables and streams whose type is forgotten.
use pollcoro.Base.{◌>>=◌, List, [], ◌∷◌, Option, none, some, ◌≡◌, refl, Option-cases, inl, inr}
use pollcoro.Waker.{Waker}
use pollcoro.Awaitable.{Poll}
use pollcoro.Awaitable.Trace.{trace}

-- `generic_awaitable` and `generic_stream_awaitable`: the object that `awaitable_` points to, of whatever
-- type, and the function that polls such objects. `O` is what a poll gives.
pub record GenericAwaitable (O : Type 0) : Type 1 where
  pub Awaitable : Type 0
  pub poll_function : Poll Awaitable O
  pub awaitable : Awaitable

module _ {O : Type 0} where
  -- The constructor.
  abbrev pub generic : {S : Type 0} → Poll S O → S → GenericAwaitable O
  generic {S} poll s = record { Awaitable = S; poll_function = poll; awaitable = s }

  -- `poll` and `poll_next`
  unfoldable pub poll : Poll (GenericAwaitable O) O
  poll w g = do
    (s', outcome, woken) ← g.poll_function w g.awaitable
    some (generic g.poll_function s', outcome, woken)

  -- The object inside after the polls, and what they gave.
  abbrev pub wrap :
      {S : Type 0}
      → Poll S O
      → Option (S × List (O × List Waker))
      → Option (GenericAwaitable O × List (O × List Waker))
  wrap inner o = do (s, outcomes) ← o; some (generic inner s, outcomes)

  wrap-cons :
      {S : Type 0} (inner : Poll S O) (o : Option (S × List (O × List Waker))) (x : O × List Waker)
      → (do (g, outcomes) ← wrap inner o; some (g, x ∷ outcomes))
        ≡ wrap inner (do (s, outcomes) ← o; some (s, x ∷ outcomes))
  wrap-cons inner none x = refl
  wrap-cons inner (some r) x = refl

  -- A generic awaitable gives, poll after poll, what the object inside gives.
  trace-generic :
      {S : Type 0} (inner : Poll S O) (ws : List Waker) (s : S)
      → trace poll ws (generic inner s) ≡ wrap inner (trace inner ws s)
  unfolding trace poll
  trace-generic inner [] s = refl
  trace-generic inner (w ∷ ws) s = elim (Option-cases (inner w s)) [
    | inl undefined ↦ rw undefined refl
    | inr ((s', outcome, woken), p) ↦
        rw (p, trace-generic inner ws s') (wrap-cons inner _ (outcome, woken))
  ]
