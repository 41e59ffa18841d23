-- ===== src/SingleEvent.antt =====
-- src/single_event.cppm: an event that is set at most once, the awaitable that waits for it and the
-- setter. Both share the state.
use pollcoro.Base.{
  ℕ, zero, suc, if◌then◌else◌, ◌>>=◌, Bool, true, false, not, List, [], ◌∷◌, Option, none, some,
  ◌≡◌, refl, arith,
}
use pollcoro.Waker.{Waker, noop, wake, will_wake}
use pollcoro.Awaitable
use pollcoro.Awaitable.{Poll, AwaitableState, pending}

-- `state` with its base `single_event_result<T>`.
pub record EventState {ℓ} (A : Type ℓ) : Type ℓ where
  pub result : Option A
  pub ready : Bool
  pub waker : Waker

module _ {ℓ} {A : Type ℓ} where
  abbrev is_some : Option A → Bool
  is_some none = false
  is_some (some a) = true

  unfoldable pub create : EventState A
  create = record { result = none; ready = false; waker = noop }

  pub set_waker : Waker → EventState A → EventState A × List Waker
  set_waker new_waker s =
      if not (will_wake s.waker new_waker)
      then (if s.ready then (s, wake new_waker) else (record s { waker = new_waker }, []))
      else (s, [])

  -- A waker is moved as a copy: `waker_` keeps its value.
  pub mark_ready : A → EventState A → EventState A × List Waker
  mark_ready new_result s =
      if not s.ready
      then (record s { result = some new_result; ready = true }, wake s.waker)
      else (s, [])

  -- A move out of a value leaves what `moved_from` gives in its place; for a number that is the
  -- number itself.
  module _ (moved_from : A → A) where
    -- The optional stays engaged. `none` where the source dereferences an optional with no value.
    pub take_result : EventState A → Option (EventState A × A)
    take_result s = do
      result ← s.result
      some (record s { result = some (moved_from result) }, result)

    pub poll_result : EventState A → Option (EventState A × AwaitableState A)
    unfolding take_result
    poll_result s =
        if s.ready
        then (do (s', result) ← take_result s; some (s', Awaitable.ready result))
        else some (s, pending)

    unfoldable pub poll : Poll (EventState A) (AwaitableState A)
    unfolding set_waker poll_result
    poll w s = do
      let (s', woken) = set_waker w s
      (s'', state) ← poll_result s'
      some (s'', state, woken)

  -- The destructor of the awaitable.
  pub destroy : EventState A → EventState A × List Waker
  unfolding set_waker
  destroy s = set_waker noop s

-- What the two ends do with the event.
pub data Call {ℓ} (A : Type ℓ) : Type ℓ where
  polls : Waker → Call A
  sets : A → Call A

abbrev pub outcome {ℓ} : {A : Type ℓ} → Option A → AwaitableState A
outcome none = pending
outcome (some a) = Awaitable.ready a

module _ {ℓ} {A : Type ℓ} (moved_from : A → A) where
  -- A call, and several in a row.
  pub after : EventState A → Call A → Option (EventState A)
  unfolding poll mark_ready
  after s (polls w) = do (s', state, woken) ← poll moved_from w s; some s'
  after s (sets a) = some (mark_ready a s).0

  unfoldable pub run : List (Call A) → EventState A → Option (EventState A)
  unfolding after
  run [] s = some s
  run (c ∷ cs) s = do s' ← after s c; run cs s'

  -- The value that was set first, moved out of as often as it was polled since.
  moved : ℕ → A → A
  moved zero a = a
  moved (suc n) a = moved n (moved_from a)

  unfoldable pub polls_in : List (Call A) → ℕ
  polls_in [] = 0
  polls_in (polls w ∷ cs) = suc (polls_in cs)
  polls_in (sets a ∷ cs) = polls_in cs

  unfoldable pub content : List (Call A) → Option A
  unfolding moved polls_in
  content [] = none
  content (polls w ∷ cs) = content cs
  content (sets a ∷ cs) = some (moved (polls_in cs) a)

  -- The state holds a result exactly when it is ready.
  abbrev Holds : Option A → EventState A → Type ℓ
  Holds o s = (s.result ≡ o) × (s.ready ≡ is_some o)

  polls-Holds :
      (w : Waker) (a : A) (s : EventState A)
      → Holds (some a) s
      → (s' : EventState A) × (poll moved_from w s
          ≡ some (s', Awaitable.ready a, (set_waker w s).1))
        × Holds (some (moved_from a)) s'
  unfolding poll
  polls-Holds w a s h = (
    record (set_waker w s).0 { result = some (moved_from a) },
    ground arith,
    (refl, ground arith),
  )

  run-settled :
      (cs : List (Call A)) (a : A) (s : EventState A)
      → Holds (some a) s
      → (s' : EventState A) × (run cs s ≡ some s') × Holds (some (moved (polls_in cs) a)) s'
  unfolding run moved polls_in
  run-settled [] a s h = (s, refl, h)
  run-settled (polls w ∷ cs) a s h =
      let (s', p, h') = polls-Holds w a s h in
      let (s'', q, h'') = run-settled cs (moved_from a) s' h' in (s'', rw p q, h'')
  run-settled (sets b ∷ cs) a s h =
      let (s', q, h') = run-settled cs a (mark_ready b s).0 (ground arith) in (s', q, h')

  polls-pending :
      (w : Waker) (s : EventState A)
      → Holds none s
      → poll moved_from w s ≡ some ((set_waker w s).0, pending, (set_waker w s).1)
  unfolding poll
  polls-pending w s h = ground arith

  run-Holds :
      (cs : List (Call A)) (s : EventState A)
      → Holds none s
      → (s' : EventState A) × (run cs s ≡ some s') × Holds (content cs) s'
  unfolding run content
  run-Holds [] s h = (s, refl, h)
  run-Holds (polls w ∷ cs) s h =
      let (s', q, h') = run-Holds cs (set_waker w s).0 (ground arith) in
      (s', rw (polls-pending w s h) q, h')
  run-Holds (sets b ∷ cs) s h =
      let (s', q, h') = run-settled cs b (mark_ready b s).0 (ground arith) in (s', q, h')

  poll-Holds :
      (w : Waker) (o : Option A) (s : EventState A)
      → Holds o s
      → (s' : EventState A) × (poll moved_from w s ≡ some (s', outcome o, (set_waker w s).1))
  poll-Holds w none s h = ((set_waker w s).0, polls-pending w s h)
  poll-Holds w (some a) s h = let (s', p, _) = polls-Holds w a s h in (s', p)

  -- Any sequence of polls and sets of a new event is defined, and so is a poll after it. That poll
  -- is pending if there was no set; otherwise it is ready, with the value of the first set if
  -- there was no poll since, and else with what is left of that value after one move out of it for
  -- each poll since.
  pub poll-run :
      (cs : List (Call A)) (w : Waker)
      → (s : EventState A) × (run cs create ≡ some s)
        × ((s' : EventState A) × (poll moved_from w s
              ≡ some (s', outcome (content cs), (set_waker w s).1)))
  unfolding create
  poll-run cs w =
      let (s, p, h) = run-Holds cs create (refl, refl) in (s, p, poll-Holds w (content cs) s h)

  -- If a poll with a waker is pending, then the next set calls that waker.
  mark_ready-wakes :
      (w : Waker) (a : A) (s : EventState A) {s' : EventState A} {woken : List Waker}
      → poll moved_from w s ≡ some (s', pending, woken)
      → (mark_ready a s').1 ≡ wake w
  unfolding poll mark_ready will_wake
  mark_ready-wakes w a s h = ground arith

  -- The destructor of the awaitable calls no waker, and a set after it calls none.
  destroy-silences :
      (a : A) (s : EventState A) → ((destroy s).1 ≡ []) × ((mark_ready a (destroy s).0).1 ≡ [])
  unfolding destroy mark_ready will_wake wake
  destroy-silences a s = ground arith
