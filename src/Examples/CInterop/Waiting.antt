-- ===== src/Examples/CInterop/Waiting.antt =====
-- examples/c_interop.c: when its loop ends, and when it waits for good.
use pollcoro.Base.{
  ℕ, zero, suc, ◌+◌, ◌≤◌, leb, length, if◌then◌else◌, Bool, true, false, ◌||◌, List, [], ◌∷◌,
  Option, none, some, ◌≡◌, refl, ◌∙◌, ap, arith, Bool-cases, inl, inr,
}
use pollcoro.Waker.{Waker, will_wake}
use pollcoro.Awaitable.{Poll}
use pollcoro.BlockOn.{notified}
use pollcoro.Examples.CInterop.{
  FuturePollResult, future_poll_ready, future_poll_pending, WakerData, waker_wake, polling, called,
  woken_by, wait_notified, LoopResult, ended, blocked, main_loop,
}

called-notified :
    (w : Waker) (woken : List Waker) (wd : WakerData)
    → (called w woken wd).notified ≡ (notified w woken || wd.notified)
unfolding called notified
called-notified w [] wd = refl
called-notified w (v ∷ woken) wd = elim (Bool-cases (will_wake w v)) [
  | inl own ↦ ground (arith, own, called-notified w woken (waker_wake wd))
  | inr other ↦ simp other (called-notified w woken wd)
]

or_false : (b : Bool) → (b || false) ≡ b
or_false true = refl
or_false false = refl

called-polls :
    (w : Waker) (woken : List Waker) (wd : WakerData) → (called w woken wd).polls ≡ wd.polls
unfolding called
called-polls w [] wd = refl
called-polls w (v ∷ woken) wd = elim (Bool-cases (will_wake w v)) [
  | inl own ↦ simp own (called-polls w woken (waker_wake wd))
  | inr other ↦ simp other (called-polls w woken wd)
]

woken_by-polls : (n : ℕ) (wd : WakerData) → (woken_by n wd).polls ≡ wd.polls
unfolding woken_by
woken_by-polls zero wd = refl
woken_by-polls (suc n) wd = woken_by-polls n (waker_wake wd)

-- How many polls did not call the waker.
abbrev pub silent : List Bool → ℕ
silent [] = 0
silent (true ∷ woke) = silent woke
silent (false ∷ woke) = suc (silent woke)

-- The polls up to the first that is silent after `waits` others that were.
abbrev pub polls_made : (waits : ℕ) → List Bool → ℕ
polls_made waits [] = 0
polls_made waits (true ∷ woke) = suc (polls_made waits woke)
polls_made zero (false ∷ woke) = 1
polls_made (suc waits) (false ∷ woke) = suc (polls_made waits woke)

-- What the loop comes to after these polls, given how often `cnd_wait` returns: it ends if that is at least
-- as often as polls are silent.
pub record Loops (r : Option LoopResult) (polls : ℕ) (woke : List Bool) (waits : ℕ) : Type 0 where
  pub wd : WakerData
  pub outcome : r ≡ some (if leb (silent woke) waits then ended wd else blocked wd)
  pub polled : wd.polls ≡ polls + polls_made waits woke

module _ {ℓ} {S : Type ℓ} (poll : Poll S FuturePollResult) (w : Waker) where
  -- Polled again and again, the future is pending and in the end ready; for each poll, whether it
  -- called the waker.
  pub data PollsAs : List Bool → S → Type ℓ where
    now :
        {s s' : S} {woken : List Waker}
        → poll w s ≡ some (s', future_poll_ready, woken)
        → PollsAs (notified w woken ∷ []) s
    later :
        {woke : List Bool} {s s' : S} {woken : List Waker}
        → poll w s ≡ some (s', future_poll_pending, woken)
        → PollsAs woke s'
        → PollsAs (notified w woken ∷ woke) s

  -- The rest of a round, once the wait is over.
  abbrev after_wait :
      ℕ → WakerData → FuturePollResult → S → Option (List ℕ × WakerData) → Option LoopResult
  after_wait rounds wd' result future' o = elim o [
    | none ↦ some (blocked wd')
    | some (waits', wd'') ↦ elim result [
      | future_poll_ready ↦ some (ended wd'')
      | future_poll_pending ↦ main_loop poll w rounds waits' wd'' future'
    ]
  ]

  main_loop-round :
      (rounds : ℕ) (waits : List ℕ) (wd : WakerData) {s s' : S} {result : FuturePollResult}
      {woken : List Waker}
      → poll w s ≡ some (s', result, woken)
      → let wd' = called w woken (polling wd) in
        main_loop poll w (suc rounds) waits wd s
        ≡ after_wait rounds wd' result s' (wait_notified (notified w woken) waits wd')
  unfolding main_loop
  main_loop-round rounds waits wd {s'} {result} {woken} p = rw p (
      ap
        (λ b.
          after_wait rounds (called w woken (polling wd)) result s'
            (wait_notified b waits (called w woken (polling wd))))
        (called-notified w woken (polling wd) ∙ or_false (notified w woken)))

  Loops-now :
      (woke : Bool) (waits : List ℕ) (wd' : WakerData) (rounds polls : ℕ) (s' : S)
      → wd'.polls ≡ polls + 1
      → Loops
          (after_wait rounds wd' future_poll_ready s' (wait_notified woke waits wd'))
          polls
          (woke ∷ [])
          (length waits)
  unfolding wait_notified
  Loops-now true waits wd' rounds polls s' e = record {
    wd = wd';
    outcome = ground arith;
    polled = omega arith;
  }
  Loops-now false [] wd' rounds polls s' e = record {
    wd = wd';
    outcome = ground arith;
    polled = omega arith;
  }
  Loops-now false (n ∷ waits) wd' rounds polls s' e = record {
    wd = woken_by n wd';
    outcome = ground arith;
    polled = omega (arith, woken_by-polls n wd');
  }

  Loops-later :
      (woke : Bool) (waits : List ℕ) (wd' : WakerData) (rounds polls : ℕ) (s' : S)
      {rest : List Bool}
      → wd'.polls ≡ polls + 1
      → ((waits' : List ℕ) (wd'' : WakerData)
          → Loops (main_loop poll w rounds waits' wd'' s') wd''.polls rest (length waits'))
      → Loops
          (after_wait rounds wd' future_poll_pending s' (wait_notified woke waits wd'))
          polls
          (woke ∷ rest)
          (length waits)
  unfolding wait_notified
  Loops-later true waits wd' rounds polls s' e later_on =
      let r = later_on waits wd' in
      record { wd = r.wd; outcome = r.outcome; polled = omega (arith, r.polled) }
  Loops-later false [] wd' rounds polls s' e later_on = record {
    wd = wd';
    outcome = ground arith;
    polled = omega arith;
  }
  Loops-later false (n ∷ waits) wd' rounds polls s' e later_on =
      let r = later_on waits (woken_by n wd') in
      record {
        wd = r.wd;
        outcome = ground (arith, r.outcome);
        polled = omega (arith, r.polled, woken_by-polls n wd');
      }

  -- If the future is pending and in the end ready, with at least as many rounds as polls, then the
  -- loop of `main` ends if `cnd_wait` returns at least as often as there are polls that did not
  -- call the waker, the ready one included, and otherwise waits for good after the first such poll
  -- for which it does not return; `polls` counts the polls until then.
  pub main_loop-Loops :
      {woke : List Bool} {s : S}
      → PollsAs woke s
      → (rounds : ℕ) → length woke ≤ rounds
      → (waits : List ℕ) (wd : WakerData)
      → Loops (main_loop poll w rounds waits wd s) wd.polls woke (length waits)
  main_loop-Loops (now p) zero h waits wd = absurd (omega arith)
  main_loop-Loops (later p st) zero h waits wd = absurd (omega arith)
  main_loop-Loops (now {s'} {woken} p) (suc rounds) h waits wd =
      rw (main_loop-round rounds waits wd p) (
        Loops-now (notified w woken) waits (called w woken (polling wd)) rounds wd.polls s'
          (called-polls w woken (polling wd)))
  main_loop-Loops (later {s'} {woken} p st) (suc rounds) h waits wd =
      rw (main_loop-round rounds waits wd p) (
        Loops-later (notified w woken) waits (called w woken (polling wd)) rounds wd.polls s'
          (called-polls w woken (polling wd))
          (λ waits' wd''. main_loop-Loops st rounds (omega arith) waits' wd''))
