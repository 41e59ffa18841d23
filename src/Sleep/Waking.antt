-- ===== src/Sleep/Waking.antt =====
-- src/sleep.cppm: who wakes a sleeper.
use pollcoro.Base.{if◌then◌else◌, ◌⊎◌, inl, true, false, List, [], ◌∷◌, some, ◌≡◌, refl, ◌∙◌, arith}
use pollcoro.Waker.{Waker, wake}
use pollcoro.Awaitable.{AwaitableState, ready, pending}
use pollcoro.Sleep.{Timer, SleepAwaitable, callback, reset, sleep_until, poll}

module _ {T Point Duration : Type 0} (c : Timer T Point Duration) where
  -- The awaitable is polled, the timer goes on, it calls a callback, or the awaitable is destroyed.
  pub data Step (s : SleepAwaitable T Point) : SleepAwaitable T Point → Type 0 where
    polls :
        (w : Waker) {s' : SleepAwaitable T Point} {r : AwaitableState (Unit {0})}
        {woken : List Waker}
        → poll c w s ≡ some (s', r, woken)
        → Step s s'
    elapses : (t : T) → c.callbacks t ≡ c.callbacks s.timer → Step s (record s { timer = t })
    fires :
        (t : T) (p : Point)
        → c.callbacks s.timer ≡ p ∷ c.callbacks t
        → Step s (record s { timer = t })
    resets : Step s (reset s)

  pub data Reach (s : SleepAwaitable T Point) : SleepAwaitable T Point → Type 0 where
    here : Reach s s
    later : {t u : SleepAwaitable T Point} → Reach s t → Step t u → Reach s u

  -- The callbacks of the awaitable.
  pub record Inv (deadline : Point) (s : SleepAwaitable T Point) : Type 0 where
    pub same : s.deadline ≡ deadline
    pub at_most_one : (c.callbacks s.timer ≡ []) ⊎ (c.callbacks s.timer ≡ deadline ∷ [])
    pub unstarted : s.shared ≡ true → s.started ≡ false → c.callbacks s.timer ≡ []

  polls-Inv :
      (w : Waker) {deadline : Point} {s s' : SleepAwaitable T Point} {r : AwaitableState (Unit {0})}
      {woken : List Waker}
      → Inv deadline s
      → poll c w s ≡ some (s', r, woken)
      → Inv deadline s'
  unfolding poll
  polls-Inv w {s} inv e = ground (arith, c.callbacks-register_callback s.timer s.deadline)

  fires-Inv :
      {deadline : Point} {s : SleepAwaitable T Point} (t : T) (p : Point)
      → Inv deadline s
      → c.callbacks s.timer ≡ p ∷ c.callbacks t
      → Inv deadline (record s { timer = t })
  fires-Inv t p inv e = ground arith

  Step-Inv :
      {deadline : Point} {s s' : SleepAwaitable T Point}
      → Step s s'
      → Inv deadline s
      → Inv deadline s'
  unfolding reset
  Step-Inv (polls w e) inv = polls-Inv w inv e
  Step-Inv (elapses t e) inv = record {
    same = inv.same;
    at_most_one = rw e inv.at_most_one;
    unstarted = rw e inv.unstarted;
  }
  Step-Inv (fires t p e) inv = fires-Inv t p inv e
  Step-Inv resets inv = record {
    same = inv.same;
    at_most_one = inv.at_most_one;
    unstarted = λ h. cc;
  }

  -- A sleeper has one callback with its timer at most, for its deadline, whatever order its polls, the timer
  -- and its destructor come in.
  registered_once :
      {deadline : Point} {timer : T} {s : SleepAwaitable T Point}
      → c.callbacks timer ≡ []
      → Reach (sleep_until c deadline timer) s
      → (c.callbacks s.timer ≡ []) ⊎ (c.callbacks s.timer ≡ deadline ∷ [])
  registered_once h r = (from h r).at_most_one
    where
      from :
          {deadline : Point} {timer : T} {s : SleepAwaitable T Point}
          → c.callbacks timer ≡ []
          → Reach (sleep_until c deadline timer) s
          → Inv deadline s
      from h here = record { same = refl; at_most_one = inl h; unstarted = λ _ _. h }
      from h (later r st) = Step-Inv st (from h r)

  -- The state after a pending poll.
  abbrev polled : Waker → SleepAwaitable T Point → SleepAwaitable T Point
  polled w s = record s {
    waker = w;
    started = true;
    timer = if s.started then s.timer else c.register_callback s.timer s.deadline;
  }

  poll-pending :
      (w : Waker) (s : SleepAwaitable T Point)
      → s.shared ≡ true
      → c.ge (c.now s.timer) s.deadline ≡ false
      → poll c w s ≡ some (polled w s, pending, [])
  unfolding poll
  poll-pending w s h early = ground arith

  -- Before its deadline, a poll of a sleeper that is not reset is pending; it registers a callback
  -- for the deadline if and only if it is the first pending one; the callback then calls the waker
  -- of that poll, or none after a reset; and once the timer says that the deadline has come, the
  -- next poll is ready.
  pub callback-wakes :
      (w w' : Waker) (s : SleepAwaitable T Point) (t : T)
      → s.shared ≡ true
      → c.ge (c.now s.timer) s.deadline ≡ false
      → c.ge (c.now t) s.deadline ≡ true
      → (s' : SleepAwaitable T Point) × (poll c w s ≡ some (s', pending, []))
        × (c.callbacks s'.timer
            ≡ (if s.started then c.callbacks s.timer else s.deadline ∷ c.callbacks s.timer))
        × (callback s' ≡ wake w)
        × (callback (reset s') ≡ [])
        × (poll c w' (record s' { timer = t }) ≡ some (record s' { timer = t }, ready tt, []))
  unfolding poll reset wake
  callback-wakes w w' s t h early late = (
    polled w s,
    poll-pending w s h early,
    ground (arith, c.callbacks-register_callback s.timer s.deadline),
    refl,
    rw h refl,
    rw late refl,
  )

  -- A sleeper whose callback has been called, or which is destroyed.
  record IsLeft (s : SleepAwaitable T Point) : Type 0 where
    uncalled : c.callbacks s.timer ≡ []
    unregistered : s.shared ≡ true → s.started ≡ true

  Step-IsLeft : {s s' : SleepAwaitable T Point} → Step s s' → IsLeft s → IsLeft s'
  unfolding poll reset
  Step-IsLeft (polls w e) left = ground arith
  Step-IsLeft (elapses t e) left = record {
    uncalled = e ∙ left.uncalled;
    unregistered = left.unregistered;
  }
  Step-IsLeft (fires t p e) left = ground arith
  Step-IsLeft resets left = record { uncalled = left.uncalled; unregistered = λ h. cc }

  Reach-IsLeft : {s s' : SleepAwaitable T Point} → Reach s s' → IsLeft s → IsLeft s'
  Reach-IsLeft here left = left
  Reach-IsLeft (later r st) left = Step-IsLeft st (Reach-IsLeft r left)

  -- Once the timer has called the only callback of a sleeper, then in every state reached from
  -- there by polls, by the timer or by a reset, a poll before the deadline is pending and leaves
  -- no callback registered: a timer that calls early leaves the sleeper with nobody to wake it.
  pub early_callback :
      (w : Waker) (t : T) {s u : SleepAwaitable T Point}
      → s.started ≡ true
      → c.callbacks s.timer ≡ s.deadline ∷ c.callbacks t
      → c.callbacks t ≡ []
      → Reach (record s { timer = t }) u
      → u.shared ≡ true
      → c.ge (c.now u.timer) u.deadline ≡ false
      → (u' : SleepAwaitable T Point) × (poll c w u ≡ some (u', pending, []))
        × (c.callbacks u'.timer ≡ [])
  early_callback w t {u} h e gone r shared early =
      let left = Reach-IsLeft r (record { uncalled = gone; unregistered = λ _. h }) in
      (polled w u, poll-pending w u shared early, simp (left.unregistered shared) left.uncalled)
