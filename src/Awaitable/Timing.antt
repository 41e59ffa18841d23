-- ===== src/Awaitable/Timing.antt =====
-- src/awaitable.cppm: how many polls of an awaitable are pending.
use pollcoro.Base.{ℕ, zero, suc, ◌≤◌, List, [], ◌∷◌, some, ◌≡◌, arith}
use pollcoro.Waker.{Waker}
use pollcoro.Awaitable.{Poll, AwaitableState, ready, pending}

module _ {ℓ κ} {S : Type ℓ} {A : Type κ} (poll : Poll S (AwaitableState A)) (w : Waker) where
  -- The awaitable is pending exactly so many times, and then it is ready with the value.
  pub data ReadyAfter : ℕ → S → A → Type (ℓ ⊔ κ) where
    now :
        {s s' : S} {a : A} {woken : List Waker}
        → poll w s ≡ some (s', ready a, woken)
        → ReadyAfter zero s a
    later :
        {k : ℕ} {s s' : S} {a : A} {woken : List Waker}
        → poll w s ≡ some (s', pending, woken)
        → ReadyAfter k s' a
        → ReadyAfter (suc k) s a

  -- The awaitable is pending at least so many times.
  pub data Waits : ℕ → S → Type (ℓ ⊔ κ) where
    any : {s : S} → Waits zero s
    later :
        {k : ℕ} {s s' : S} {woken : List Waker}
        → poll w s ≡ some (s', pending, woken)
        → Waits k s'
        → Waits (suc k) s

  -- Each of the awaitables is pending at least so many times.
  pub data AllWait (k : ℕ) : List S → Type (ℓ ⊔ κ) where
    none_left : AllWait k []
    one_more : {s : S} {ss : List S} → Waits k s → AllWait k ss → AllWait k (s ∷ ss)

  pub Waits-of_ReadyAfter : {n : ℕ} {s : S} {a : A} → ReadyAfter n s a → (k : ℕ) → k ≤ n → Waits k s
  Waits-of_ReadyAfter r zero h = any
  Waits-of_ReadyAfter (now p) (suc k) h = absurd (omega arith)
  Waits-of_ReadyAfter (later {k = n} p r) (suc k) h =
      later p (Waits-of_ReadyAfter {n = n} r k (omega arith))
