-- ===== src/Examples/CustomAwaitable/Behaviour.antt =====
-- examples/custom_awaitable.cc: how long its awaitables take, and what they give.
use pollcoro.Base.{
  ℕ, zero, suc, ◌+◌, ◌*◌, leb, true, false, Bool, [], ◌∷◌, ◌≡◌, refl, arith, >>=-some,
}
use pollcoro.Waker.{Waker, wake}
use pollcoro.Awaitable.{Poll, AwaitableState}
use pollcoro.Awaitable.Timing.{ReadyAfter, now, later}
use pollcoro.Console.{text, number, endl}
use pollcoro.Examples.CustomAwaitable.{
  countdown, countdown_poll, double_poll, RetryAwaitable, retry_operation, retry_poll, attempt,
  print,
}

-- `countdown(start)` is pending `start` times and then ready with 0.
pub ReadyAfter-countdown :
    (w : Waker) (start : ℕ) → ReadyAfter countdown_poll w start (countdown start) 0
unfolding countdown_poll
ReadyAfter-countdown w zero = now refl
ReadyAfter-countdown w (suc n) =
    later {s' = n} {woken = wake w} (ground arith) (ReadyAfter-countdown w n)

-- If the inner awaitable is pending `k` times and then ready, so is `double_result`, with twice
-- the value.
ReadyAfter-double {ℓ} :
    {S : Type ℓ} (inner : Poll S (AwaitableState ℕ)) {w : Waker} {k : ℕ} {s : S} {a : ℕ}
    → ReadyAfter inner w k s a
    → ReadyAfter (double_poll inner) w k s (a * 2)
unfolding double_poll
ReadyAfter-double inner (now p) = now (>>=-some _ p)
ReadyAfter-double inner (later p r) = later (>>=-some _ p) (ReadyAfter-double inner r)

abbrev lesser : ℕ → ℕ → ℕ
lesser zero n = zero
lesser (suc m) zero = zero
lesser (suc m) (suc n) = suc (lesser m n)

module _ (w : Waker) (t : RetryAwaitable) where
  succeeds : leb t.succeed_on (t.attempts + 1) ≡ true → ReadyAfter retry_poll w 0 t true
  unfolding retry_poll
  succeeds h = now {s' = print (attempt t) (text "  Success!" ∷ endl ∷ [])} {woken = []} (rw h refl)

  fails :
      leb t.succeed_on (t.attempts + 1) ≡ false
      → leb t.max_attempts (t.attempts + 1) ≡ true
      → ReadyAfter retry_poll w 0 t false
  unfolding retry_poll
  fails h h' =
      now
        {s' = print (attempt t)
          (text "  Failed after " ∷ number t.max_attempts ∷ text " attempts" ∷ endl ∷ [])}
        {woken = []} (rw (h, h') refl)

  tries_again :
      {k : ℕ} {r : Bool}
      → leb t.succeed_on (t.attempts + 1) ≡ false
      → leb t.max_attempts (t.attempts + 1) ≡ false
      → ReadyAfter retry_poll w k (attempt t) r
      → ReadyAfter retry_poll w (suc k) t r
  unfolding retry_poll
  tries_again h h' rest = later {s' = attempt t} {woken = wake w} (rw (h, h') refl) rest

leb-suc : (a b : ℕ) → leb (suc b) (suc a) ≡ leb b a
leb-suc a b = ground arith

leb-zero : (b : ℕ) → leb (suc b) 0 ≡ false
leb-zero b = ground arith

zero-leb : (a : ℕ) → leb 0 (suc a) ≡ true
zero-leb a = ground arith

ReadyAfter-tried :
    (w : Waker) (a b made : ℕ) (t : RetryAwaitable)
    → t.attempts ≡ made
    → t.max_attempts ≡ made + suc a
    → t.succeed_on ≡ made + suc b
    → ReadyAfter retry_poll w (lesser a b) t (leb b a)
ReadyAfter-tried w zero zero made t e e' e'' = succeeds w t (ground arith)
ReadyAfter-tried w (suc a) zero made t e e' e'' = rw (zero-leb a) (succeeds w t (ground arith))
ReadyAfter-tried w zero (suc b) made t e e' e'' =
    rw (leb-zero b) (fails w t (ground arith) (ground arith))
ReadyAfter-tried w (suc a) (suc b) made t e e' e'' = rw (leb-suc a b) (
    tries_again w t (ground arith) (ground arith) (
      ReadyAfter-tried w a b (made + 1) (attempt t) (omega (arith, e)) (omega (arith, e'))
        (omega (arith, e''))))

-- `retry_operation` with `a + 1` attempts at most and success on attempt `b + 1` is pending as
-- often as the lesser of `a` and `b` says, and then ready with true if `b` is at most `a`, and
-- with false otherwise.
pub ReadyAfter-retry :
    (w : Waker) (a b : ℕ)
    → ReadyAfter retry_poll w (lesser a b) (retry_operation (suc a) (suc b)) (leb b a)
ReadyAfter-retry w a b =
    ReadyAfter-tried w a b 0 (retry_operation (suc a) (suc b)) refl (omega arith) (omega arith)
