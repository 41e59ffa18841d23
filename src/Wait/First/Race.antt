-- ===== src/Wait/First/Race.antt =====
-- src/wait_first.cppm: which of several awaitables wins, and when.
use pollcoro.Base.{ℕ, suc, List, [], ◌∷◌, ◌++◌, ◌≡◌, ap, subst, length, arith}
use pollcoro.Waker.{Waker}
use pollcoro.Awaitable.{Poll, AwaitableState}
use pollcoro.Awaitable.Timing.{ReadyAfter, now, later, AllWait, none_left, one_more}
use pollcoro.Wait.First.{poll, AllPending, poll-first_ready, poll-AllPending}
use pollcoro.Wait.First

module _ {ℓ κ} {S : Type ℓ} {A : Type κ} (awaitable : Poll S (AwaitableState A)) (w : Waker) where
  -- One pending poll of each awaitable, and what is left.
  record Round (k : ℕ) (ss : List S) : Type (ℓ ⊔ κ) where
    ss' : List S
    woken : List Waker
    polled : AllPending awaitable w ss ss' woken
    waiting : AllWait awaitable w k ss'
    size : length ss' ≡ length ss

  round : {k : ℕ} {ss : List S} → AllWait awaitable w (suc k) ss → Round k ss
  round none_left = record {
    ss' = [];
    woken = [];
    polled = First.none_left;
    waiting = none_left;
    size = omega arith;
  }
  round (one_more (later {s'} {woken} p rest) ws) =
      let r = round ws in
      record {
        ss' = s' ∷ r.ss';
        woken = _;
        polled = First.one_more p r.polled;
        waiting = one_more rest r.waiting;
        size = ap suc r.size;
      }

  AllPending-append :
      {xs xs' ys ys' : List S} {woken woken' : List Waker}
      → AllPending awaitable w xs xs' woken
      → AllPending awaitable w ys ys' woken'
      → (all : List Waker) × AllPending awaitable w (xs ++ ys) (xs' ++ ys') all
  AllPending-append First.none_left q = (_, q)
  AllPending-append (First.one_more p ps) q = (_, First.one_more p (AllPending-append ps q).1)

  -- If an awaitable is pending `k` times and then ready with a value, those before it are pending
  -- more than `k` times, and those behind it at least `k` times, then `wait_first` is pending `k`
  -- times and then ready with that value and the index of that awaitable.
  pub ReadyAfter-wait_first :
      {k : ℕ} {s : S} {a : A} {before after : List S}
      → AllWait awaitable w (suc k) before
      → ReadyAfter awaitable w k s a
      → AllWait awaitable w k after
      → ReadyAfter (poll awaitable) w k (before ++ s ∷ after) (a, length before)
  ReadyAfter-wait_first {after} front (now p) back =
      now (poll-first_ready awaitable (round front).polled p after)
  ReadyAfter-wait_first {a = a} {after} front (later {k} {s'} p rest) back =
      let f = round front in
      let b = round back in
      let (_, all) = AllPending-append f.polled (First.one_more p b.polled) in
      later (poll-AllPending awaitable all) (
        subst (λ n. ReadyAfter (poll awaitable) w k (f.ss' ++ s' ∷ b.ss') (a, n)) f.size
          (ReadyAfter-wait_first f.waiting rest b.waiting))
