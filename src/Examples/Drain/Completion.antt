-- ===== src/Examples/Drain/Completion.antt =====
-- The loop `while (auto value = co_await next(s))` comes to its end.
use pollcoro.Base.{
  ℕ, zero, suc, ◌<◌, ◌≤◌, ◌>>=◌, List, [], ◌∷◌, Option, none, some, true, ◌≡◌, refl, arith, length,
}
use pollcoro.Waker.{Waker}
use pollcoro.Awaitable.{Poll}
use pollcoro.StreamAwaitable.{StreamAwaitableState, ready, pending, finished}
use pollcoro.Stream.{Emits, stop, wait, item}
use pollcoro.Stream.Alert.{alert, polled, passed}
use pollcoro.Stream.Next
use pollcoro.BlockOn.{await, block_on, notified}
use pollcoro.Examples.Drain.{drain}

module _ {ℓ κ} {S : Type ℓ} {A : Type κ} (poll_next : Poll S (StreamAwaitableState A))
    (w : Waker) where
  -- The rest of the loop, in the middle of an await with `k` polls left.
  drain_from : ℕ → ℕ → ℕ → S → Option (List A)
  drain_from k polls rounds s = do
    (s', found) ← await (Next.poll poll_next) k w s
    elim found [
      | none ↦ some []
      | some a ↦ do rest ← drain poll_next polls w rounds s'; some (a ∷ rest)
    ]

  -- So many polls are enough from the state on.
  abbrev Enough : ℕ → S → List A → Type κ
  Enough n s xs =
      (k polls rounds : ℕ)
      → n < k
      → n < polls
      → length xs ≤ rounds
      → drain_from k polls rounds s ≡ some xs

  Enough-stop :
      {s s' : S} {woken : List Waker} → poll_next w s ≡ some (s', finished, woken) → Enough 0 s []
  unfolding drain_from drain await block_on Next.poll
  Enough-stop p zero polls rounds h h' h'' = absurd (omega arith)
  Enough-stop p (suc k) polls rounds h h' h'' = rw p refl

  Enough-wait :
      {n : ℕ} {s s' : S} {xs : List A} {woken : List Waker}
      → poll_next w s ≡ some (s', pending, woken)
      → notified w woken ≡ true
      → Enough n s' xs
      → Enough (suc n) s xs
  unfolding drain_from drain await block_on Next.poll
  Enough-wait p woke enough zero polls rounds h h' h'' = absurd (omega arith)
  Enough-wait p woke enough (suc k) polls rounds h h' h'' =
      rw (p, woke) (enough k polls rounds (omega arith) (omega arith) h'')

  Enough-item :
      {n : ℕ} {s s' : S} {x : A} {xs : List A} {woken : List Waker}
      → poll_next w s ≡ some (s', ready x, woken)
      → Enough n s' xs
      → Enough n s (x ∷ xs)
  unfolding drain_from drain await block_on Next.poll
  Enough-item p enough zero polls rounds h h' h'' = absurd (omega arith)
  Enough-item p enough (suc k) polls zero h h' h'' = absurd (omega arith)
  Enough-item p enough (suc k) polls (suc rounds) h h' h'' =
      rw (p, enough polls polls rounds h' h' (omega arith)) refl

  Enough-of_Emits :
      {s : S} {xs : List A} → Emits (alert (notified w) poll_next) w s xs → (n : ℕ) × Enough n s xs
  Enough-of_Emits {s} (stop p) = (0, Enough-stop (polled (notified w) (poll_next w s) p))
  Enough-of_Emits {s} (wait p e) =
      let (n, enough) = Enough-of_Emits e in
      (
        suc n,
        Enough-wait (polled (notified w) (poll_next w s) p) (passed (notified w) (poll_next w s) p)
            enough,
      )
  Enough-of_Emits {s} (item p e) =
      let (n, enough) = Enough-of_Emits e in
      (n, Enough-item (polled (notified w) (poll_next w s) p) enough)

  drain-Enough :
      {n : ℕ} (s : S) {xs : List A}
      → Enough n s xs
      → (polls rounds : ℕ) → n < polls
      → length xs < rounds
      → drain poll_next polls w rounds s ≡ some xs
  unfolding drain_from drain
  drain-Enough s enough polls zero h h' = absurd (omega arith)
  drain-Enough s enough polls (suc rounds) h h' = enough polls polls rounds h h (omega arith)

  -- If a stream delivers a list and ends, and each of its pending polls calls the waker, then
  -- there is a number such that the loop over `co_await next(s)`, with more polls than that for
  -- each item and more rounds than the list has items, ends and has gone through exactly the list.
  pub drain-Emits :
      {s : S} {xs : List A}
      → Emits (alert (notified w) poll_next) w s xs
      → (n : ℕ) × ((polls rounds : ℕ)
          → n < polls
          → length xs < rounds
          → drain poll_next polls w rounds s ≡ some xs)
  drain-Emits {s} e = let (n, enough) = Enough-of_Emits e in (n, drain-Enough s enough)
