-- ===== src/Stream/Zip/Emission.antt =====
-- src/zip.cppm: what a zipped stream delivers.
use pollcoro.Base.{
  ℕ, zero, suc, ◌+◌, ◌<◌, ◌≤◌, true, false, List, [], ◌∷◌, ◌++◌, Option, none, some, ◌≡◌, refl, ap,
  arith, length, map, inl, inr, Bool-cases,
}
use pollcoro.Waker.{Waker}
use pollcoro.Awaitable.{Poll}
use pollcoro.StreamAwaitable.{StreamAwaitableState, ready, pending, finished}
use pollcoro.Stream.{EachEmits, no_streams, each, Emits, stop, wait, item}
use pollcoro.Stream.Zip.{
  ZipStreamAwaitable, buffered_values, reset, Flags, poll_one, poll_all, poll_next,
}
use pollcoro.Stream.Zip.Rows.{
  rows, conses, has_empty, all_some, has_empty-cons, rows-empty, rows-conses,
}

module _ {ℓ κ} {S : Type ℓ} {A : Type κ} (upstream : Poll S (StreamAwaitableState A))
    (w : Waker) where
  -- `Emits` with a budget: a pending poll costs one, and an item two.
  data Left : ℕ → S → List A → Type (ℓ ⊔ κ) where
    ends : {s s' : S} {woken : List Waker} → upstream w s ≡ some (s', finished, woken) → Left 0 s []
    waits :
        {k : ℕ} {s s' : S} {xs : List A} {woken : List Waker}
        → upstream w s ≡ some (s', pending, woken)
        → Left k s' xs
        → Left (suc k) s xs
    gives :
        {k : ℕ} {s s' : S} {x : A} {xs : List A} {woken : List Waker}
        → upstream w s ≡ some (s', ready x, woken)
        → Left k s' xs
        → Left (suc (suc k)) s (x ∷ xs)

  Left-of_Emits : {s : S} {xs : List A} → Emits upstream w s xs → (k : ℕ) × Left k s xs
  Left-of_Emits (stop p) = (0, ends p)
  Left-of_Emits (wait p e) = let (k, l) = Left-of_Emits e in (suc k, waits p l)
  Left-of_Emits (item p e) = let (k, l) = Left-of_Emits e in (suc (suc k), gives p l)

  -- The items of each stream still to come, those buffered included, which cost one each.
  data Holding : ℕ → List S → List (Option A) → List (List A) → Type (ℓ ⊔ κ) where
    no_more : Holding 0 [] [] []
    unread :
        {k n : ℕ} {s : S} {xs : List A} {ss : List S} {os : List (Option A)} {xss : List (List A)}
        → Left k s xs
        → Holding n ss os xss
        → Holding (k + n) (s ∷ ss) (none ∷ os) (xs ∷ xss)
    buffered :
        {k n : ℕ} {s : S} {a : A} {xs : List A} {ss : List S} {os : List (Option A)}
        {xss : List (List A)}
        → Left k s xs
        → Holding n ss os xss
        → Holding (suc (k + n)) (s ∷ ss) (some a ∷ os) ((a ∷ xs) ∷ xss)

  -- One round of polls.
  record Pass (n : ℕ) (ss : List S) (os : List (Option A)) (xss : List (List A))
      : Type (ℓ ⊔ κ) where
    ss' : List S
    os' : List (Option A)
    flags : Flags
    left : ℕ
    polled : poll_all upstream w ss os ≡ some (ss', os', flags)
    ended : flags.any_done ≡ true → has_empty xss ≡ true
    holding : flags.any_done ≡ false → Holding left ss' os' xss
    at_most : left ≤ n
    less : flags.any_pending ≡ true → left < n
    full : flags.any_done ≡ false → flags.any_pending ≡ false → all_some os' ≡ true

  pass :
      {n : ℕ} {ss : List S} {os : List (Option A)} {xss : List (List A)}
      → Holding n ss os xss
      → Pass n ss os xss
  unfolding poll_one poll_all
  pass no_more = record {
    ss' = [];
    os' = [];
    flags = record { any_pending = false; any_done = false; woken = [] };
    left = 0;
    polled = refl;
    ended = λ e. cc;
    holding = λ _. no_more;
    at_most = omega arith;
    less = λ e. cc;
    full = λ _ _. refl;
  }
  pass (unread (ends {s'} {woken} p) h) =
      let r = pass h in
      record {
        ss' = s' ∷ r.ss';
        os' = none ∷ r.os';
        flags = record {
          any_pending = r.flags.any_pending;
          any_done = true;
          woken = woken ++ r.flags.woken;
        };
        left = r.left;
        polled = rw (p, r.polled);
        ended = λ _. refl;
        holding = λ e. cc;
        at_most = omega (arith, r.at_most);
        less = λ e. omega (arith, r.less e);
        full = λ e e'. cc;
      }
  pass (unread {xs} {xss} (waits {k} {s'} {woken} p l) h) =
      let r = pass h in
      record {
        ss' = s' ∷ r.ss';
        os' = none ∷ r.os';
        flags = record {
          any_pending = true;
          any_done = r.flags.any_done;
          woken = woken ++ r.flags.woken;
        };
        left = k + r.left;
        polled = rw (p, r.polled);
        ended = λ e. has_empty-cons xs xss (r.ended e);
        holding = λ e. unread l (r.holding e);
        at_most = omega (arith, r.at_most);
        less = λ e. omega (arith, r.at_most);
        full = λ e e'. cc;
      }
  pass (unread (gives {k} {s'} {x} {woken} p l) h) =
      let r = pass h in
      record {
        ss' = s' ∷ r.ss';
        os' = some x ∷ r.os';
        flags = record {
          any_pending = r.flags.any_pending;
          any_done = r.flags.any_done;
          woken = woken ++ r.flags.woken;
        };
        left = suc (k + r.left);
        polled = rw (p, r.polled);
        ended = λ e. r.ended e;
        holding = λ e. buffered l (r.holding e);
        at_most = omega (arith, r.at_most);
        less = λ e. omega (arith, r.at_most);
        full = λ e e'. r.full e e';
      }
  pass (buffered {k} {s} {a} l h) =
      let r = pass h in
      record {
        ss' = s ∷ r.ss';
        os' = some a ∷ r.os';
        flags = record {
          any_pending = r.flags.any_pending;
          any_done = r.flags.any_done;
          woken = r.flags.woken;
        };
        left = suc (k + r.left);
        polled = rw r.polled;
        ended = λ e. r.ended e;
        holding = λ e. buffered l (r.holding e);
        at_most = omega (arith, r.at_most);
        less = λ e. omega (arith, r.less e);
        full = λ e e'. r.full e e';
      }

  -- A row, when every stream has a value buffered.
  record Row (n : ℕ) (ss : List S) (os : List (Option A)) (xss : List (List A)) : Type (ℓ ⊔ κ) where
    row : List A
    tails : List (List A)
    left : ℕ
    valued : buffered_values os ≡ some row
    holding : Holding left ss (map reset os) tails
    split : xss ≡ conses row tails
    same : length row ≡ length tails
    wide : length row ≡ length xss
    cost : left + length row ≡ n

  first-Row :
      {n : ℕ} {ss : List S} {os : List (Option A)} {xss : List (List A)}
      → Holding n ss os xss
      → all_some os ≡ true
      → Row n ss os xss
  unfolding buffered_values
  first-Row no_more e = record {
    row = [];
    tails = [];
    left = 0;
    valued = refl;
    holding = no_more;
    split = refl;
    same = refl;
    wide = refl;
    cost = omega arith;
  }
  first-Row (unread l h) e = cc
  first-Row (buffered {k} {a} {xs} l h) e =
      let r = first-Row h e in
      record {
        row = a ∷ r.row;
        tails = xs ∷ r.tails;
        left = k + r.left;
        valued = rw r.valued;
        holding = unread l r.holding;
        split = ap (◌∷◌ (a ∷ xs)) r.split;
        same = omega (arith, r.same);
        wide = omega (arith, r.wide);
        cost = omega (arith, r.cost);
      }

  rows-row :
      (row : List A) (tails : List (List A))
      → length row ≡ length tails
      → 0 < length row
      → rows (conses row tails) ≡ row ∷ rows tails
  rows-row [] tails e h = absurd (omega arith)
  rows-row (x ∷ xs) [] e h = absurd (omega arith)
  rows-row (x ∷ xs) (ys ∷ yss) e h = rows-conses x xs ys yss (omega arith)

  abbrev pub zipping : List S → List (Option A) → ZipStreamAwaitable S A
  zipping ss os = record { streams = ss; buffered = os }

  Emits-rows :
      (k n : ℕ) (ss : List S) (os : List (Option A)) (xss : List (List A))
      → Holding n ss os xss
      → 0 < length xss
      → n < k
      → Emits (poll_next upstream) w (zipping ss os) (rows xss)
  unfolding poll_next
  Emits-rows zero n ss os xss h wide b = absurd (omega arith)
  Emits-rows (suc k) n ss os xss h wide b =
      let r = pass h in
      elim (Bool-cases r.flags.any_done) [
        | inl done ↦
            rw (rows-empty xss (r.ended done))
              (stop {s' = zipping r.ss' r.os'} {woken = r.flags.woken} (rw (r.polled, done)))
        | inr more ↦ elim (Bool-cases r.flags.any_pending) [
          | inl unready ↦
              wait {s' = zipping r.ss' r.os'} {woken = r.flags.woken} (rw (r.polled, more, unready))
                (Emits-rows k r.left r.ss' r.os' xss (r.holding more) wide
                  (omega (arith, r.less unready)))
          | inr all ↦
              let q = first-Row (r.holding more) (r.full more all) in
              rw (q.split, rows-row q.row q.tails q.same (omega (arith, q.wide)))
                (item {s' = zipping r.ss' (map reset r.os')} {woken = r.flags.woken}
                  (rw (r.polled, more, all, q.valued))
                  (Emits-rows k q.left r.ss' (map reset r.os') q.tails q.holding
                    (omega (arith, q.wide, q.same)) (omega (arith, q.wide, q.cost, r.at_most))))
        ]
      ]

  Holding-of_EachEmits :
      {ss : List S} {xss : List (List A)}
      → EachEmits upstream w ss xss
      → (n : ℕ) × Holding n ss (map (λ _. none) ss) xss
  Holding-of_EachEmits no_streams = (0, no_more)
  Holding-of_EachEmits (each e es) =
      let (k, l) = Left-of_Emits e in let (n, h) = Holding-of_EachEmits es in (k + n, unread l h)

  -- If each of one or more streams delivers a list and ends, then a new `zip` delivers the first
  -- items of the lists, the second items, and so on, as long as every list has one, and ends.
  pub Emits-zip :
      {ss : List S} {xss : List (List A)}
      → EachEmits upstream w ss xss
      → 0 < length xss
      → Emits (poll_next upstream) w (zipping ss (map (λ _. none) ss)) (rows xss)
  Emits-zip {ss} {xss} es wide =
      let (n, h) = Holding-of_EachEmits es in
      Emits-rows (suc n) n ss (map (λ _. none) ss) xss h wide (omega arith)
