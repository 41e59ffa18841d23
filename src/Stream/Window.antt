-- ===== src/Stream/Window.antt =====
-- src/window.cppm
use pollcoro.Base.{
  ℕ, zero, suc, ◌+◌, ◌-◌, ◌<◌, ◌==◌, set, length-append, replicate, map, if◌then◌else◌, ◌>>=◌, List,
  [], ◌∷◌, ◌++◌, Option, none, some, true, Bool-cases, inl, inr, ◌≡◌, refl, sym, ap, subst,
  >>=-some, ◌∙◌, arith, length,
}
use mathlib.Core.List.{flatten, append-nil, append_assoc}
use pollcoro.Waker.{Waker}
use pollcoro.Awaitable.{Poll}
use pollcoro.StreamAwaitable.{
  StreamAwaitableState, ready, pending, finished, is_ready, is_done, take_result,
}
use pollcoro.Stream.{prepend, Emits, stop, wait, item, Opening, Emits-of_Opening, Opening-prepend}

pub record WindowStreamAwaitable {ℓ κ} (S : Type ℓ) (A : Type κ) : Type (ℓ ⊔ κ) where
  pub stream : S
  pub buffer : List (Option A)
  pub index : ℕ

-- Emptying an entry of the buffer.
abbrev reset {κ} : {A : Type κ} → Option A → Option A
reset o = none

-- The values of a full buffer: `none` where the source dereferences no value.
unfoldable pub values {κ} : {A : Type κ} → List (Option A) → Option (List A)
values [] = some []
values (none ∷ os) = none
values (some x ∷ os) = do xs ← values os; some (x ∷ xs)

-- The items in groups of `n`, the first of which begins with those held; what does not fill a group
-- is left out.
pub windows {κ} : {A : Type κ} → ℕ → List A → List A → List (List A)
windows n held [] = []
windows n held (x ∷ xs) =
    let full = windows n [] xs in
    let more = windows n (held ++ x ∷ []) xs in
    if length held + 1 == n then (held ++ x ∷ []) ∷ full else more

module _ {κ} {A : Type κ} where
  -- Every list has the length `n`.
  abbrev pub AllOfLength : ℕ → List (List A) → Type 0
  AllOfLength n [] = Unit
  AllOfLength n (xs ∷ xss) = (length xs ≡ n) × AllOfLength n xss

  -- A cut of a list into groups of `n` and a rest that does not fill one.
  pub record Cut (n : ℕ) (xs : List A) (groups : List (List A)) : Type κ where
    pub rest : List A
    pub whole : flatten groups ++ rest ≡ xs
    pub sizes : AllOfLength n groups
    pub short : length rest < n

  windows-Cut :
      (n : ℕ) (xs held : List A) → length held < n → Cut n (held ++ xs) (windows n held xs)
  unfolding windows flatten
  windows-Cut n [] held h = record {
    rest = held;
    whole = sym (append-nil held);
    sizes = tt;
    short = h;
  }
  windows-Cut n (x ∷ xs) held h = elim (Bool-cases (length held + 1 == n)) [
    | inl last ↦
        let c = windows-Cut n xs [] (omega arith) in
        rw last (record {
          rest = c.rest;
          whole = simp (append_assoc, c.whole);
          sizes = (ground (arith, size), c.sizes);
          short = c.short;
        })
    | inr more ↦ rw (more) (
        let c = windows-Cut n xs (held ++ x ∷ []) (ground (arith, size)) in
        record {
          rest = c.rest;
          whole = c.whole ∙ append_assoc held (x ∷ []) xs;
          sizes = c.sizes;
          short = c.short;
        })
  ]
    where
      size : length (held ++ x ∷ []) ≡ length held + 1
      size = length-append held (x ∷ [])

  values-map : (xs : List A) → values (map some xs ++ []) ≡ some xs
  unfolding values
  values-map [] = refl
  values-map (x ∷ xs) = rw (values-map xs)

  map-reset : (xs : List A) → map reset (map some xs ++ []) ≡ replicate (length xs) none
  map-reset [] = refl
  map-reset (x ∷ xs) = ap (◌∷◌ none) (map-reset xs)

  set-held :
      (xs : List A) (x : A) (os : List (Option A))
      → set (map some xs ++ none ∷ os) (length xs) (some x) ≡ map some (xs ++ x ∷ []) ++ os
  set-held [] x os = refl
  set-held (y ∷ xs) x os = ap (◌∷◌ (some y)) (set-held xs x os)

module _ {ℓ κ} {S : Type ℓ} {A : Type κ} (upstream : Poll S (StreamAwaitableState A)) (n : ℕ) where
  -- The `while (true)` of `poll_next`, by the rounds that fill the buffer. `none` for a write out
  -- of bounds, which only `n = 0` leads to.
  unfoldable pub window_loop :
      ℕ
      → Waker
      → WindowStreamAwaitable S A
      → Option (WindowStreamAwaitable S A × StreamAwaitableState (List A) × List Waker)
  window_loop zero w t = none
  window_loop (suc rounds) w t = do
    (s, state, woken) ← upstream w t.stream
    if is_done state
        then some (record t { stream = s }, finished, woken)
        else if is_ready state
        then (do
          (x, _) ← take_result state
          let buffer = set t.buffer t.index (some x)
          let index = t.index + 1
          let rest = window_loop rounds w (record { stream = s; buffer = buffer; index = index })
          if index == n
              then (do
                result ← values buffer
                some (
                  record { stream = s; buffer = map reset buffer; index = 0 },
                  ready result,
                  woken,
                ))
              else prepend woken rest)
        else some (record t { stream = s }, pending, woken)

  unfoldable pub poll_next : Poll (WindowStreamAwaitable S A) (StreamAwaitableState (List A))
  poll_next w t = window_loop (n - t.index) w t

  unfoldable pub new : S → WindowStreamAwaitable S A
  new s = record { stream = s; buffer = replicate n none; index = 0 }

  -- The buffer with the items read so far.
  abbrev held_at : S → List A → WindowStreamAwaitable S A
  held_at s xs = record {
    stream = s;
    buffer = map some xs ++ replicate (n - length xs) none;
    index = length xs;
  }

  -- One more item goes to the end of those held.
  buffer-set :
      (xs : List A) (x : A)
      → length xs < n
      → set (map some xs ++ replicate (n - length xs) none) (length xs) (some x)
        ≡ map some (xs ++ x ∷ []) ++ replicate (n - length (xs ++ x ∷ [])) none
  buffer-set xs x h = rw count (set-held xs x _)
    where
      count : n - length xs ≡ suc (n - length (xs ++ x ∷ []))
      count = omega (arith, length-append xs (x ∷ []))

  window_loop-item :
      {w : Waker} {s s' : S} {x : A} {woken : List Waker} (xs : List A) (rounds : ℕ)
      → upstream w s ≡ some (s', ready x, woken)
      → length xs < n
      → window_loop (suc rounds) w (held_at s xs) ≡ (
          if length xs + 1 == n
          then some (held_at s' [], ready (xs ++ x ∷ []), woken)
          else prepend woken (window_loop rounds w (held_at s' (xs ++ x ∷ []))))
  unfolding window_loop
  window_loop-item {s'} {x} {woken} xs rounds p h = elim (Bool-cases (length xs + 1 == n)) [
    | inl last ↦ rw (
      p,
      buffer-set xs x h,
      last,
      none_free last,
      values-map (xs ++ x ∷ []),
      map-reset (xs ++ x ∷ []),
      size,
      full last,
      nothing_held,
    )
    | inr more ↦ rw (p, buffer-set xs x h, more, size)
  ]
    where
      size : length (xs ++ x ∷ []) ≡ length xs + 1
      size = length-append xs (x ∷ [])

      none_free : (length xs + 1 == n) ≡ true → n - length (xs ++ x ∷ []) ≡ 0
      none_free last = ground (arith, size)

      nothing_held : n - 0 ≡ n
      nothing_held = omega arith

      full : (length xs + 1 == n) ≡ true → length xs + 1 ≡ n
      full last = ground arith

  window_loop-finished :
      {w : Waker} {s s' : S} {woken : List Waker} (held : List A) (rounds : ℕ)
      → upstream w s ≡ some (s', finished, woken)
      → window_loop (suc rounds) w (held_at s held) ≡ some (held_at s' held, finished, woken)
  unfolding window_loop
  window_loop-finished held rounds p = >>=-some _ p

  window_loop-pending :
      {w : Waker} {s s' : S} {woken : List Waker} (held : List A) (rounds : ℕ)
      → upstream w s ≡ some (s', pending, woken)
      → window_loop (suc rounds) w (held_at s held) ≡ some (held_at s' held, pending, woken)
  unfolding window_loop
  window_loop-pending held rounds p = >>=-some _ p

  Opening-window_loop :
      {w : Waker} {s : S} {xs : List A}
      → Emits upstream w s xs
      → (held : List A) (rounds : ℕ) → length held + rounds ≡ n
      → 0 < rounds
      → Opening poll_next w (window_loop rounds w (held_at s held)) (windows n held xs)
  unfolding poll_next windows
  Opening-window_loop e held zero q h = absurd (omega arith)
  Opening-window_loop (stop p) held (suc rounds) q h = stop (window_loop-finished held rounds p)
  Opening-window_loop {w} (wait p e) held (suc rounds) q h =
      wait (window_loop-pending held rounds p) (
        Emits-of_Opening poll_next w
          (Opening-window_loop e held (n - length held) (omega arith) (omega arith)))
  Opening-window_loop {w} (item {s'} {x} {xs} {woken} p e) held (suc rounds) q h =
      elim (Bool-cases (length held + 1 == n)) [
        | inl last ↦ rw last (
            item {s' = held_at s' []} {woken = woken}
              (window_loop-item held rounds p (omega arith) ∙ rw last)
              (Emits-of_Opening poll_next w
                (Opening-window_loop e [] (n - 0) (omega arith) (omega arith))))
        | inr more ↦ rw more (
            Opening-prepend poll_next w woken
              (window_loop-item held rounds p (omega arith) ∙ rw more)
              (Opening-window_loop e (held ++ x ∷ []) rounds
                (omega (arith, length-append held (x ∷ []))) (ground arith)))
      ]

  Emits-windows :
      {w : Waker} {s : S} {xs : List A}
      → 0 < n
      → Emits upstream w s xs
      → Emits poll_next w (new s) (windows n [] xs)
  unfolding poll_next new
  Emits-windows {w} {s} {xs} h e =
      subst (λ k. Emits poll_next w (from k) (windows n [] xs)) from_zero
        (Emits-of_Opening poll_next w
          (Opening-window_loop e [] (n - 0) (omega arith) (omega arith)))
    where
      from : ℕ → WindowStreamAwaitable S A
      from k = record { stream = s; buffer = replicate k none; index = 0 }

      from_zero : n - 0 ≡ n
      from_zero = omega arith

  -- If `N` is not 0 and the stream delivers a list and ends, then `window` delivers arrays of `N`
  -- items and ends, and the arrays in a row followed by fewer than `N` items are the list.
  pub Emits-window :
      {w : Waker} {s : S} {xs : List A}
      → 0 < n
      → Emits upstream w s xs
      → (groups : List (List A)) × Emits poll_next w (new s) groups × Cut n xs groups
  Emits-window {xs} h e = (windows n [] xs, Emits-windows h e, windows-Cut n xs [] h)
