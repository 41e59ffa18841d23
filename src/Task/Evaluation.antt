-- ===== src/Task/Evaluation.antt =====
-- src/task.cppm: what a task comes to, beside its body run as a plain function.
use pollcoro.Base.{ℕ, zero, suc, ◌++◌, true, List, [], Option, none, some, ◌≡◌, refl, ◌∙◌, >>=-some}
use pollcoro.Waker.{Waker, wake}
use pollcoro.Awaitable.{Poll, ready, pending}
use pollcoro.Task.{
  Outcome, returned, thrown, Body, returns, throws, awaits, Point, initial, awaiting, Task, new,
  proceed, resume, finish, poll,
}

-- A value or an exception.
pub data Result {ℓ κ} (E : Type ℓ) (R : Type κ) : Type (ℓ ⊔ κ) where
  value : R → Result E R
  exception : E → Result E R

abbrev pub last {ℓ κ} : {E : Type ℓ} {R : Type κ} → Result E R → Outcome E R
last (value r) = returned (ready r)
last (exception e) = thrown e

-- Addition, by recursion on the first number.
abbrev pub plus : ℕ → ℕ → ℕ
plus zero n = n
plus (suc k) n = suc (plus k n)

module _ {ℓ κ μ} {S : Type ℓ} {E : Type μ} {R : Type κ} (awaitable : Poll S (Outcome E R))
    (w : Waker) (P : List Waker → Type 0) where
  -- Polled again and again, the awaitable is pending exactly so many times, where what each of these
  -- polls wakes satisfies `P`, and then it is ready with the value or throws the exception.
  pub data Settles : ℕ → S → Result E R → Type (ℓ ⊔ κ ⊔ μ) where
    now :
        {s s' : S} {r : Result E R} {woken : List Waker}
        → awaitable w s ≡ some (s', last r, woken)
        → Settles zero s r
    later :
        {k : ℕ} {s s' : S} {r : Result E R} {woken : List Waker}
        → awaitable w s ≡ some (s', returned pending, woken)
        → P woken
        → Settles k s' r
        → Settles (suc k) s r

module _ {ℓ κ μ ν} {S : Type ℓ} {R : Type κ} {E : Type μ} {T : Type ν}
    (awaitable : Poll S (Outcome E R)) (w : Waker) (P : List Waker → Type 0) where
  -- The body run as a plain function, in which `co_await` is a call. The number counts each `co_await`, and
  -- the pending polls of each awaitable.
  pub data Evaluates : ℕ → Body S R E T → Result E T → Type (ℓ ⊔ κ ⊔ μ ⊔ ν) where
    returning : (v : T) → Evaluates zero (returns v) (value v)
    throwing : (e : E) → Evaluates zero (throws e) (exception e)
    awaiting_value :
        {m n : ℕ} {s : S} {r : R} {k : R → Body S R E T} {h : E → Body S R E T} {v : Result E T}
        → Settles awaitable w P m s (value r)
        → Evaluates n (k r) v
        → Evaluates (suc (plus m n)) (awaits s k h) v
    awaiting_exception :
        {m n : ℕ} {s : S} {e : E} {k : R → Body S R E T} {h : E → Body S R E T} {v : Result E T}
        → Settles awaitable w P m s (exception e)
        → Evaluates n (h e) v
        → Evaluates (suc (plus m n)) (awaits s k h) v

  -- `Settles` with the outcome of the first poll given.
  data After (o : Option (Task S R E T × Outcome E T × List Waker))
      : ℕ → Result E T → Type (ℓ ⊔ κ ⊔ μ ⊔ ν) where
    at_once :
        {t : Task S R E T} {v : Result E T} {woken : List Waker}
        → o ≡ some (t, last v, woken)
        → After o zero v
    in_time :
        {n : ℕ} {t : Task S R E T} {v : Result E T} {woken : List Waker}
        → o ≡ some (t, returned pending, woken)
        → P woken
        → Settles (poll awaitable) w P n t v
        → After o (suc n) v

  Settles-of_After :
      {n : ℕ} {t : Task S R E T} {v : Result E T}
      → After (poll awaitable w t) n v
      → Settles (poll awaitable) w P n t v
  Settles-of_After (at_once p) = now p
  Settles-of_After (in_time p c s) = later p c s

  -- A task with no exception pending.
  abbrev quiet : Point S R E T → Option S → Option R → Option T → Task S R E T
  quiet p s r v = record {
    point = p;
    exception = none;
    current_awaitable = s;
    awaited = r;
    result = v;
  }

  -- The body goes on from any such task, and the poll that resumed it ends.
  abbrev GoesOn : ℕ → Body S R E T → Result E T → Type (ℓ ⊔ κ ⊔ μ ⊔ ν)
  GoesOn n b v =
      (p : Point S R E T) (s : Option S) (r : Option R) (o : Option T) (woken : List Waker)
      → After (finish w true woken (proceed b (quiet p s r o))) n v

  After-transport :
      {o o' : Option (Task S R E T × Outcome E T × List Waker)} {n : ℕ} {v : Result E T}
      → o ≡ o'
      → After o' n v
      → After o n v
  After-transport q (at_once p) = at_once (q ∙ p)
  After-transport q (in_time p c s) = in_time (q ∙ p) c s

  Settles-awaiting_value :
      {m n : ℕ} {s : S} {r : R} {v : Result E T} (k : R → Body S R E T) (h : E → Body S R E T)
      → Settles awaitable w P m s (value r)
      → GoesOn n (k r) v
      → (o : Option T)
      → Settles (poll awaitable) w P (plus m n) (quiet (awaiting k h) (some s) none o) v
  unfolding poll resume
  Settles-awaiting_value {r = r} k h (now p) next o =
      Settles-of_After
        (After-transport (>>=-some _ (>>=-some _ p)) (next (awaiting k h) none (some r) o _))
  Settles-awaiting_value k h (later p c st) next o =
      later (>>=-some _ (>>=-some _ p)) c (Settles-awaiting_value k h st next o)

  Settles-awaiting_exception :
      {m n : ℕ} {s : S} {e : E} {v : Result E T} (k : R → Body S R E T) (h : E → Body S R E T)
      → Settles awaitable w P m s (exception e)
      → GoesOn n (h e) v
      → (o : Option T)
      → Settles (poll awaitable) w P (plus m n) (quiet (awaiting k h) (some s) none o) v
  unfolding poll resume
  Settles-awaiting_exception k h (now p) next o =
      Settles-of_After
        (After-transport (>>=-some _ (>>=-some _ p)) (next (awaiting k h) none none o _))
  Settles-awaiting_exception k h (later p c st) next o =
      later (>>=-some _ (>>=-some _ p)) c (Settles-awaiting_exception k h st next o)

  module _ (notifies : (woken : List Waker) → P (woken ++ wake w)) where
    GoesOn-of_Evaluates :
        {n : ℕ} {b : Body S R E T} {v : Result E T} → Evaluates n b v → GoesOn n b v
    GoesOn-of_Evaluates (returning v) p s r o woken = at_once refl
    GoesOn-of_Evaluates (throwing e) p s r o woken = at_once refl
    GoesOn-of_Evaluates (awaiting_value {k = k} {h = h} st ev) p s r o woken =
        in_time refl (notifies woken) (Settles-awaiting_value k h st (GoesOn-of_Evaluates ev) o)
    GoesOn-of_Evaluates (awaiting_exception {k = k} {h = h} st ev) p s r o woken =
        in_time refl (notifies woken) (Settles-awaiting_exception k h st (GoesOn-of_Evaluates ev) o)

  -- If a coroutine body, run as a plain function in which `co_await` is a call, comes to a value
  -- or an exception, where each `co_await` counts once and once more for every pending poll of its
  -- awaitable, and what these polls wake satisfies a property, as does any list that ends with the
  -- calls of the waker, then the new task is pending exactly as often as was counted, what these
  -- polls wake satisfies the property, and then it is ready with that value or throws that
  -- exception.
  pub Settles-task :
      {n : ℕ} {b : Body S R E T} {v : Result E T}
      → ((woken : List Waker) → P (woken ++ wake w))
      → Evaluates n b v
      → Settles (poll awaitable) w P n (new b) v
  unfolding poll resume
  Settles-task notifies ev =
      Settles-of_After (GoesOn-of_Evaluates notifies ev (initial _) none none none [])
