-- ===== src/Examples/Counter/Total.antt =====
-- examples/mutex.cc, example 1: no increment is lost.
use pollcoro.Base.{
  ℕ, zero, suc, ◌+◌, ◌<◌, ◌==◌, Bool, true, false, ◌≡◌, refl, sym, ◌∙◌, subst, arith, Bool-cases,
  inl, inr,
}
use pollcoro.Mutex.{update, MutexGuard, unlock}
use pollcoro.Mutex.System.{System, Client, absent, holding, Reach, unlocks, with_client, Step}
use pollcoro.Mutex.System
use pollcoro.Mutex.Safety.{mutual_exclusion}
use pollcoro.Examples.Counter.{
  Phase, outside, inside, written, Program, is_outside, TaskStep, moves, reads, writes, releases,
  Run, start, later,
}

-- The increments that a task has still to make.
abbrev pub remaining : Phase → ℕ
remaining (outside left) = left
remaining (inside left old_value) = suc left
remaining (written left) = left

abbrev pub sum_below : ℕ → (ℕ → ℕ) → ℕ
sum_below zero f = 0
sum_below (suc n) f = sum_below n f + f n

sum_below-update_above :
    (n i : ℕ) (f : ℕ → Phase) (v : Phase)
    → (n < i + 1)
    → sum_below n (λ j. remaining (update f i v j)) ≡ sum_below n (λ j. remaining (f j))
sum_below-update_above zero i f v h = refl
sum_below-update_above (suc n) i f v h = ground (arith, sum_below-update_above n i f v)

sum_below-update :
    (n i : ℕ) (f : ℕ → Phase) (v : Phase)
    → i < n
    → sum_below n (λ j. remaining (update f i v j)) + remaining (f i)
      ≡ sum_below n (λ j. remaining (f j)) + remaining v
sum_below-update zero i f v h = absurd (omega arith)
sum_below-update (suc n) i f v h = elim (Bool-cases (i == n)) [
  | inl here ↦ ground (arith, sum_below-update_above n i f v)
  | inr there ↦ ground (arith, sum_below-update n i f v)
]

-- What holds of a task at its phase, with the counter and the state of its client.
abbrev pub AtPhase : Phase → ℕ → Client → Type 0
AtPhase (outside left) counter c = Unit
AtPhase (inside left old_value) counter c =
    (old_value ≡ counter) × ((g : MutexGuard) × (c ≡ holding g))
AtPhase (written left) counter c = (g : MutexGuard) × (c ≡ holding g)

pub record Inv (racy : Bool) (n : ℕ) (times : ℕ → ℕ) (p : Program) : Type 0 where
  pub reached : Reach racy p.counter_mtx
  pub at_phase : (i : ℕ) → AtPhase (p.task i) p.shared_counter (p.counter_mtx.client i)
  pub total : p.shared_counter + sum_below n (λ i. remaining (p.task i)) ≡ sum_below n times

-- A task that is not outside has a guard.
guard_of :
    (v : Phase) (counter : ℕ) (c : Client)
    → is_outside v ≡ false
    → AtPhase v counter c
    → (g : MutexGuard) × (c ≡ holding g)
guard_of (outside left) counter c h at = cc
guard_of (inside left old_value) counter c h at = at.1
guard_of (written left) counter c h at = at

eq_of_test : (i j : ℕ) → i == j ≡ true → i ≡ j
eq_of_test i j h = ground arith

module _ {racy : Bool} {n : ℕ} {times : ℕ → ℕ} {p : Program} (inv : Inv racy n times p) where
  -- Two tasks that are not outside are the same task.
  alone : (i j : ℕ) → is_outside (p.task i) ≡ false → is_outside (p.task j) ≡ false → i ≡ j
  alone i j h k =
      let (g, e) = guard_of (p.task i) _ _ h (inv.at_phase i) in
      let (g', e') = guard_of (p.task j) _ _ k (inv.at_phase j) in
      mutual_exclusion inv.reached i j e e'

  -- A task that keeps its phase, while the counter changes only if the task is outside or past it.
  AtPhase-keeps :
      (v : Phase) (counter counter' : ℕ) (c c' : Client)
      → (is_outside v ≡ false → c' ≡ c)
      → (is_outside v ≡ false → counter' ≡ counter)
      → AtPhase v counter c
      → AtPhase v counter' c'
  AtPhase-keeps (outside left) counter counter' c c' same still at = tt
  AtPhase-keeps (inside left old_value) counter counter' c c' same still (e, (g, h)) =
      (e ∙ sym (still refl), (g, same refl ∙ h))
  AtPhase-keeps (written left) counter counter' c c' same still (g, h) = (g, same refl ∙ h)

  moves-Inv :
      {s : System}
      → Step racy p.counter_mtx s
      → ((i : ℕ) → is_outside (p.task i) ≡ false → s.client i ≡ p.counter_mtx.client i)
      → Inv racy n times (record p { counter_mtx = s })
  moves-Inv st same = record {
    reached = System.later inv.reached st;
    at_phase = λ i. AtPhase-keeps (p.task i) _ _ _ _ (same i) (λ _. refl) (inv.at_phase i);
    total = inv.total;
  }

  -- The other tasks, when task `i` takes a new phase.
  AtPhase-update :
      (i : ℕ) (v : Phase) (counter : ℕ) (client : ℕ → Client)
      → AtPhase v counter (client i)
      → ((j : ℕ) → i == j ≡ false → AtPhase (p.task j) counter (client j))
      → (j : ℕ) → AtPhase (update p.task i v j) counter (client j)
  AtPhase-update i v counter client own others j = elim (Bool-cases (i == j)) [
    | inl here ↦ rw here (subst (λ k. AtPhase v counter (client k)) (eq_of_test i j here) own)
    | inr there ↦ rw there (others j there)
  ]

  reads-Inv :
      (i left : ℕ) {g : MutexGuard}
      → i < n
      → p.task i ≡ outside (suc left)
      → p.counter_mtx.client i ≡ holding g
      → Inv racy n times (record p { task = update p.task i (inside left p.shared_counter) })
  reads-Inv i left {g} lt e h = record {
    reached = inv.reached;
    at_phase =
        AtPhase-update i (inside left p.shared_counter) p.shared_counter p.counter_mtx.client
          (refl, (g, h)) (λ j _. inv.at_phase j);
    total =
        ground (arith, inv.total, sum_below-update n i p.task (inside left p.shared_counter) lt);
  }

  writes-Inv :
      (i left old_value : ℕ)
      → i < n
      → p.task i ≡ inside left old_value
      → Inv racy n times
          (record p { shared_counter = old_value + 1; task = update p.task i (written left) })
  writes-Inv i left old_value lt e =
      let at =
        subst (λ v. AtPhase v p.shared_counter (p.counter_mtx.client i)) e (inv.at_phase i) in
      record {
        reached = inv.reached;
        at_phase =
            AtPhase-update i (written left) (old_value + 1) p.counter_mtx.client at.1 (λ j other.
              AtPhase-keeps (p.task j) _ _ _ _ (λ _. refl)
                (λ busy. absurd (ground (arith, alone i j (rw e refl) busy))) (inv.at_phase j));
        total = ground (arith, inv.total, sum_below-update n i p.task (written left) lt, at.0);
      }

  releases-Inv :
      (i left : ℕ) {g : MutexGuard}
      → i < n
      → p.task i ≡ written left
      → p.counter_mtx.client i ≡ holding g
      → Inv racy n times (record p {
        counter_mtx = with_client p.counter_mtx (unlock p.counter_mtx.mutex g).0 i absent;
        task = update p.task i (outside left);
      })
  releases-Inv i left {g} lt e h = record {
    reached = System.later inv.reached (unlocks i h);
    at_phase = AtPhase-update i (outside left) p.shared_counter _ tt (λ j other.
        AtPhase-keeps (p.task j) _ _ _ _ (λ _. rw other refl) (λ _. refl) (inv.at_phase j));
    total = ground (arith, inv.total, sum_below-update n i p.task (outside left) lt);
  }

TaskStep-Inv :
    {racy : Bool} {n : ℕ} {times : ℕ → ℕ} {p q : Program}
    → TaskStep racy n p q
    → Inv racy n times p
    → Inv racy n times q
TaskStep-Inv (moves st same) inv = moves-Inv inv st same
TaskStep-Inv (reads i left lt e h) inv = reads-Inv inv i left lt e h
TaskStep-Inv (writes i left old_value lt e) inv = writes-Inv inv i left old_value lt e
TaskStep-Inv (releases i left lt e h) inv = releases-Inv inv i left lt e h

Run-Inv :
    {racy : Bool} {n : ℕ} {times : ℕ → ℕ} {p : Program} → Run racy n times p → Inv racy n times p
Run-Inv start = record { reached = System.start; at_phase = λ i. tt; total = omega arith }
Run-Inv (later r st) = TaskStep-Inv st (Run-Inv r)

-- A task that has read the counter finds it unchanged when it writes.
old_value_is_current :
    {racy : Bool} {n : ℕ} {times : ℕ → ℕ} {p : Program}
    → Run racy n times p
    → (i left old_value : ℕ) → p.task i ≡ inside left old_value
    → old_value ≡ p.shared_counter
old_value_is_current {p} r i left old_value e =
    (subst (λ v. AtPhase v p.shared_counter (p.counter_mtx.client i)) e ((Run-Inv r).at_phase i)).0

-- In every state that any interleaving of tasks `increment_counter` under one mutex reaches, the
-- racing steps of `deregister` included, `shared_counter` and the increments that the tasks have
-- still to make add up to all that were asked for.
pub counter-increments :
    {racy : Bool} {n : ℕ} {times : ℕ → ℕ} {p : Program}
    → Run racy n times p
    → p.shared_counter + sum_below n (λ i. remaining (p.task i)) ≡ sum_below n times
counter-increments r = (Run-Inv r).total
