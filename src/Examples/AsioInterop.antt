-- ===== src/Examples/AsioInterop.antt =====
-- examples/interop_asio.cc: its two adapters. What ASIO does is a client of these: it completes a spawned
-- operation, and it runs what is posted, one piece at a time.
pub mod Completion
pub mod Posting
use pollcoro.Base.{
  ℕ, zero, suc, ◌+◌, ◌-◌, Bool, true, false, not, if◌then◌else◌, ◌>>=◌, List, [], Option, none,
  some,
}
use pollcoro.Waker.{Waker, noop, wake}
use pollcoro.Awaitable.{Poll, AwaitableState, ready, pending}
use pollcoro.Task.{Outcome, returned, thrown}
use pollcoro.Task.Evaluation.{Result, value, exception}
use pollcoro.BlockOn.{notified}

-- The variant `result`.
pub data Stored {ℓ κ} (E : Type ℓ) (T : Type κ) : Type (ℓ ⊔ κ) where
  monostate : Stored E T
  storage : T → Stored E T
  exception_ptr : E → Stored E T

-- `asio_shared_state`, for a result that is not void, and how often `co_spawn` was called.
pub record AsioSharedState {ℓ κ} (E : Type ℓ) (T : Type κ) : Type (ℓ ⊔ κ) where
  pub started : Bool
  pub done : Bool
  pub stored_waker : Waker
  pub result : Stored E T
  pub spawned : ℕ

module _ {ℓ κ} {E : Type ℓ} {T : Type κ} where
  -- `from_asio_awaitable`
  abbrev pub from_asio : AsioSharedState E T
  from_asio = record {
    started = false;
    done = false;
    stored_waker = noop;
    result = monostate;
    spawned = 0;
  }

  abbrev pub unset_waker : AsioSharedState E T → AsioSharedState E T
  unset_waker s = record s { stored_waker = noop }

  abbrev pub set_result : T → AsioSharedState E T → AsioSharedState E T × List Waker
  set_result v s = (record s { result = storage v; done = true }, wake s.stored_waker)

  abbrev pub set_exception : E → AsioSharedState E T → AsioSharedState E T × List Waker
  set_exception e s = (record s { result = exception_ptr e; done = true }, wake s.stored_waker)

  -- The handler that `start_async_operation` gives to `co_spawn`.
  abbrev pub completed : Result E T → AsioSharedState E T → AsioSharedState E T × List Waker
  completed (exception e) s = set_exception e s
  completed (value v) s = set_result v s

  -- What a finished operation left: `none` for `std::get` of another alternative.
  abbrev pub stored_outcome : Stored E T → Option (Outcome E T)
  stored_outcome monostate = none
  stored_outcome (storage v) = some (returned (ready v))
  stored_outcome (exception_ptr e) = some (thrown e)

  -- `asio_shared_state::poll`
  unfoldable pub state_poll : Poll (AsioSharedState E T) (Outcome E T)
  state_poll w s =
      if s.done
      then (do outcome ← stored_outcome s.result; some (s, outcome, []))
      else some (record s { stored_waker = w }, returned pending, [])

  -- `start_async_operation`, the first time.
  abbrev pub start : AsioSharedState E T → AsioSharedState E T
  start s = record s { started = true; spawned = if s.started then s.spawned else s.spawned + 1 }

  -- `from_asio_awaitable::poll`
  unfoldable pub poll : Poll (AsioSharedState E T) (Outcome E T)
  unfolding state_poll
  poll w s = state_poll w (start s)

  -- The destructor of the awaitable.
  abbrev pub destroy : AsioSharedState E T → AsioSharedState E T
  destroy s = unset_waker s

-- `op_state` of `to_asio`: also how many calls of `poll` are posted and have not run, what the handler
-- was called with, and whether `delete this` has run.
pub record Operation {ℓ κ μ} (S : Type ℓ) (E : Type κ) (R : Type μ) : Type (ℓ ⊔ κ ⊔ μ) where
  pub awaitable : S
  pub wake_pending : Bool
  pub polling : Bool
  pub posted : ℕ
  pub handled : Option (Result E R)
  pub deleted : Bool

module _ {ℓ κ μ} {S : Type ℓ} {E : Type κ} {R : Type μ} where
  abbrev pub new_operation : S → Operation S E R
  new_operation s = record {
    awaitable = s;
    wake_pending = true;
    polling = false;
    posted = 0;
    handled = none;
    deleted = false;
  }

  -- `complete` and `complete_with_exception`: the handler is called once, and throws nothing.
  abbrev pub complete : Result E R → Operation S E R → Operation S E R
  complete r op = record op { handled = some r; deleted = true }

  -- `wake`, when no poll is in progress.
  abbrev pub wake_operation : Operation S E R → Operation S E R
  wake_operation op =
      if op.polling
      then record op { wake_pending = true }
      else record op { wake_pending = true; posted = op.posted + 1 }

  module _ (awaitable_poll : Poll S (Outcome E R)) (w : Waker) where
    -- The `while` of `poll`, for a number of rounds; `w` is `pollcoro::waker(this)`. A wake during
    -- the awaitable's poll finds `polling` true, and leaves `wake_pending` set.
    unfoldable pub poll_loop : ℕ → Operation S E R → Option (Operation S E R)
    unfolding notified
    poll_loop zero op = none
    poll_loop (suc rounds) op =
        if op.wake_pending
        then (do
          (s, outcome, woken) ← awaitable_poll w op.awaitable
          let op' = record op { awaitable = s; wake_pending = notified w woken; polling = false }
          let rest = poll_loop rounds op'
          elim outcome [
            | thrown e ↦ some (complete (exception e) op')
            | returned state ↦ elim state.result [
              | some r ↦ some (complete (value r) op')
              | none ↦ rest
            ]
          ])
        else some op

    -- The executor runs one posted call. `none` where nothing is posted, and where the call would touch
    -- an object that is deleted.
    unfoldable pub run_posted : ℕ → Operation S E R → Option (Operation S E R)
    unfolding poll_loop
    run_posted rounds op = elim op.posted [
      | zero ↦ none
      | suc left ↦ if op.deleted then none else poll_loop rounds (record op { posted = left })
    ]
