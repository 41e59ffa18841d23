-- ===== src/Ref.antt =====
-- src/ref.cppm: references to awaitables and streams. The objects that they are about are in a store.
use pollcoro.Base.{ℕ, ◌>>=◌, Option, none, some}
use pollcoro.Awaitable.{Poll}
use pollcoro.Mutex.{update}

-- `awaitable_access` and `stream_awaitable_access` of a type `T`: which of the three ways to an
-- awaitable, or a stream, its objects have, and where each leads. An object that is an awaitable
-- itself leads to its own place.
pub record Access {ℓ} (T : Type ℓ) : Type ℓ where
  pub direct : Option (T → ℕ)  -- `T` is an awaitable
  pub dereference : Option (T → ℕ)  -- `*t` is an awaitable
  pub get : Option (T → ℕ)  -- `t.get()` is an awaitable

-- The constraints of the specializations: each way is taken only where those before it are not there.
-- `none` for a type that has none of them.
unfoldable pub access {ℓ} : {T : Type ℓ} → Access T → Option (T → ℕ)
access way = elim way.direct [
  | some place ↦ some place
  | none ↦ elim way.dereference [ some place ↦ some place | none ↦ way.get ]
]

module _ {ℓ κ μ} {T : Type ℓ} {S : Type κ} {O : Type μ} (way : Access T) (inner : Poll S O) where
  -- `ref_awaitable::poll` and `ref_stream_awaitable::poll_next`, where the member is `t`.
  unfoldable pub poll : T → Poll (ℕ → S) O
  unfolding access
  poll t w store = do
    place ← access way
    (s', outcome, woken) ← inner w (store (place t))
    some (update store (place t) s', outcome, woken)
