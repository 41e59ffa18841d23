-- ===== src/Waker.antt =====
-- src/waker.cppm: the waker, and the calls that it makes.
use pollcoro.Base.{if◌then◌else◌, ℕ, Bool, ◌&&◌, ◌==◌, List, [], ◌∷◌}

-- A pointer is a number, and 0 is the null pointer.
pub record Waker : Type 0 where
  pub wake_function : ℕ
  pub data_ptr : ℕ

-- `waker()`: both pointers null.
abbrev pub noop : Waker
noop = record { wake_function = 0; data_ptr = 0 }

-- The calls `wake_function_(data_)` that `wake` makes: none through a null function.
unfoldable pub wake : Waker → List Waker
wake w = if w.wake_function == 0 then [] else w ∷ []

unfoldable pub will_wake : Waker → Waker → Bool
will_wake w other = (w.data_ptr == other.data_ptr) && (w.wake_function == other.wake_function)
