-- ===== src/Samples/Streams.antt =====
-- The stream adapters of src/ over concrete containers and ranges.
use pollcoro.Base.{ltb, Bool, ℕ, List, [], ◌∷◌, arith, none}
use pollcoro.Waker.{Waker}
use pollcoro.Stream.{Emits, no_streams, each}
use pollcoro.Stream.Sources.{IterStreamAwaitable, iter_poll_next, Emits-iter}
use pollcoro.Stream.Window
use pollcoro.Stream.Flatten
use pollcoro.Stream.SkipWhile
use pollcoro.Stream.Zip
use pollcoro.Stream.Zip.Rows.{rows}
use pollcoro.Stream.Zip.Emission.{Emits-zip}

abbrev waker : Waker
waker = record { wake_function = 1; data_ptr = 7 }

abbrev container : List ℕ → IterStreamAwaitable ℕ
container xs = record { storage = xs; current = 0 }

-- 5, 6, 9, 6
abbrev numbers : List ℕ
numbers = 5 ∷ 6 ∷ 9 ∷ 6 ∷ []

numbers-Emits : Emits iter_poll_next waker (container numbers) numbers
numbers-Emits = Emits-iter waker numbers

abbrev small : ℕ → Bool
small x = ltb x 8

Emits-skip_while_example :
    Emits
      (SkipWhile.poll_next iter_poll_next small 5)
      waker
      (record { stream = container numbers; skipping = Bool.true })
      (SkipWhile.skip_while small numbers)
Emits-skip_while_example =
    SkipWhile.Emits-skip_while iter_poll_next small 5 numbers-Emits (omega arith)

Emits-flatten_example :
    Emits
      (Flatten.poll_next iter_poll_next iter_poll_next 5)
      waker
      (record {
        stream = record { storage = container (8 ∷ []) ∷ container numbers ∷ []; current = 0 };
        inner_stream = none;
      })
      (8 ∷ 5 ∷ 6 ∷ 9 ∷ 6 ∷ [])
unfolding mathlib.Core.List.flatten
Emits-flatten_example =
    Flatten.Emits-flatten iter_poll_next iter_poll_next 5
      (Emits-iter waker (container (8 ∷ []) ∷ container numbers ∷ []))
      (each (Emits-iter waker (8 ∷ [])) (each numbers-Emits no_streams)) (omega arith)

Emits-window_example :
    (groups : List (List ℕ)) × Emits
      (Window.poll_next iter_poll_next 3)
      waker
      (Window.new iter_poll_next 3 (container numbers))
      groups
    × Window.Cut 3 numbers groups
Emits-window_example = Window.Emits-window iter_poll_next 3 (omega arith) numbers-Emits

Emits-zip_example :
    Emits
      (Zip.poll_next iter_poll_next)
      waker
      (record {
        streams = container numbers ∷ container (1 ∷ 2 ∷ []) ∷ [];
        buffered = none ∷ none ∷ [];
      })
      (rows (numbers ∷ (1 ∷ 2 ∷ []) ∷ []))
Emits-zip_example =
    Emits-zip iter_poll_next waker
      (each numbers-Emits (each (Emits-iter waker (1 ∷ 2 ∷ [])) no_streams)) (omega arith)
