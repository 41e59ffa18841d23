-- ===== src/Console.antt =====
-- What the programs of examples/ print with `<<`.
use pollcoro.Base.{ℕ, ℤ, String, List, [], ◌∷◌}

-- A number written to the stream, a text, or `std::endl`.
pub data Token : Type 0 where
  number : ℕ → Token
  integer : ℤ → Token
  text : String → Token
  endl : Token

-- Numbers with a text behind each.
abbrev pub each_then : String → List ℕ → List Token
each_then separator [] = []
each_then separator (x ∷ xs) = number x ∷ text separator ∷ each_then separator xs
