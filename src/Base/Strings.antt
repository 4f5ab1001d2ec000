-- ===== src/Base/Strings.antt =====
-- A JavaScript string as the list of its UTF-16 code units. A literal is written by `codes`.
use Prim.Native.Nat.{ℕ}
use Prim.Native.Char.{code}
use Prim.Native.String.{String}
use mathlib.Core.Path.{◌≡◌}
use mathlib.Core.Logic.{◌↔◌, ite}
use mathlib.Core.Bool.{Bool, true, false, ◌||◌}
use mathlib.Core.List.{List, [], ◌∷◌}
use native.Mathlib.Decide.{ℕ_discrete}
use native.Mathlib.Omega.{arith}

abbrev pub Text : Type 0
Text = List ℕ

-- The code units of an ASCII literal.
abbrev pub codes : String → Text
codes String.[] = []
codes (String.◌∷◌ c s) = code c ∷ codes s

unfoldable pub Text-discrete : Discrete Text
unfolding ℕ_discrete
Text-discrete = hlevel ℕ_discrete

-- `===` on strings. In proofs a split on it yields the equation or its negation.
abbrev pub text_eq : Text → Text → Bool
text_eq a b = ite (Text-discrete a b) true false

pub text_eq_iff : (a b : Text) → (text_eq a b ≡ true) ↔ (a ≡ b)
text_eq_iff a b = ground arith

-- `set.has(x)` for a set of strings.
abbrev pub has : List Text → Text → Bool
has [] x = false
has (y ∷ ys) x = text_eq x y || has ys x
