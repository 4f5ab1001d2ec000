-- ===== src/Scaffold/Glob.antt =====
-- scaffold/filename-pipeline.ts, the glob filters: a pattern becomes a regular expression, which is
-- matched against a whole path. `none` stands for the `SyntaxError` of `new RegExp`.
pub mod Matching
pub mod Dialect
pub mod Compiled
use project_builder_sdk.Base.{
  ℕ, Bool, true, false, not, ◌&&◌, ◌||◌, Option, none, some, List, [], ◌∷◌, Text, codes, ◌==◌, any,
  if◌then◌else◌,
}

-- The pieces of a pattern.
pub data Token : Type 0 where
  dir_star any_star star : Token
  unit : ℕ → Token

abbrev starts_two_stars : Text → Bool
starts_two_stars (c ∷ d ∷ s) = c == b'*' && d == b'*'
starts_two_stars _ = false

-- The loop of `globToRegex`, from the position `i` on.
unfoldable pub tokens : Text → List Token
tokens [] = []
tokens (c ∷ []) = (if c == b'*' then star else unit c) ∷ []
tokens (c ∷ d ∷ []) =
    let one = (if c == b'*' then star else unit c) ∷ tokens (d ∷ []) in
    if c == b'*' && d == b'*' then any_star ∷ [] else one
tokens (c ∷ d ∷ e ∷ s) =
    let past_slash = dir_star ∷ tokens s in
    let past_stars = any_star ∷ tokens (e ∷ s) in
    let one = (if c == b'*' then star else unit c) ∷ tokens (d ∷ e ∷ s) in
    if c == b'*' && d == b'*' then (if e == b'/' then past_slash else past_stars) else one

-- The pieces of the compiled expression: `(?:.*/)?`, `.*`, `[^/]*`, a unit, and a unit with a `?`
-- behind it. A `?` behind the others makes them lazy, which matches the same texts.
pub data Atom : Type 0 where
  dirs any_run segment_run : Atom
  unit optional : ℕ → Atom

-- What a `?` would stand behind: nothing, a unit, an atom with a quantifier, or a lazy one.
pub data Before : Type 0 where
  nothing : Before
  plain : ℕ → Before
  quantified : Atom → Before
  lazy : Atom → Before

abbrev pub close : Before → List Atom → List Atom
close nothing rest = rest
close (plain c) rest = Atom.unit c ∷ rest
close (quantified a) rest = a ∷ rest
close (lazy a) rest = a ∷ rest

-- The regular expression escapes `.+^${}()|[]\` and not `?`, which so becomes a quantifier.
abbrev pub question : Before → Option Before
question nothing = none
question (plain c) = some (quantified (optional c))
question (quantified a) = some (lazy a)
question (lazy a) = none

abbrev pub close_all : Before → Option (List Atom) → Option (List Atom)
close_all b none = none
close_all b (some rest) = some (close b rest)

abbrev pub continue_with {ℓ} : {A : Type ℓ} → Option Before → (Before → Option A) → Option A
continue_with none k = none
continue_with (some b) k = k b

unfoldable pub atoms_from : Before → List Token → Option (List Atom)
atoms_from b [] = some (close b [])
atoms_from b (dir_star ∷ ts) = close_all b (atoms_from (quantified dirs) ts)
atoms_from b (any_star ∷ ts) = close_all b (atoms_from (quantified any_run) ts)
atoms_from b (star ∷ ts) = close_all b (atoms_from (quantified segment_run) ts)
atoms_from b (Token.unit c ∷ ts) =
    let quantifier = continue_with (question b) (λ b'. atoms_from b' ts) in
    let literal = close_all b (atoms_from (plain c) ts) in if c == b'?' then quantifier else literal

unfoldable pub glob_to_regex : Text → Option (List Atom)
unfolding tokens atoms_from
glob_to_regex pattern = atoms_from nothing (tokens pattern)

-- The regular expressions of the language, as far as these pieces go: `new RegExp` and
-- `RegExp.prototype.test` with `^` and `$` around.

-- What `.` matches: no line terminator.
abbrev pub dot : ℕ → Bool
dot c = not (c == 10 || c == 13 || c == 0x2028 || c == 0x2029)

abbrev pub in_segment : ℕ → Bool
in_segment c = not (c == b'/')

-- `[p]*` and then `k`.
unfoldable pub run : (ℕ → Bool) → (Text → Bool) → Text → Bool
run p k [] = k []
run p k (c ∷ s) = k (c ∷ s) || (p c && run p k s)

-- `.*/` and then `k`.
unfoldable pub run_slash : (Text → Bool) → Text → Bool
run_slash k [] = false
run_slash k (c ∷ s) = (c == b'/' && k s) || (dot c && run_slash k s)

abbrev pub one_unit : ℕ → (Text → Bool) → Text → Bool
one_unit c k [] = false
one_unit c k (d ∷ s) = c == d && k s

abbrev pub is_nil : Text → Bool
is_nil [] = true
is_nil (_ ∷ _) = false

-- `regex.test(path)`, anchored at both ends.
unfoldable pub test : List Atom → Text → Bool
unfolding run run_slash
test [] s = is_nil s
test (dirs ∷ ats) s = test ats s || run_slash (test ats) s
test (any_run ∷ ats) s = run dot (test ats) s
test (segment_run ∷ ats) s = run in_segment (test ats) s
test (Atom.unit c ∷ ats) s = one_unit c (test ats) s
test (optional c ∷ ats) s = test ats s || one_unit c (test ats) s

abbrev tested : Option (List Atom) → Text → Option Bool
tested none s = none
tested (some ats) s = some (test ats s)

abbrev pub or_next : Option Bool → Option Bool → Option Bool
or_next none next = none
or_next (some true) next = some true
or_next (some false) next = next

-- `patterns.some((p) => globToRegex(p).test(relPath))`
unfoldable pub some_matches : List Text → Text → Option Bool
unfolding glob_to_regex test
some_matches [] s = some false
some_matches (p ∷ ps) s = or_next (tested (glob_to_regex p) s) (some_matches ps s)

abbrev pub included : Option Bool → Option Bool → Option Bool
included none inc = none
included (some true) inc = some false
included (some false) inc = inc

-- The defaults are `["**"]` and `[]`.
abbrev pub patterns_or : List Text → Option (List Text) → List Text
patterns_or default none = default
patterns_or default (some ps) = ps

unfoldable pub is_included : Text → Option (List Text) → Option (List Text) → Option Bool
unfolding some_matches
is_included s include exclude =
    included (some_matches (patterns_or [] exclude) s)
      (some_matches (patterns_or (codes "**" ∷ []) include) s)
