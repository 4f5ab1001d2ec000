-- ===== src/Scaffold/Glob/Dialect.antt =====
-- The dialect of the glob patterns, described on the pattern itself.
use project_builder_sdk.Base.{
  ℕ, Bool, true, false, ◌&&◌, some, List, [], ◌∷◌, ◌++◌, Text, map, All, ◌==◌, ◌≡◌, ◌≢◌, refl, ◌⊎◌,
  inl, inr, arith, Bool-cases, if◌then◌else◌,
}
use project_builder_sdk.Scaffold.Glob.{
  Token, dir_star, any_star, star, tokens, Atom, dirs, any_run, segment_run, Before, plain,
  quantified, close, atoms_from, dot, in_segment,
}
use project_builder_sdk.Scaffold.Glob.Matching.{AllIn, Matches, test_iff}
use project_builder_sdk.Scaffold.Glob.Matching

-- The pattern does not begin with this unit.
abbrev pub StartsNot : ℕ → Text → Type 0
StartsNot c [] = Unit
StartsNot c (d ∷ _) = d ≢ c

-- A path that a pattern takes. `**/` takes nothing, or any text that ends in a slash; `**` any text
-- and `*` any text without a slash; each other unit takes itself. No run of `**` has a line terminator.
pub data Takes : Text → Text → Type 0 where
  ended : Takes [] []
  no_folder : {p u : Text} → Takes p u → Takes (b'*' ∷ b'*' ∷ b'/' ∷ p) u
  folders :
      {p s u : Text} (t : Text)
      → AllIn dot t
      → Takes p s
      → u ≡ t ++ b'/' ∷ s
      → Takes (b'*' ∷ b'*' ∷ b'/' ∷ p) u
  anything :
      {p s u : Text} (t : Text)
      → StartsNot b'/' p
      → AllIn dot t
      → Takes p s
      → u ≡ t ++ s
      → Takes (b'*' ∷ b'*' ∷ p) u
  in_one_segment :
      {p s u : Text} (t : Text)
      → StartsNot b'*' p
      → AllIn in_segment t
      → Takes p s
      → u ≡ t ++ s
      → Takes (b'*' ∷ p) u
  itself : {p s : Text} (c : ℕ) → c ≢ b'*' → Takes p s → Takes (c ∷ p) (c ∷ s)

abbrev pub atom_of : Token → Atom
atom_of dir_star = dirs
atom_of any_star = any_run
atom_of star = segment_run
atom_of (Token.unit c) = Atom.unit c

abbrev IsPlain : Token → Type 0
IsPlain (Token.unit c) = c ≢ b'?'
IsPlain _ = Unit

-- Without a `?`, each piece of the pattern is one of the expression.
pub atoms_from-plain :
    (b : Before) (ts : List Token)
    → All IsPlain ts
    → atoms_from b ts ≡ some (close b (map atom_of ts))
unfolding atoms_from
atoms_from-plain b [] h = refl
atoms_from-plain b (dir_star ∷ ts) (h, hs) = rw (atoms_from-plain (quantified dirs) ts hs) refl
atoms_from-plain b (any_star ∷ ts) (h, hs) = rw (atoms_from-plain (quantified any_run) ts hs) refl
atoms_from-plain b (star ∷ ts) (h, hs) = rw (atoms_from-plain (quantified segment_run) ts hs) refl
atoms_from-plain b (Token.unit c ∷ ts) (h, hs) = elim (Bool-cases (c == b'?')) [
  | inl q ↦ absurd (ground (arith, q))
  | inr q ↦ rw (q, atoms_from-plain (plain c) ts hs) refl
]

pub All-IsPlain : (p : Text) → All (λ c. c ≢ b'?') p → All IsPlain (tokens p)
unfolding tokens
All-IsPlain [] h = tt
All-IsPlain (c ∷ []) (h, _) = by_star (c == b'*')
  where
    by_star : (b : Bool) → All IsPlain ((if b then star else Token.unit c) ∷ [])
    by_star true = (tt, tt)
    by_star false = (h, tt)
All-IsPlain (c ∷ d ∷ []) (h, hs) = by_stars (c == b'*') (d == b'*') (All-IsPlain (d ∷ []) hs)
  where
    by_stars :
        (b b' : Bool)
        → All IsPlain (tokens (d ∷ []))
        → All IsPlain (
            if b && b' then any_star ∷ [] else (if b then star else Token.unit c) ∷ tokens (d ∷ []))
    by_stars true true r = (tt, tt)
    by_stars true false r = (tt, r)
    by_stars false b' r = (h, r)
All-IsPlain (c ∷ d ∷ e ∷ s) (h, hs) =
    by_stars (c == b'*') (d == b'*') (e == b'/') (All-IsPlain (d ∷ e ∷ s) hs)
      (All-IsPlain (e ∷ s) hs.1) (All-IsPlain s hs.1.1)
  where
    by_stars :
        (b b' b'' : Bool)
        → All IsPlain (tokens (d ∷ e ∷ s))
        → All IsPlain (tokens (e ∷ s))
        → All IsPlain (tokens s)
        → All IsPlain (
            if b && b'
            then (if b'' then dir_star ∷ tokens s else any_star ∷ tokens (e ∷ s))
            else (if b then star else Token.unit c) ∷ tokens (d ∷ e ∷ s))
    by_stars true true true r q m = (tt, m)
    by_stars true true false r q m = (tt, q)
    by_stars true false b'' r q m = (tt, r)
    by_stars false b' b'' r q m = (h, r)

pub tokens-stars : (p : Text) → StartsNot b'/' p → tokens (b'*' ∷ b'*' ∷ p) ≡ any_star ∷ tokens p
unfolding tokens
tokens-stars [] h = refl
tokens-stars (e ∷ s) h = elim (Bool-cases (e == b'/')) [
  | inl q ↦ absurd (ground (arith, q))
  | inr q ↦ rw q refl
]

pub tokens-star : (p : Text) → StartsNot b'*' p → tokens (b'*' ∷ p) ≡ star ∷ tokens p
unfolding tokens
tokens-star [] h = refl
tokens-star (d ∷ []) h = elim (Bool-cases (d == b'*')) [
  | inl q ↦ absurd (ground (arith, q))
  | inr q ↦ rw q refl
]
tokens-star (d ∷ e ∷ s) h = elim (Bool-cases (d == b'*')) [
  | inl q ↦ absurd (ground (arith, q))
  | inr q ↦ rw q refl
]

pub tokens-unit : (c : ℕ) (p : Text) → c ≢ b'*' → tokens (c ∷ p) ≡ Token.unit c ∷ tokens p
unfolding tokens
tokens-unit c p h = elim (Bool-cases (c == b'*')) [
  | inl q ↦ absurd (ground (arith, q))
  | inr q ↦ by_rest p q
]
  where
    by_rest : (p : Text) → (c == b'*') ≡ false → tokens (c ∷ p) ≡ Token.unit c ∷ tokens p
    by_rest [] q = rw q refl
    by_rest (d ∷ []) q = rw q refl
    by_rest (d ∷ e ∷ s) q = rw q refl

unfoldable pub atoms : Text → List Atom
atoms p = map atom_of (tokens p)

-- What an expression of a first piece matches.
pub dirs-inverse :
    {ats : List Atom} {u : Text}
    → Matches (dirs ∷ ats) u
    → Matches ats u ⊎ ((t : Text) × (s : Text) × AllIn dot t × Matches ats s × (u ≡ t ++ b'/' ∷ s))
dirs-inverse (Matching.skip_dirs m) = inl m
dirs-inverse (Matching.some_dirs {s = s} t h m e) = inr (t, s, h, m, e)

pub run-inverse :
    {ats : List Atom} {u : Text}
    → Matches (any_run ∷ ats) u
    → (t : Text) × (s : Text) × AllIn dot t × Matches ats s × (u ≡ t ++ s)
run-inverse (Matching.anything {s = s} t h m e) = (t, s, h, m, e)

pub segment-inverse :
    {ats : List Atom} {u : Text}
    → Matches (segment_run ∷ ats) u
    → (t : Text) × (s : Text) × AllIn in_segment t × Matches ats s × (u ≡ t ++ s)
segment-inverse (Matching.in_one_segment {s = s} t h m e) = (t, s, h, m, e)

pub unit-inverse :
    {c : ℕ} {ats : List Atom} {u : Text}
    → Matches (Atom.unit c ∷ ats) u
    → (s : Text) × Matches ats s × (u ≡ c ∷ s)
unit-inverse (Matching.this_unit {s = s} c m e) = (s, m, e)

pub Takes-Matches : {p u : Text} → Takes p u → Matches (atoms p) u
unfolding atoms tokens
Takes-Matches ended = Matching.nil
Takes-Matches (no_folder k) = Matching.skip_dirs (Takes-Matches k)
Takes-Matches (folders t h k e) = Matching.some_dirs t h (Takes-Matches k) e
Takes-Matches (anything {p = p} t n h k e) =
    rw (tokens-stars p n) (Matching.anything t h (Takes-Matches k) e)
Takes-Matches (in_one_segment {p = p} t n h k e) =
    rw (tokens-star p n) (Matching.in_one_segment t h (Takes-Matches k) e)
Takes-Matches (itself {p = p} c n k) =
    rw (tokens-unit c p n) (Matching.this_unit c (Takes-Matches k) refl)
