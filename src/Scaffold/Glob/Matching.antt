-- ===== src/Scaffold/Glob/Matching.antt =====
-- The matcher decides an independent description of what an expression matches.
use project_builder_sdk.Base.{
  ℕ, Bool, true, ◌&&◌, List, [], ◌∷◌, ◌++◌, Text, ◌==◌, ◌≡◌, refl, ap, ◌∙◌, ◌↔◌, inl, inr, arith,
  All, Bool-cases,
}
use project_builder_sdk.Scaffold.Glob.{
  Atom, dirs, any_run, segment_run, unit, optional, dot, in_segment, run, run_slash, one_unit, test,
}

abbrev pub AllIn : (ℕ → Bool) → Text → Type 0
AllIn p s = All (λ c. p c ≡ true) s

-- A text that an expression matches, ats a split of it into parts.
pub data Matches : List Atom → Text → Type 0 where
  nil : Matches [] []
  skip_dirs : {ats : List Atom} {s : Text} → Matches ats s → Matches (dirs ∷ ats) s
  some_dirs :
      {ats : List Atom} {s u : Text} (t : Text)
      → AllIn dot t
      → Matches ats s
      → u ≡ t ++ b'/' ∷ s
      → Matches (dirs ∷ ats) u
  anything :
      {ats : List Atom} {s u : Text} (t : Text)
      → AllIn dot t
      → Matches ats s
      → u ≡ t ++ s
      → Matches (any_run ∷ ats) u
  in_one_segment :
      {ats : List Atom} {s u : Text} (t : Text)
      → AllIn in_segment t
      → Matches ats s
      → u ≡ t ++ s
      → Matches (segment_run ∷ ats) u
  this_unit :
      {ats : List Atom} {s u : Text} (c : ℕ) → Matches ats s → u ≡ c ∷ s → Matches (unit c ∷ ats) u
  skip_unit : {ats : List Atom} {s : Text} (c : ℕ) → Matches ats s → Matches (optional c ∷ ats) s
  take_unit :
      {ats : List Atom} {s u : Text} (c : ℕ)
      → Matches ats s
      → u ≡ c ∷ s
      → Matches (optional c ∷ ats) u

-- A run ends somewhere, and what follows it is accepted by `k`.
abbrev Splits : (ℕ → Bool) → (Text → Bool) → Text → Type 0
Splits p k u = (t : Text) × (s : Text) × AllIn p t × (k s ≡ true) × (u ≡ t ++ s)

run_sound : (p : ℕ → Bool) (k : Text → Bool) (u : Text) → run p k u ≡ true → Splits p k u
unfolding run
run_sound p k [] h = ([], [], tt, h, refl)
run_sound p k (c ∷ u) h = elim (Bool-cases (k (c ∷ u))) [
  | inl here ↦ ([], c ∷ u, tt, here, refl)
  | inr later ↦
      let (t, s, h', k', e) = run_sound p k u (ground (arith, later)) in
      (c ∷ t, s, (ground (arith, later), h'), k', ap (λ r. c ∷ r) e)
]

run_complete :
    (p : ℕ → Bool) (k : Text → Bool) (t s : Text) → AllIn p t → k s ≡ true → run p k (t ++ s) ≡ true
unfolding run
run_complete p k [] [] h e = e
run_complete p k [] (c ∷ s) h e = rw e
run_complete p k (c ∷ t) s (h, hs) e = ground (arith, run_complete p k t s hs e)

abbrev SplitsAtSlash : (Text → Bool) → Text → Type 0
SplitsAtSlash k u = (t : Text) × (s : Text) × AllIn dot t × (k s ≡ true) × (u ≡ t ++ b'/' ∷ s)

run_slash_sound : (k : Text → Bool) (u : Text) → run_slash k u ≡ true → SplitsAtSlash k u
unfolding run_slash
run_slash_sound k [] h = cc
run_slash_sound k (c ∷ u) h = elim (Bool-cases (c == b'/' && k u)) [
  | inl here ↦ ([], u, tt, ground arith, ap (λ d. d ∷ u) (ground arith))
  | inr later ↦
      let (t, s, h', k', e) = run_slash_sound k u (ground (arith, later)) in
      (c ∷ t, s, (ground (arith, later), h'), k', ap (λ r. c ∷ r) e)
]

run_slash_complete :
    (k : Text → Bool) (t s : Text) → AllIn dot t → k s ≡ true → run_slash k (t ++ b'/' ∷ s) ≡ true
unfolding run_slash
run_slash_complete k [] s h e = ground arith
run_slash_complete k (c ∷ t) s (h, hs) e = ground (arith, run_slash_complete k t s hs e)

one_unit_sound :
    (c : ℕ) (k : Text → Bool) (u : Text)
    → one_unit c k u ≡ true
    → (s : Text) × (k s ≡ true) × (u ≡ c ∷ s)
one_unit_sound c k [] h = cc
one_unit_sound c k (d ∷ u) h = (u, ground arith, ap (λ r. r ∷ u) (ground arith))

test_sound : (ats : List Atom) (u : Text) → test ats u ≡ true → Matches ats u
unfolding test
test_sound [] [] h = nil
test_sound [] (c ∷ u) h = cc
test_sound (dirs ∷ ats) u h = elim (Bool-cases (test ats u)) [
  | inl here ↦ skip_dirs (test_sound ats u here)
  | inr later ↦
      let (t, s, h', k', e) = run_slash_sound (test ats) u (ground (arith, later)) in
      some_dirs t h' (test_sound ats s k') e
]
test_sound (any_run ∷ ats) u h =
    let (t, s, h', k', e) = run_sound dot (test ats) u h in anything t h' (test_sound ats s k') e
test_sound (segment_run ∷ ats) u h =
    let (t, s, h', k', e) = run_sound in_segment (test ats) u h in
    in_one_segment t h' (test_sound ats s k') e
test_sound (unit c ∷ ats) u h =
    let (s, k', e) = one_unit_sound c (test ats) u h in this_unit c (test_sound ats s k') e
test_sound (optional c ∷ ats) u h = elim (Bool-cases (test ats u)) [
  | inl here ↦ skip_unit c (test_sound ats u here)
  | inr later ↦
      let (s, k', e) = one_unit_sound c (test ats) u (ground (arith, later)) in
      take_unit c (test_sound ats s k') e
]

test_complete : {ats : List Atom} {u : Text} → Matches ats u → test ats u ≡ true
unfolding test
test_complete nil = refl
test_complete {ats = dirs ∷ ats} {u} (skip_dirs m) = ground (arith, test_complete m)
test_complete {ats = dirs ∷ ats} {u} (some_dirs {s = s} t h m e) =
    let there = run_slash_complete (test ats) t s h (test_complete m) in
    ap (λ r. test (dirs ∷ ats) r) e ∙ ground (arith, there)
test_complete {ats = any_run ∷ ats} (anything {s = s} t h m e) =
    ap (run dot (test ats)) e ∙ run_complete dot (test ats) t s h (test_complete m)
test_complete {ats = segment_run ∷ ats} (in_one_segment {s = s} t h m e) =
    ap (run in_segment (test ats)) e ∙ run_complete in_segment (test ats) t s h (test_complete m)
test_complete (this_unit c m e) = ap (one_unit c _) e ∙ ground (arith, test_complete m)
test_complete {ats = optional d ∷ ats} {u} (skip_unit c m) = ground (arith, test_complete m)
test_complete {ats = optional d ∷ ats} {u} (take_unit {s = s} c m e) =
    ap (test (optional d ∷ ats)) e ∙ ground (arith, test_complete m)

-- A compiled pattern accepts a path exactly when the path can be cut into parts that its pieces
-- match, in order: `(?:.*/)?` nothing or any text that ends in a slash, `.*` any text, `[^/]*` any
-- text without a slash, a unit itself, `.` never a line terminator.
pub test_iff : (ats : List Atom) (u : Text) → (test ats u ≡ true) ↔ Matches ats u
test_iff ats u = (test_sound ats u, test_complete)
