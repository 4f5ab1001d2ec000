-- ===== src/Scaffold/PathGuards/Lexical.antt =====
-- What the lexical screen refuses, described without the splitting.
use project_builder_sdk.Base.{
  ℕ, true, false, List, [], ◌∷◌, ◌++◌, Text, codes, text_eq, has, ◌≡◌, ◌↔◌, ◌⊎◌, inl, inr, refl, ap,
  arith, Bool-cases, All,
}
use project_builder_sdk.Scaffold.PathGuards.{
  is_separator, starts_separator, segments, is_lexically_escaping, is_absolute,
}

abbrev pub dots : Text
dots = codes ".."

-- The end of the path, or a separator.
abbrev pub Boundary : Text → Type 0
Boundary [] = Unit
Boundary (c ∷ _) = is_separator c ≡ true

-- The path begins with this segment.
abbrev pub Begins : Text → Text → Type 0
Begins t p = (b : Text) × Boundary b × (p ≡ t ++ b)

-- This segment stands after a separator.
abbrev pub Follows : Text → Text → Type 0
Follows t p =
    (a : Text) × (c : ℕ) × (b : Text) × (is_separator c ≡ true)
    × Boundary b
    × (p ≡ a ++ c ∷ (t ++ b))

abbrev first_of : List Text → Text
first_of [] = []
first_of (t ∷ ts) = t

abbrev others : List Text → List Text
others [] = []
others (t ∷ ts) = ts

prepend-Follows : (t p : Text) (c : ℕ) → Follows t p → Follows t (c ∷ p)
prepend-Follows t p c (a, d, b, h, k, e) = (c ∷ a, d, b, h, k, ap (λ q. c ∷ q) e)

segments-nonempty : (p : Text) → segments p ≡ first_of (segments p) ∷ others (segments p)
unfolding segments
segments-nonempty [] = refl
segments-nonempty (c ∷ s) = ground (arith, segments-nonempty s)

first_of-separator : (s : Text) → starts_separator s ≡ true → first_of (segments s) ≡ []
unfolding segments
first_of-separator [] h = refl
first_of-separator (c ∷ s) h = elim (Bool-cases (starts_separator s)) [
  | inl more ↦ rw (h, more) (first_of-separator s more)
  | inr one ↦ rw (h, one) refl
]

first-Begins : (p : Text) → Begins (first_of (segments p)) p
unfolding segments
first-Begins [] = ([], tt, refl)
first-Begins (c ∷ s) = elim (Bool-cases (is_separator c)) [
  | inl sep ↦ elim (Bool-cases (starts_separator s)) [
    | inl more ↦ rw (sep, more, first_of-separator s more) (c ∷ s, sep, refl)
    | inr one ↦ rw (sep, one) (c ∷ s, sep, refl)
  ]
  | inr unit ↦
      let (b, k, e) = first-Begins s in rw (unit, segments-nonempty s) (b, k, ap (λ q. c ∷ q) e)
]

others-Follows : (t p : Text) → has (others (segments p)) t ≡ true → Follows t p
unfolding segments
others-Follows t [] h = cc
others-Follows t (c ∷ s) h = elim (Bool-cases (is_separator c)) [
  | inl sep ↦ elim (Bool-cases (starts_separator s)) [
    | inl more ↦ prepend-Follows t s c (others-Follows t s (ground (arith, h, more, sep)))
    | inr one ↦ elim (Bool-cases (text_eq t (first_of (segments s)))) [
      | inl here ↦
          let (b, k, e) = first-Begins s in
          ([], c, b, sep, k, ap (λ q. c ∷ q) (ground (arith, e, here)))
      | inr further ↦
          prepend-Follows t s c
            (others-Follows t s (ground (arith, h, one, sep, further, segments-nonempty s)))
    ]
  ]
  | inr unit ↦
      prepend-Follows t s c (others-Follows t s (ground (arith, h, unit, segments-nonempty s)))
]

abbrev NoSeparator : Text → Type 0
NoSeparator t = All (λ c. is_separator c ≡ false) t

first_of-Boundary : (b : Text) → Boundary b → first_of (segments b) ≡ []
unfolding segments
first_of-Boundary [] k = refl
first_of-Boundary (c ∷ s) k = first_of-separator (c ∷ s) k

first_of-Begins : (t b : Text) → NoSeparator t → Boundary b → first_of (segments (t ++ b)) ≡ t
unfolding segments
first_of-Begins [] b n k = first_of-Boundary b k
first_of-Begins (c ∷ t) b (n, ns) k =
    ground (arith, n, first_of-Begins t b ns k, segments-nonempty (t ++ b))

others-Follows_intro :
    (a : Text) (c d : ℕ) (t b : Text)
    → is_separator c ≡ true
    → NoSeparator (d ∷ t)
    → Boundary b
    → has (others (segments (a ++ c ∷ d ∷ (t ++ b)))) (d ∷ t) ≡ true
unfolding segments
others-Follows_intro [] c d t b sep n k =
    ground (arith, sep, n, first_of-Begins (d ∷ t) b n k, segments-nonempty (d ∷ (t ++ b)))
others-Follows_intro (q ∷ a) c d t b sep n k =
    ground
      (arith, others-Follows_intro a c d t b sep n k, segments-nonempty (a ++ c ∷ d ∷ (t ++ b)))

-- A path is refused exactly when it is absolute, or ".." begins it or stands after a separator in
-- it, and ends at a separator or with the path.
pub is_lexically_escaping_iff :
    (p : Text)
    → (is_lexically_escaping p ≡ true) ↔ ((is_absolute p ≡ true) ⊎ (Begins dots p ⊎ Follows dots p))
unfolding is_lexically_escaping
is_lexically_escaping_iff p = (refused, refuses)
  where
    inside : has (segments p) dots ≡ true → Begins dots p ⊎ Follows dots p
    inside h = elim (Bool-cases (text_eq dots (first_of (segments p)))) [
      | inl here ↦ let (b, k, e) = first-Begins p in inl (b, k, ground (arith, e, here))
      | inr further ↦ inr (others-Follows dots p (ground (arith, h, further, segments-nonempty p)))
    ]

    refused :
        is_lexically_escaping p ≡ true → (is_absolute p ≡ true) ⊎ (Begins dots p ⊎ Follows dots p)
    refused h = elim (Bool-cases (is_absolute p)) [
      | inl abs ↦ inl abs
      | inr relative ↦ inr (inside (ground (arith, h, relative)))
    ]

    refuses :
        (is_absolute p ≡ true) ⊎ (Begins dots p ⊎ Follows dots p) → is_lexically_escaping p ≡ true
    refuses (inl abs) = ground (arith, abs)
    refuses (inr (inl (b, k, e))) =
        ground (arith, e, first_of-Begins dots b (refl, (refl, tt)) k, segments-nonempty p)
    refuses (inr (inr (a, c, b, sep, k, e))) = ground (
      arith,
      e,
      others-Follows_intro a c b'.' (codes ".") b sep (refl, (refl, tt)) k,
      segments-nonempty p,
    )
