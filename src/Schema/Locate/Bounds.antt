-- ===== src/Schema/Locate/Bounds.antt =====
-- The fuel of the scan is enough, and the scan stays within the text.
use project_builder_sdk.Base.{
  ℕ, zero, suc, ◌+◌, ◌-◌, ◌≤◌, ◌<◌, true, ◌||◌, some, List, [], ◌∷◌, Text, ◌≡◌, inl, inr, refl,
  arith, length, get_elem?, drop, length-drop, Bool-cases, Option-cases, codes, take, length-take,
}
use project_builder_sdk.Schema.Scanner.{
  ScanResult, ok, fail, skip_whitespace, skip_from, at, digit_at, string_from, scan_string,
  digits_from, skip_digits, digit, exponent_digits, behind_sign, exponent, fraction, integer,
  scan_number, starts_with, keyword,
}

skip_from_bounds : (cs : Text) (i : ℕ) → (i ≤ skip_from cs i) × (skip_from cs i ≤ i + length cs)
unfolding skip_from
skip_from_bounds [] i = (omega arith, omega arith)
skip_from_bounds (c ∷ cs) i = ground (arith, skip_from_bounds cs (i + 1))

digits_from_bounds :
    (cs : Text) (i : ℕ) → (i ≤ digits_from cs i) × (digits_from cs i ≤ i + length cs)
unfolding digits_from
digits_from_bounds [] i = (omega arith, omega arith)
digits_from_bounds (c ∷ cs) i = ground (arith, digits_from_bounds cs (i + 1))

pub skip_whitespace_bounds :
    (raw : Text) (i : ℕ)
    → (i ≤ skip_whitespace raw i) × (skip_whitespace raw i ≤ i + (length raw - i))
unfolding skip_whitespace
skip_whitespace_bounds raw i = ground (arith, skip_from_bounds (drop i raw) i, length-drop i raw)

-- A unit is read within the text only.
get_elem?-bound {ℓ} :
    {A : Type ℓ} (xs : List A) (i : ℕ) (x : A) → get_elem? xs i ≡ some x → i < length xs
get_elem?-bound [] i x h = absurd (ground arith)
get_elem?-bound (y ∷ xs) zero x h = omega arith
get_elem?-bound (y ∷ xs) (suc i) x h = omega (arith, get_elem?-bound xs i x h)

pub at-bound : (raw : Text) (i c : ℕ) → at raw i c ≡ true → i < length raw
unfolding at
at-bound raw i c h = elim (Option-cases (get_elem? raw i)) [
  | inl e ↦ absurd (ground (arith, h, e))
  | inr (u, e) ↦ get_elem?-bound raw i u e
]

digit_at-bound : (raw : Text) (i : ℕ) → digit_at raw i ≡ true → i < length raw
unfolding digit_at
digit_at-bound raw i h = elim (Option-cases (get_elem? raw i)) [
  | inl e ↦ absurd (ground (arith, h, e))
  | inr (u, e) ↦ get_elem?-bound raw i u e
]

-- A scan from `i` ends behind `i` and within the text, or fails there, at most one unit behind it.
unfoldable pub Within : ℕ → ℕ → ScanResult → Type 0
Within n i (ok next) = (i < next) × (next ≤ n)
Within n i (fail o) = (i ≤ o) × (o ≤ suc n)

string_from-Within :
    (cs : Text) (pos : ℕ) (i n : ℕ)
    → i < pos
    → pos + length cs ≡ n
    → Within n i (string_from cs pos)
unfolding string_from Within
string_from-Within [] pos i n h e = (omega arith, omega arith)
string_from-Within (c ∷ []) pos i n h e = ground arith
string_from-Within (c ∷ d ∷ cs) pos i n h e = ground (
  arith,
  string_from-Within cs (pos + 2) i n (omega arith) (omega arith),
  string_from-Within (d ∷ cs) (pos + 1) i n (omega arith) (omega arith),
)

pub scan_string-Within :
    (raw : Text) (i : ℕ) → i < length raw → Within (length raw) i (scan_string raw i)
unfolding scan_string
scan_string-Within raw i h =
    string_from-Within (drop (i + 1) raw) (i + 1) i (length raw) (omega arith)
      (omega (arith, length-drop (i + 1) raw))

skip_digits_bounds :
    (raw : Text) (i : ℕ) → (i ≤ skip_digits raw i) × (skip_digits raw i ≤ i + (length raw - i))
unfolding skip_digits
skip_digits_bounds raw i = ground (arith, digits_from_bounds (drop i raw) i, length-drop i raw)

digits_from-grows :
    (cs : Text) (i : ℕ) (c : ℕ) (rest : Text)
    → cs ≡ c ∷ rest
    → digit c ≡ true
    → i < digits_from cs i
unfolding digits_from
digits_from-grows cs i c rest e h = ground (arith, digits_from_bounds rest (i + 1))

-- The unit at an index heads what is dropped to.
drop-get_elem? {ℓ} :
    {A : Type ℓ} (xs : List A) (i : ℕ) (x : A)
    → get_elem? xs i ≡ some x
    → (ys : List A) × (drop i xs ≡ x ∷ ys)
drop-get_elem? [] i x h = absurd (ground arith)
drop-get_elem? (y ∷ xs) zero x h = (xs, ground arith)
drop-get_elem? (y ∷ xs) (suc i) x h = drop-get_elem? xs i x h

skip_digits-grows : (raw : Text) (i : ℕ) → digit_at raw i ≡ true → i < skip_digits raw i
unfolding skip_digits digit_at
skip_digits-grows raw i h = elim (Option-cases (get_elem? raw i)) [
  | inl e ↦ absurd (ground (arith, h, e))
  | inr (u, e) ↦
      let (rest, d) = drop-get_elem? raw i u e in
      digits_from-grows (drop i raw) i u rest d (ground arith)
]

behind_sign_bounds :
    (raw : Text) (p : ℕ)
    → p ≤ length raw
    → (p ≤ behind_sign raw p) × (behind_sign raw p ≤ length raw)
unfolding behind_sign
behind_sign_bounds raw p h = ground (arith, at-bound raw p 43, at-bound raw p 45)

module _ (raw : Text) (i : ℕ) where
  exponent_digits-Within :
      (p : ℕ) → i ≤ p → p ≤ length raw → Within (length raw) i (exponent_digits raw p)
  unfolding Within exponent_digits
  exponent_digits-Within p h k = ground (arith, skip_digits-grows raw p, skip_digits_bounds raw p)

  exponent-Within : (p : ℕ) → i < p → p ≤ length raw → Within (length raw) i (exponent raw p)
  unfolding Within exponent
  exponent-Within p h k = elim (Bool-cases (at raw p 101 || at raw p 69)) [
    | inl e ↦ rw e (
        exponent_digits-Within (behind_sign raw (p + 1)) (omega (arith, signed e))
          (omega (arith, signed e)))
    | inr e ↦ rw e (h, k)
  ]
    where
      signed :
          (at raw p 101 || at raw p 69) ≡ true
          → (p + 1 ≤ behind_sign raw (p + 1)) × (behind_sign raw (p + 1) ≤ length raw)
      signed e =
          behind_sign_bounds raw (p + 1) (ground (arith, e, at-bound raw p 101, at-bound raw p 69))

  fraction-Within : (p : ℕ) → i < p → p ≤ length raw → Within (length raw) i (fraction raw p)
  unfolding Within fraction
  fraction-Within p h k = ground (
    arith,
    at-bound raw p 46,
    skip_digits-grows raw (p + 1),
    skip_digits_bounds raw (p + 1),
    exponent-Within p h k,
    exponent-Within (skip_digits raw (p + 1)),
  )

  integer-Within : (p : ℕ) → i ≤ p → p ≤ length raw → Within (length raw) i (integer raw p)
  unfolding Within integer
  integer-Within p h k = ground (
    arith,
    digit_at-bound raw p,
    skip_digits-grows raw p,
    skip_digits_bounds raw p,
    fraction-Within (p + 1),
    fraction-Within (skip_digits raw p),
  )

  pub scan_number-Within : i < length raw → Within (length raw) i (scan_number raw i)
  unfolding scan_number
  scan_number-Within h = elim (Bool-cases (at raw i 45)) [
    | inl e ↦ rw e (integer-Within (i + 1) (omega arith) (omega arith))
    | inr e ↦ rw e (integer-Within i (omega arith) (omega arith))
  ]

  starts_with-bound :
      (word : Text) → starts_with raw i word ≡ true → 0 < length word → i + length word ≤ length raw
  unfolding starts_with
  starts_with-bound word h pos =
      let e : take (length word) (drop i raw) ≡ word = ground (arith, h) in
      let len : length (take (length word) (drop i raw)) ≡ length word = rw e refl in
      omega (arith, len, length-take (length word) (drop i raw), length-drop i raw)

  pub keyword-Within : i < length raw → Within (length raw) i (keyword raw i)
  unfolding Within keyword
  keyword-Within h = ground (
    arith,
    starts_with-bound (codes "true"),
    starts_with-bound (codes "false"),
    starts_with-bound (codes "null"),
  )
