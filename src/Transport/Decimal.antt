-- ===== src/Transport/Decimal.antt =====
-- `String(n)` of a non-negative integer, as the request ids use it.
use project_builder_sdk.Base.{
  ℕ, zero, suc, ◌+◌, ◌*◌, ◌/◌, ◌%◌, ◌-◌, ◌^◌, ◌<◌, ◌≤◌, [], ◌∷◌, ◌++◌, Text, All, length,
  length-append, ltb, if◌then◌else◌, ◌≡◌, refl, ap, ◌∙◌, sym, arith, Bool-cases, inl, inr,
}

-- Each round drops a digit, so `suc n` rounds are enough for `n`.
unfoldable pub digits_within : ℕ → ℕ → Text
digits_within zero n = []
digits_within (suc k) n =
    let front = digits_within k (n / 10) in
    if ltb n 10 then (b'0' + n) ∷ [] else front ++ ((b'0' + n % 10) ∷ [])

unfoldable pub decimal : ℕ → Text
unfolding digits_within
decimal n = digits_within (suc n) n

abbrev pub IsDigit : ℕ → Type 0
IsDigit c = (48 ≤ c) × (c < 58)

All-IsDigit : (s : Text) (c : ℕ) → All IsDigit s → IsDigit c → All IsDigit (s ++ c ∷ [])
All-IsDigit [] c h k = (k, tt)
All-IsDigit (d ∷ s) c (h, hs) k = (h, All-IsDigit s c hs k)

digits_within-IsDigit : (k n : ℕ) → All IsDigit (digits_within k n)
unfolding digits_within
digits_within-IsDigit zero n = tt
digits_within-IsDigit (suc k) n = elim (Bool-cases (ltb n 10)) [
  | inl small ↦ rw small ((omega arith, ground arith), tt)
  | inr big ↦ rw big (
      All-IsDigit (digits_within k (n / 10)) (b'0' + n % 10) (digits_within-IsDigit k (n / 10))
        (omega arith, omega arith))
]

pub decimal-IsDigit : (n : ℕ) → All IsDigit (decimal n)
unfolding decimal
decimal-IsDigit n = digits_within-IsDigit (suc n) n

digits_within-length : (m k n : ℕ) → n < 10 ^ suc m → length (digits_within k n) ≤ suc m
unfolding digits_within
digits_within-length m zero n h = omega arith
digits_within-length zero (suc k) n h = ground arith
digits_within-length (suc m) (suc k) n h = ground (
  arith,
  digits_within-length m k (n / 10) (omega (arith, h)),
  length-append (digits_within k (n / 10)) ((b'0' + n % 10) ∷ []),
)

-- A number below `10 ^ suc m` has at most `suc m` digits.
pub decimal-length : (m n : ℕ) → n < 10 ^ suc m → length (decimal n) ≤ suc m
unfolding decimal
decimal-length m n h = digits_within-length m (suc n) n h

-- The number that a text of digits stands for, behind `acc`.
value_from : ℕ → Text → ℕ
value_from acc [] = acc
value_from acc (c ∷ s) = value_from (acc * 10 + (c - 48)) s

value_from-append :
    (acc : ℕ) (s : Text) (c : ℕ) → value_from acc (s ++ c ∷ []) ≡ value_from acc s * 10 + (c - 48)
unfolding value_from
value_from-append acc [] c = refl
value_from-append acc (d ∷ s) c = value_from-append (acc * 10 + (d - 48)) s c

value-digits_within : (k n : ℕ) → n < k → value_from 0 (digits_within k n) ≡ n
unfolding digits_within value_from
value-digits_within zero n h = omega (arith, h)
value-digits_within (suc k) n h = ground (
  arith,
  value-digits_within k (n / 10),
  value_from-append 0 (digits_within k (n / 10)) (b'0' + n % 10),
)

-- Two numbers are not written alike.
pub decimal_injective : (m n : ℕ) → decimal m ≡ decimal n → m ≡ n
unfolding decimal
decimal_injective m n h =
    sym (value-digits_within (suc m) m (omega arith))
    ∙ ap (value_from 0) h
    ∙ value-digits_within (suc n) n (omega arith)
