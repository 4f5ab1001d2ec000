-- ===== src/Schema/Scanner.antt =====
-- core/schema/schema-locate.ts: the tokens of its scanner, and what stands between two values.
use project_builder_sdk.Base.{
  ℕ, ◌+◌, Bool, true, false, ◌&&◌, ◌||◌, none, some, [], ◌∷◌, Text, codes, text_eq, ◌==◌, leb,
  if◌then◌else◌, length, get_elem?, take, drop,
}

pub data ScanResult : Type 0 where
  ok fail : ℕ → ScanResult

-- The characters by their code units.
abbrev pub newline : ℕ
newline = 10

abbrev quote_mark : ℕ
quote_mark = 34

abbrev backslash : ℕ
backslash = 92

abbrev is_whitespace : ℕ → Bool
is_whitespace u = (u == 32) || (u == 9) || (u == newline) || (u == 13)

abbrev pub digit : ℕ → Bool
digit u = leb 48 u && leb u 57

unfoldable pub skip_from : Text → ℕ → ℕ
skip_from [] i = i
skip_from (c ∷ cs) i = let rest = skip_from cs (i + 1) in if is_whitespace c then rest else i

unfoldable pub skip_whitespace : Text → ℕ → ℕ
skip_whitespace raw i = skip_from (drop i raw) i

-- `raw[i] === c`
unfoldable pub at : Text → ℕ → ℕ → Bool
at raw i c = elim (get_elem? raw i) [ none ↦ false | some u ↦ u == c ]

-- `isDigit(raw[i])`
unfoldable pub digit_at : Text → ℕ → Bool
digit_at raw i = elim (get_elem? raw i) [ none ↦ false | some u ↦ digit u ]

unfoldable pub ended : Text → ℕ → Bool
ended raw i = leb (length raw) i

-- The string's closing quote is looked for behind the opening one; a backslash skips a unit.
unfoldable pub string_from : Text → ℕ → ScanResult
string_from [] pos = fail pos
string_from (c ∷ []) pos =
    if c == quote_mark
    then ok (pos + 1)
    else if c == backslash
    then fail (pos + 2)
    else fail (pos + 1)
string_from (c ∷ d ∷ cs) pos = elim (c == quote_mark) [
  | true ↦ ok (pos + 1)
  | false ↦ elim (c == backslash) [
    | true ↦ string_from cs (pos + 2)
    | false ↦ string_from (d ∷ cs) (pos + 1)
  ]
]

unfoldable pub scan_string : Text → ℕ → ScanResult
scan_string raw i = string_from (drop (i + 1) raw) (i + 1)

unfoldable pub digits_from : Text → ℕ → ℕ
digits_from [] i = i
digits_from (c ∷ cs) i = let rest = digits_from cs (i + 1) in if digit c then rest else i

unfoldable pub skip_digits : Text → ℕ → ℕ
skip_digits raw i = digits_from (drop i raw) i

-- The digits of an exponent, behind its sign.
unfoldable pub exponent_digits : Text → ℕ → ScanResult
exponent_digits raw p = if digit_at raw p then ok (skip_digits raw p) else fail p

unfoldable pub behind_sign : Text → ℕ → ℕ
behind_sign raw p = if at raw p 43 || at raw p 45 then p + 1 else p

unfoldable pub exponent : Text → ℕ → ScanResult
exponent raw p =
    if at raw p 101 || at raw p 69 then exponent_digits raw (behind_sign raw (p + 1)) else ok p

unfoldable pub fraction : Text → ℕ → ScanResult
fraction raw p =
    if at raw p 46
    then (if digit_at raw (p + 1) then exponent raw (skip_digits raw (p + 1)) else fail (p + 1))
    else exponent raw p

unfoldable pub integer : Text → ℕ → ScanResult
integer raw p =
    if digit_at raw p
    then (if at raw p 48 then fraction raw (p + 1) else fraction raw (skip_digits raw p))
    else fail p

unfoldable pub scan_number : Text → ℕ → ScanResult
scan_number raw i = integer raw (if at raw i 45 then i + 1 else i)

-- Where a loop over the members of an object or the items of an array goes on, or stops.
pub data Next : Type 0 where
  stop : ScanResult → Next
  continue : ℕ → Next

-- The head of `scanObject` and `scanArray`; `close` is the closing bracket.
unfoldable pub open_at : Text → ℕ → ℕ → Next
open_at raw close pos =
    if ended raw pos
    then stop (fail pos)
    else if at raw pos close
    then stop (ok (pos + 1))
    else continue pos

unfoldable pub open_body : Text → ℕ → ℕ → Next
open_body raw close i = open_at raw close (skip_whitespace raw (i + 1))

-- Behind a comma.
unfoldable pub after_comma : Text → ℕ → ℕ → Next
after_comma raw close pos =
    if ended raw pos
    then stop (fail pos)
    else if at raw pos close
    then stop (fail pos)
    else continue pos

unfoldable pub separator : Text → ℕ → ℕ → Next
separator raw close pos =
    if ended raw pos
    then stop (fail pos)
    else if at raw pos 44
    then after_comma raw close (skip_whitespace raw (pos + 1))
    else if at raw pos close
    then stop (ok (pos + 1))
    else stop (fail pos)

-- Behind a value.
unfoldable pub after_value : Text → ℕ → ScanResult → Next
after_value raw close (fail o) = stop (fail o)
after_value raw close (ok next) = separator raw close (skip_whitespace raw next)

unfoldable pub colon_at : Text → ℕ → Next
colon_at raw pos =
    if ended raw pos
    then stop (fail pos)
    else if at raw pos 58
    then continue (pos + 1)
    else stop (fail pos)

unfoldable pub colon_after : Text → ScanResult → Next
colon_after raw (fail o) = stop (fail o)
colon_after raw (ok next) = colon_at raw (skip_whitespace raw next)

unfoldable pub key_at : Text → ℕ → Next
key_at raw pos =
    if ended raw pos
    then stop (fail pos)
    else if at raw pos quote_mark
    then colon_after raw (scan_string raw pos)
    else stop (fail pos)

-- The key of a member and its colon.
unfoldable pub member_key : Text → ℕ → Next
member_key raw pos = key_at raw (skip_whitespace raw pos)

unfoldable pub starts_with : Text → ℕ → Text → Bool
starts_with raw i word = text_eq (take (length word) (drop i raw)) word

-- What stands where a value is expected.
pub data Start : Type 0 where
  open_object open_array : Start
  scalar : ScanResult → Start

unfoldable pub keyword : Text → ℕ → ScanResult
keyword raw i =
    if starts_with raw i (codes "true")
    then ok (i + 4)
    else if starts_with raw i (codes "false")
    then ok (i + 5)
    else if starts_with raw i (codes "null")
    then ok (i + 4)
    else fail i

unfoldable pub value_start : Text → ℕ → Start
value_start raw i =
    if ended raw i
    then scalar (fail i)
    else if at raw i 123
    then open_object
    else if at raw i 91
    then open_array
    else if at raw i quote_mark
    then scalar (scan_string raw i)
    else if at raw i 45 || digit_at raw i
    then scalar (scan_number raw i)
    else scalar (keyword raw i)
