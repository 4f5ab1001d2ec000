-- ===== src/Schema/Locate.antt =====
-- core/schema/schema-locate.ts: the recursive scan of a value, and the position of the first offence
-- against the grammar of JSON.
pub mod Bounds
pub mod Ends
use project_builder_sdk.Base.{
  ℕ, zero, suc, ◌+◌, ◌-◌, ◌*◌, Bool, true, false, not, ◌&&◌, ◌||◌, Option, none, some, List, [],
  ◌∷◌, Text, codes, text_eq, ◌==◌, leb, ltb, if◌then◌else◌, length, get_elem?, take, drop,
}
use project_builder_sdk.Schema.Scanner.{
  ScanResult, ok, fail, Next, stop, continue, Start, open_object, open_array, scalar, value_start,
  open_body, member_key, after_value, skip_whitespace, newline,
}

-- A scan that has run out of fuel is `none`.
abbrev pub resume : Next → (ℕ → Option ScanResult) → Option ScanResult
resume (stop r) k = some r
resume (continue pos) k = k pos

abbrev pub behind : Option ScanResult → (ScanResult → Option ScanResult) → Option ScanResult
behind none k = none
behind (some r) k = k r

-- A value by its first unit; the loops over members and items are arguments.
abbrev pub started :
    Text → ℕ → (ℕ → Option ScanResult) → (ℕ → Option ScanResult) → Start → Option ScanResult
started raw i members items (scalar r) = some r
started raw i members items open_object = resume (open_body raw 125 i) members
started raw i members items open_array = resume (open_body raw 93 i) items

-- Each call, and each turn of a loop, takes one unit of fuel, which stands for the call stack.
unfoldable mutual
  pub scan_value : ℕ → Text → ℕ → Option ScanResult
  scan_value zero raw i0 = none
  scan_value (suc n) raw i0 =
      let i = skip_whitespace raw i0 in
      started raw i (λ pos. scan_members n raw pos) (λ pos. scan_items n raw pos)
        (value_start raw i)

  pub scan_members : ℕ → Text → ℕ → Option ScanResult
  scan_members zero raw pos = none
  scan_members (suc n) raw pos = resume (member_key raw pos) λ p.
      behind (scan_value n raw p)
        λ r. resume (after_value raw 125 r) (λ next. scan_members n raw next)

  pub scan_items : ℕ → Text → ℕ → Option ScanResult
  scan_items zero raw pos = none
  scan_items (suc n) raw pos =
      behind (scan_value n raw pos)
        λ r. resume (after_value raw 93 r) (λ next. scan_items n raw next)

pub record Position : Type 0 where
  pub line : ℕ
  pub column : ℕ

-- The loop over the units before the offset; `since` is the index behind the last newline.
unfoldable pub line_column_from : Text → ℕ → ℕ → ℕ → ℕ → Position
line_column_from [] i line since offset = record { line = line; column = offset + 1 - since }
line_column_from (c ∷ cs) i line since offset = elim (ltb i offset) [
  | false ↦ record { line = line; column = offset + 1 - since }
  | true ↦ elim (c == newline) [
    | true ↦ line_column_from cs (i + 1) (line + 1) (i + 1) offset
    | false ↦ line_column_from cs (i + 1) line since offset
  ]
]

unfoldable pub offset_to_line_column : Text → ℕ → Position
offset_to_line_column raw offset = line_column_from raw 0 1 0 offset

abbrev pub scan_fuel : Text → ℕ
scan_fuel raw = suc (2 * length raw)

abbrev trailing : Text → ℕ → Option Position
trailing raw pos = if ltb pos (length raw) then some (offset_to_line_column raw pos) else none

abbrev located : Text → Option ScanResult → Option (Option Position)
located raw none = none
located raw (some (fail o)) = some (some (offset_to_line_column raw o))
located raw (some (ok next)) = some (trailing raw (skip_whitespace raw next))

-- `none` is the `RangeError` of a call stack that has no more room.
unfoldable pub locate_first_json_syntax_error : ℕ → Text → Option (Option Position)
locate_first_json_syntax_error room raw = located raw (scan_value room raw 0)
