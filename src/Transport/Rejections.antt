-- ===== src/Transport/Rejections.antt =====
-- transport/stdio-engine-client.ts, `reconstructEmitRejection`: an `EmitRejection` from the error that
-- a host sends.
use project_builder_sdk.Base.{
  ℕ, [], Bool, true, false, Option, none, some, Text, codes, text_eq, if◌then◌else◌, ◌≡◌,
}
use project_builder_sdk.Wire.Value.{null, undefined}
use project_builder_sdk.Errors.{
  AppliedCount, applied_first, as_sent, EmitRejection, EmitRejectionCode, collision, not_found,
  unrepresentable, cap, unknown, unrecognized, emit_rejection,
}

-- A property that is declared to be a string or a number, and that a host may send anyhow.
pub data RawCode : Type 0 where
  string : Text → RawCode
  not_string : RawCode

pub data RawIndex : Type 0 where
  absent : RawIndex
  natural : ℕ → RawIndex
  -- A negative number, a fraction, or no number.
  other : RawIndex

pub record EmitRejectionData : Type 0 where
  pub code : RawCode
  pub failed_index : RawIndex
  pub applied_count : Option AppliedCount

-- `error.data`; the error's own code and message are left out.
pub record WireError : Type 0 where
  pub content : Option EmitRejectionData

-- `RECOGNIZED_EMIT_REJECTION_CODES`
unfoldable pub recognized : Text → Option EmitRejectionCode
recognized s =
    if text_eq s (codes "collision")
    then some collision
    else if text_eq s (codes "not-found")
    then some not_found
    else if text_eq s (codes "unrepresentable")
    then some unrepresentable
    else if text_eq s (codes "cap")
    then some cap
    else if text_eq s (codes "unknown")
    then some unknown
    else none

-- `DIRECTIVE_LEVEL_CODES.has(code)`
abbrev pub is_directive_level : EmitRejectionCode → Bool
is_directive_level collision = true
is_directive_level not_found = true
is_directive_level _ = false

abbrev raw_code : Option EmitRejectionData → RawCode
raw_code none = not_string
raw_code (some d) = d.code

abbrev raw_index : Option EmitRejectionData → RawIndex
raw_index none = absent
raw_index (some d) = d.failed_index

-- `data?.appliedCount ?? 0`: what a host sends is not looked at.
abbrev count_or_zero : Option AppliedCount → AppliedCount
count_or_zero (some (as_sent null)) = applied_first 0
count_or_zero (some (as_sent undefined)) = applied_first 0
count_or_zero (some n) = n
count_or_zero none = applied_first 0

abbrev pub raw_count : Option EmitRejectionData → AppliedCount
raw_count none = applied_first 0
raw_count (some d) = count_or_zero d.applied_count

abbrev recognized_code : RawCode → Option EmitRejectionCode
recognized_code (string s) = recognized s
recognized_code not_string = none

-- Directive-level, batch-level: an index must be there, and must not.
abbrev positioned : EmitRejectionCode → Bool → RawIndex → AppliedCount → EmitRejection
positioned code true (natural i) n =
    emit_rejection code (some (record { failed_index = i; applied_count = n }))
positioned code true _ n = emit_rejection unknown none
positioned code false absent n = emit_rejection code none
positioned code false _ n = emit_rejection unknown none

abbrev from_code : Option EmitRejectionCode → RawIndex → AppliedCount → EmitRejection
from_code none index n = emit_rejection unknown none
from_code (some code) index n = positioned code (is_directive_level code) index n

unfoldable pub reconstruct_emit_rejection : WireError → EmitRejection
unfolding recognized emit_rejection
reconstruct_emit_rejection e =
    from_code (recognized_code (raw_code e.content)) (raw_index e.content) (raw_count e.content)

abbrev code_text : EmitRejectionCode → Text
code_text collision = codes "collision"
code_text not_found = codes "not-found"
code_text unrepresentable = codes "unrepresentable"
code_text cap = codes "cap"
code_text unknown = codes "unknown"
code_text unrecognized = []

abbrev index_sent : Option ℕ → RawIndex
index_sent none = absent
index_sent (some i) = natural i

-- What a host sends for a rejection: `EmitRejectionData`, with the index where there is one.
unfoldable pub wire_error : EmitRejection → WireError
wire_error r = record {
  content = some (record {
    code = string (code_text r.code);
    failed_index = index_sent r.failed_index;
    applied_count = some r.applied_count;
  });
}

-- The index and the count that go with a code, where `counts` are the counts that may go with the
-- index of a directive.
abbrev Shape : EmitRejectionCode → Option ℕ → AppliedCount → (ℕ → AppliedCount → Type 0) → Type 0
Shape unrecognized index n counts = ⊥
Shape code (some i) n counts = (is_directive_level code ≡ true) × counts i n
Shape code none n counts = (is_directive_level code ≡ false) × (n ≡ applied_first 0)

-- The rejections within the contract: an index goes with the two directive-level codes only, and the
-- directives before it are counted; without one nothing is counted.
abbrev pub InContract : EmitRejection → Type 0
InContract r = Shape r.code r.failed_index r.applied_count (λ i n. n ≡ applied_first i)

-- Within the contract but for the count that goes with an index, which is `sent`.
abbrev pub InContractBut : AppliedCount → EmitRejection → Type 0
InContractBut sent r = Shape r.code r.failed_index r.applied_count (λ i n. n ≡ sent)
