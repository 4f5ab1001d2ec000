-- ===== src/Errors.antt =====
-- core/emit-rejection.ts, core/authoring-error.ts, core/dialect-error.ts and
-- transport/exit-codes.ts: the values that are thrown, how an engine rejection is translated, and
-- the exit code of a run.
use project_builder_sdk.Base.{
  ℕ, Bool, true, false, Option, none, some, List, Text, codes, text_eq, get_elem?, if◌then◌else◌,
}
use project_builder_sdk.Wire.{Directive, Batch}
use project_builder_sdk.Wire.Value.{JsValue}

-- A code as it arrives from an engine client: a member of the closed set, or anything else.
pub data EmitRejectionCode : Type 0 where
  collision not_found unrepresentable cap unknown unrecognized : EmitRejectionCode

-- `appliedCount`: a number of directives, or whatever else a host sent.
pub data AppliedCount : Type 0 where
  applied_first : ℕ → AppliedCount
  as_sent : JsValue → AppliedCount

-- The position of a directive-level rejection; a batch-level one has none.
pub record Position : Type 0 where
  pub failed_index : ℕ
  pub applied_count : AppliedCount

pub record EmitRejection : Type 0 where
  pub code : EmitRejectionCode
  pub failed_index : Option ℕ
  pub applied_count : AppliedCount

-- The constructor: without a position the count is 0.
unfoldable pub emit_rejection : EmitRejectionCode → Option Position → EmitRejection
emit_rejection code none = record {
  code = code;
  failed_index = none;
  applied_count = applied_first 0;
}
emit_rejection code (some pos) = record {
  code = code;
  failed_index = some pos.failed_index;
  applied_count = pos.applied_count;
}

pub data AuthoringVerb : Type 0 where
  create modify remove rename move copy copy_in : AuthoringVerb

pub data AuthoringReason : Type 0 where
  path_collision path_not_found unrepresentable_content changes_too_large : AuthoringReason
  outside_session unknown invalid_input reserved_name : AuthoringReason
  source_not_found source_not_regular_file source_unreadable : AuthoringReason

pub data AuthoringOrigin : Type 0 where
  write_rejected authoring_rejected : AuthoringOrigin

unfoldable pub origin_for : AuthoringReason → AuthoringOrigin
origin_for path_collision = write_rejected
origin_for path_not_found = write_rejected
origin_for unrepresentable_content = write_rejected
origin_for changes_too_large = write_rejected
origin_for AuthoringReason.unknown = write_rejected
origin_for outside_session = authoring_rejected
origin_for invalid_input = authoring_rejected
origin_for reserved_name = authoring_rejected
origin_for source_not_found = authoring_rejected
origin_for source_not_regular_file = authoring_rejected
origin_for source_unreadable = authoring_rejected

-- `CODE_TO_REASON[raw.code] ?? "unknown"`
unfoldable pub code_to_reason : EmitRejectionCode → AuthoringReason
code_to_reason collision = path_collision
code_to_reason not_found = path_not_found
code_to_reason unrepresentable = unrepresentable_content
code_to_reason cap = changes_too_large
code_to_reason EmitRejectionCode.unknown = AuthoringReason.unknown
code_to_reason unrecognized = AuthoringReason.unknown

-- The wire says "delete" where the author says "remove".
unfoldable pub verb_for : Directive → AuthoringVerb
verb_for (Directive.create _ _ _ _) = AuthoringVerb.create
verb_for (Directive.modify _ _) = AuthoringVerb.modify
verb_for (Directive.delete _) = remove
verb_for (Directive.rename _ _ _) = AuthoringVerb.rename
verb_for (Directive.move _ _ _) = AuthoringVerb.move
verb_for (Directive.copy _ _ _) = AuthoringVerb.copy
verb_for (Directive.copy_in _ _ _) = AuthoringVerb.copy_in

unfoldable pub primary_path : Directive → Text
primary_path (Directive.create p _ _ _) = p
primary_path (Directive.modify p _) = p
primary_path (Directive.delete p) = p
primary_path (Directive.rename p _ _) = p
primary_path (Directive.move p _ _) = p
primary_path (Directive.copy from _ _) = from
primary_path (Directive.copy_in from _ _) = from

pub record AuthoringError : Type 0 where
  pub verb : Option AuthoringVerb
  pub path : Option Text
  pub reason : AuthoringReason
  pub origin : AuthoringOrigin
  pub applied_count : AppliedCount

-- The constructor derives the origin. The message texts are left out.
unfoldable pub authoring_error :
    Option AuthoringVerb → Option Text → AuthoringReason → AppliedCount → AuthoringError
unfolding origin_for
authoring_error verb path reason n = record {
  verb = verb;
  path = path;
  reason = reason;
  origin = origin_for reason;
  applied_count = n;
}

pub data FaultKind : Type 0 where
  malformed desync oversize timeout eof : FaultKind

-- What a promise of the SDK is rejected with. `contained` is an error minted by `dialectError`;
-- `foreign` is any other `Error`, by its name; `not_an_error` is any other value.
pub data Thrown : Type 0 where
  authoring : AuthoringError → Thrown
  emit : EmitRejection → Thrown
  transport_fault : FaultKind → Thrown
  intent_rejected : Thrown
  contained : Text → Thrown
  foreign : Text → Thrown
  not_an_error : Thrown

unfoldable pub invalid_input_error : Thrown
unfolding authoring_error
invalid_input_error = authoring (authoring_error none none invalid_input (applied_first 0))

-- The directive that a rejection blames.
unfoldable pub offender : Option ℕ → List Directive → Option Directive
offender none ds = none
offender (some i) ds = get_elem? ds i

unfoldable pub blame : Option Directive → AuthoringReason → AppliedCount → AuthoringError
unfolding authoring_error verb_for primary_path
blame none reason n = authoring_error none none reason n
blame (some d) reason n = authoring_error (some (verb_for d)) (some (primary_path d)) reason n

unfoldable pub to_authoring_error : Thrown → Batch → AuthoringError
unfolding blame offender code_to_reason authoring_error
to_authoring_error (emit r) batch =
    blame (offender r.failed_index batch.instructions) (code_to_reason r.code) r.applied_count
to_authoring_error _ batch = authoring_error none none AuthoringReason.unknown (applied_first 0)

-- `raw instanceof Error && raw.name === "TransportFault"`
unfoldable pub is_transport_fault : Thrown → Bool
is_transport_fault (transport_fault _) = true
is_transport_fault (foreign name) = text_eq name (codes "TransportFault")
is_transport_fault _ = false

abbrev origin_exit_code : AuthoringOrigin → ℕ
origin_exit_code authoring_rejected = 1
origin_exit_code write_rejected = 2

-- The exit code of a rejected run.
unfoldable pub classify_exit_code : Thrown → ℕ
classify_exit_code (authoring e) = origin_exit_code e.origin
classify_exit_code intent_rejected = 2
classify_exit_code (transport_fault _) = 3
classify_exit_code (foreign name) =
    if text_eq name (codes "BridgeVersionMismatchError") then 1 else 4
classify_exit_code _ = 4

-- The outcome of a promise or of a call that may throw.
pub data Result {ℓ} (A : Type ℓ) : Type ℓ where
  ok : A → Result A
  err : Thrown → Result A
