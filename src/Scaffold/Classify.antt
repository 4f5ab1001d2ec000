-- ===== src/Scaffold/Classify.antt =====
-- scaffold/classify-transport.ts: whether a source travels by its content or by reference. What the
-- disk holds and the UTF-8 decoder are parameters.
pub mod Fits
use project_builder_sdk.Base.{
  ℕ, Bool, true, false, ◌||◌, Option, none, some, List, [], ◌∷◌, Text, any, ltb, ◌==◌,
  if◌then◌else◌,
}
use project_builder_sdk.Wire.{Directive, emit_batch_budget_bytes, serialized_batch_size}
use project_builder_sdk.Wire.Value.{JsValue}
use project_builder_sdk.Errors.{source_unreadable, invalid_input_error, Result, ok, err}
use project_builder_sdk.Directives.{encode_options}
use project_builder_sdk.Scaffold.PathGuards.{Stat, source_rejection, stat_source_for_read}

pub data ClassifyResult : Type 0 where
  by_value : Text → ClassifyResult
  by_reference : ClassifyResult

-- The surroundings: `resolve(join(packageDir, relPath))`, `statSync`, `readFileSync` with `none` where
-- it throws, and the fatal decoder with `none` where it does.
pub record Disk : Type 0 where
  pub resolved : Text → Text → Text
  pub stat_sync : Text → Stat
  pub read_file_sync : Text → Option (List ℕ)
  pub decode : List ℕ → Option Text

pub record ClassifyParams : Type 0 where
  pub package_dir : Text
  pub rel_path : Text
  pub is_template_marked : Bool
  pub dest_path : Text
  pub options : JsValue
  pub force : Option Bool
  -- `failMessages !== undefined`
  pub has_fail_messages : Bool

module _ (disk : Disk) where
  unfoldable pub decode_sniffable_text : List ℕ → Option Text
  decode_sniffable_text buf = if any (λ b. b == 0) buf then none else disk.decode buf

  -- A failed gate: an error for a render request, else a verdict.
  abbrev gate_failed : ClassifyParams → Result ClassifyResult
  gate_failed p =
      if p.has_fail_messages || p.is_template_marked
      then err invalid_input_error
      else ok by_reference

  abbrev pub prospective : ClassifyParams → Text → JsValue → Directive
  prospective p content o = Directive.create p.dest_path content o p.force

  abbrev pub budgeted : ClassifyParams → Text → Result JsValue → Result ClassifyResult
  budgeted p content (err e) = err e
  budgeted p content (ok o) =
      if ltb emit_batch_budget_bytes (serialized_batch_size (prospective p content o ∷ []))
      then gate_failed p
      else ok (by_value content)

  abbrev pub sniffed : ClassifyParams → Option Text → Result ClassifyResult
  sniffed p none = gate_failed p
  sniffed p (some content) = budgeted p content (encode_options p.options)

  abbrev pub read_in : ClassifyParams → Option (List ℕ) → Result ClassifyResult
  read_in p none = err (source_rejection source_unreadable p.rel_path)
  read_in p (some buf) = sniffed p (decode_sniffable_text buf)

  -- The gate of the size stands before the read.
  abbrev pub sized : ClassifyParams → Result (Text × ℕ) → Result ClassifyResult
  sized p (err e) = err e
  sized p (ok (abs, size)) =
      if ltb emit_batch_budget_bytes size
      then gate_failed p
      else read_in p (disk.read_file_sync abs)

  unfoldable pub classify_transport : ClassifyParams → Result ClassifyResult
  unfolding decode_sniffable_text stat_source_for_read encode_options source_rejection
  classify_transport p =
      sized p (stat_source_for_read disk.resolved disk.stat_sync p.package_dir p.rel_path)
