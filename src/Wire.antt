-- ===== src/Wire.antt =====
-- core/wire.ts: the directives and the batch envelope, and the one size measure of a batch.
pub mod Value
pub mod Json
pub mod Size
pub mod Budget
pub mod Assertion
use project_builder_sdk.Base.{
  ℕ, ◌+◌, ◌-◌, ◌*◌, ◌≡◌, refl, Bool, true, false, Option, none, some, List, [], ◌∷◌, Text, codes,
  ltb, map,
}
use Value.{JsValue, str, num, bool, arr, obj, Elems, nil, cons, Fields, end, field, finite}
use Json.{Serialized, text, stringify, text_or_nil, byte_length}

pub data Directive : Type 0 where
  create : (path_template template : Text) → JsValue → Option Bool → Directive
  modify : (path content : Text) → Directive
  delete : (path : Text) → Directive
  rename : (path new_name : Text) → Option Bool → Directive
  move : (path to_dir : Text) → Option Bool → Directive
  copy : (from to : Text) → Option Bool → Directive
  copy_in : (from to : Text) → Option Bool → Directive

-- `protocolVersion` is the literal 1, so it is no field of the model.
pub record Batch : Type 0 where
  pub force : Bool
  pub instructions : List Directive

-- The key `force` is left out when it is undefined.
abbrev force_field : Option Bool → Fields
force_field none = end
force_field (some b) = field (codes "force") (bool b) end

abbrev tagged : Text → Fields → JsValue
tagged op fs = obj (field (codes "op") (str op) (field op (obj fs) end))

-- A directive as the object that is serialized.
unfoldable pub directive_value : Directive → JsValue
directive_value (create p t o f) = tagged (codes "create") (
    field (codes "pathTemplate") (str p)
      (field (codes "template") (str t) (field (codes "options") o (force_field f))))
directive_value (modify p c) =
    tagged (codes "modify") (field (codes "path") (str p) (field (codes "content") (str c) end))
directive_value (delete p) = tagged (codes "delete") (field (codes "path") (str p) end)
directive_value (rename p n f) =
    tagged (codes "rename")
      (field (codes "path") (str p) (field (codes "newName") (str n) (force_field f)))
directive_value (move p d f) =
    tagged (codes "move")
      (field (codes "path") (str p) (field (codes "toDir") (str d) (force_field f)))
directive_value (copy a b f) =
    tagged (codes "copy")
      (field (codes "from") (str a) (field (codes "to") (str b) (force_field f)))
directive_value (copy_in a b f) =
    tagged (codes "copyIn")
      (field (codes "from") (str a) (field (codes "to") (str b) (force_field f)))

abbrev pub elems : List JsValue → Elems
elems [] = nil
elems (v ∷ vs) = cons v (elems vs)

unfoldable pub batch_value : Batch → JsValue
unfolding directive_value
batch_value b = obj (
    field (codes "protocolVersion") (num (finite (codes "1"))) (
      field (codes "force") (bool b.force)
        (field (codes "instructions") (arr (elems (map directive_value b.instructions))) end)))

abbrev pub batch_cap_bytes : ℕ
batch_cap_bytes = 4 * 1024 * 1024

-- The bytes of a batch's text, where it has one.
unfoldable pub measured_bytes : Batch → ℕ
unfolding batch_value
measured_bytes b = byte_length (text_or_nil (stringify (batch_value b)))

abbrev pub bytes_of : Serialized → Option ℕ
bytes_of (text t) = some (byte_length t)
bytes_of _ = none

-- `none` where `JSON.stringify` throws a `TypeError`.
unfoldable pub serialized_batch_bytes : Batch → Option ℕ
serialized_batch_bytes b = bytes_of (stringify (batch_value b))

-- For directives that have a JSON text, as those of `DirectiveFactory` have.
unfoldable pub serialized_batch_size : List Directive → ℕ
unfolding measured_bytes
serialized_batch_size ds = measured_bytes (record { force = false; instructions = ds })

-- The leg of `exceedsBatchCap` that takes a byte count; a batch is measured first.
unfoldable pub exceeds_batch_cap : ℕ → Bool
exceeds_batch_cap bytes = ltb batch_cap_bytes bytes

-- The longest request envelope, whose id is `s` and the largest safe integer.
abbrev longest_envelope : JsValue
longest_envelope = obj (
    field (codes "type") (str (codes "request")) (
      field (codes "id") (str (codes "s9007199254740991")) (
        field (codes "method") (str (codes "ir.emit")) (
          field (codes "params") (obj (field (codes "batch") (num (finite (codes "0"))) end))
            end))))

-- The one byte of the placeholder `0` is taken off again.
unfoldable pub emit_frame_envelope_allowance_bytes : ℕ
emit_frame_envelope_allowance_bytes = byte_length (text_or_nil (stringify longest_envelope)) - 1

unfoldable pub emit_batch_budget_bytes : ℕ
unfolding emit_frame_envelope_allowance_bytes
emit_batch_budget_bytes = batch_cap_bytes - emit_frame_envelope_allowance_bytes

-- For a batch that has a JSON text.
unfoldable pub is_over_budget : Batch → Bool
unfolding exceeds_batch_cap emit_frame_envelope_allowance_bytes
is_over_budget b = exceeds_batch_cap (measured_bytes b + emit_frame_envelope_allowance_bytes)

abbrev pub over_budget_by : Option ℕ → Option Bool
over_budget_by none = none
over_budget_by (some bytes) = some (exceeds_batch_cap (bytes + emit_frame_envelope_allowance_bytes))

-- `none` where the measure throws.
unfoldable pub exceeds_emit_batch_budget : Batch → Option Bool
unfolding serialized_batch_bytes exceeds_batch_cap emit_frame_envelope_allowance_bytes
exceeds_emit_batch_budget b = over_budget_by (serialized_batch_bytes b)
