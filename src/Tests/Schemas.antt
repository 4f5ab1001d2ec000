-- ===== src/Tests/Schemas.antt =====
-- Schemas, their text, and the checks at the run boundary.
use project_builder_sdk.Base.{
  arith, true, Option, some, [], ◌∷◌, Text, codes, ◌≡◌, ◌↔◌, refl, Text-discrete,
}
use project_builder_sdk.Wire.Value.{JsValue, bool, str, arr, obj, cons, nil, field, end}
use project_builder_sdk.Fake.{start, fake_client}
use project_builder_sdk.Run.{Script, done}
use project_builder_sdk.Run.Boundary.{Package, found, define_factory}
use project_builder_sdk.Run.Boundary.Admits.{Gated, define_factory-Gated}
use project_builder_sdk.Schema.{Schema, validate_input}
use project_builder_sdk.Schema.Conforms.{Conforms, validate_input_iff}
use project_builder_sdk.Schema.Locate.{
  scan_value, scan_fuel, line_column_from, offset_to_line_column, locate_first_json_syntax_error,
}
use project_builder_sdk.Schema.Scanner.{
  skip_whitespace, skip_from, at, digit_at, ended, string_from, scan_string, digits_from,
  skip_digits, exponent_digits, exponent, fraction, integer, scan_number, open_at, open_body,
  after_comma, separator, after_value, colon_at, colon_after, key_at, member_key, starts_with,
  keyword, value_start,
}
use project_builder_sdk.Schema.Locate.Ends.{Ends, scan_value-Ends}
use project_builder_sdk.Schema.Parse.{JsonParse, lift_properties, properties_map}
use project_builder_sdk.Schema.Sufficiency.{check_sufficiency, Sufficient, check_sufficiency_iff}

-- `{"properties": {"mode": {"type": "enum", "choices": ["fast"], "label": "Mode"}}}`
abbrev mode : JsValue
mode = obj (
    field (codes "type") (str (codes "enum")) (
      field (codes "choices") (arr (cons (str (codes "fast")) nil))
        (field (codes "label") (str (codes "Mode")) end)))

abbrev document : JsValue
document = obj (field (codes "properties") (obj (field (codes "mode") mode end)) end)

abbrev mode_schema : Schema
mode_schema = record { properties = lift_properties (field (codes "mode") mode end) }

abbrev input : JsValue
input = obj (field (codes "mode") (str (codes "slow")) (field (codes "__proto__") (bool true) end))

validate_input_iff_example : (validate_input mode_schema input ≡ []) ↔ Conforms mode_schema input
validate_input_iff_example = validate_input_iff mode_schema input

check_sufficiency_iff_example :
    (check_sufficiency document ≡ []) ↔ Sufficient (properties_map document)
check_sufficiency_iff_example = check_sufficiency_iff document

-- `{"a": [1,` and an item that is no value.
abbrev broken : Text
broken = codes "{\"a\": [1,\n x]}"

scan_value-Ends_example : Ends broken 0 (scan_value (scan_fuel broken) broken 0)
scan_value-Ends_example = scan_value-Ends (scan_fuel broken) broken (omega arith)

broken_at :
    locate_first_json_syntax_error (scan_fuel broken) broken
    ≡ some (some (record { line = 2; column = 2 }))
unfolding locate_first_json_syntax_error scan_value skip_whitespace skip_from at digit_at ended
    string_from scan_string digits_from skip_digits exponent_digits exponent fraction integer
    scan_number open_at open_body after_comma separator after_value colon_at colon_after key_at
    member_key starts_with keyword value_start offset_to_line_column line_column_from Text-discrete
broken_at = refl

abbrev identity : Text → Text
identity t = t

abbrev parse_document : JsonParse
parse_document = record { parse = λ _. some document; stack_room = 10000 }

abbrev folder : Option Package
folder = some (record { entries = found (codes "index.ts" ∷ []); schema_text = found (codes "{}") })

abbrev empty_factory : JsValue → Script
empty_factory _ = done

define_factory-Gated_example :
    Gated identity parse_document fake_client done folder input
      (start [])
      (define_factory identity parse_document fake_client empty_factory folder input (start []))
define_factory-Gated_example =
    define_factory-Gated identity parse_document fake_client empty_factory folder input (start [])
