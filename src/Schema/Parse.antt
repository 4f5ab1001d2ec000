-- ===== src/Schema/Parse.antt =====
-- core/schema/schema-parse.ts: from the text of `schema.json` to the schema. `JSON.parse` is a
-- parameter, which gives nothing where it throws a `SyntaxError`.
use project_builder_sdk.Base.{ℕ, Bool, Option, none, some, List, [], ◌∷◌, ◌++◌, Text, codes}
use project_builder_sdk.Transport.Decimal.{decimal}
use project_builder_sdk.DeepEqual.{find_field}
use project_builder_sdk.Wire.Value.{JsValue, undefined, bool, str, arr, Elems, Fields, end, field}
use project_builder_sdk.Schema.{SchemaProperty, Schema, is_plain_object}
use project_builder_sdk.Schema.Locate.{Position, locate_first_json_syntax_error}

-- `value.name`, which is `undefined` where the field is missing.
unfoldable pub member : Text → Fields → JsValue
member k fs = elim (find_field k fs) [ none ↦ undefined | some v ↦ v ]

abbrev pub string_of : JsValue → Option Text
string_of (str t) = some t
string_of _ = none

abbrev bool_of : JsValue → Option Bool
bool_of (bool b) = some b
bool_of _ = none

abbrev pub array_of : JsValue → Option Elems
array_of (arr es) = some es
array_of _ = none

abbrev pub lift_property : Text → Fields → SchemaProperty
lift_property k fs = record {
  key = k;
  type = member (codes "type") fs;
  label = string_of (member (codes "label") fs);
  choices = array_of (member (codes "choices") fs);
  default = member (codes "default") fs;
  required = bool_of (member (codes "required") fs);
  description = string_of (member (codes "description") fs);
}

-- A property that is no plain object is passed over.
abbrev pub lifted : Text → Option Fields → List SchemaProperty
lifted k none = []
lifted k (some fs) = lift_property k fs ∷ []

unfoldable pub lift_properties : Fields → List SchemaProperty
lift_properties end = []
lift_properties (field k v fs) = lifted k (is_plain_object v) ++ lift_properties fs

abbrev properties_in : Option Fields → Option Fields
properties_in none = none
properties_in (some fs) = is_plain_object (member (codes "properties") fs)

-- The map of the properties, where the document and its "properties" are plain objects.
unfoldable pub properties_map : JsValue → Option Fields
properties_map v = properties_in (is_plain_object v)

pub data Problem : Type 0 where
  invalid_json missing_properties : Problem

-- A schema, or a `SchemaParseFailure` with the position where there is one.
pub data Parsed : Type 0 where
  parsed : Schema → Parsed
  parse_failure : Problem → Option Position → Parsed

abbrev pub parsed_map : Option Fields → Parsed
parsed_map none = parse_failure missing_properties none
parsed_map (some fs) = parsed (record { properties = lift_properties fs })

-- `JSON.parse`, which gives nothing where it throws, and the room on the call stack for the locator.
pub record JsonParse : Type 0 where
  pub parse : Text → Option JsValue
  pub stack_room : ℕ

-- The catch around the locator.
abbrev pub caught : Option (Option Position) → Option Position
caught none = none
caught (some o) = o

abbrev pub parsed_document : JsonParse → Text → Option JsValue → Parsed
parsed_document json raw none =
    parse_failure invalid_json (caught (locate_first_json_syntax_error json.stack_room raw))
parsed_document json raw (some v) = parsed_map (properties_map v)

unfoldable pub parse_schema : JsonParse → Text → Parsed
parse_schema json raw = parsed_document json raw (json.parse raw)

unfoldable pub format_locator : Option Position → Text
format_locator none = codes "(position unknown)"
format_locator (some p) =
    codes "(line " ++ decimal p.line ++ codes ", column " ++ decimal p.column ++ codes ")"
