-- ===== src/Schema.antt =====
-- core/schema/schema-model.ts and core/schema/schema-validate.ts: the declared inputs of a factory,
-- and the findings of an input against them. The children parse, check, find and locate a schema.
pub mod Conforms
pub mod Parse
pub mod Scanner
pub mod Locate
pub mod Sufficiency
pub mod Discovery
use project_builder_sdk.Base.{
  ℕ, zero, suc, Bool, true, false, not, ◌&&◌, ◌||◌, Option, none, some, List, [], ◌∷◌, ◌++◌, map,
  Text, codes, text_eq, has, if◌then◌else◌,
}
use project_builder_sdk.Transport.Decimal.{decimal}
use project_builder_sdk.DeepEqual.{find_field}
use project_builder_sdk.Wire.Value.{
  finite, JsValue, undefined, null, bool, num, str, arr, obj, date, map_object, class_instance,
  Elems, nil, cons, Fields, end, field,
}

pub data SchemaKind : Type 0 where
  string number boolean enum : SchemaKind

-- The kind is what the file says: a cast keeps a value that names none.
pub record SchemaProperty : Type 0 where
  pub key : Text
  pub type : JsValue
  pub label : Option Text
  pub choices : Option Elems
  pub default : JsValue
  pub required : Option Bool
  pub description : Option Text

pub record Schema : Type 0 where
  pub properties : List SchemaProperty

abbrev pub reserved_lifecycle_names : List Text
reserved_lifecycle_names = codes "pre-execute" ∷ codes "post-execute" ∷ []

abbrev pub forbidden_keys : List Text
forbidden_keys = codes "__proto__" ∷ codes "constructor" ∷ codes "prototype" ∷ []

-- The own fields of a value that passes `isPlainObject`.
abbrev pub is_plain_object : JsValue → Option Fields
is_plain_object (obj fs) = some fs
is_plain_object (class_instance fs) = some fs
is_plain_object (date _) = some end
is_plain_object map_object = some end
is_plain_object _ = none

-- The kind that a switch on a string finds.
abbrev named_kind : Text → Option SchemaKind
named_kind t =
    if text_eq t (codes "string")
    then some string
    else if text_eq t (codes "number")
    then some number
    else if text_eq t (codes "boolean")
    then some boolean
    else if text_eq t (codes "enum")
    then some enum
    else none

unfoldable pub schema_kind : JsValue → Option SchemaKind
schema_kind (str t) = named_kind t
schema_kind _ = none

-- The declared expectation: the choices of an enum, or the kind as it is declared.
pub data Expected : Type 0 where
  one_of : Option Elems → Expected
  declared : JsValue → Expected

abbrev expected : JsValue → Option Elems → Option SchemaKind → Expected
expected type choices (some enum) = one_of choices
expected type choices _ = declared type

unfoldable pub expected_type_for : SchemaProperty → Expected
expected_type_for p = expected p.type p.choices (schema_kind p.type)

-- `choices.includes(value)` of a string.
-- `choices.includes(value)` of a string.
abbrev pub same_text : JsValue → Text → Bool
same_text (str s) t = text_eq s t
same_text _ t = false

unfoldable pub includes : Elems → Text → Bool
includes nil t = false
includes (cons v es) t = same_text v t || includes es t

abbrev pub includes_choice : Option Elems → Text → Bool
includes_choice none t = false
includes_choice (some es) t = includes es t

-- A kind outside the four matches nothing.
abbrev pub matches_kind : Option SchemaKind → Option Elems → JsValue → Bool
matches_kind (some string) cs (str _) = true
matches_kind (some number) cs (num _) = true
matches_kind (some boolean) cs (bool _) = true
matches_kind (some enum) cs (str t) = includes_choice cs t
matches_kind _ cs _ = false

unfoldable pub matches_type : SchemaProperty → JsValue → Bool
matches_type p v = matches_kind (schema_kind p.type) p.choices v

pub data ValidationFinding : Type 0 where
  missing : Text → Expected → ValidationFinding
  wrong_type : Text → Expected → ValidationFinding
  disallowed_key : Text → ValidationFinding

-- The items of an array under their indices.
unfoldable pub indexed : ℕ → Elems → Fields
indexed i nil = end
indexed i (cons v es) = field (decimal i) v (indexed (suc i) es)

unfoldable pub count_elems : Elems → ℕ
count_elems nil = 0
count_elems (cons v es) = suc (count_elems es)

-- The own enumerable fields of the record that the input is read as: none but for an object.
unfoldable pub own_fields : JsValue → Fields
own_fields (arr es) = indexed 0 es
own_fields (obj fs) = fs
own_fields (class_instance fs) = fs
own_fields _ = end

-- An array owns its length too, which its keys do not list.
abbrev own_array : Text → Elems → Option JsValue
own_array k es =
    if text_eq k (codes "length")
    then some (num (finite (decimal (count_elems es))))
    else find_field k (indexed 0 es)

unfoldable pub own_value : Text → JsValue → Option JsValue
own_value k (arr es) = own_array k es
own_value k v = find_field k (own_fields v)

-- A value that is there and `undefined` counts as absent.
abbrev pub given : Option JsValue → Option JsValue
given none = none
given (some undefined) = none
given (some v) = some v

unfoldable pub present : SchemaProperty → JsValue → Option JsValue
present p input = given (own_value p.key input)

abbrev is_required : Option Bool → Bool
is_required (some b) = b
is_required none = true

abbrev absent : SchemaProperty → List ValidationFinding
absent p = if is_required p.required then missing p.key (expected_type_for p) ∷ [] else []

abbrev pub checked : SchemaProperty → Option JsValue → List ValidationFinding
checked p none = absent p
checked p (some v) = if matches_type p v then [] else wrong_type p.key (expected_type_for p) ∷ []

unfoldable pub check_properties : List SchemaProperty → JsValue → List ValidationFinding
check_properties [] input = []
check_properties (p ∷ ps) input = checked p (present p input) ++ check_properties ps input

abbrev pub disallowed : List Text → Text → Bool
disallowed keys k = has reserved_lifecycle_names k || has forbidden_keys k || not (has keys k)

unfoldable pub check_keys : List Text → Fields → List ValidationFinding
check_keys keys end = []
check_keys keys (field k v fs) =
    (if disallowed keys k then disallowed_key k ∷ [] else []) ++ check_keys keys fs

abbrev pub key_of : SchemaProperty → Text
key_of p = p.key

abbrev pub declared_keys : Schema → List Text
declared_keys schema = map key_of schema.properties

unfoldable pub validate_input : Schema → JsValue → List ValidationFinding
validate_input schema input =
    check_properties schema.properties input ++ check_keys (declared_keys schema) (own_fields input)
