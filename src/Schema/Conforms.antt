-- ===== src/Schema/Conforms.antt =====
-- An input has no finding exactly when it conforms to the schema.
use project_builder_sdk.Base.{
  Bool, true, false, Option, none, some, List, [], ◌∷◌, Text, has, All, ◌≡◌, ◌↔◌, ◌⊎◌, refl,
  append_nil_iff, arith,
}
use project_builder_sdk.Wire.Value.{
  JsValue, bool, num, str, Elems, nil, cons, Fields, end, field, Number,
}
use project_builder_sdk.Schema.{
  SchemaKind, string, number, boolean, enum, SchemaProperty, Schema, schema_kind, matches_type,
  matches_kind, same_text, checked, includes, includes_choice, present, check_properties,
  check_keys, validate_input, declared_keys, own_fields, reserved_lifecycle_names, forbidden_keys,
}

-- A text is one of the items.
abbrev pub IsChoice : Text → Elems → Type 0
IsChoice t nil = ⊥
IsChoice t (cons v es) = (v ≡ str t) ⊎ IsChoice t es

-- What a value of a kind is. A kind outside the four has no values.
pub data HasKind (choices : Option Elems) : Option SchemaKind → JsValue → Type 0 where
  is_string : (t : Text) → HasKind choices (some string) (str t)
  is_number : (n : Number) → HasKind choices (some number) (num n)
  is_boolean : (b : Bool) → HasKind choices (some boolean) (bool b)
  is_choice :
      (t : Text) (es : Elems)
      → choices ≡ some es
      → IsChoice t es
      → HasKind choices (some enum) (str t)

-- A property is given with a value of its kind, or it is left out and declared optional.
pub Satisfies : JsValue → SchemaProperty → Type 0
Satisfies input p =
    ((v : JsValue) × (present p input ≡ some v) × HasKind p.choices (schema_kind p.type) v)
    ⊎ ((present p input ≡ none) × (p.required ≡ some false))

-- Every key is declared, and none is reserved or forbidden.
pub KeysAllowed : List Text → Fields → Type 0
KeysAllowed keys end = Unit
KeysAllowed keys (field k v fs) =
    ((has reserved_lifecycle_names k ≡ false)
      × (has forbidden_keys k ≡ false)
      × (has keys k ≡ true))
    × KeysAllowed keys fs

pub Conforms : Schema → JsValue → Type 0
Conforms schema input =
    All (Satisfies input) schema.properties × KeysAllowed (declared_keys schema) (own_fields input)

same_text_iff : (v : JsValue) (t : Text) → (same_text v t ≡ true) ↔ (v ≡ str t)
same_text_iff (str s) t = ground arith
same_text_iff v t = ground arith

includes_iff : (es : Elems) (t : Text) → (includes es t ≡ true) ↔ IsChoice t es
unfolding includes
includes_iff nil t = ground arith
includes_iff (cons v es) t = ground (arith, same_text_iff v t, includes_iff es t)

choice-HasKind :
    (cs : Option Elems) (t : Text) → includes_choice cs t ≡ true → HasKind cs (some enum) (str t)
choice-HasKind none t h = absurd (ground arith)
choice-HasKind (some es) t h = is_choice t es refl ((includes_iff es t).0 h)

matches_kind-HasKind :
    (cs : Option Elems) (k : Option SchemaKind) (v : JsValue)
    → matches_kind k cs v ≡ true
    → HasKind cs k v
matches_kind-HasKind cs (some string) (str t) h = is_string t
matches_kind-HasKind cs (some number) (num n) h = is_number n
matches_kind-HasKind cs (some boolean) (bool b) h = is_boolean b
matches_kind-HasKind cs (some enum) (str t) h = choice-HasKind cs t h
matches_kind-HasKind cs k v h = absurd (ground arith)

HasKind-matches_kind :
    (cs : Option Elems) (k : Option SchemaKind) (v : JsValue)
    → HasKind cs k v
    → matches_kind k cs v ≡ true
HasKind-matches_kind cs _ _ (is_string t) = refl
HasKind-matches_kind cs _ _ (is_number n) = refl
HasKind-matches_kind cs _ _ (is_boolean b) = refl
HasKind-matches_kind cs _ _ (is_choice t es e c) = rw e ((includes_iff es t).1 c)

some-HasKind :
    (cs : Option Elems) (k : Option SchemaKind) (v : JsValue)
    → ((w : JsValue) × (some v ≡ some w) × HasKind cs k w)
    → matches_kind k cs v ≡ true
some-HasKind cs k v (w, e, h) = let e' : v ≡ w = cc in rw e' (HasKind-matches_kind cs k w h)

-- The finding of a property, by what the input gives it.
checked_iff :
    (p : SchemaProperty) (o : Option JsValue)
    → (checked p o ≡ []) ↔ (
        ((v : JsValue) × (o ≡ some v) × HasKind p.choices (schema_kind p.type) v)
        ⊎ ((o ≡ none) × (p.required ≡ some false)))
unfolding matches_type
checked_iff p none = ground arith
checked_iff p (some v) = ground (
  arith,
  matches_kind-HasKind p.choices (schema_kind p.type) v,
  some-HasKind p.choices (schema_kind p.type) v,
)

check_properties_iff :
    (input : JsValue) (ps : List SchemaProperty)
    → (check_properties ps input ≡ []) ↔ All (Satisfies input) ps
unfolding check_properties Satisfies
check_properties_iff input [] = ground arith
check_properties_iff input (p ∷ ps) = ground (
  arith,
  append_nil_iff (checked p (present p input)) (check_properties ps input),
  checked_iff p (present p input),
  check_properties_iff input ps,
)

check_keys_iff : (keys : List Text) (fs : Fields) → (check_keys keys fs ≡ []) ↔ KeysAllowed keys fs
unfolding check_keys KeysAllowed
check_keys_iff keys end = ground arith
check_keys_iff keys (field k v fs) = ground (arith, check_keys_iff keys fs)

-- An input has no finding exactly when every declared property is given with a value of its kind,
-- or left out and declared optional, and every own key of the input is declared and neither
-- reserved nor forbidden.
pub validate_input_iff :
    (schema : Schema) (input : JsValue) → (validate_input schema input ≡ []) ↔ Conforms schema input
unfolding validate_input Conforms
validate_input_iff schema input = ground (
  arith,
  append_nil_iff (check_properties schema.properties input),
  check_properties_iff input schema.properties,
  check_keys_iff (declared_keys schema) (own_fields input),
)
