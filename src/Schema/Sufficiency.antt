-- ===== src/Schema/Sufficiency.antt =====
-- core/schema/schema-sufficiency.ts: the rules that a schema must meet before types are made of it.
use project_builder_sdk.Base.{
  Bool, true, false, not, ◌&&◌, ◌||◌, Option, none, some, List, [], ◌∷◌, ◌++◌, Text, codes, text_eq,
  text_eq_iff, Text-discrete, append_nil_iff, All-append_iff, Bool-cases, inl, inr, has, All, ◌≡◌,
  ◌↔◌, refl, arith, if◌then◌else◌,
}
use project_builder_sdk.Wire.Value.{JsValue, undefined, str, Elems, nil, cons, Fields, end, field}
use project_builder_sdk.Schema.{
  SchemaKind, string, number, boolean, enum, SchemaProperty, forbidden_keys, is_plain_object,
  same_text, schema_kind,
}
use project_builder_sdk.Schema.Parse.{
  member, string_of, array_of, lifted, lift_properties, properties_map,
}

abbrev pub recognized_kinds : List Text
recognized_kinds = codes "string" ∷ codes "number" ∷ codes "boolean" ∷ codes "enum" ∷ []

pub data SufficiencyReason : Type 0 where
  forbidden_key missing_type enum_missing_choices missing_label : SufficiencyReason
  -- With the type that was declared.
  nonsensical_type : JsValue → SufficiencyReason

pub record SufficiencyFinding : Type 0 where
  pub key : Text
  pub reason : SufficiencyReason

abbrev is_undefined : JsValue → Bool
is_undefined undefined = true
is_undefined _ = false

abbrev recognized : JsValue → Bool
recognized (str t) = has recognized_kinds t
recognized _ = false

abbrev empty_choices : Option Elems → Bool
empty_choices none = true
empty_choices (some nil) = true
empty_choices (some (cons _ _)) = false

abbrev finding : Text → SufficiencyReason → List SufficiencyFinding
finding k reason = record { key = k; reason = reason } ∷ []

unfoldable pub type_findings : Text → JsValue → Option Elems → List SufficiencyFinding
type_findings k type choices =
    if is_undefined type
    then finding k missing_type
    else if not (recognized type)
    then finding k (nonsensical_type type)
    else if same_text type (codes "enum") && empty_choices choices
    then finding k enum_missing_choices
    else []

abbrev label_findings : Text → Option Text → List SufficiencyFinding
label_findings k none = finding k missing_label
label_findings k (some _) = []

-- A property that is no object is left to the parser.
abbrev declared_findings : Text → Option Fields → List SufficiencyFinding
declared_findings k none = []
declared_findings k (some fs) =
    type_findings k (member (codes "type") fs) (array_of (member (codes "choices") fs))
    ++ label_findings k (string_of (member (codes "label") fs))

unfoldable pub property_findings : Text → JsValue → List SufficiencyFinding
property_findings k v =
    if has forbidden_keys k
    then finding k forbidden_key
    else declared_findings k (is_plain_object v)

unfoldable pub map_findings : Fields → List SufficiencyFinding
map_findings end = []
map_findings (field k v fs) = property_findings k v ++ map_findings fs

abbrev of_map : Option Fields → List SufficiencyFinding
of_map none = []
of_map (some fs) = map_findings fs

-- The rules over the document that `JSON.parse` gives.
unfoldable pub check_sufficiency : JsValue → List SufficiencyFinding
check_sufficiency document = of_map (properties_map document)

-- One of the four kinds, and an enum has choices.
pub KindDeclared : Option Elems → Option SchemaKind → Type 0
KindDeclared cs none = ⊥
KindDeclared cs (some enum) = (v : JsValue) × (es : Elems) × (cs ≡ some (cons v es))
KindDeclared cs (some _) = Unit

-- A property as the parser lifts it: a kind of the four, choices where they are needed, a label.
pub WellDeclared : SchemaProperty → Type 0
WellDeclared p = KindDeclared p.choices (schema_kind p.type) × ((t : Text) × (p.label ≡ some t))

-- No key of the map is forbidden.
pub KeysSafe : Fields → Type 0
KeysSafe end = Unit
KeysSafe (field k v fs) = (has forbidden_keys k ≡ false) × KeysSafe fs

-- Only one word is the enum's.
only_enum :
    (t : Text)
    → text_eq t (codes "enum") ≡ true
    → (text_eq t (codes "string") ≡ false)
      × ((text_eq t (codes "number") ≡ false) × (text_eq t (codes "boolean") ≡ false))
unfolding Text-discrete
only_enum t h =
    let e : t ≡ codes "enum" = (text_eq_iff t (codes "enum")).0 h in rw e (refl, (refl, refl))

-- The findings of a type that is a text, by its four tests.
tests_iff :
    (k : Text) (type : JsValue) (cs : Option Elems) (a b c d : Bool)
    → (d ≡ true → (a ≡ false) × ((b ≡ false) × (c ≡ false)))
    → ((if not (a || (b || (c || (d || false))))
          then finding k (nonsensical_type type)
          else if d && empty_choices cs
          then finding k enum_missing_choices
          else [])
        ≡ [])
      ↔ KindDeclared cs (
          if a
          then some string
          else if b
          then some number
          else if c
          then some boolean
          else if d
          then some enum
          else none)
unfolding KindDeclared
tests_iff k type none a b c d h = ground arith
tests_iff k type (some nil) a b c d h = ground arith
tests_iff k type (some (cons v es)) true b c d h = ground arith
tests_iff k type (some (cons v es)) false true c d h = ground arith
tests_iff k type (some (cons v es)) false false true d h = ground arith
tests_iff k type (some (cons v es)) false false false true h = (λ _. (v, es, refl), λ _. refl)
tests_iff k type (some (cons v es)) false false false false h = ground arith

type_findings_iff :
    (k : Text) (type : JsValue) (cs : Option Elems)
    → (type_findings k type cs ≡ []) ↔ KindDeclared cs (schema_kind type)
unfolding type_findings KindDeclared schema_kind
type_findings_iff k (str t) cs =
    tests_iff k (str t) cs (text_eq t (codes "string")) (text_eq t (codes "number"))
      (text_eq t (codes "boolean")) (text_eq t (codes "enum")) (only_enum t)
type_findings_iff k type cs = ground arith

label_findings_iff :
    (k : Text) (o : Option Text) → (label_findings k o ≡ []) ↔ ((t : Text) × (o ≡ some t))
label_findings_iff k none = ground arith
label_findings_iff k (some t) = (λ _. (t, refl), λ _. refl)

declared_findings_iff :
    (k : Text) (o : Option Fields) → (declared_findings k o ≡ []) ↔ All WellDeclared (lifted k o)
unfolding WellDeclared
declared_findings_iff k none = ground arith
declared_findings_iff k (some fs) = ground (
  arith,
  append_nil_iff (type_findings k _ _) (label_findings k _),
  type_findings_iff k (member (codes "type") fs) (array_of (member (codes "choices") fs)),
  label_findings_iff k (string_of (member (codes "label") fs)),
)

property_findings_iff :
    (k : Text) (v : JsValue)
    → (property_findings k v ≡ [])
      ↔ ((has forbidden_keys k ≡ false) × All WellDeclared (lifted k (is_plain_object v)))
unfolding property_findings
property_findings_iff k v = elim (Bool-cases (has forbidden_keys k)) [
  | inl e ↦ rw e (ground arith)
  | inr e ↦ rw e (ground (arith, declared_findings_iff k (is_plain_object v)))
]

map_findings_iff :
    (fs : Fields) → (map_findings fs ≡ []) ↔ (KeysSafe fs × All WellDeclared (lift_properties fs))
unfolding map_findings KeysSafe lift_properties
map_findings_iff end = ground arith
map_findings_iff (field k v fs) = ground (
  arith,
  append_nil_iff (property_findings k v) (map_findings fs),
  property_findings_iff k v,
  All-append_iff WellDeclared (lifted k (is_plain_object v)) (lift_properties fs),
  map_findings_iff fs,
)

-- What a document without findings is.
pub Sufficient : Option Fields → Type 0
Sufficient none = Unit
Sufficient (some fs) = KeysSafe fs × All WellDeclared (lift_properties fs)

-- A document passes the sufficiency check exactly when it has no map of properties, or no key of
-- the map is forbidden and every property that the parser makes of it has a known kind, choices
-- where it is an enum, and a label.
pub check_sufficiency_iff :
    (document : JsValue) → (check_sufficiency document ≡ []) ↔ Sufficient (properties_map document)
unfolding check_sufficiency Sufficient
check_sufficiency_iff document = of_map_iff (properties_map document)
  where
    of_map_iff : (o : Option Fields) → (of_map o ≡ []) ↔ Sufficient o
    of_map_iff none = ground arith
    of_map_iff (some fs) = map_findings_iff fs
