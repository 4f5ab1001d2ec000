-- ===== src/Wire/Assertion.antt =====
-- core/json-value.ts: the assertion that a value is one that a JSON document can hold. Values are
-- finite trees, so that none is cyclic.
use project_builder_sdk.Base.{
  ℕ, suc, Option, none, some, List, [], ◌∷◌, ◌++◌, Text, codes, ◌≡◌, refl, ap, arith,
}
use project_builder_sdk.Transport.Decimal.{decimal}
use project_builder_sdk.Wire.Value.{
  Number, nan, infinity, neg_infinity, JsValue, undefined, null, bool, num, str, bigint, symbol,
  function, arr, obj, date, map_object, class_instance, Elems, nil, cons, Fields, end, field,
}
use project_builder_sdk.Wire.Json.{
  quote, join_comma, text, stringify, stringify_elems, stringify_fields, enclose,
}

-- A key or an index.
pub data PathStep : Type 0 where
  key : Text → PathStep
  index : ℕ → PathStep

unfoldable pub step_text : PathStep → Text
step_text (key k) = quote k
step_text (index i) = decimal i

abbrev step_texts : List PathStep → List Text
step_texts [] = []
step_texts (s ∷ ss) = step_text s ∷ step_texts ss

unfoldable pub format_path : List PathStep → Text
format_path path = b'[' ∷ (join_comma (step_texts path) ++ (b']' ∷ []))

-- What no JSON document can hold: a number by its text, a value by its `typeof`, or an instance.
pub data Offence : Type 0 where
  number : Text → Offence
  kind : Text → Offence
  instance_of_class : Offence

pub record Offender : Type 0 where
  pub where_at : List PathStep
  pub what : Offence

abbrev pub assert_number : Number → List PathStep → Option Offender
assert_number nan at = some (record { where_at = at; what = number (codes "NaN") })
assert_number infinity at = some (record { where_at = at; what = number (codes "Infinity") })
assert_number neg_infinity at = some (record { where_at = at; what = number (codes "-Infinity") })
assert_number _ at = none

-- The first failure is the one that is thrown.
abbrev pub or_else : Option Offender → Option Offender → Option Offender
or_else none rest = rest
or_else (some o) rest = some o

-- The offender that the assertion throws at, if it throws.
unfoldable mutual
  pub assert_json_value : JsValue → List PathStep → Option Offender
  assert_json_value undefined at = some (record { where_at = at; what = kind (codes "undefined") })
  assert_json_value null at = none
  assert_json_value (bool b) at = none
  assert_json_value (num n) at = assert_number n at
  assert_json_value (str s) at = none
  assert_json_value (bigint t) at = some (record { where_at = at; what = kind (codes "bigint") })
  assert_json_value symbol at = some (record { where_at = at; what = kind (codes "symbol") })
  assert_json_value function at = some (record { where_at = at; what = kind (codes "function") })
  assert_json_value (arr es) at = assert_items es at 0
  assert_json_value (obj fs) at = assert_entries fs at
  assert_json_value (date t) at = some (record { where_at = at; what = instance_of_class })
  assert_json_value map_object at = some (record { where_at = at; what = instance_of_class })
  assert_json_value (class_instance fs) at =
      some (record { where_at = at; what = instance_of_class })

  pub assert_items : Elems → List PathStep → ℕ → Option Offender
  assert_items nil at i = none
  assert_items (cons v es) at i =
      or_else (assert_json_value v (at ++ index i ∷ [])) (assert_items es at (suc i))

  pub assert_entries : Fields → List PathStep → Option Offender
  assert_entries end at = none
  assert_entries (field k v fs) at =
      or_else (assert_json_value v (at ++ key k ∷ [])) (assert_entries fs at)

or_else-none : (a b : Option Offender) → or_else a b ≡ none → (a ≡ none) × (b ≡ none)
or_else-none none b h = (refl, h)
or_else-none (some o) b h = ground arith

mutual
  unfolding assert_json_value assert_items assert_entries stringify stringify_elems stringify_fields

  -- A value that passes the assertion is given a text by `JSON.stringify`.
  pub assert_json_value-text :
      (v : JsValue) (at : List PathStep)
      → assert_json_value v at ≡ none
      → (t : Text) × (stringify v ≡ text t)
  assert_json_value-text undefined at h = ground arith
  assert_json_value-text null at h = (_, refl)
  assert_json_value-text (bool b) at h = (_, refl)
  assert_json_value-text (num n) at h = (_, refl)
  assert_json_value-text (str s) at h = (_, refl)
  assert_json_value-text (bigint t) at h = ground arith
  assert_json_value-text symbol at h = ground arith
  assert_json_value-text function at h = ground arith
  assert_json_value-text (arr es) at h =
      let (ts, e) = assert_items-texts es at 0 h in (_, ap (enclose b'[' b']') e)
  assert_json_value-text (obj fs) at h =
      let (ts, e) = assert_entries-texts fs at h in (_, ap (enclose b'{' b'}') e)
  assert_json_value-text (date t) at h = ground arith
  assert_json_value-text map_object at h = ground arith
  assert_json_value-text (class_instance fs) at h = ground arith

  assert_items-texts :
      (es : Elems) (at : List PathStep) (i : ℕ)
      → assert_items es at i ≡ none
      → (ts : List Text) × (stringify_elems es ≡ some ts)
  assert_items-texts nil at i h = ([], refl)
  assert_items-texts (cons v es) at i h =
      let (hv, hs) = or_else-none _ _ h in
      let (t, e) = assert_json_value-text v (at ++ index i ∷ []) hv in
      let (ts, es') = assert_items-texts es at (suc i) hs in (t ∷ ts, rw (e, es') refl)

  assert_entries-texts :
      (fs : Fields) (at : List PathStep)
      → assert_entries fs at ≡ none
      → (ts : List Text) × (stringify_fields fs ≡ some ts)
  assert_entries-texts end at h = ([], refl)
  assert_entries-texts (field k v fs) at h =
      let (hv, hs) = or_else-none _ _ h in
      let (t, e) = assert_json_value-text v (at ++ key k ∷ []) hv in
      let (ts, es') = assert_entries-texts fs at hs in
      ((quote k ++ (b':' ∷ t)) ∷ ts, rw (e, es') refl)
