-- ===== src/Directives/Uncarried.antt =====
-- What the encoding of options refuses: the values that plain JSON data has not.
use project_builder_sdk.Base.{false, Text, ◌≡◌, refl, arith, Bool-cases, inl, inr}
use project_builder_sdk.Wire.Value.{
  JsValue, undefined, null, bool, num, str, bigint, symbol, function, arr, obj, date, map_object,
  class_instance, Elems, nil, cons, Fields, end, field,
}
use project_builder_sdk.Directives.{is_encodable, elems_encodable, fields_encodable}

mutual
  -- A value that has, at any depth, a part that plain JSON data has not.
  pub data Uncarried : JsValue → Type 0 where
    undefined_value : Uncarried undefined
    function_value : Uncarried function
    symbol_value : Uncarried symbol
    bigint_value : (t : Text) → Uncarried (bigint t)
    date_object : (t : Text) → Uncarried (date t)
    a_map_object : Uncarried map_object
    an_instance : (fs : Fields) → Uncarried (class_instance fs)
    in_items : {es : Elems} → UncarriedItem es → Uncarried (arr es)
    in_fields : {fs : Fields} → UncarriedField fs → Uncarried (obj fs)

  pub data UncarriedItem : Elems → Type 0 where
    this_item : {v : JsValue} {es : Elems} → Uncarried v → UncarriedItem (cons v es)
    later_item : {v : JsValue} {es : Elems} → UncarriedItem es → UncarriedItem (cons v es)

  pub data UncarriedField : Fields → Type 0 where
    this_field :
        {k : Text} {v : JsValue} {fs : Fields} → Uncarried v → UncarriedField (field k v fs)
    later_field :
        {k : Text} {v : JsValue} {fs : Fields} → UncarriedField fs → UncarriedField (field k v fs)

mutual
  unfolding is_encodable

  unencodable : (v : JsValue) → is_encodable v ≡ false → Uncarried v
  unencodable undefined h = undefined_value
  unencodable null h = absurd (cc h)
  unencodable (bool b) h = absurd (cc h)
  unencodable (num n) h = absurd (cc h)
  unencodable (str s) h = absurd (cc h)
  unencodable (bigint t) h = bigint_value t
  unencodable symbol h = symbol_value
  unencodable function h = function_value
  unencodable (arr es) h = in_items (unencodable_elems es h)
  unencodable (obj fs) h = in_fields (unencodable_fields fs h)
  unencodable (date t) h = date_object t
  unencodable map_object h = a_map_object
  unencodable (class_instance fs) h = an_instance fs

  unencodable_elems : (es : Elems) → elems_encodable es ≡ false → UncarriedItem es
  unencodable_elems nil h = absurd (cc h)
  unencodable_elems (cons v es) h = elim (Bool-cases (is_encodable v)) [
    | inl good ↦ later_item (unencodable_elems es (ground (arith, good)))
    | inr bad ↦ this_item (unencodable v bad)
  ]

  pub unencodable_fields : (fs : Fields) → fields_encodable fs ≡ false → UncarriedField fs
  unencodable_fields end h = absurd (cc h)
  unencodable_fields (field k v fs) h = elim (Bool-cases (is_encodable v)) [
    | inl good ↦ later_field (unencodable_fields fs (ground (arith, good)))
    | inr bad ↦ this_field (unencodable v bad)
  ]

mutual
  unfolding is_encodable

  Uncarried-value : {v : JsValue} → Uncarried v → is_encodable v ≡ false
  Uncarried-value undefined_value = refl
  Uncarried-value function_value = refl
  Uncarried-value symbol_value = refl
  Uncarried-value (bigint_value t) = refl
  Uncarried-value (date_object t) = refl
  Uncarried-value a_map_object = refl
  Uncarried-value (an_instance fs) = refl
  Uncarried-value (in_items u) = UncarriedItem-elems u
  Uncarried-value (in_fields u) = UncarriedField-fields u

  UncarriedItem-elems : {es : Elems} → UncarriedItem es → elems_encodable es ≡ false
  UncarriedItem-elems (this_item u) = ground (arith, Uncarried-value u)
  UncarriedItem-elems (later_item u) = ground (arith, UncarriedItem-elems u)

  pub UncarriedField-fields : {fs : Fields} → UncarriedField fs → fields_encodable fs ≡ false
  UncarriedField-fields (this_field u) = ground (arith, Uncarried-value u)
  UncarriedField-fields (later_field u) = ground (arith, UncarriedField-fields u)
