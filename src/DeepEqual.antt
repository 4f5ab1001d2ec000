-- ===== src/DeepEqual.antt =====
-- core/deep-equal.ts, and the value that a JSON round trip gives back.
use project_builder_sdk.Base.{
  Bool, true, false, not, ◌&&◌, Option, none, some, Text, text_eq, ◌==◌, if◌then◌else◌, ℕ, suc,
  codes,
}
use project_builder_sdk.Wire.Value.{
  Number, finite, neg_zero, nan, infinity, neg_infinity, JsValue, undefined, null, bool, num, str,
  bigint, symbol, function, arr, obj, date, map_object, class_instance, Elems, nil, cons, Fields,
  end, field,
}

-- `Object.is` on numbers: `NaN` is itself, and the two zeros differ.
abbrev same_number : Number → Number → Bool
same_number (finite s) (finite t) = text_eq s t
same_number neg_zero neg_zero = true
same_number nan nan = true
same_number infinity infinity = true
same_number neg_infinity neg_infinity = true
same_number _ _ = false

abbrev same_bool : Bool → Bool → Bool
same_bool true b = b
same_bool false b = not b

-- `isKeyedObject`, with the own enumerable keys.
abbrev keyed : JsValue → Option Fields
keyed (obj fs) = some fs
keyed (class_instance fs) = some fs
keyed (date _) = some end
keyed map_object = some end
keyed _ = none

abbrev pub find_field : Text → Fields → Option JsValue
find_field k end = none
find_field k (field j v fs) = if text_eq k j then some v else find_field k fs

abbrev pub count_fields : Fields → ℕ
count_fields end = 0
count_fields (field k v fs) = suc (count_fields fs)

-- Objects, symbols and functions on the two sides are taken to be different references.
unfoldable mutual
  pub deep_equal : JsValue → JsValue → Bool
  deep_equal undefined b = elim b [ undefined ↦ true | _ ↦ false ]
  deep_equal null b = elim b [ null ↦ true | _ ↦ false ]
  deep_equal (bool x) b = elim b [ bool y ↦ same_bool x y | _ ↦ false ]
  deep_equal (num x) b = elim b [ num y ↦ same_number x y | _ ↦ false ]
  deep_equal (str x) b = elim b [ str y ↦ text_eq x y | _ ↦ false ]
  deep_equal (bigint x) b = elim b [ bigint y ↦ text_eq x y | _ ↦ false ]
  deep_equal symbol b = false
  deep_equal function b = false
  deep_equal (arr xs) b = elim b [ arr ys ↦ equal_elems xs ys | _ ↦ false ]
  deep_equal (obj fs) b = elim (keyed b) [
    | some gs ↦ every_field fs gs && (count_fields fs == count_fields gs)
    | none ↦ false
  ]
  deep_equal (date _) b = elim (keyed b) [ some gs ↦ count_fields gs == 0 | none ↦ false ]
  deep_equal map_object b = elim (keyed b) [ some gs ↦ count_fields gs == 0 | none ↦ false ]
  deep_equal (class_instance fs) b = elim (keyed b) [
    | some gs ↦ every_field fs gs && (count_fields fs == count_fields gs)
    | none ↦ false
  ]

  -- Arrays of one length whose items are equal.
  equal_elems : Elems → Elems → Bool
  equal_elems nil ys = elim ys [ nil ↦ true | _ ↦ false ]
  equal_elems (cons x xs) ys = elim ys [
    | nil ↦ false
    | cons y ys' ↦ deep_equal x y && equal_elems xs ys'
  ]

  every_field : Fields → Fields → Bool
  every_field end gs = true
  every_field (field k v fs) gs =
      elim (find_field k gs) [ none ↦ false | some w ↦ deep_equal v w ] && every_field fs gs

abbrev keep_field : Text → JsValue → JsValue → Fields → Fields
keep_field k undefined w rest = rest
keep_field k symbol w rest = rest
keep_field k function w rest = rest
keep_field k _ w rest = field k w rest

abbrev clone_number : Number → JsValue
clone_number (finite t) = num (finite t)
clone_number neg_zero = num (finite (codes "0"))
clone_number _ = null

-- `JSON.parse(JSON.stringify(v))` of a value that does not make it throw. An item that has no text
-- comes back as `null`, and a field that has none does not come back.
unfoldable mutual
  pub json_clone : JsValue → JsValue
  json_clone (bool b) = bool b
  json_clone (num n) = clone_number n
  json_clone (str s) = str s
  json_clone (arr es) = arr (clone_elems es)
  json_clone (obj fs) = obj (clone_fields fs)
  json_clone (class_instance fs) = obj (clone_fields fs)
  json_clone (date iso) = str iso
  json_clone map_object = obj end
  json_clone _ = null

  clone_elems : Elems → Elems
  clone_elems nil = nil
  clone_elems (cons v es) = cons (json_clone v) (clone_elems es)

  clone_fields : Fields → Fields
  clone_fields end = end
  clone_fields (field k v fs) = keep_field k v (json_clone v) (clone_fields fs)
