-- ===== src/Directives/Encoding.antt =====
-- What `encodeOptions` makes of a plain object, and that a created directive can be serialized.
use project_builder_sdk.Base.{
  Bool, true, false, Option, none, some, List, [], ◌∷◌, Text, ◌≡◌, refl, ap, ◌∙◌, sym, arith,
}
use project_builder_sdk.Wire.{Directive, directive_value}
use project_builder_sdk.Wire.Value.{
  Number, JsValue, undefined, null, bool, num, str, bigint, symbol, function, arr, obj, date,
  map_object, class_instance, Elems, nil, cons, Fields, end, field,
}
use project_builder_sdk.Wire.Json.{stringify, stringify_elems, stringify_fields, text, text_or_nil}
use project_builder_sdk.Wire.Size.{Serializable}
use project_builder_sdk.Errors.{Result, ok, err}
use project_builder_sdk.Directives.{
  is_encodable, elems_encodable, fields_encodable, encode_value, encode_fields, encode_options,
  reject_option, create, push_encoded, wrapped, created,
}
use project_builder_sdk.Directives.Uncarried.{
  UncarriedField, unencodable_fields, UncarriedField-fields,
}

mutual
  unfolding is_encodable stringify

  encodable_text : (v : JsValue) → is_encodable v ≡ true → (t : Text) × (stringify v ≡ text t)
  encodable_text undefined h = cc
  encodable_text null h = (_, refl)
  encodable_text (bool b) h = (_, refl)
  encodable_text (num n) h = (_, refl)
  encodable_text (str s) h = (_, refl)
  encodable_text (bigint t) h = cc
  encodable_text symbol h = cc
  encodable_text function h = cc
  encodable_text (arr es) h = let (ts, e) = encodable_elems es h in rw e (_, refl)
  encodable_text (obj fs) h = let (ts, e) = encodable_fields fs h in rw e (_, refl)
  encodable_text (date t) h = cc
  encodable_text map_object h = cc
  encodable_text (class_instance fs) h = cc

  encodable_elems :
      (es : Elems) → elems_encodable es ≡ true → (ts : List Text) × (stringify_elems es ≡ some ts)
  encodable_elems nil h = ([], refl)
  encodable_elems (cons v es) h =
      let (t, e) = encodable_text v (ground arith) in
      let (ts, es') = encodable_elems es (ground arith) in (t ∷ ts, rw (e, es') refl)

  encodable_fields :
      (fs : Fields)
      → fields_encodable fs ≡ true
      → (ts : List Text) × (stringify_fields fs ≡ some ts)
  encodable_fields end h = ([], refl)
  encodable_fields (field k v fs) h =
      let (t, e) = encodable_text v (ground arith) in
      let (ts, es) = encodable_fields fs (ground arith) in rw (e, es) (_, refl)

-- A field after the encoding: a scalar as it was, or the text that a composite serializes to.
pub data EncodedValue : JsValue → JsValue → Type 0 where
  null_kept : EncodedValue null null
  bool_kept : (b : Bool) → EncodedValue (bool b) (bool b)
  num_kept : (n : Number) → EncodedValue (num n) (num n)
  str_kept : (s : Text) → EncodedValue (str s) (str s)
  elems_text : (es : Elems) (t : Text) → stringify (arr es) ≡ text t → EncodedValue (arr es) (str t)
  fields_text :
      (fs : Fields) (t : Text) → stringify (obj fs) ≡ text t → EncodedValue (obj fs) (str t)

pub data EncodedFields : Fields → Fields → Type 0 where
  end_kept : EncodedFields end end
  field_encoded :
      (k : Text) {v w : JsValue} {fs gs : Fields}
      → EncodedValue v w
      → EncodedFields fs gs
      → EncodedFields (field k v fs) (field k w gs)

encode_value-EncodedValue : (v : JsValue) → is_encodable v ≡ true → EncodedValue v (encode_value v)
unfolding is_encodable
encode_value-EncodedValue undefined h = cc
encode_value-EncodedValue null h = null_kept
encode_value-EncodedValue (bool b) h = bool_kept b
encode_value-EncodedValue (num n) h = num_kept n
encode_value-EncodedValue (str s) h = str_kept s
encode_value-EncodedValue (bigint t) h = cc
encode_value-EncodedValue symbol h = cc
encode_value-EncodedValue function h = cc
encode_value-EncodedValue (arr es) h =
    let (t, e) = encodable_text (arr es) h in
    elems_text es (text_or_nil (stringify (arr es))) (e ∙ ap text (sym (ap text_or_nil e)))
encode_value-EncodedValue (obj fs) h =
    let (t, e) = encodable_text (obj fs) h in
    fields_text fs (text_or_nil (stringify (obj fs))) (e ∙ ap text (sym (ap text_or_nil e)))
encode_value-EncodedValue (date t) h = cc
encode_value-EncodedValue map_object h = cc
encode_value-EncodedValue (class_instance fs) h = cc

-- What encoding the fields comes to.
abbrev EncodeFields : Fields → Result Fields → Type 0
EncodeFields fs (ok gs) = (fields_encodable fs ≡ true) × EncodedFields fs gs
EncodeFields fs (err e) = (fields_encodable fs ≡ false) × (e ≡ reject_option)

encode_fields-EncodeFields : (fs : Fields) → EncodeFields fs (encode_fields fs)
unfolding encode_fields is_encodable
encode_fields-EncodeFields end = (refl, end_kept)
encode_fields-EncodeFields (field k v fs) =
    pushed (is_encodable v) refl (encode_fields fs) (encode_fields-EncodeFields fs)
  where
    pushed :
        (b : Bool)
        → is_encodable v ≡ b
        → (rest : Result Fields) → EncodeFields fs rest
        → EncodeFields (field k v fs) (push_encoded k v b rest)
    pushed false h rest g = (ground (arith, h), refl)
    pushed true h (ok gs) (all, g) =
        (ground (arith, h, all), field_encoded k (encode_value-EncodedValue v h) g)
    pushed true h (err e) (some_bad, same) = (ground (arith, h, some_bad), same)

-- What encoding a plain object comes to.
abbrev pub EncodeOptions : Fields → Result JsValue → Type 0
EncodeOptions fs (ok (obj gs)) = (fields_encodable fs ≡ true) × EncodedFields fs gs
EncodeOptions fs (ok _) = ⊥
EncodeOptions fs (err e) = (fields_encodable fs ≡ false) × (e ≡ reject_option)

-- Encoding a plain object either gives an object with the same keys in the same order, each scalar
-- unchanged and each composite as the text of its JSON, or rejects the options, exactly where a value
-- in them, at any depth, is none that JSON carries.
pub encode_options-EncodeOptions : (fs : Fields) → EncodeOptions fs (encode_options (obj fs))
unfolding encode_options
encode_options-EncodeOptions fs = outer (encode_fields fs) (encode_fields-EncodeFields fs)
  where
    outer : (r : Result Fields) → EncodeFields fs r → EncodeOptions fs (wrapped r)
    outer (ok gs) h = h
    outer (err e) h = h

EncodedFields-text :
    {fs gs : Fields} → EncodedFields fs gs → (ts : List Text) × (stringify_fields gs ≡ some ts)
unfolding stringify
EncodedFields-text end_kept = ([], refl)
EncodedFields-text (field_encoded k v g) =
    let (ts, e) = EncodedFields-text g in let (t, d) = EncodedValue-text v in rw (e, d) (_, refl)
  where
    EncodedValue-text : {v w : JsValue} → EncodedValue v w → (t : Text) × (stringify w ≡ text t)
    EncodedValue-text null_kept = (_, refl)
    EncodedValue-text (bool_kept b) = (_, refl)
    EncodedValue-text (num_kept n) = (_, refl)
    EncodedValue-text (str_kept s) = (_, refl)
    EncodedValue-text (elems_text es t h) = (_, refl)
    EncodedValue-text (fields_text fs t h) = (_, refl)

create_text :
    (p t : Text) (gs : Fields) (force : Option Bool) (ts : List Text)
    → stringify_fields gs ≡ some ts
    → Serializable (Directive.create p t (obj gs) force)
unfolding stringify directive_value
create_text p t gs none ts e = rw e (_, refl)
create_text p t gs (some b) ts e = rw e (_, refl)

-- What `create` comes to for options that are a plain object.
abbrev pub Created : Text → Text → Fields → Option Bool → Result Directive → Type 0
Created p t fs force (ok d) =
    (gs : Fields) × (d ≡ Directive.create p t (obj gs) force)
    × EncodedFields fs gs
    × Serializable d
    × (¬ UncarriedField fs)
Created p t fs force (err e) = UncarriedField fs × (e ≡ reject_option)

-- A create with a plain object of options either makes a directive that can be serialized, its
-- options with the same keys in the same order, each scalar unchanged and each composite as the
-- text of its JSON, or rejects the options, and this exactly where they have, at any depth, an
-- `undefined`, a function, a symbol, a bigint, or an object that is neither plain nor an array.
pub create-Created :
    (p t : Text) (fs : Fields) (force : Option Bool)
    → Created p t fs force (create p t (obj fs) force)
unfolding create
create-Created p t fs force = outer (encode_options (obj fs)) (encode_options-EncodeOptions fs)
  where
    outer : (r : Result JsValue) → EncodeOptions fs r → Created p t fs force (created p t force r)
    outer (ok (obj gs)) (all, g) =
        let (ts, e) = EncodedFields-text g in
        (
          gs,
          refl,
          g,
          create_text p t gs force ts e,
          λ bad. let e : true ≡ false = sym all ∙ UncarriedField-fields bad in absurd (cc e),
        )
    outer (ok undefined) h = absurd h
    outer (ok null) h = absurd h
    outer (ok (bool _)) h = absurd h
    outer (ok (num _)) h = absurd h
    outer (ok (str _)) h = absurd h
    outer (ok (bigint _)) h = absurd h
    outer (ok symbol) h = absurd h
    outer (ok function) h = absurd h
    outer (ok (arr _)) h = absurd h
    outer (ok (date _)) h = absurd h
    outer (ok map_object) h = absurd h
    outer (ok (class_instance _)) h = absurd h
    outer (err e) (bad, same) = (unencodable_fields fs bad, same)
