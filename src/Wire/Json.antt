-- ===== src/Wire/Json.antt =====
-- `JSON.stringify`, `JSON.parse` after it, and the UTF-8 length of the text, as core/wire.ts uses
-- them.
use mathlib.Core.Option
use project_builder_sdk.Base.{
  ℕ, ◌+◌, ◌-◌, ◌/◌, ◌%◌, Bool, false, not, ◌&&◌, ◌||◌, Option, none, some, List, [], ◌∷◌, ◌++◌,
  Text, codes, ltb, leb, ◌==◌, if◌then◌else◌,
}
use project_builder_sdk.Wire.Value.{
  Number, finite, neg_zero, JsValue, undefined, null, bool, num, str, bigint, symbol, function, arr,
  obj, date, map_object, class_instance, Elems, nil, cons, Fields, end, field,
}

abbrev pub is_high : ℕ → Bool
is_high c = leb 0xD800 c && ltb c 0xDC00

abbrev pub is_low : ℕ → Bool
is_low c = leb 0xDC00 c && ltb c 0xE000

-- The first unit of a surrogate pair.
abbrev pub starts_pair : ℕ → Text → Bool
starts_pair c [] = false
starts_pair c (d ∷ s) = is_high c && is_low d

unfoldable pub hex_digit : ℕ → ℕ
hex_digit n = if ltb n 10 then b'0' + n else b'a' + n - 10

unfoldable pub unicode_escape : ℕ → Text
unfolding hex_digit
unicode_escape c =
    b'\\'
    ∷ b'u'
    ∷ hex_digit (c / 4096 % 16)
    ∷ hex_digit (c / 256 % 16)
    ∷ hex_digit (c / 16 % 16)
    ∷ hex_digit (c % 16)
    ∷ []

-- A unit that is no surrogate.
unfoldable pub quote_plain : ℕ → Text
unfolding unicode_escape
quote_plain c =
    if c == 0x22 || c == 0x5C
    then 0x5C ∷ c ∷ []
    else if c == 8
    then codes "\\b"
    else if c == 9
    then codes "\\t"
    else if c == 10
    then codes "\\n"
    else if c == 12
    then codes "\\f"
    else if c == 13
    then codes "\\r"
    else if ltb c 32
    then unicode_escape c
    else c ∷ []

-- `paired`: the unit is the second of a pair. A surrogate without its partner is escaped.
unfoldable pub quote_unit : Bool → ℕ → Text → Text
unfolding quote_plain
quote_unit paired c s =
    if is_high c || is_low c
    then (if paired || starts_pair c s then c ∷ [] else unicode_escape c)
    else quote_plain c

unfoldable pub quote_from : Bool → Text → Text
unfolding quote_unit
quote_from paired [] = []
quote_from paired (c ∷ s) = quote_unit paired c s ++ quote_from (not paired && starts_pair c s) s

unfoldable pub quote : Text → Text
unfolding quote_from
quote s = 0x22 ∷ (quote_from false s ++ (0x22 ∷ []))

unfoldable pub number_text : Number → Text
number_text (finite t) = t
number_text neg_zero = codes "0"
number_text _ = codes "null"

-- What serializing a value comes to: an exception, nothing (`undefined`), or a text.
pub data Serialized : Type 0 where
  throws : Serialized
  omitted : Serialized
  text : Text → Serialized

abbrev pub join_comma : List Text → Text
join_comma [] = []
join_comma (t ∷ []) = t
join_comma (t ∷ ts) = t ++ (b',' ∷ join_comma ts)

abbrev pub enclose : ℕ → ℕ → Option (List Text) → Serialized
enclose open_unit close_unit none = throws
enclose open_unit close_unit (some ts) = text (open_unit ∷ (join_comma ts ++ (close_unit ∷ [])))

-- The texts of a value and of the items after it. An element that has no text is written `null`.
abbrev pub push_elem : Serialized → Option (List Text) → Option (List Text)
push_elem throws rest = none
push_elem omitted rest = Option.map (λ ts. codes "null" ∷ ts) rest
push_elem (text t) rest = Option.map (λ ts. t ∷ ts) rest

-- A field that has no text is left out.
abbrev pub push_field : Text → Serialized → Option (List Text) → Option (List Text)
push_field key throws rest = none
push_field key omitted rest = rest
push_field key (text t) rest = Option.map (λ ts. (key ++ (b':' ∷ t)) ∷ ts) rest

unfoldable mutual
  pub stringify : JsValue → Serialized
  stringify undefined = omitted
  stringify null = text (codes "null")
  stringify (bool b) = text (if b then codes "true" else codes "false")
  stringify (num n) = text (number_text n)
  stringify (str s) = text (quote s)
  stringify (bigint t) = throws
  stringify symbol = omitted
  stringify function = omitted
  stringify (arr es) = enclose b'[' b']' (stringify_elems es)
  stringify (obj fs) = enclose b'{' b'}' (stringify_fields fs)
  stringify (date iso) = text (quote iso)
  stringify map_object = text (codes "{}")
  stringify (class_instance fs) = enclose b'{' b'}' (stringify_fields fs)

  pub stringify_elems : Elems → Option (List Text)
  stringify_elems nil = some []
  stringify_elems (cons v es) = push_elem (stringify v) (stringify_elems es)

  pub stringify_fields : Fields → Option (List Text)
  stringify_fields end = some []
  stringify_fields (field k v fs) = push_field (quote k) (stringify v) (stringify_fields fs)

abbrev pub text_or_nil : Serialized → Text
text_or_nil (text t) = t
text_or_nil _ = []

-- UTF-8 bytes for one code unit of a well-formed string: the halves of a pair count two each.
unfoldable pub unit_bytes : ℕ → ℕ
unit_bytes c =
    if ltb c 0x80 then 1 else if ltb c 0x800 then 2 else if is_high c || is_low c then 2 else 3

-- `Buffer.byteLength(text, "utf8")` of what `stringify` returns, which has no lone surrogate.
unfoldable pub byte_length : Text → ℕ
unfolding unit_bytes
byte_length [] = 0
byte_length (c ∷ s) = unit_bytes c + byte_length s
