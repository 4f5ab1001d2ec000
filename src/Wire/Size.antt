-- ===== src/Wire/Size.antt =====
-- The size of a batch is additive in its instructions.
use project_builder_sdk.Base.{
  ℕ, ◌+◌, false, some, List, [], ◌∷◌, ◌++◌, Text, codes, map, All, ◌≡◌, refl, ap, ◌∙◌, append_assoc,
  arith,
}
use project_builder_sdk.Wire.{Directive, directive_value, elems, batch_value, serialized_batch_size}
use project_builder_sdk.Wire.Json.{
  text, stringify, stringify_elems, join_comma, text_or_nil, byte_length, quote, number_text,
}

pub byte_length-append : (s t : Text) → byte_length (s ++ t) ≡ byte_length s + byte_length t
unfolding byte_length
byte_length-append [] t = omega arith
byte_length-append (c ∷ s) t = omega (arith, byte_length-append s t)

-- A directive that `JSON.stringify` gives a text.
abbrev pub Serializable : Directive → Type 0
Serializable d = (t : Text) × (stringify (directive_value d) ≡ text t)

-- `Buffer.byteLength(JSON.stringify(directive), "utf8")`
unfoldable pub directive_bytes : Directive → ℕ
directive_bytes d = byte_length (text_or_nil (stringify (directive_value d)))

texts : List Directive → List Text
texts [] = []
texts (d ∷ ds) = text_or_nil (stringify (directive_value d)) ∷ texts ds

stringify_elems-texts :
    (ds : List Directive)
    → All Serializable ds
    → stringify_elems (elems (map directive_value ds)) ≡ some (texts ds)
unfolding stringify texts
stringify_elems-texts [] h = refl
stringify_elems-texts (d ∷ ds) ((t, e), hs) = rw (e, stringify_elems-texts ds hs)

-- The bytes of the items between the brackets.
items_bytes : List Directive → ℕ
items_bytes ds = byte_length (join_comma (texts ds))

abbrev before_items : Text
before_items = codes "{\"protocolVersion\":1,\"force\":false,\"instructions\":["

abbrev after_items : Text
after_items = codes "]}"

batch_text :
    (ds : List Directive)
    → All Serializable ds
    → stringify (batch_value (record { force = false; instructions = ds }))
      ≡ text (before_items ++ (join_comma (texts ds) ++ after_items))
unfolding stringify batch_value quote number_text texts
batch_text ds h = rw (stringify_elems-texts ds h) (simp append_assoc)

size_of_items :
    (ds : List Directive)
    → All Serializable ds
    → serialized_batch_size ds
      ≡ byte_length before_items + (items_bytes ds + byte_length after_items)
unfolding serialized_batch_size items_bytes
size_of_items ds h =
    ap (λ s. byte_length (text_or_nil s)) (batch_text ds h)
    ∙ byte_length-append before_items (join_comma (texts ds) ++ after_items)
    ∙ ap (λ n. byte_length before_items + n)
        (byte_length-append (join_comma (texts ds)) after_items)

-- A comma before every item but the first.
abbrev pub comma : List Directive → ℕ
comma [] = 0
comma (_ ∷ _) = 1

items_bytes-cons :
    (c d : Directive) (ds : List Directive)
    → items_bytes (c ∷ d ∷ ds) ≡ directive_bytes c + (1 + items_bytes (d ∷ ds))
unfolding items_bytes texts directive_bytes byte_length
items_bytes-cons c d ds =
    byte_length-append (text_or_nil (stringify (directive_value c)))
      (b',' ∷ join_comma (texts (d ∷ ds)))

items_bytes-singleton : (d : Directive) → items_bytes (d ∷ []) ≡ directive_bytes d
unfolding items_bytes texts directive_bytes
items_bytes-singleton d = refl

items_bytes-nil : items_bytes [] ≡ 0
unfolding items_bytes texts byte_length
items_bytes-nil = refl

items_bytes-append :
    (ds : List Directive) (d : Directive)
    → items_bytes (ds ++ d ∷ []) ≡ items_bytes ds + directive_bytes d + comma ds
items_bytes-append [] d = omega (arith, items_bytes-singleton d, items_bytes-nil)
items_bytes-append (c ∷ []) d =
    omega (arith, items_bytes-cons c d [], items_bytes-singleton d, items_bytes-singleton c)
items_bytes-append (c ∷ c' ∷ ds) d = omega (
  arith,
  items_bytes-cons c c' (ds ++ d ∷ []),
  items_bytes-cons c c' ds,
  items_bytes-append (c' ∷ ds) d,
)

All-init :
    (ds : List Directive) (d : Directive) → All Serializable (ds ++ d ∷ []) → All Serializable ds
All-init [] d h = tt
All-init (c ∷ ds) d (h, hs) = (h, All-init ds d hs)

-- A directive that is appended adds its own bytes to the size of the batch, and one for the comma
-- before it. Each directive has a JSON text.
pub size-append :
    (ds : List Directive) (d : Directive)
    → All Serializable (ds ++ d ∷ [])
    → serialized_batch_size (ds ++ d ∷ []) ≡ serialized_batch_size ds + directive_bytes d + comma ds
size-append ds d h = omega (
  arith,
  size_of_items (ds ++ d ∷ []) h,
  size_of_items ds (All-init ds d h),
  items_bytes-append ds d,
)

pub size-singleton :
    (d : Directive)
    → Serializable d
    → serialized_batch_size (d ∷ []) ≡ serialized_batch_size [] + directive_bytes d
size-singleton d h = omega (arith, size-append [] d (h, tt))
