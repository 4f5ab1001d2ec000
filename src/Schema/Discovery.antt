-- ===== src/Schema/Discovery.antt =====
-- core/schema/schema-discovery.ts: the entries of a package that take a reserved lifecycle name.
-- `toLowerCase` is a parameter.
use project_builder_sdk.Base.{
  true, false, Option, none, some, List, [], ◌∷◌, ◌++◌, Text, Text-discrete, codes, text_eq,
  text_eq_iff, All, ◌≡◌, ◌≢◌, ◌↔◌, ◌⊎◌, inl, inr, ◌-◌, length, length-append, take, drop, refl,
  arith, if◌then◌else◌, Bool-cases, take-length_append, drop-length_append, append-take-drop, sym,
  ap, ◌∙◌,
}
use project_builder_sdk.Schema.{reserved_lifecycle_names}
use project_builder_sdk.Scaffold.Filenames.{ends_with}

abbrev typescript : Text
typescript = codes ".ts"

abbrev javascript : Text
javascript = codes ".js"

abbrev without : Text → Text → Text
without s ext = take (length s - length ext) s

-- The recognized extensions are tried in order.
unfoldable pub strip_extension : Text → Text
strip_extension lower =
    if ends_with lower typescript
    then without lower typescript
    else if ends_with lower javascript
    then without lower javascript
    else lower

unfoldable pub normalize_entry : (Text → Text) → Text → Text
normalize_entry to_lower_case name = strip_extension (to_lower_case name)

-- `RESERVED_LIFECYCLE_NAMES.find(...)`
abbrev find_name : List Text → Text → Option Text
find_name [] t = none
find_name (r ∷ rs) t = if text_eq r t then some r else find_name rs t

unfoldable pub find_reserved : (Text → Text) → List Text → Option Text
find_reserved to_lower_case [] = none
find_reserved to_lower_case (entry ∷ entries) =
    let rest = find_reserved to_lower_case entries in
    elim (find_name reserved_lifecycle_names (normalize_entry to_lower_case entry)) [
      | some r ↦ some r
      | none ↦ rest
    ]

-- An entry in lower case is a reserved name, with or without one of the two extensions.
pub Takes : Text → Text → Type 0
Takes lower r = (lower ≡ r) ⊎ ((lower ≡ r ++ typescript) ⊎ (lower ≡ r ++ javascript))

pub NoneReserved : (Text → Text) → List Text → Type 0
NoneReserved to_lower_case entries =
    All (λ entry. All (λ r. ¬ Takes (to_lower_case entry) r) reserved_lifecycle_names) entries

length_before : (r ext : Text) → length (r ++ ext) - length ext ≡ length r
length_before r ext = omega (arith, length-append r ext)

without-append : (r ext : Text) → without (r ++ ext) ext ≡ r
without-append r ext = rw (length_before r ext) (take-length_append r ext)

ends_with-append : (r ext : Text) → ends_with (r ++ ext) ext ≡ true
ends_with-append r ext =
    rw (length_before r ext, drop-length_append r ext) (ground (arith, length-append r ext))

ends_with-other :
    (r ext other : Text)
    → length ext ≡ length other
    → ext ≢ other
    → ends_with (r ++ ext) other ≡ false
ends_with-other r ext other h k =
    let e : length (r ++ ext) - length other ≡ length r =
      omega (arith, h, length_before r ext, length-append r ext) in
    rw (e, drop-length_append r ext) (ground arith)

ends_with-without : (s ext : Text) → ends_with s ext ≡ true → s ≡ without s ext ++ ext
ends_with-without s ext h =
    let e : drop (length s - length ext) s ≡ ext = ground (arith, h) in
    sym (append-take-drop (length s - length ext) s) ∙ ap (λ t. without s ext ++ t) e

module _ (lower : Text) where
  strip_typescript :
      ends_with lower typescript ≡ true → strip_extension lower ≡ without lower typescript
  unfolding strip_extension
  strip_typescript e = rw e refl

  strip_javascript :
      ends_with lower typescript ≡ false
      → ends_with lower javascript ≡ true
      → strip_extension lower ≡ without lower javascript
  unfolding strip_extension
  strip_javascript e f = rw e (rw f refl)

  strip_nothing :
      ends_with lower typescript ≡ false
      → ends_with lower javascript ≡ false
      → strip_extension lower ≡ lower
  unfolding strip_extension
  strip_nothing e f = rw e (rw f refl)

module _ (lower r : Text) where
  -- A name that is left over stood there alone, or before one of the extensions.
  strip_extension-Takes : strip_extension lower ≡ r → Takes lower r
  unfolding Takes
  strip_extension-Takes e = elim (Bool-cases (ends_with lower typescript)) [
    | inl b ↦
        let e' : without lower typescript ≡ r = sym (strip_typescript lower b) ∙ e in
        inr (inl (rw e' at (ends_with-without lower typescript b)))
    | inr b ↦ elim (Bool-cases (ends_with lower javascript)) [
      | inl c ↦
          let e' : without lower javascript ≡ r = sym (strip_javascript lower b c) ∙ e in
          inr (inr (rw e' at (ends_with-without lower javascript c)))
      | inr c ↦ inl (sym (strip_nothing lower b c) ∙ e)
    ]
  ]

  Takes-strip_extension :
      ends_with r typescript ≡ false
      → ends_with r javascript ≡ false
      → Takes lower r
      → strip_extension lower ≡ r
  unfolding Takes
  Takes-strip_extension h k (inl e) = rw e (strip_nothing r h k)
  Takes-strip_extension h k (inr (inl e)) = rw e (
      strip_typescript (r ++ typescript) (ends_with-append r typescript)
      ∙ without-append r typescript)
  Takes-strip_extension h k (inr (inr e)) = rw e (
      strip_javascript (r ++ javascript)
        (ends_with-other r javascript typescript refl (ground arith))
        (ends_with-append r javascript)
      ∙ without-append r javascript)

Reserved : Text → Type 0
Reserved r = (ends_with r typescript ≡ false) × (ends_with r javascript ≡ false)

-- The first name that an entry takes; the names have neither extension.
find_name_iff :
    (rs : List Text) (lower : Text)
    → All Reserved rs
    → (find_name rs (strip_extension lower) ≡ none) ↔ All (λ r. ¬ Takes lower r) rs
unfolding Reserved
find_name_iff [] lower h = ground arith
find_name_iff (r ∷ rs) lower ((a, b), h) = ground (
  arith,
  text_eq_iff r (strip_extension lower),
  strip_extension-Takes lower r,
  Takes-strip_extension lower r a b,
  find_name_iff rs lower h,
)

names-Reserved : All Reserved reserved_lifecycle_names
unfolding Reserved Text-discrete
names-Reserved = ((refl, refl), ((refl, refl), tt))

-- A package has no reserved sibling exactly when no entry in lower case is a reserved lifecycle
-- name, alone or before ".ts" or ".js".
pub find_reserved_iff :
    (to_lower_case : Text → Text) (entries : List Text)
    → (find_reserved to_lower_case entries ≡ none) ↔ NoneReserved to_lower_case entries
unfolding find_reserved NoneReserved normalize_entry
find_reserved_iff to_lower_case [] = ground arith
find_reserved_iff to_lower_case (x ∷ xs) = ground (
  arith,
  find_name_iff reserved_lifecycle_names (to_lower_case x) names-Reserved,
  find_reserved_iff to_lower_case xs,
)
