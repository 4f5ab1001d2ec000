-- ===== src/Dialects/Compose.antt =====
-- core/define-dialect.ts: the extensions that a dialect declares, the composition of op packs, and the
-- routing by extension.
pub mod Merge
pub mod Routing
use project_builder_sdk.Base.{
  ℕ, Bool, true, false, not, ◌&&◌, ◌||◌, ◌-◌, Option, none, some, List, [], ◌∷◌, ◌++◌, map, Text,
  codes, text_eq, has, length, take, any, ltb, if◌then◌else◌,
}
use project_builder_sdk.Base.Dict.{Dict, insert, lookup}
use project_builder_sdk.PosixPath.{basename}
use project_builder_sdk.Wire.Json.{quote}
use project_builder_sdk.Errors.{Thrown, foreign, Result, ok, err}
use project_builder_sdk.Scaffold.Filenames.{ends_with}
use project_builder_sdk.Dialects.Handle.{dialect_error}

abbrev pub reserved_handle_names : List Text
reserved_handle_names =
    codes "then"
    ∷ codes "read"
    ∷ codes "raw"
    ∷ codes "modify"
    ∷ codes "replaceContent"
    ∷ codes "rename"
    ∷ codes "move"
    ∷ codes "copy"
    ∷ codes "remove"
    ∷ []

-- A failure of the composition is a plain `Error`.
abbrev pub composition_error : Thrown
composition_error = foreign (codes "Error")

abbrev pub key_of {ℓ} : {V : Type ℓ} → Text × V → Text
key_of (k, v) = k

unfoldable pub claim : Text → List Text → Result (List Text)
claim name claimed =
    if has reserved_handle_names name
    then err composition_error
    else if has claimed name
    then err composition_error
    else ok (name ∷ claimed)

abbrev pub then_claim : (List Text → Result (List Text)) → Result (List Text) → Result (List Text)
then_claim rest (err e) = err e
then_claim rest (ok claimed) = rest claimed

-- The names of one pack, in order, against those that are claimed already.
unfoldable pub claim_ops : {V : Type 0} → Dict V → List Text → Result (List Text)
claim_ops [] claimed = ok claimed
claim_ops ((name, _) ∷ ops) claimed =
    then_claim (λ claimed'. claim_ops ops claimed') (claim name claimed)

unfoldable pub assert_no_composition_collision :
    {V : Type 0} → List (Dict V) → List Text → Result (List Text)
assert_no_composition_collision [] claimed = ok claimed
assert_no_composition_collision (pack ∷ packs) claimed =
    then_claim (λ claimed'. assert_no_composition_collision packs claimed') (claim_ops pack claimed)

-- A dialect over a kind of tree, with its ops by their names.
pub record Dialect (A V : Type 0) : Type 0 where
  pub extensions : List Text
  pub ast : A
  pub ops : Dict V

-- `Object.assign` of the ops of one pack. The keys are in the order of insertion, as JavaScript has
-- them for names that are no array indices; and no op is named `__proto__`.
unfoldable pub assign : {V : Type 0} → Dict V → Dict V → Dict V
assign ops [] = ops
assign ops ((name, op) ∷ pack) = assign (insert name op ops) pack

unfoldable pub assign_all : {V : Type 0} → Dict V → List (Dict V) → Dict V
assign_all ops [] = ops
assign_all ops (pack ∷ packs) = assign_all (assign ops pack) packs

unfoldable pub assert_known_ops : {V : Type 0} → Dict V → List Text → Result (Unit {0})
assert_known_ops ops [] = ok tt
assert_known_ops ops (name ∷ names) =
    let rest = assert_known_ops ops names in
    if has (map key_of ops) name then rest else err composition_error

-- An op that throws when it is called, for a name.
abbrev blocked : {V : Type 0} → (Text → V) → List Text → Dict V
blocked block [] = []
blocked block (name ∷ names) = (name, block name) ∷ blocked block names

module _ {A V : Type 0} where
  abbrev pub composed : Dialect A V → List (Dict V) → Result (List Text) → Result (Dialect A V)
  composed base packs (err e) = err e
  composed base packs (ok _) = ok (record base { ops = assign_all base.ops packs })

  unfoldable pub with_ops : Dialect A V → List (Dict V) → Result (Dialect A V)
  with_ops base packs =
      composed base packs (assert_no_composition_collision packs (map key_of base.ops))

  abbrev pub overridden : Dialect A V → Dict V → Result (Unit {0}) → Result (Dialect A V)
  overridden dialect overrides (err e) = err e
  overridden dialect overrides (ok _) = ok (record dialect { ops = assign dialect.ops overrides })

  unfoldable pub override_ops : Dialect A V → Dict V → Result (Dialect A V)
  override_ops dialect overrides =
      overridden dialect overrides (assert_known_ops dialect.ops (map key_of overrides))

  unfoldable pub without_ops : Dialect A V → List Text → (Text → V) → Result (Dialect A V)
  without_ops dialect names block =
      overridden dialect (blocked block names) (assert_known_ops dialect.ops names)

abbrev ends_in_dot : Text → Bool
ends_in_dot stem = ends_with stem (codes ".")

-- The stem is a file's name, and not only dots.
unfoldable pub has_extension : Text → Text → Bool
has_extension base extension =
    let stem = take (length base - length extension) base in
    ends_with base extension && (ltb 0 (length stem) && not (ends_in_dot stem))

unfoldable pub has_declared_extension : Text → List Text → Bool
has_declared_extension path extensions = any (has_extension (basename path)) extensions

abbrev joined : List Text → Text
joined [] = []
joined (s ∷ []) = s
joined (s ∷ t ∷ ts) = s ++ codes ", " ++ joined (t ∷ ts)

unfoldable pub extension_error : Text → List Text → Thrown
extension_error path extensions = dialect_error (
    codes "find("
    ++ quote path
    ++ codes ") — the file's extension is not one this dialect declares ("
    ++ joined extensions
    ++ codes ").")

-- `find` of a dialect: the path of the new handle.
unfoldable pub find : {A V : Type 0} → Dialect A V → Text → Result Text
find dialect path =
    if has_declared_extension path dialect.extensions
    then ok path
    else err (extension_error path dialect.extensions)

-- The stable sort of the extensions, the longest first.
unfoldable pub insert_longest : Text → List Text → List Text
insert_longest s [] = s ∷ []
insert_longest s (t ∷ ts) =
    let rest = insert_longest s ts in if ltb (length s) (length t) then t ∷ rest else s ∷ t ∷ ts

unfoldable pub longest_first : List Text → List Text
longest_first [] = []
longest_first (s ∷ ss) = insert_longest s (longest_first ss)

abbrev pub first_matching : Text → List Text → Option Text
first_matching path [] = none
first_matching path (e ∷ es) =
    let rest = first_matching path es in
    if has_declared_extension path (e ∷ []) then some e else rest

-- The extension whose dialect the router asks.
unfoldable pub route : Text → List Text → Option Text
route path extensions = first_matching path (longest_first extensions)

unfoldable pub declares_keys : {A V : Type 0} → Dict (Dialect A V) → Result (Unit {0})
declares_keys [] = ok tt
declares_keys ((extension, dialect) ∷ rest) =
    let checked = declares_keys rest in
    if has dialect.extensions extension then checked else err composition_error

module _ {A V : Type 0} where
  -- The extension is one of the keys, so its dialect is there.
  abbrev asked : Text → Option (Dialect A V) → Result Text
  asked path none = err composition_error
  asked path (some dialect) = find dialect path

  abbrev routed : Dict (Dialect A V) → Text → Option Text → Result Text
  routed dialects path none = err (extension_error path (map key_of dialects))
  routed dialects path (some extension) = asked path (lookup extension dialects)

  -- `find` of the router.
  unfoldable pub router_find : Dict (Dialect A V) → Text → Result Text
  router_find dialects path = routed dialects path (route path (map key_of dialects))

  abbrev pub router : Dict (Dialect A V) → Result (Unit {0}) → Result (Text → Result Text)
  router dialects (err e) = err e
  router dialects (ok _) = ok (router_find dialects)

  unfoldable pub by_extension : Dict (Dialect A V) → Result (Text → Result Text)
  by_extension dialects = router dialects (declares_keys dialects)
