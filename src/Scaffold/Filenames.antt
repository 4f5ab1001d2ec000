-- ===== src/Scaffold/Filenames.antt =====
-- scaffold/filename-pipeline.ts: the rename, the filename tokens and the ".template" suffix of a source
-- path, and the collisions of the destinations.
pub mod Collisions
pub mod Tokens
use project_builder_sdk.Base.{
  ℕ, zero, suc, ◌+◌, ◌-◌, Bool, true, false, not, ◌&&◌, ◌||◌, Option, none, some, List, [], ◌∷◌,
  ◌++◌, Text, codes, text_eq, all, any, length, take, drop, ltb, leb, ◌==◌, if◌then◌else◌,
}
use project_builder_sdk.Base.Dict.{Dict, lookup, insert}
use project_builder_sdk.PosixPath.{normalize}
use project_builder_sdk.Wire.Value.{JsValue, str, undefined}
use project_builder_sdk.Errors.{Result, ok, err, invalid_input_error}

abbrev pub is_identifier_start : ℕ → Bool
is_identifier_start c = (leb b'A' c && leb c b'Z') || ((leb b'a' c && leb c b'z') || c == b'_')

abbrev pub is_identifier_unit : ℕ → Bool
is_identifier_unit c = is_identifier_start c || (leb b'0' c && leb c b'9')

abbrev pub is_identifier : Text → Bool
is_identifier [] = false
is_identifier (c ∷ s) = is_identifier_start c && all is_identifier_unit s

abbrev push_head : ℕ → List Text → List Text
push_head c [] = (c ∷ []) ∷ []
push_head c (t ∷ ts) = (c ∷ t) ∷ ts

-- `split("@")`
unfoldable pub split_at_sign : Text → List Text
split_at_sign [] = [] ∷ []
split_at_sign (c ∷ s) =
    let rest = split_at_sign s in if c == b'@' then [] ∷ rest else push_head c rest

-- `TOKEN_INNER`: identifiers between "@" signs.
unfoldable pub is_token : Text → Bool
unfolding split_at_sign
is_token inner = all is_identifier (split_at_sign inner)

abbrev piped : List Text → Text
piped [] = []
piped (p ∷ ps) = codes " | " ++ (p ++ piped ps)

abbrev pub rendered : List Text → Text
rendered [] = []
rendered (field ∷ pipes) = codes "{= ." ++ (field ++ (piped pipes ++ codes " =}"))

abbrev push_before : ℕ → Option (Text × Text) → Option (Text × Text)
push_before c none = none
push_before c (some (before, after)) = some (c ∷ before, after)

-- Around the first "__": `indexOf` with the two slices.
unfoldable pub split_marker : Text → Option (Text × Text)
split_marker [] = none
split_marker (c ∷ []) = none
split_marker (c ∷ d ∷ s) =
    let next = push_before c (split_marker (d ∷ s)) in
    if c == b'_' && d == b'_' then some ([], s) else next

-- One round of the loop on what is left of the path behind the cursor: what is written, and what is
-- left then. `none`: the loop ends.
abbrev closed_by : Text → Text → Option (Text × Text) → Option (Text × Text)
closed_by before after none = none
closed_by before after (some (inner, later)) =
    if is_token inner
    then some (before ++ rendered (split_at_sign inner), later)
    else some (before ++ codes "_", b'_' ∷ after)

abbrev opened_by : Option (Text × Text) → Option (Text × Text)
opened_by none = none
opened_by (some (before, after)) = closed_by before after (split_marker after)

unfoldable pub token_round : Text → Option (Text × Text)
unfolding split_marker is_token split_at_sign
token_round rest = opened_by (split_marker rest)

abbrev pub continued : (Text → Text) → Text → Option (Text × Text) → Text
continued loop rest none = rest
continued loop rest (some (written, later)) = written ++ loop later

-- Each round shortens what is left, so the length of the path is fuel enough.
unfoldable pub translate_within : ℕ → Text → Text
unfolding token_round
translate_within zero rest = rest
translate_within (suc fuel) rest = continued (translate_within fuel) rest (token_round rest)

unfoldable pub translate_tokens : Text → Text
unfolding translate_within
translate_tokens path = translate_within (length path) path

abbrev pub template_suffix : Text
template_suffix = codes ".template"

abbrev pub ends_with : Text → Text → Bool
ends_with s suffix =
    leb (length suffix) (length s) && text_eq (drop (length s - length suffix) s) suffix

-- The stripped path, and whether it was marked as a template.
unfoldable pub strip_template_suffix : Text → Text × Bool
strip_template_suffix path =
    if ends_with path template_suffix
    then (take (length path - length template_suffix) path, true)
    else (path, false)

pub record PipelineResult : Type 0 where
  pub source_rel_path : Text
  pub dest_rel_path : Text
  pub is_template_marked : Bool

-- The own entry of the rename table, of whatever type; `undefined` counts as none.
abbrev rename_value : Text → Option (Dict JsValue) → Option JsValue
rename_value p none = none
rename_value p (some table) = elim (lookup p table) [ some undefined ↦ none | other ↦ other ]

abbrev pipeline_result : Text → Text × Bool → PipelineResult
pipeline_result p (stripped, was_template) = record {
  source_rel_path = p;
  dest_rel_path = stripped;
  is_template_marked = was_template;
}

abbrev renamed : Text → Option JsValue → Result PipelineResult
renamed p none = ok (pipeline_result p (strip_template_suffix (translate_tokens p)))
renamed p (some (str s)) = ok (pipeline_result p (strip_template_suffix (translate_tokens s)))
renamed p (some _) = err invalid_input_error

unfoldable pub run_filename_pipeline : Text → Option (Dict JsValue) → Result PipelineResult
unfolding strip_template_suffix translate_tokens invalid_input_error
run_filename_pipeline p table = renamed p (rename_value p table)

abbrev pub or_nil : Option (List Text) → List Text
or_nil none = []
or_nil (some srcs) = srcs

-- The loop that fills `byDest`.
unfoldable pub group_by_destination : List PipelineResult → Dict (List Text) → Dict (List Text)
group_by_destination [] by_dest = by_dest
group_by_destination (r ∷ rs) by_dest =
    let key = normalize r.dest_rel_path in
    group_by_destination rs
      (insert key (or_nil (lookup key by_dest) ++ r.source_rel_path ∷ []) by_dest)

abbrev pub is_collision : Text × List Text → Bool
is_collision (dest, srcs) = ltb 1 (length srcs)

-- The order of the collisions matters to the message only, which is left out.
unfoldable pub detect_destination_collisions : List PipelineResult → Result (Unit {0})
unfolding group_by_destination invalid_input_error
detect_destination_collisions rs =
    if any is_collision (group_by_destination rs []) then err invalid_input_error else ok tt
