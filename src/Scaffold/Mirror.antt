-- ===== src/Scaffold/Mirror.antt =====
-- scaffold/expander.ts, `runScaffold`, and scaffold/index.ts, `runCopyIn`: the guards of the two author
-- verbs in their order, and the directives that they buffer. The walk of the source folder is a
-- parameter: the source-relative paths of its files, or the error that the walk throws.
pub mod Sound
use project_builder_sdk.Base.{
  Bool, true, false, ◌||◌, Option, none, some, List, [], ◌∷◌, Text, codes, text_eq, ◌==◌,
  if◌then◌else◌,
}
use project_builder_sdk.PosixPath.{join}
use project_builder_sdk.Wire.{Directive}
use project_builder_sdk.Wire.Value.{JsValue, undefined, null, str, arr, obj, Elems, nil, cons, end}
use project_builder_sdk.Errors.{Thrown, foreign, invalid_input_error, Result, ok, err}
use project_builder_sdk.Engine.{EngineClient}
use project_builder_sdk.Session
use project_builder_sdk.Session.{Session}
use project_builder_sdk.Directives
use project_builder_sdk.Scaffold.PathGuards.{
  validate_source_lexical, validate_destination_lexical, stat_source_for_read,
}
use project_builder_sdk.Scaffold.Glob.{is_included}
use project_builder_sdk.Scaffold.Filenames.{
  PipelineResult, run_filename_pipeline, detect_destination_collisions, translate_tokens,
}
use project_builder_sdk.Base.Dict.{Dict}
use project_builder_sdk.Scaffold.Classify.{
  ClassifyResult, by_value, by_reference, Disk, ClassifyParams, classify_transport,
}
use project_builder_sdk.Scaffold.Expander.{Expansion, start, make_room, append}

-- What an author passes, unchecked where the code checks it.
pub record ScaffoldArgs : Type 0 where
  pub from : JsValue
  pub to : JsValue
  pub options : JsValue
  pub include : JsValue
  pub exclude : JsValue
  pub rename : Option (Dict JsValue)
  pub force : Option Bool

abbrev pub and_then {ℓ κ} : {A : Type ℓ} {B : Type κ} → Result A → (A → Result B) → Result B
and_then (ok a) k = k a
and_then (err e) k = err e

push_text : Text → Option (List Text) → Option (List Text)
push_text t none = none
push_text t (some ts) = some (t ∷ ts)

strings : Elems → Option (List Text)
unfolding push_text
strings nil = some []
strings (cons (str t) es) = push_text t (strings es)
strings (cons _ es) = none

shaped : Option (List Text) → Result (Option (List Text))
shaped none = err invalid_input_error
shaped (some ts) = ok (some ts)

-- `validateFilterOptionShape`, with the patterns that it lets through.
unfoldable pub validate_filter_option_shape : JsValue → Result (Option (List Text))
unfolding strings shaped
validate_filter_option_shape undefined = ok none
validate_filter_option_shape (arr es) = shaped (strings es)
validate_filter_option_shape _ = err invalid_input_error

-- `DEGENERATE_FROM_VALUES`
unfoldable pub validate_non_degenerate_from : JsValue → Result (Unit {0})
validate_non_degenerate_from (str p) =
    if text_eq p [] || (text_eq p (codes ".") || text_eq p (codes "./"))
    then err invalid_input_error
    else ok tt
validate_non_degenerate_from _ = ok tt

-- A missing argument.
abbrev required : JsValue → Result (Unit {0})
required undefined = err invalid_input_error
required _ = ok tt

-- A string that has passed the guards.
abbrev path_of : JsValue → Result Text
path_of (str p) = ok p
path_of _ = err invalid_input_error

-- `args.options ?? {}`
abbrev pub options_or : JsValue → JsValue
options_or undefined = obj end
options_or null = obj end
options_or v = v

push_if : Text → Option Bool → Result (List Text) → Result (List Text)
push_if p none rest = err (foreign (codes "SyntaxError"))
push_if p (some false) rest = rest
push_if p (some true) rest = and_then rest (λ ps. ok (p ∷ ps))

-- `walked.filter(...)`, where a pattern may not compile.
unfoldable pub included_paths :
    Option (List Text) → Option (List Text) → List Text → Result (List Text)
unfolding push_if is_included
included_paths include exclude [] = ok []
included_paths include exclude (p ∷ ps) =
    push_if p (is_included p include exclude) (included_paths include exclude ps)

-- `filtered.map(...)`
unfoldable pub pipelines : Option (Dict JsValue) → List Text → Result (List PipelineResult)
unfolding run_filename_pipeline
pipelines table [] = ok []
pipelines table (p ∷ ps) =
    and_then (run_filename_pipeline p table) λ r. and_then (pipelines table ps) (λ rs. ok (r ∷ rs))

module _ (disk : Disk) (package_dir : Text) (args : ScaffoldArgs) (from to_prefix : Text) where
  abbrev pub source_path : PipelineResult → Text
  source_path r = join from r.source_rel_path

  abbrev pub dest_path : PipelineResult → Text
  dest_path r = join to_prefix r.dest_rel_path

  abbrev pub params_of : PipelineResult → ClassifyParams
  params_of r = record {
    package_dir = package_dir;
    rel_path = source_path r;
    is_template_marked = r.is_template_marked;
    dest_path = dest_path r;
    options = options_or args.options;
    force = args.force;
    has_fail_messages = false;
  }

  abbrev pub directive_of : PipelineResult → ClassifyResult → Result Directive
  directive_of r (by_value content) =
      Directives.create (dest_path r) content (options_or args.options) args.force
  directive_of r by_reference = ok (Directives.copy_in (source_path r) (dest_path r) args.force)

  -- One round of the loop, up to the directive.
  unfoldable pub scaffolded : PipelineResult → Result Directive
  unfolding validate_destination_lexical classify_transport Directives.create Directives.copy_in
  scaffolded r = and_then (validate_destination_lexical (str r.dest_rel_path)) λ _.
      and_then (classify_transport disk (params_of r)) λ verdict.
        and_then (validate_destination_lexical (str (dest_path r))) (λ _. directive_of r verdict)

  module _ (C : EngineClient) where
    -- The loop: an error stops it, with what was buffered and flushed before.
    unfoldable pub scaffold_loop :
        List PipelineResult → Expansion C → Expansion C × Result (Unit {0})
    unfolding scaffolded make_room append
    scaffold_loop [] x = (x, ok tt)
    scaffold_loop (r ∷ rs) x = elim (scaffolded r) [
      | err e ↦ (x, err e)
      | ok d ↦ scaffold_loop rs (append C d (make_room C d x))
    ]

-- What the guards of a scaffold let through: nothing to do, or the folder, the prefix and the files.
pub data Plan : Type 0 where
  nothing_to_do : Plan
  mirror : (package_dir from to_prefix : Text) → List PipelineResult → Plan

abbrev anchored : Option Text → Result Text
anchored none = err invalid_input_error
anchored (some package_dir) = ok package_dir

abbrev unless_all_filtered : List Text → (List Text → Result Plan) → Result Plan
unless_all_filtered [] k = err invalid_input_error
unless_all_filtered (p ∷ ps) k = k (p ∷ ps)

module _ (disk : Disk) (walk_folder : Text → Text → Result (List Text)) where
  abbrev planned :
      ScaffoldArgs → Text → Text → Option (List Text) → Option (List Text) → List Text → Result Plan
  planned args package_dir from include exclude [] = ok nothing_to_do
  planned args package_dir from include exclude (w ∷ walked) =
      and_then (included_paths include exclude (w ∷ walked)) λ filtered.
        unless_all_filtered filtered λ paths. and_then (pipelines args.rename paths) λ rs.
          and_then (detect_destination_collisions rs) λ _.
            and_then (path_of args.to) (λ to. ok (mirror package_dir from (translate_tokens to) rs))

  -- The guards of `runScaffold`, in their order.
  unfoldable pub plan : ScaffoldArgs → Option Text → Result Plan
  unfolding validate_destination_lexical validate_non_degenerate_from validate_filter_option_shape
      validate_source_lexical included_paths pipelines detect_destination_collisions
      translate_tokens
  plan args anchor = and_then (required args.from) λ _. and_then (required args.to) λ _.
      and_then (anchored anchor) λ package_dir. and_then (validate_destination_lexical args.to) λ _.
        and_then (validate_non_degenerate_from args.from) λ _.
          and_then (validate_filter_option_shape args.include) λ include.
            and_then (validate_filter_option_shape args.exclude) λ exclude.
              and_then (validate_source_lexical args.from) λ _. and_then (path_of args.from) λ from.
                and_then (walk_folder package_dir from)
                  (planned args package_dir from include exclude)

  abbrev pub template_params : Text → Text → Text → JsValue → Option Bool → ClassifyParams
  template_params package_dir p dest options force = record {
    package_dir = package_dir;
    rel_path = p;
    is_template_marked = false;
    dest_path = dest;
    options = options;
    force = force;
    has_fail_messages = true;
  }

  -- The content, which a request with messages of its own always has where nothing is thrown.
  abbrev pub content_of : ClassifyResult → Result Text
  content_of (by_value content) = ok content
  content_of by_reference = err invalid_input_error

  unfoldable pub read_template_file :
      Text → Text → JsValue → Option Bool → Option Text → Result Text
  unfolding validate_source_lexical classify_transport
  read_template_file p dest options force anchor = and_then (anchored anchor) λ package_dir.
      and_then (validate_source_lexical (str p)) λ _.
        and_then (classify_transport disk (template_params package_dir p dest options force))
          content_of

  module _ (C : EngineClient) where
    abbrev pub carried_out :
        ScaffoldArgs → Result Plan → Expansion C → Expansion C × Result (Unit {0})
    carried_out args (err e) x = (x, err e)
    carried_out args (ok nothing_to_do) x = (x, ok tt)
    carried_out args (ok (mirror package_dir from to_prefix rs)) x =
        scaffold_loop disk package_dir args from to_prefix C rs x

    unfoldable pub run_scaffold :
        ScaffoldArgs
        → Option Text
        → Session C
        → List (Result (Unit {0}))
        → Expansion C × Result (Unit {0})
    unfolding plan scaffold_loop start
    run_scaffold args anchor s hs = carried_out args (plan args anchor) (start C s hs)

    abbrev buffered : Session C → Result Directive → Session C × Result (Unit {0})
    buffered s (err e) = (s, err e)
    buffered s (ok d) = (Session.buffer C d s, ok tt)

    -- The destination is screened before the source, and both before the disk is asked.
    unfoldable pub copy_in_directive :
        JsValue → JsValue → Option Bool → Option Text → Result Directive
    unfolding validate_destination_lexical validate_source_lexical stat_source_for_read
        Directives.copy_in
    copy_in_directive from to force anchor = and_then (required from) λ _.
        and_then (required to) λ _. and_then (anchored anchor) λ package_dir.
          and_then (validate_destination_lexical to) λ _.
            and_then (validate_source_lexical from) λ _. and_then (path_of from) λ source.
              and_then (path_of to) λ dest.
                and_then (stat_source_for_read disk.resolved disk.stat_sync package_dir source)
                  (λ _. ok (Directives.copy_in source dest force))

    unfoldable pub run_copy_in :
        JsValue → JsValue → Option Bool → Option Text → Session C → Session C × Result (Unit {0})
    unfolding copy_in_directive Session.buffer
    run_copy_in from to force anchor s = buffered s (copy_in_directive from to force anchor)
