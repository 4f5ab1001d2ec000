-- ===== src/Run/Boundary.antt =====
-- core/context.ts, the checks of `defineFactory` before the session is made: the reserved names of the
-- package folder, then the input against the schema beside it.
pub mod Admits
use project_builder_sdk.Base.{Option, none, some, List, [], ◌∷◌, Text, codes}
use project_builder_sdk.Wire.Value.{JsValue}
use project_builder_sdk.Errors.{
  applied_first, Thrown, authoring, foreign, authoring_error, reserved_name, invalid_input_error,
  Result, ok, err,
}
use project_builder_sdk.Engine.{EngineClient}
use project_builder_sdk.Schema.{Schema, SchemaProperty, ValidationFinding, validate_input}
use project_builder_sdk.Schema.Parse.{JsonParse, Parsed, parsed, parse_failure, parse_schema}
use project_builder_sdk.Schema.Discovery.{find_reserved}
use project_builder_sdk.Run.{Script, Outcome, rejected, run}

-- A read of the disk: `ENOENT` is told from every other failure.
pub data Reading {ℓ} (A : Type ℓ) : Type ℓ where
  found : A → Reading A
  absent unreadable : Reading A

-- What the disk gives for the package folder: its entries, and the text of `schema.json`.
pub record Package : Type 0 where
  pub entries : Reading (List Text)
  pub schema_text : Reading Text

pub data Warning : Type 0 where
  no_schema empty_schema : Warning

-- A failure that is none of the author's: a plain `Error`.
abbrev pub plain_error : Thrown
plain_error = foreign (codes "Error")

unfoldable pub rejection_for_reserved_name : Thrown
unfolding authoring_error
rejection_for_reserved_name = authoring (authoring_error none none reserved_name (applied_first 0))

-- Every finding is rejected as an invalid input; the texts differ.
abbrev rejection_for : ValidationFinding → Thrown
rejection_for _ = invalid_input_error

abbrev pub reserved_result : Option Text → Result (Unit {0})
reserved_result none = ok tt
reserved_result (some _) = err rejection_for_reserved_name

unfoldable pub check_reserved_names : (Text → Text) → Reading (List Text) → Result (Unit {0})
check_reserved_names to_lower_case absent = ok tt
check_reserved_names to_lower_case unreadable = err plain_error
check_reserved_names to_lower_case (found entries) =
    reserved_result (find_reserved to_lower_case entries)

abbrev pub first_finding : List ValidationFinding → Result (Option Warning)
first_finding [] = ok none
first_finding (f ∷ _) = err (rejection_for f)

-- A schema without properties is warned of, and checks nothing.
abbrev pub validated : List SchemaProperty → List ValidationFinding → Result (Option Warning)
validated [] findings = ok (some empty_schema)
validated (_ ∷ _) findings = first_finding findings

abbrev pub validate_parsed : Parsed → JsValue → Result (Option Warning)
validate_parsed (parse_failure _ _) input = err plain_error
validate_parsed (parsed schema) input = validated schema.properties (validate_input schema input)

unfoldable pub validate_at_run_boundary :
    JsonParse → Reading Text → JsValue → Result (Option Warning)
validate_at_run_boundary json_parse absent input = ok (some no_schema)
validate_at_run_boundary json_parse unreadable input = err plain_error
validate_at_run_boundary json_parse (found raw) input =
    validate_parsed (parse_schema json_parse raw) input

abbrev pub then_validate :
    JsonParse → Result (Unit {0}) → Package → JsValue → Result (Option Warning)
then_validate json_parse (err e) p input = err e
then_validate json_parse (ok _) p input = validate_at_run_boundary json_parse p.schema_text input

module _ (to_lower_case : Text → Text) (json_parse : JsonParse) where
  -- Without a package folder nothing is checked.
  unfoldable pub check_boundary : Option Package → JsValue → Result (Option Warning)
  check_boundary none input = ok none
  check_boundary (some p) input =
      then_validate json_parse (check_reserved_names to_lower_case p.entries) p input

  module _ (C : EngineClient) where
    abbrev pub run_checked : Result (Option Warning) → Script → C.State → C.State × Outcome
    run_checked (err e) script engine = (engine, rejected e none)
    run_checked (ok _) script engine = run C script engine

    -- The wrapper as a whole. The factory is applied to the input where the checks pass.
    unfoldable pub define_factory :
        (JsValue → Script) → Option Package → JsValue → C.State → C.State × Outcome
    define_factory factory folder input engine =
        run_checked (check_boundary folder input) (factory input) engine
