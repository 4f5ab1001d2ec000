-- ===== src/Run/Boundary/Admits.antt =====
-- What the checks at the run boundary let through, said of the package and of the input.
use project_builder_sdk.Base.{
  Option, none, some, List, [], ◌∷◌, Text, ◌≡◌, ◌⊎◌, inl, inr, refl, arith, Option-cases,
}
use project_builder_sdk.Wire.Value.{JsValue}
use project_builder_sdk.Errors.{Thrown, Result, ok, err, invalid_input_error}
use project_builder_sdk.Engine.{EngineClient}
use project_builder_sdk.Schema.{Schema, SchemaProperty, ValidationFinding, validate_input}
use project_builder_sdk.Schema.Conforms.{Conforms, validate_input_iff}
use project_builder_sdk.Schema.Parse.{JsonParse, Parsed, parsed, parse_failure, parse_schema}
use project_builder_sdk.Schema.Discovery.{find_reserved, NoneReserved, find_reserved_iff}
use project_builder_sdk.Run.{Script, Outcome, rejected, run}
use project_builder_sdk.Run.Boundary.{
  Reading, found, absent, unreadable, Package, Warning, plain_error, rejection_for_reserved_name,
  check_reserved_names, first_finding, validated, validate_parsed, validate_at_run_boundary,
  then_validate, check_boundary, run_checked, define_factory,
}

-- A schema without properties admits every input; a text that is no schema admits none.
pub ParsedAdmits : Parsed → JsValue → Type 0
ParsedAdmits (parse_failure _ _) input = ⊥
ParsedAdmits (parsed schema) input = (schema.properties ≡ []) ⊎ Conforms schema input

-- The three errors of the boundary.
pub IsBoundaryError : Thrown → Type 0
IsBoundaryError e =
    (e ≡ plain_error) ⊎ ((e ≡ rejection_for_reserved_name) ⊎ (e ≡ invalid_input_error))

-- A result says whether a condition holds: it is a value where it does, an error of the boundary else.
Decides : {A : Type 0} → Type 0 → Result A → Type 0
Decides P (ok _) = P
Decides P (err e) = (¬ P) × IsBoundaryError e

pub NamesAdmit : (Text → Text) → Reading (List Text) → Type 0
NamesAdmit to_lower_case (found entries) = NoneReserved to_lower_case entries
NamesAdmit to_lower_case absent = Unit
NamesAdmit to_lower_case unreadable = ⊥

pub SchemaAdmits : JsonParse → Reading Text → JsValue → Type 0
SchemaAdmits json_parse (found raw) input = ParsedAdmits (parse_schema json_parse raw) input
SchemaAdmits json_parse absent input = Unit
SchemaAdmits json_parse unreadable input = ⊥

first-Decides : (P Q : Type 0) (r : Result (Option Warning)) → P → Decides Q r → Decides (P × Q) r
unfolding Decides
first-Decides P Q (ok _) h k = (h, k)
first-Decides P Q (err e) h (refuted, b) = ((λ (_, y). refuted y), b)

module _ (to_lower_case : Text → Text) (json_parse : JsonParse) where
  -- A folder that is listed has no reserved name, and a schema that is there admits the input.
  pub Admits : Option Package → JsValue → Type 0
  Admits none input = Unit
  Admits (some p) input =
      NamesAdmit to_lower_case p.entries × SchemaAdmits json_parse p.schema_text input

  check_reserved_names-Decides :
      (r : Reading (List Text))
      → Decides (NamesAdmit to_lower_case r) (check_reserved_names to_lower_case r)
  unfolding check_reserved_names NamesAdmit Decides IsBoundaryError
  check_reserved_names-Decides (found entries) =
      elim (Option-cases (find_reserved to_lower_case entries)) [
        | inl e ↦ rw e ((find_reserved_iff to_lower_case entries).0 e)
        | inr (r, e) ↦ rw e (ground (arith, e, find_reserved_iff to_lower_case entries))
      ]
  check_reserved_names-Decides absent = tt
  check_reserved_names-Decides unreadable = ground arith

  first_finding-Decides :
      (schema : Schema) (input : JsValue) (fs : List ValidationFinding)
      → validate_input schema input ≡ fs
      → ¬ (schema.properties ≡ [])
      → Decides ((schema.properties ≡ []) ⊎ Conforms schema input) (first_finding fs)
  unfolding Decides IsBoundaryError
  first_finding-Decides schema input [] e h = inr ((validate_input_iff schema input).0 e)
  first_finding-Decides schema input (f ∷ fs) e h =
      ground (arith, h, e, validate_input_iff schema input)

  validated-Decides :
      (schema : Schema) (ps : List SchemaProperty) (input : JsValue)
      → schema.properties ≡ ps
      → Decides
          ((schema.properties ≡ []) ⊎ Conforms schema input)
          (validated ps (validate_input schema input))
  unfolding Decides
  validated-Decides schema [] input e = inl e
  validated-Decides schema (p ∷ ps) input e =
      first_finding-Decides schema input (validate_input schema input) refl (ground arith)

  validate_parsed-Decides :
      (x : Parsed) (input : JsValue) → Decides (ParsedAdmits x input) (validate_parsed x input)
  unfolding ParsedAdmits Decides IsBoundaryError
  validate_parsed-Decides (parse_failure _ _) input = ground arith
  validate_parsed-Decides (parsed schema) input =
      validated-Decides schema schema.properties input refl

  validate_at_run_boundary-Decides :
      (r : Reading Text) (input : JsValue)
      → Decides (SchemaAdmits json_parse r input) (validate_at_run_boundary json_parse r input)
  unfolding SchemaAdmits Decides IsBoundaryError validate_at_run_boundary
  validate_at_run_boundary-Decides absent input = tt
  validate_at_run_boundary-Decides unreadable input = ground arith
  validate_at_run_boundary-Decides (found raw) input =
      validate_parsed-Decides (parse_schema json_parse raw) input

  then_validate-Decides :
      (P Q : Type 0) (r : Result (Unit {0})) (p : Package) (input : JsValue)
      → Decides P r
      → Decides Q (validate_at_run_boundary json_parse p.schema_text input)
      → Decides (P × Q) (then_validate json_parse r p input)
  unfolding Decides
  then_validate-Decides P Q (err e) p input (refuted, b) k = ((λ (x, _). refuted x), b)
  then_validate-Decides P Q (ok _) p input h k =
      first-Decides P Q (validate_at_run_boundary json_parse p.schema_text input) h k

  check_boundary-Decides :
      (o : Option Package) (input : JsValue)
      → Decides (Admits o input) (check_boundary to_lower_case json_parse o input)
  unfolding Admits Decides check_boundary
  check_boundary-Decides none input = tt
  check_boundary-Decides (some p) input =
      then_validate-Decides _ _ (check_reserved_names to_lower_case p.entries) p input
        (check_reserved_names-Decides p.entries)
        (validate_at_run_boundary-Decides p.schema_text input)

  -- Where the checks admit the input the wrapper is the run of the factory; else it rejects with an
  -- error of the boundary, and the engine is as it was.
  pub Gated :
      (C : EngineClient) → Script → Option Package → JsValue → C.State → C.State × Outcome → Type 0
  Gated C script folder input engine out =
      (Admits folder input × (out ≡ run C script engine))
      ⊎ ((¬ Admits folder input)
          × ((e : Thrown) × IsBoundaryError e × (out ≡ (engine, rejected e none))))

  by_result :
      (C : EngineClient) (script : Script) (folder : Option Package) (input : JsValue)
      (engine : C.State) (r : Result (Option Warning))
      → Decides (Admits folder input) r
      → Gated C script folder input engine (run_checked to_lower_case json_parse C r script engine)
  unfolding Gated Decides
  by_result C script folder input engine (ok _) h = inl (h, refl)
  by_result C script folder input engine (err e) (refuted, b) = inr (refuted, (e, b, refl))

  -- Where the package folder has no reserved name and the schema beside it, if there is one, admits
  -- the input, the wrapper is the run of the factory; everywhere else it rejects with one of the
  -- three errors of the boundary and the engine client is as it was, not even discarded. Without a
  -- package folder everything is admitted.
  pub define_factory-Gated :
      (C : EngineClient) (factory : JsValue → Script) (folder : Option Package) (input : JsValue)
      (engine : C.State)
      → Gated C
          (factory input)
          folder
          input
          engine
          (define_factory to_lower_case json_parse C factory folder input engine)
  unfolding Gated define_factory
  define_factory-Gated C factory folder input engine =
      by_result C (factory input) folder input engine
        (check_boundary to_lower_case json_parse folder input) (check_boundary-Decides folder input)
