-- ===== src/Scaffold/Classify/Fits.antt =====
-- A source that travels by its content makes a directive that the emit authority accepts.
use project_builder_sdk.Base.{false, [], ◌∷◌, ◌≡◌}
use project_builder_sdk.Wire.{Directive, is_over_budget}
use project_builder_sdk.Errors.{Result, ok, err}
use project_builder_sdk.Directives
use project_builder_sdk.Scaffold.Classify.{ClassifyResult, by_value, by_reference, ClassifyParams}

-- The create that a verdict by value leads to.
abbrev pub FitsByValue : ClassifyParams → Result ClassifyResult → Type 0
FitsByValue p (ok (by_value content)) =
    (d : Directive) × (Directives.create p.dest_path content p.options p.force ≡ ok d)
    × (is_over_budget (record { force = false; instructions = d ∷ [] }) ≡ false)
FitsByValue p (ok by_reference) = (p.is_template_marked ≡ false) × (p.has_fail_messages ≡ false)
FitsByValue p (err e) = Unit
