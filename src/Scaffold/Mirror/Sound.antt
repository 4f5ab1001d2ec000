-- ===== src/Scaffold/Mirror/Sound.antt =====
-- What a scaffold emits, whether it ends well or by an error.
use project_builder_sdk.Base.{Bool, false, Option, List, [], ◌∷◌, Text, All, ◌≡◌}
use project_builder_sdk.Wire.{Directive, is_over_budget}
use project_builder_sdk.Wire.Value.{JsValue}
use project_builder_sdk.Errors.{Result, ok, err}
use project_builder_sdk.Engine.{EngineClient}
use project_builder_sdk.Session.{Session}
use project_builder_sdk.Directives
use project_builder_sdk.Scaffold.PathGuards.{is_lexically_escaping}
use project_builder_sdk.Scaffold.Expander.{Expansion, emit_directives}

-- A create whose destination passes the lexical screen, and that is accepted alone; or a copy from the
-- package whose destination does.
abbrev pub Sound : Directive → Type 0
Sound (Directive.create p t o f) =
    (is_lexically_escaping p ≡ false)
    × (is_over_budget (record { force = false; instructions = Directive.create p t o f ∷ [] })
        ≡ false)
Sound (Directive.copy_in from to f) = is_lexically_escaping to ≡ false
Sound _ = ⊥

-- The expansion is what the directives of a list lead to, and they are all sound.
abbrev pub Emits : (C : EngineClient) → Expansion C → Expansion C → Type 0
Emits C x x' = (ds : List Directive) × All Sound ds × (x' ≡ emit_directives C ds x)

-- What reading a template file for a create comes to.
abbrev pub TemplateFits : Text → JsValue → Option Bool → Result Text → Type 0
TemplateFits dest options force (ok content) =
    (d : Directive) × (Directives.create dest content options force ≡ ok d)
    × (is_over_budget (record { force = false; instructions = d ∷ [] }) ≡ false)
TemplateFits dest options force (err e) = Unit
