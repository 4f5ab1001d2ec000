-- ===== src/Directives/Rendering.antt =====
-- What an author sees pending is what an error would blame.
use project_builder_sdk.Base.{
  ℕ, zero, suc, Bool, Option, none, some, List, [], ◌∷◌, get_elem?, ◌≡◌, refl,
}
use project_builder_sdk.Wire.{Directive}
use project_builder_sdk.Errors.{
  AppliedCount, AuthoringError, AuthoringReason, EmitRejection, blame, offender, Thrown,
  to_authoring_error, verb_for, primary_path, code_to_reason,
}
use project_builder_sdk.Directives.{PendingDirective, render_one, render_pending_directives}

-- The verb and the path of an error are those of a pending directive.
abbrev pub Blames : AuthoringError → Option PendingDirective → Type 0
Blames e none = (e.verb ≡ none) × (e.path ≡ none)
Blames e (some d) = (e.verb ≡ some d.verb) × (e.path ≡ some d.path)

blame-Blames :
    (d : Directive) (reason : AuthoringReason) (n : AppliedCount)
    → Blames (blame (some d) reason n) (some (render_one d))
unfolding blame verb_for primary_path render_one
blame-Blames (Directive.create p t o f) reason n = (refl, refl)
blame-Blames (Directive.modify p c) reason n = (refl, refl)
blame-Blames (Directive.delete p) reason n = (refl, refl)
blame-Blames (Directive.rename p m f) reason n = (refl, refl)
blame-Blames (Directive.move p d f) reason n = (refl, refl)
blame-Blames (Directive.copy a b f) reason n = (refl, refl)
blame-Blames (Directive.copy_in a b f) reason n = (refl, refl)

no_blame : (reason : AuthoringReason) (n : AppliedCount) → Blames (blame none reason n) none
unfolding blame
no_blame reason n = (refl, refl)

at_index :
    (ds : List Directive) (i : ℕ) (reason : AuthoringReason) (n : AppliedCount)
    → Blames (blame (get_elem? ds i) reason n) (get_elem? (render_pending_directives ds) i)
unfolding render_pending_directives blame
at_index [] i reason n = (refl, refl)
at_index (d ∷ ds) zero reason n = blame-Blames d reason n
at_index (d ∷ ds) (suc i) reason n = at_index ds i reason n

abbrev pub pending_at : Option ℕ → List PendingDirective → Option PendingDirective
pending_at none ds = none
pending_at (some i) ds = get_elem? ds i

-- The error that a rejection of a batch becomes carries the verb and the path that the author sees
-- for the blamed directive among the pending ones, and neither where no directive is blamed.
pub to_authoring_error-Blames :
    (ds : List Directive) (force : Bool) (r : EmitRejection)
    → Blames
        (to_authoring_error (Thrown.emit r) (record { force = force; instructions = ds }))
        (pending_at r.failed_index (render_pending_directives ds))
unfolding to_authoring_error offender
to_authoring_error-Blames ds force r = by_index r.failed_index
  where
    by_index :
        (index : Option ℕ)
        → Blames
            (blame (offender index ds) (code_to_reason r.code) r.applied_count)
            (pending_at index (render_pending_directives ds))
    by_index none = no_blame (code_to_reason r.code) r.applied_count
    by_index (some i) = at_index ds i (code_to_reason r.code) r.applied_count
