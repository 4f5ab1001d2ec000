-- ===== src/Fake/Refusals.antt =====
-- Why the in-memory engine refuses a whole batch.
use mathlib.Core.Path.{subst}
use project_builder_sdk.Base.{
  ◌<◌, ◌⊎◌, inl, inr, Bool, true, false, if◌then◌else◌, none, some, ◌≡◌, refl, arith,
}
use project_builder_sdk.Wire.{
  Batch, batch_value, measured_bytes, emit_batch_budget_bytes, is_over_budget,
}
use project_builder_sdk.Wire.Budget.{is_over_budget_iff}
use project_builder_sdk.Wire.Json.{Serialized, throws, omitted, text, stringify}
use project_builder_sdk.DeepEqual.{deep_equal, json_clone}
use project_builder_sdk.Errors.{
  applied_first, EmitRejection, EmitRejectionCode, unrepresentable, cap, emit_rejection,
}
use project_builder_sdk.Fake.{emit_check, fidelity_check}

-- Why the in-memory engine refuses a batch before it applies any of it: the batch has no JSON text,
-- its text is beyond the budget, or it does not come back from its text as it was.
pub Unfit : Batch → EmitRejectionCode → Type 0
Unfit b unrepresentable =
    (stringify (batch_value b) ≡ throws)
    ⊎ (deep_equal (batch_value b) (json_clone (batch_value b)) ≡ false)
Unfit b cap = emit_batch_budget_bytes < measured_bytes b
Unfit b _ = ⊥

module _ (b : Batch) (r : EmitRejection) where
  unfoldable pub Caused : Type 0
  Caused = Unfit b r.code × (r.failed_index ≡ none) × (r.applied_count ≡ applied_first 0)

  caused : (c : EmitRejectionCode) → Unfit b c → some (emit_rejection c none) ≡ some r → Caused
  unfolding Caused emit_rejection
  caused c k h =
      subst
        (λ (x : EmitRejection).
          Unfit b x.code × (x.failed_index ≡ none) × (x.applied_count ≡ applied_first 0))
        (cc h) (k, refl, refl)

  compared-Caused :
      (same : Bool)
      → deep_equal (batch_value b) (json_clone (batch_value b)) ≡ same
      → (if same then none else some (emit_rejection unrepresentable none)) ≡ some r
      → Caused
  unfolding Unfit
  compared-Caused true e h = absurd (cc h)
  compared-Caused false e h = caused unrepresentable (inr e) h

  measured-Caused :
      (over : Bool)
      → is_over_budget b ≡ over
      → (if over
          then some (emit_rejection cap none)
          else if deep_equal (batch_value b) (json_clone (batch_value b))
          then none
          else some (emit_rejection unrepresentable none))
        ≡ some r
      → Caused
  unfolding Unfit
  measured-Caused true e h = caused cap (ground (arith, e, is_over_budget_iff b)) h
  measured-Caused false e h =
      compared-Caused (deep_equal (batch_value b) (json_clone (batch_value b))) refl h

  pub emit_check-Caused : emit_check b ≡ some r → Caused
  unfolding emit_check Unfit
  emit_check-Caused h = by_text (stringify (batch_value b)) refl h
    where
      by_text :
          (t : Serialized) → stringify (batch_value b) ≡ t → fidelity_check t b ≡ some r → Caused
      by_text throws e h = caused unrepresentable (inl e) h
      by_text omitted e h = measured-Caused (is_over_budget b) refl h
      by_text (text t) e h = measured-Caused (is_over_budget b) refl h
