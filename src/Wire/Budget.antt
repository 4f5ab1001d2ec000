-- ===== src/Wire/Budget.antt =====
-- The emit budget against the frame cap.
use project_builder_sdk.Base.{◌-◌, ◌≤◌, false, ◌≡◌, refl, arith, ◌↔◌}
use project_builder_sdk.Wire.{
  Batch, batch_cap_bytes, measured_bytes, emit_frame_envelope_allowance_bytes,
  emit_batch_budget_bytes, is_over_budget,
}
use project_builder_sdk.Wire.Json.{stringify, byte_length, quote, number_text}

pub allowance-eq : emit_frame_envelope_allowance_bytes ≡ 82
unfolding emit_frame_envelope_allowance_bytes stringify byte_length quote number_text
allowance-eq = refl

pub budget-eq : emit_batch_budget_bytes ≡ batch_cap_bytes - 82
unfolding emit_batch_budget_bytes
budget-eq = omega (arith, allowance-eq)

-- The test of the budget is the comparison with the budget.
pub is_over_budget_iff :
    (b : Batch) → (is_over_budget b ≡ false) ↔ (measured_bytes b ≤ emit_batch_budget_bytes)
unfolding is_over_budget
is_over_budget_iff b = ground (arith, allowance-eq, budget-eq)
