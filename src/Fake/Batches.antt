-- ===== src/Fake/Batches.antt =====
-- Whole batches, and what `commit` and `discard` make of the staged tree.
use project_builder_sdk.Base.{
  ℕ, suc, ◌+◌, Bool, Option, none, some, List, [], ◌∷◌, ◌++◌, length, ◌≡◌, refl, sym, ap, ◌∙◌,
  arith, inl, inr, ◌⊎◌,
}
use project_builder_sdk.Wire.{Directive, Batch}
use project_builder_sdk.Errors.{
  applied_first, EmitRejection, EmitRejectionCode, collision, not_found, Result, ok, err, Thrown,
}
use project_builder_sdk.Fake.{
  FakeState, Applied, applied, rejected, apply, apply_from, emit, emit_check, settle,
}
use project_builder_sdk.Fake.Spec.{View, view, Verdict, done, clash, missing, spec, spec_all}
use project_builder_sdk.Fake.Refines.{apply-Agrees, Agrees}

-- The first refused directive of a batch: the ones before it are applied, and the rejection carries
-- its index, as the index of the blamed directive and as the number of applied ones.
pub record IsFirstRefusal (ds : List Directive) (e : Bool) (v : View) (i : ℕ) (r : EmitRejection)
    : Type 0 where
  pub before : List Directive
  pub refused : Directive
  pub later : List Directive
  pub split : ds ≡ before ++ refused ∷ later
  pub reached : View
  pub applied_before : spec_all before e v ≡ done reached
  pub cause :
      ((spec refused e reached ≡ clash) × (r.code ≡ collision))
      ⊎ ((spec refused e reached ≡ missing) × (r.code ≡ not_found))
  pub index : r.failed_index ≡ some (i + length before)
  pub count : r.applied_count ≡ applied_first (i + length before)

abbrev at_index : EmitRejectionCode → ℕ → EmitRejection
at_index code i = record { code = code; failed_index = some i; applied_count = applied_first i }

-- A loop that ends without a rejection leaves the view of the specification; one that does not
-- stops at the first refusal.
abbrev Ran : ℕ → List Directive → Bool → View → FakeState × Option EmitRejection → Type 0
Ran i ds e v (s, none) = spec_all ds e v ≡ done (view s)
Ran i ds e v (s, some r) = IsFirstRefusal ds e v i r

module _ (i : ℕ) (d : Directive) (ds : List Directive) (e : Bool) (v : View) where
  refused_first :
      (r : EmitRejection) (k : EmitRejectionCode)
      → ((spec d e v ≡ clash) × (k ≡ collision)) ⊎ ((spec d e v ≡ missing) × (k ≡ not_found))
      → r ≡ at_index k i
      → IsFirstRefusal (d ∷ ds) e v i r
  unfolding spec_all
  refused_first r k why h = record {
    before = [];
    refused = d;
    later = ds;
    split = refl;
    reached = v;
    applied_before = refl;
    cause = ground arith;
    index = ground arith;
    count = ground arith;
  }

  Ran-cons :
      (v' : View) (out : FakeState × Option EmitRejection)
      → spec d e v ≡ done v'
      → Ran (suc i) ds e v' out
      → Ran i (d ∷ ds) e v out
  unfolding spec_all
  Ran-cons v' (s, none) h ran = rw (h, spec_all) ran
  Ran-cons v' (s, some r) h ran = record {
    before = d ∷ ran.before;
    refused = ran.refused;
    later = ran.later;
    split = ap (λ t. d ∷ t) ran.split;
    reached = ran.reached;
    applied_before = rw (h, spec_all) ran.applied_before;
    cause = ran.cause;
    index = ground (arith, ran.index);
    count = ran.count ∙ ap applied_first (omega arith);
  }

  Ran-step :
      (vd : Verdict) (a : Applied) (s : FakeState)
      → spec d e v ≡ vd
      → Agrees i vd a
      → ((s' : FakeState) → Ran (suc i) ds e (view s') (apply_from (suc i) e ds s'))
      → Ran i
          (d ∷ ds)
          e
          v
          (elim a [ rejected r ↦ (s, some r) | applied s' ↦ apply_from (suc i) e ds s' ])
  Ran-step (done v') (applied s') s h ag ih =
      Ran-cons v' (apply_from (suc i) e ds s') h (rw (sym ag) (ih s'))
  Ran-step clash (rejected r) s h ag ih = refused_first r collision (inl (h, refl)) ag
  Ran-step missing (rejected r) s h ag ih = refused_first r not_found (inr (h, refl)) ag
  Ran-step (done _) (rejected _) s h ag ih = absurd ag
  Ran-step clash (applied _) s h ag ih = absurd ag
  Ran-step missing (applied _) s h ag ih = absurd ag

apply_from-Ran :
    (i : ℕ) (ds : List Directive) (e : Bool) (s : FakeState)
    → Ran i ds e (view s) (apply_from i e ds s)
unfolding apply_from spec_all
apply_from-Ran i [] e s = refl
apply_from-Ran i (d ∷ ds) e s =
    Ran-step i d ds e (view s) (spec d e (view s)) (apply d e i s) s refl (apply-Agrees e i s d)
      (λ s'. apply_from-Ran (suc i) ds e s')

-- A batch that passes the checks is applied as the specification says when it resolves, and when it
-- rejects the rejection is that of its first refused directive.
abbrev pub EmitOutcome : Batch → View → FakeState × Result (Unit {0}) → Type 0
EmitOutcome b v (s, ok _) = spec_all b.instructions b.force v ≡ done (view s)
EmitOutcome b v (s, err (Thrown.emit r)) = IsFirstRefusal b.instructions b.force v 0 r
EmitOutcome b v (s, err _) = ⊥

-- A batch that passes the checks of the in-memory engine is applied as the specification says when
-- the emit resolves, and when it rejects, the rejection is that of its first refused directive.
pub emit-EmitOutcome :
    (b : Batch) (s : FakeState) → emit_check b ≡ none → EmitOutcome b (view s) (emit b s)
unfolding emit
emit-EmitOutcome b s h =
    rw (h, emit)
      (settled (apply_from 0 b.force b.instructions s) (apply_from-Ran 0 b.instructions b.force s))
  where
    settled :
        (out : FakeState × Option EmitRejection)
        → Ran 0 b.instructions b.force (view s) out
        → EmitOutcome b (view s) (settle out)
    settled (s', none) ran = ran
    settled (s', some r) ran = ran
