-- ===== src/Tests/Runs.antt =====
-- Factories, sessions and batches over the in-memory engine, on one small tree.
use project_builder_sdk.Base.{
  false, none, some, List, [], ◌∷◌, Text, codes, ◌≡◌, ◌≢◌, refl, Text-discrete,
}
use project_builder_sdk.Base.Dict.{NodupKeys}
use project_builder_sdk.Wire.{
  Directive, create, modify, rename, measured_bytes, is_over_budget, batch_value,
}
use project_builder_sdk.Wire.Value.{obj, end, num, nan}
use project_builder_sdk.Wire.Json.{stringify, byte_length, quote, number_text}
use project_builder_sdk.DeepEqual.{deep_equal, json_clone}
use project_builder_sdk.Errors.{
  applied_first, emit_rejection, unrepresentable, not_an_error, authoring, authoring_error,
  code_to_reason, ok, err,
}
use project_builder_sdk.Fake.{FakeState, fake_client, emit, emit_check, apply}
use project_builder_sdk.Fake.Spec.{view, spec}
use project_builder_sdk.Fake.Refines.{Agrees, apply-Agrees}
use project_builder_sdk.Fake.Batches.{EmitOutcome, emit-EmitOutcome}
use project_builder_sdk.Fake.Refusals.{Unfit}
use project_builder_sdk.Session
use project_builder_sdk.Session.{Session, envelope}
use project_builder_sdk.Session.Laws.{
  FlushOutcome, flush-FlushOutcome, ReadOutcome, read-ReadOutcome, flush-refused_whole,
}
use project_builder_sdk.Run.{Script, run}
use project_builder_sdk.Run.Atomic.{Atomic, staged, run-Atomic}
use project_builder_sdk.Run.Writes.{WritesOutcome, flushed, run-WritesOutcome, writes}

abbrev a : Text
a = codes "a"

abbrev b : Text
b = codes "b"

abbrev seeded : FakeState
seeded = record {
  seed = (a, codes "1") ∷ [];
  tree = [];
  committed = [];
  deleted = [];
  last_served = none;
}

abbrev new_file : Directive
new_file = create b (codes "2") (obj end) none

abbrev edits : List Directive
edits = modify a (codes "3") ∷ new_file ∷ []

abbrev edit_session : Session fake_client
edit_session = record { pending = edits; engine = seeded }

edits_checked : emit_check (envelope fake_client edits) ≡ none
unfolding emit_check stringify batch_value byte_length quote number_text deep_equal json_clone
    is_over_budget measured_bytes Text-discrete
edits_checked = refl

one_key : NodupKeys seeded.tree
one_key = tt

-- A factory that edits, reads its edit back and returns where it is there.
abbrev returning : Script
returning =
    Script.buffer new_file
      (Script.read b λ r. elim r [ ok _ ↦ Script.done | err _ ↦ Script.fail not_an_error ])

run-Atomic_example : Atomic seeded (staged returning seeded) (run fake_client returning seeded)
run-Atomic_example = run-Atomic returning seeded one_key

run-WritesOutcome_example :
    WritesOutcome edits seeded (flushed edits seeded) (run fake_client (writes edits) seeded)
run-WritesOutcome_example = run-WritesOutcome edits seeded one_key edits_checked

flush-FlushOutcome_example :
    FlushOutcome edits (view seeded) (Session.flush fake_client edit_session)
flush-FlushOutcome_example = flush-FlushOutcome edit_session edits_checked

read-ReadOutcome_example :
    ReadOutcome edits (view seeded) a (Session.read fake_client a edit_session)
read-ReadOutcome_example = read-ReadOutcome edit_session a edits_checked

emit-EmitOutcome_example :
    EmitOutcome
      (envelope fake_client edits)
      (view seeded)
      (emit (envelope fake_client edits) seeded)
emit-EmitOutcome_example = emit-EmitOutcome (envelope fake_client edits) seeded edits_checked

apply-Agrees_example :
    Agrees 1 (spec (rename a b none) false (view seeded)) (apply (rename a b none) false 1 seeded)
apply-Agrees_example = apply-Agrees false 1 seeded (rename a b none)

-- A batch with an option that JSON cannot carry.
abbrev unfaithful : Session fake_client
unfaithful = record { pending = create b a (num nan) none ∷ []; engine = seeded }

unfaithful_refused :
    emit_check (envelope fake_client unfaithful.pending)
    ≡ some (emit_rejection unrepresentable none)
unfolding emit_check stringify batch_value byte_length quote number_text deep_equal json_clone
    is_over_budget measured_bytes Text-discrete
unfaithful_refused = refl

something_pending : unfaithful.pending ≢ []
something_pending e = cc

flush-refused_whole_example :
    Unfit (envelope fake_client unfaithful.pending) (emit_rejection unrepresentable none).code
    × (Session.flush fake_client unfaithful ≡ (
      record { pending = []; engine = seeded },
      err (
          authoring (
            authoring_error none none
              (code_to_reason (emit_rejection unrepresentable none).code)
              (applied_first 0))),
    ))
flush-refused_whole_example =
    flush-refused_whole unfaithful (emit_rejection unrepresentable none) something_pending
      unfaithful_refused
