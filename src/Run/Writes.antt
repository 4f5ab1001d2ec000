-- ===== src/Run/Writes.antt =====
-- A factory that only buffers directives: what its run commits, and whom its error blames.
use mathlib.Core.List.{append-nil}
use project_builder_sdk.Base.{
  false, none, List, [], ◌∷◌, ◌++◌, Text, ◌≡◌, ◌∙◌, append_assoc, length,
}
use project_builder_sdk.Base.Dict.{NodupKeys, lookup}
use project_builder_sdk.Wire.{Directive}
use project_builder_sdk.Errors.{EmitRejection, Result, ok, err}
use project_builder_sdk.Fake
use project_builder_sdk.Fake.{FakeState, fake_client, emit_check}
use project_builder_sdk.Fake.Spec.{view, done, spec_all}
use project_builder_sdk.Fake.Batches.{IsFirstRefusal}
use project_builder_sdk.Fake.Frames.{Frame, staged_over, lookup-commit}
use project_builder_sdk.Session
use project_builder_sdk.Session.{Session, envelope}
use project_builder_sdk.Session.Laws.{FlushOutcome, flush-FlushOutcome, blamed}
use project_builder_sdk.Run.{
  Script, Outcome, resolved, rejected, run_script, drain, run, after_flush,
}
use project_builder_sdk.Run.Atomic.{flush-Frame}

abbrev pub writes : List Directive → Script
writes [] = Script.done
writes (d ∷ ds) = Script.buffer d (writes ds)

run_script-writes :
    (ds : List Directive) (s : Session fake_client) (hs : List (Result (Unit {0})))
    → run_script fake_client (writes ds) s hs
      ≡ (record { pending = s.pending ++ ds; engine = s.engine }, hs, ok tt)
unfolding run_script Session.buffer
run_script-writes [] s hs = rw append-nil
run_script-writes (d ∷ ds) s hs =
    run_script-writes ds (Session.buffer fake_client d s) hs
    ∙ rw (append_assoc s.pending (d ∷ []) ds)

-- The engine behind a flush of these directives.
abbrev pub flushed : List Directive → FakeState → FakeState
flushed ds e = (Session.flush fake_client (record { pending = ds; engine = e })).0.engine

-- The outcome of a factory that buffers `ds` and returns, where the state `t` was staged.
abbrev pub WritesOutcome : List Directive → FakeState → FakeState → FakeState × Outcome → Type 0
WritesOutcome ds e t (e', resolved) =
    (spec_all ds false (view e) ≡ done (view t))
    × ((p : Text) → lookup p e'.committed ≡ staged_over t p (lookup p e.committed))
WritesOutcome ds e t (e', rejected x _) =
    (r : EmitRejection) × (h : IsFirstRefusal ds false (view e) 0 r) × (x
      ≡ blamed h.refused r.code (length h.before))
    × (e'.committed ≡ e.committed)

module _ (ds : List Directive) (e : FakeState) (u : NodupKeys e.tree) where
  settled :
      (out : Session fake_client × Result (Unit {0}))
      → Frame e out.0.engine
      → FlushOutcome ds (view e) out
      → WritesOutcome ds e out.0.engine (after_flush fake_client out)
  unfolding Session.commit Fake.commit Fake.discard
  settled (s, ok _) f h = (h.1, λ p. rw (← f.committed) (lookup-commit s.engine p (f.tree u)))
  settled (s, err x) f (_, r, h, blame) = (r, h, blame, f.committed)

-- The run of a factory that buffers directives, whose batch passes the checks of the in-memory
-- engine: if it resolves, what was staged is what the specification makes of the directives, and
-- all of it is laid over the committed tree, where each other path keeps its content; if it
-- rejects, the error blames the first directive that the specification refuses, and nothing is
-- committed. The staged tree has no key twice before the run.
pub run-WritesOutcome :
    (ds : List Directive) (e : FakeState)
    → NodupKeys e.tree
    → emit_check (envelope fake_client ds) ≡ none
    → WritesOutcome ds e (flushed ds e) (run fake_client (writes ds) e)
unfolding run drain
run-WritesOutcome ds e u h = rw (run_script-writes ds (record { pending = []; engine = e }) []) (
    settled ds e u _ (flush-Frame (record { pending = ds; engine = e }))
      (flush-FlushOutcome (record { pending = ds; engine = e }) h))
