-- ===== src/Session/Laws.antt =====
-- A session over the in-memory engine: what a flush applies, whom a rejection blames, and what a read
-- sees.
use mathlib.Core.Path.{fun_ext}
use native.Mathlib.Nat.{zero-add}
use project_builder_sdk.Base.{
  ℕ, ◌+◌, false, Option, none, some, List, [], ◌∷◌, ◌++◌, Text, ◌≡◌, refl, ◌≢◌, arith, length,
  get_elem?-append,
}
use project_builder_sdk.Wire.{Directive}
use project_builder_sdk.Errors.{
  applied_first, EmitRejection, EmitRejectionCode, authoring_error, blame, offender, code_to_reason,
  verb_for, primary_path, Thrown, authoring, Result, ok, err, to_authoring_error,
  is_transport_fault,
}
use project_builder_sdk.Fake
use project_builder_sdk.Fake.{FakeState, fake_client, emit, emit_check, fidelity_check}
use project_builder_sdk.Fake.Spec.{View, view, done, spec_all}
use project_builder_sdk.Fake.Batches.{EmitOutcome, IsFirstRefusal, emit-EmitOutcome}
use project_builder_sdk.Session.{
  Session, flush, flush_pending, flush_result, read, read_flushed, translate, envelope,
}
use project_builder_sdk.Fake.Refusals.{Unfit, Caused, emit_check-Caused}

pub view-read : (p : Text) (s : FakeState) → (Fake.read p s).1 ≡ view s p
unfolding Fake.read view
view-read p s = ground arith

pub read-view : (p : Text) (s : FakeState) → view (Fake.read p s).0 ≡ view s
unfolding Fake.read view
read-view p s = fun_ext λ q. ground arith

-- The error of a batch whose directive `d` is the first refused one, behind `n` applied ones.
abbrev pub blamed : Directive → EmitRejectionCode → ℕ → Thrown
blamed d code n = authoring (
    authoring_error (some (verb_for d)) (some (primary_path d)) (code_to_reason code)
      (applied_first n))

offender-append :
    (before later : List Directive) (d : Directive)
    → offender (some (0 + length before)) (before ++ d ∷ later) ≡ some d
unfolding offender
offender-append before later d = rw zero-add (get_elem?-append before later d)

translate-refusal :
    (ds : List Directive) (v : View) (r : EmitRejection) (h : IsFirstRefusal ds false v 0 r)
    → translate fake_client (Thrown.emit r) (envelope fake_client ds)
      ≡ blamed h.refused r.code (length h.before)
unfolding translate is_transport_fault to_authoring_error blame
translate-refusal ds v r h =
    ground (arith, offender-append h.before h.later h.refused, h.index, h.split, h.count)

-- What a flush of a batch that passes the engine's checks comes to.
abbrev pub FlushOutcome : List Directive → View → Session fake_client × Result (Unit {0}) → Type 0
FlushOutcome ds v (s, ok _) = (s.pending ≡ []) × (spec_all ds false v ≡ done (view s.engine))
FlushOutcome ds v (s, err e) =
    (s.pending ≡ [])
    × (r : EmitRejection) × (h : IsFirstRefusal ds false v 0 r) × (e
        ≡ blamed h.refused r.code (length h.before))

-- A flush whose batch passes the checks of the in-memory engine empties the buffer; if it resolves,
-- the staged tree is what the specification makes of the buffered directives; if it rejects, the
-- error names the verb and the path of the first directive that the specification refuses, and
-- counts those before it.
pub flush-FlushOutcome :
    (s : Session fake_client)
    → emit_check (envelope fake_client s.pending) ≡ none
    → FlushOutcome s.pending (view s.engine) (flush fake_client s)
unfolding flush spec_all
flush-FlushOutcome s h = by_pending s.pending s refl h
  where
    settled :
        (ds : List Directive) (v : View) (out : FakeState × Result (Unit {0}))
        → EmitOutcome (envelope fake_client ds) v out
        → FlushOutcome ds v (flush_result fake_client (envelope fake_client ds) out)
    settled ds v (e, ok _) h = (refl, h)
    settled ds v (e, err (Thrown.emit r)) h = (refl, r, h, translate-refusal ds v r h)
    settled ds v (e, err _) h = absurd h

    by_pending :
        (ds : List Directive) (s : Session fake_client)
        → s.pending ≡ ds
        → emit_check (envelope fake_client ds) ≡ none
        → FlushOutcome ds (view s.engine) (flush_pending fake_client ds s)
    by_pending [] s e h = (e, refl)
    by_pending (d ∷ ds) s e h =
        settled (d ∷ ds) (view s.engine) (emit (envelope fake_client (d ∷ ds)) s.engine)
          (emit-EmitOutcome (envelope fake_client (d ∷ ds)) s.engine h)

-- A batch that the in-memory engine refuses whole has no JSON text, or one beyond the budget, or
-- does not come back from its text as it was, as the code of the error says; the engine is
-- unchanged, the flush empties the buffer, and its error has no verb and no path, and counts
-- nothing as applied. Something was pending.
pub flush-refused_whole :
    (s : Session fake_client) (r : EmitRejection)
    → s.pending ≢ []
    → emit_check (envelope fake_client s.pending) ≡ some r
    → Unfit (envelope fake_client s.pending) r.code
      × (flush fake_client s ≡ (
        record { pending = []; engine = s.engine },
        err (authoring (authoring_error none none (code_to_reason r.code) (applied_first 0))),
      ))
unfolding flush emit translate is_transport_fault to_authoring_error offender blame Caused
flush-refused_whole s r full h =
    let (cause, index, count) = emit_check-Caused (envelope fake_client s.pending) r h in
    (cause, by_pending s.pending s refl full h index count)
  where
    by_pending :
        (ds : List Directive) (s : Session fake_client)
        → s.pending ≡ ds
        → ds ≢ []
        → emit_check (envelope fake_client ds) ≡ some r
        → r.failed_index ≡ none
        → r.applied_count ≡ applied_first 0
        → flush_pending fake_client ds s ≡ (
          record { pending = []; engine = s.engine },
          err (authoring (authoring_error none none (code_to_reason r.code) (applied_first 0))),
        )
    by_pending [] s e full h index count = absurd (full refl)
    by_pending (d ∷ ds) s e full h index count = rw (h, emit) (rw (index, count, blame))

-- What a read of a path comes to.
abbrev pub ReadOutcome :
    List Directive → View → Text → Session fake_client × Result (Option Text) → Type 0
ReadOutcome ds v p (s, ok o) =
    (w : View) × (spec_all ds false v ≡ done w) × (o ≡ w p) × (view s.engine ≡ w) × (s.pending ≡ [])
ReadOutcome ds v p (s, err e) =
    (r : EmitRejection) × (h : IsFirstRefusal ds false v 0 r) × (e
      ≡ blamed h.refused r.code (length h.before))

-- A read sees every write buffered before it: where the batch of the buffered directives passes the
-- checks of the in-memory engine, its result is the content that the specification gives the path
-- after these directives, and the staged tree is left as they make it; or the read rejects with the
-- error of the first directive that the specification refuses.
pub read-ReadOutcome :
    (s : Session fake_client) (p : Text)
    → emit_check (envelope fake_client s.pending) ≡ none
    → ReadOutcome s.pending (view s.engine) p (read fake_client p s)
unfolding read
read-ReadOutcome s p h =
    settled s.pending (view s.engine) (flush fake_client s) (flush-FlushOutcome s h)
  where
    settled :
        (ds : List Directive) (v : View) (out : Session fake_client × Result (Unit {0}))
        → FlushOutcome ds v out
        → ReadOutcome ds v p (read_flushed fake_client p out)
    settled ds v (t, ok _) h = (view t.engine, h.1, view-read p t.engine, read-view p t.engine, h.0)
    settled ds v (t, err e) h = (h.1, h.2, h.3)
