-- ===== src/Session.antt =====
-- core/session.ts over any engine client: the pending buffer, and the flush that drains it.
pub mod Laws
use project_builder_sdk.Base.{
  Bool, true, false, Option, none, some, List, [], ◌∷◌, ◌++◌, Text, if◌then◌else◌,
}
use project_builder_sdk.Wire.{Directive, Batch}
use project_builder_sdk.Errors.{
  Thrown, authoring, Result, ok, err, to_authoring_error, is_transport_fault,
}
use project_builder_sdk.Engine.{EngineClient}

module _ (C : EngineClient) where
  pub record Session : Type 0 where
    pub pending : List Directive
    pub engine : C.State

  unfoldable pub buffer : Directive → Session → Session
  buffer d s = record s { pending = s.pending ++ d ∷ [] }

  -- A transport fault passes unchanged; any other rejection is translated.
  unfoldable pub translate : Thrown → Batch → Thrown
  translate raw batch =
      if is_transport_fault raw then raw else authoring (to_authoring_error raw batch)

  abbrev pub flush_result : Batch → C.State × Result (Unit {0}) → Session × Result (Unit {0})
  flush_result batch (e, ok u) = (record { pending = []; engine = e }, ok tt)
  flush_result batch (e, err raw) = (record { pending = []; engine = e }, err (translate raw batch))

  abbrev pub envelope : List Directive → Batch
  envelope ds = record { force = false; instructions = ds }

  abbrev pub flush_pending : List Directive → Session → Session × Result (Unit {0})
  flush_pending [] s = (s, ok tt)
  flush_pending (d ∷ ds) s = flush_result (envelope (d ∷ ds)) (C.emit (envelope (d ∷ ds)) s.engine)

  unfoldable pub flush : Session → Session × Result (Unit {0})
  flush s = flush_pending s.pending s

  abbrev on_engine {ℓ} : {A : Type ℓ} → Session → C.State × A → Session × A
  on_engine s (e, a) = (record s { engine = e }, a)

  abbrev pub read_flushed : Text → Session × Result (Unit {0}) → Session × Result (Option Text)
  read_flushed p (s, ok _) = on_engine s (C.read p s.engine)
  read_flushed p (s, err e) = (s, err e)

  unfoldable pub read : Text → Session → Session × Result (Option Text)
  unfolding flush
  read p s = read_flushed p (flush s)

  unfoldable pub commit : Session → Session × Result (Unit {0})
  commit s = on_engine s (C.commit s.engine)

  unfoldable pub discard : Session → Session × Result (Unit {0})
  discard s = on_engine s (C.discard s.engine)
