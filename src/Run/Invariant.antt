-- ===== src/Run/Invariant.antt =====
-- What every call of an engine client keeps, a run keeps.
use project_builder_sdk.Base.{List, [], ◌∷◌, ◌++◌, Text}
use project_builder_sdk.Wire.{Batch, Directive}
use project_builder_sdk.Errors.{Result, ok, err}
use project_builder_sdk.Engine.{EngineClient}
use project_builder_sdk.Session
use project_builder_sdk.Session.{Session, flush_result, flush_pending, read_flushed, envelope}
use project_builder_sdk.Run.{Script, fail, pending, run_script}

module _ (C : EngineClient) (P : C.State → Type 0)
    (emit-P : (b : Batch) (e : C.State) → P e → P (C.emit b e).0)
    (read-P : (p : Text) (e : C.State) → P e → P (C.read p e).0) where
  flush_result-P :
      (b : Batch) (out : C.State × Result (Unit {0})) → P out.0 → P (flush_result C b out).0.engine
  flush_result-P b (e, ok _) h = h
  flush_result-P b (e, err _) h = h

  flush_pending-P :
      (ds : List Directive) (s : Session C) → P s.engine → P (flush_pending C ds s).0.engine
  flush_pending-P [] s h = h
  flush_pending-P (d ∷ ds) s h =
      flush_result-P (envelope C (d ∷ ds)) _ (emit-P (envelope C (d ∷ ds)) s.engine h)

  pub flush-P : (s : Session C) → P s.engine → P (Session.flush C s).0.engine
  unfolding Session.flush
  flush-P s h = flush_pending-P s.pending s h

  read_flushed-P :
      (p : Text) (out : Session C × Result (Unit {0}))
      → P out.0.engine
      → P (read_flushed C p out).0.engine
  read_flushed-P p (s, ok _) h = read-P p s.engine h
  read_flushed-P p (s, err _) h = h

  session_read-P : (p : Text) (s : Session C) → P s.engine → P (Session.read C p s).0.engine
  unfolding Session.read
  session_read-P p s h = read_flushed-P p (Session.flush C s) (flush-P s h)

  pub run_script-P :
      (k : Script) (s : Session C) (hs : List (Result (Unit {0})))
      → P s.engine
      → P (run_script C k s hs).0.engine
  unfolding run_script Session.buffer
  run_script-P Script.done s hs h = h
  run_script-P (fail e) s hs h = h
  run_script-P (Script.buffer d k) s hs h = run_script-P k (Session.buffer C d s) hs h
  run_script-P (Script.read p k) s hs h =
      run_script-P (k (Session.read C p s).1) (Session.read C p s).0 hs (session_read-P p s h)
  run_script-P (pending k) s hs h = run_script-P (k s.pending) s hs h
  run_script-P (Script.flush k) s hs h =
      run_script-P k (Session.flush C s).0 (hs ++ (Session.flush C s).1 ∷ []) (flush-P s h)
