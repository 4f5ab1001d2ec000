-- ===== src/Run/Atomic.antt =====
-- A run over the in-memory engine commits everything or nothing.
use project_builder_sdk.Base.{none, List, [], Text, ◌≡◌, refl}
use project_builder_sdk.Base.Dict.{NodupKeys, lookup}
use project_builder_sdk.Errors.{Thrown, Result, ok, err}
use project_builder_sdk.Fake
use project_builder_sdk.Fake.{FakeState, fake_client, emit, emit_check}
use project_builder_sdk.Fake.Frames.{
  Frame, Frame-refl, Frame-trans, emit-Frame, read-Frame, staged_over, lookup-commit,
}
use project_builder_sdk.Session
use project_builder_sdk.Session.{Session, flush_pending, flush_result, read_flushed, envelope}
use project_builder_sdk.Run.Invariant.{flush-P, run_script-P}
use project_builder_sdk.Wire.{Batch}
use project_builder_sdk.Run.{
  Script, Outcome, resolved, rejected, RunState, run_script, drain, run, give_up, after_script,
  after_drain, after_flush,
}

abbrev S : Type 0
S = Session fake_client

-- What the calls of the engine keep of a state before them, a session and a script keep.
module _ (e : FakeState) where
  emit-kept : (b : Batch) (s : FakeState) → Frame e s → Frame e (Fake.emit b s).0
  emit-kept b s h = Frame-trans h (emit-Frame b s)

  read-kept : (p : Text) (s : FakeState) → Frame e s → Frame e (Fake.read p s).0
  read-kept p s h = Frame-trans h (read-Frame p s)

pub flush-Frame : (s : S) → Frame s.engine (Session.flush fake_client s).0.engine
flush-Frame s =
    flush-P fake_client (Frame s.engine) (emit-kept s.engine) (read-kept s.engine) s
      (Frame-refl s.engine)

run_script-Frame :
    (k : Script) (s : S) (hs : List (Result (Unit {0})))
    → Frame s.engine (run_script fake_client k s hs).0.engine
run_script-Frame k s hs =
    run_script-P fake_client (Frame s.engine) (emit-kept s.engine) (read-kept s.engine) k s hs
      (Frame-refl s.engine)

-- The staged tree is empty.
abbrev pub IsClean : FakeState → Type 0
IsClean s = (s.tree ≡ []) × (s.deleted ≡ [])

-- The engine at the end of the calls that the factory and the last flush make.
abbrev pub staged : Script → FakeState → FakeState
staged script e =
    (Session.flush fake_client
      (run_script fake_client script (record { pending = []; engine = e }) []).0).0.engine

-- A rejected run leaves the committed tree as it was. A resolved one lays the state `t` over it.
abbrev pub Atomic : FakeState → FakeState → FakeState × Outcome → Type 0
Atomic e t (e', resolved) =
    IsClean e' × ((p : Text) → lookup p e'.committed ≡ staged_over t p (lookup p e.committed))
Atomic e t (e', rejected _ cause) = IsClean e' × (e'.committed ≡ e.committed) × (cause ≡ none)

module _ (e : FakeState) (u : NodupKeys e.tree) where
  give_up-Atomic :
      (t : FakeState) (x : Thrown) (s : S) → Frame e s.engine → Atomic e t (give_up fake_client x s)
  unfolding Fake.discard
  give_up-Atomic t x s h = ((refl, refl), h.committed, refl)

  commit-Atomic :
      (s : S) → Frame e s.engine → Atomic e s.engine ((Fake.commit s.engine).0, resolved)
  unfolding Fake.commit
  commit-Atomic s h = ((refl, refl), λ p. rw (← h.committed) (lookup-commit s.engine p (h.tree u)))

  after_flush-Atomic :
      (out : S × Result (Unit {0}))
      → Frame e out.0.engine
      → Atomic e out.0.engine (after_flush fake_client out)
  unfolding Session.commit Fake.commit
  after_flush-Atomic (s, ok _) h = commit-Atomic s h
  after_flush-Atomic (s, err x) h = give_up-Atomic s.engine x s h

  after_drain-Atomic :
      (s : S) (r : Result (Unit {0}))
      → Frame e s.engine
      → Atomic e (Session.flush fake_client s).0.engine (after_drain fake_client s r)
  after_drain-Atomic s (ok _) h = after_flush-Atomic _ (Frame-trans h (flush-Frame s))
  after_drain-Atomic s (err x) h = give_up-Atomic (Session.flush fake_client s).0.engine x s h

  after_script-Atomic :
      (st : RunState fake_client)
      → Frame e st.0.engine
      → Atomic e (Session.flush fake_client st.0).0.engine (after_script fake_client st)
  after_script-Atomic (s, hs, ok _) h = after_drain-Atomic s (drain hs) h
  after_script-Atomic (s, hs, err x) h = give_up-Atomic (Session.flush fake_client s).0.engine x s h

-- Whatever the factory does, its run over the in-memory engine either rejects and leaves the
-- committed tree untouched, or resolves and lays over it all that the factory and the last flush
-- had staged: each staged path has its staged content, each deleted one is gone, and each other
-- path keeps its content. Either way nothing stays staged. The staged tree has no key twice before
-- the run.
pub run-Atomic :
    (script : Script) (e : FakeState)
    → NodupKeys e.tree
    → Atomic e (staged script e) (run fake_client script e)
unfolding run
run-Atomic script e u =
    after_script-Atomic e u (run_script fake_client script (record { pending = []; engine = e }) [])
      (run_script-Frame script (record { pending = []; engine = e }) [])
