-- ===== src/Run.antt =====
-- core/context.ts, `defineFactory`: a factory runs against a session; its directives are committed
-- together, or discarded together when anything throws.
pub mod Atomic
pub mod Writes
pub mod Invariant
pub mod Protocol
pub mod Boundary
use project_builder_sdk.Base.{
  Bool, true, false, Option, none, some, List, [], ◌∷◌, ◌++◌, Text, if◌then◌else◌,
}
use project_builder_sdk.Wire.{Directive}
use project_builder_sdk.Errors.{Thrown, not_an_error, Result, ok, err}
use project_builder_sdk.Engine.{EngineClient}
use project_builder_sdk.Session
use project_builder_sdk.Session.{Session}

-- The author's factory, as the calls that it makes. A factory sees what a read settles to, and what
-- is pending; `flush` is the call that `scaffold` makes between two groups, whose promise it
-- registers for the drain.
pub data Script : Type 0 where
  done : Script
  fail : Thrown → Script
  buffer : Directive → Script → Script
  read : Text → (Result (Option Text) → Script) → Script
  pending : (List Directive → Script) → Script
  flush : Script → Script

-- `Promise.allSettled` and the first rejection in the order of registration.
unfoldable pub drain : List (Result (Unit {0})) → Result (Unit {0})
drain [] = ok tt
drain (ok _ ∷ rs) = drain rs
drain (err e ∷ rs) = err e

pub data Outcome : Type 0 where
  resolved : Outcome
  -- The error, and the `cause` that a failing `discard` adds to it.
  rejected : Thrown → Option Thrown → Outcome

-- Only an `Error` takes a cause. The errors of the model carry none before.
abbrev with_cause : Thrown → Thrown → Option Thrown
with_cause not_an_error second = none
with_cause e second = some second

module _ (C : EngineClient) where
  -- The session, the registered promises, and what the factory's own promise settles to.
  abbrev pub RunState : Type 0
  RunState = Session C × List (Result (Unit {0})) × Result (Unit {0})

  unfoldable pub run_script : Script → Session C → List (Result (Unit {0})) → RunState
  run_script done s hs = (s, hs, ok tt)
  run_script (fail e) s hs = (s, hs, err e)
  run_script (Script.buffer d k) s hs = run_script k (Session.buffer C d s) hs
  run_script (Script.read p k) s hs = let (s', r) = Session.read C p s in run_script (k r) s' hs
  run_script (pending k) s hs = run_script (k s.pending) s hs
  run_script (Script.flush k) s hs =
      let (s', r) = Session.flush C s in run_script k s' (hs ++ r ∷ [])

  abbrev pub rejection : Thrown → C.State × Result (Unit {0}) → C.State × Outcome
  rejection e (engine, ok _) = (engine, rejected e none)
  rejection e (engine, err second) = (engine, rejected e (with_cause e second))

  -- The catch branch.
  abbrev pub give_up : Thrown → Session C → C.State × Outcome
  give_up e s = rejection e (C.discard s.engine)

  abbrev after_commit : Session C × Result (Unit {0}) → C.State × Outcome
  after_commit (s, ok _) = (s.engine, resolved)
  after_commit (s, err e) = give_up e s

  abbrev after_flush : Session C × Result (Unit {0}) → C.State × Outcome
  after_flush (s, ok _) = after_commit (Session.commit C s)
  after_flush (s, err e) = give_up e s

  abbrev after_drain : Session C → Result (Unit {0}) → C.State × Outcome
  after_drain s (ok _) = after_flush (Session.flush C s)
  after_drain s (err e) = give_up e s

  abbrev after_script : RunState → C.State × Outcome
  after_script (s, hs, ok _) = after_drain s (drain hs)
  after_script (s, hs, err e) = give_up e s

  -- The wrapper that `defineFactory` returns, after its checks at the run boundary.
  unfoldable pub run : Script → C.State → C.State × Outcome
  unfolding run_script drain
  run script engine = after_script (run_script script (record { pending = []; engine = engine }) [])
