-- ===== src/Engine.antt =====
-- core/engine-client.ts: the port that a session drives. Each call returns the client's next state
-- with what its promise settles to. The clients measure a batch before anything else, so that one
-- whose content throws when it is asked for only makes the call reject.
use project_builder_sdk.Base.{Option, Text}
use project_builder_sdk.Wire.{Batch}
use project_builder_sdk.Errors.{Thrown, Result}

pub record EngineClient : Type 1 where
  pub State : Type 0
  pub emit : Batch → State → State × Result (Unit {0})
  pub read : Text → State → State × Result (Option Text)
  pub commit : State → State × Result (Unit {0})
  pub discard : State → State × Result (Unit {0})
  -- What an emit rejects with where the content of a directive throws this.
  pub emit_throwing : Thrown → Thrown
