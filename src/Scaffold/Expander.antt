-- ===== src/Scaffold/Expander.antt =====
-- scaffold/expander.ts: the loop that buffers the directives of a scaffold, and flushes the pending
-- group where the next directive would take it over the emit budget.
pub mod Tracks
pub mod Groups
use project_builder_sdk.Base.{
  ℕ, ◌+◌, Bool, true, false, ◌&&◌, List, [], ◌∷◌, ◌++◌, length, ltb, if◌then◌else◌,
}
use project_builder_sdk.Wire.{Directive, emit_batch_budget_bytes, serialized_batch_size}
use project_builder_sdk.Wire.Size.{directive_bytes}
use project_builder_sdk.Errors.{Result}
use project_builder_sdk.Engine.{EngineClient}
use project_builder_sdk.Session
use project_builder_sdk.Session.{Session}

module _ (C : EngineClient) where
  pub record Expansion : Type 0 where
    pub session : Session C
    -- The promises of the flushes, registered for the drain at the end of the run.
    pub registered : List (Result (Unit {0}))
    pub pending_count : ℕ
    pub pending_size : ℕ

  -- The counters are seeded from what is pending before the scaffold.
  unfoldable pub start : Session C → List (Result (Unit {0})) → Expansion
  start s hs = record {
    session = s;
    registered = hs;
    pending_count = length s.pending;
    pending_size = serialized_batch_size s.pending;
  }

  abbrev flushed : Expansion → Session C × Result (Unit {0}) → Expansion
  flushed x (s, r) = record {
    session = s;
    registered = x.registered ++ r ∷ [];
    pending_count = 0;
    pending_size = serialized_batch_size [];
  }

  abbrev pub overflows : Directive → Expansion → Bool
  overflows d x =
      ltb 0 x.pending_count && ltb emit_batch_budget_bytes (x.pending_size + directive_bytes d + 1)

  unfoldable pub make_room : Directive → Expansion → Expansion
  make_room d x = if overflows d x then flushed x (Session.flush C x.session) else x

  unfoldable pub append : Directive → Expansion → Expansion
  append d x = record x {
    session = Session.buffer C d x.session;
    pending_count = x.pending_count + 1;
    pending_size =
        x.pending_size + (directive_bytes d + (if ltb 1 (x.pending_count + 1) then 1 else 0));
  }

  unfoldable pub emit_directives : List Directive → Expansion → Expansion
  unfolding make_room append
  emit_directives [] x = x
  emit_directives (d ∷ ds) x = emit_directives ds (append d (make_room d x))
