-- ===== src/Dialects/Calls.antt =====
-- core/dialect-handle.ts: the calls that the public handle offers, and the events of a run that
-- reach its session.
use project_builder_sdk.Base.{ℕ, Bool, Option, none, some, List, [], ◌∷◌, Text, codes}
use project_builder_sdk.Wire.{Directive}
use project_builder_sdk.Errors.{Thrown, Result, ok, err}
use project_builder_sdk.Engine.{EngineClient}
use project_builder_sdk.Directives
use project_builder_sdk.Dialects.Handle.{DialectAst, Edit, Query, plain, flush, content}
use project_builder_sdk.Dialects.Steps.{
  Answer, W, run_op, run_query, run_replace_content, buffer_directive, run_read, chain, buffered,
  print_failure,
}

pub data Call (Ast : Type 0) : Type 0 where
  -- An op of the pack, by its name.
  op : Edit Ast → Text → Call Ast
  query : Query Ast → Text → Call Ast
  modify : Edit Ast → Call Ast
  replace_content : Text → Call Ast
  rename move copy : Text → Option Bool → Call Ast
  remove read : Call Ast

-- What reaches the session: a call on a handle, a directive of another verb, a flush by another read.
pub data Event (Ast : Type 0) : Type 0 where
  call : ℕ → Call Ast → Event Ast
  directive : Directive → Event Ast
  drain : Event Ast

module _ (C : EngineClient) {Ast : Type 0} (D : DialectAst Ast) where
  unfoldable pub step_of : ℕ → Call Ast → W C D → W C D × Result Answer
  step_of i (op f name) w = run_op C D i f name w
  step_of i (query f name) w = run_query C D i f name w
  step_of i (modify f) w = run_op C D i f (codes "modify") w
  step_of i (replace_content text) w = run_replace_content C D i text w
  step_of i (Call.rename name force) w =
      buffer_directive C D (Directives.rename (w.handles i).path name force) w
  step_of i (Call.move dir force) w =
      buffer_directive C D (Directives.move (w.handles i).path dir force) w
  step_of i (Call.copy to force) w =
      buffer_directive C D (Directives.copy (w.handles i).path to force) w
  step_of i Call.remove w = buffer_directive C D (Directives.remove (w.handles i).path) w
  step_of i Call.read w = run_read C D i w

  unfoldable pub perform : Event Ast → W C D → W C D
  perform (call i c) w = (chain C D i (step_of i c) w).0
  perform (directive d) w = buffered C D (plain d) w
  perform drain w = (flush C D w).0

  unfoldable pub perform_all : List (Event Ast) → W C D → W C D
  perform_all [] w = w
  perform_all (e ∷ es) w = perform_all es (perform e w)

  -- A new session, over the paths that the handles were found by.
  unfoldable pub new_session : (ℕ → Text) → C.State → W C D
  new_session paths engine = record {
    buffer = [];
    engine = engine;
    handles = λ i. record {
      path = paths i;
      live = none;
      open_directive = none;
      last_emitted_text = none;
      tail = none;
    };
    lazies = λ id. record { owner = 0; path = []; cached = none };
    next_id = 0;
    failure = none;
  }

  abbrev pub settled_content : ℕ → W C D × Option Text → W C D × Result (Unit {0})
  settled_content i (w, none) = (w, err (print_failure C D i w))
  settled_content i (w, some _) = (w, ok tt)

  abbrev pub settle_open : ℕ → Option ℕ → W C D → W C D × Result (Unit {0})
  settle_open i none w = (w, ok tt)
  settle_open i (some id) w = settled_content i (content C D id w)

  abbrev pub settle_tail : ℕ → Option Thrown → W C D → W C D × Result (Unit {0})
  settle_tail i none w = settle_open i (w.handles i).open_directive w
  settle_tail i (some e) w = (w, err e)

  -- What the drain at the end of the run awaits of a handle.
  unfoldable pub settle : ℕ → W C D → W C D × Result (Unit {0})
  settle i w = settle_tail i (w.handles i).tail w
