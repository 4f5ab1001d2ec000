-- ===== src/Dialects/Steps.antt =====
-- core/dialect-handle.ts: the steps that the methods of a handle chain, and the guard around each.
use project_builder_sdk.Base.{
  ℕ, suc, Bool, false, Option, none, some, List, [], ◌∷◌, ◌++◌, Text, codes, text_eq, if◌then◌else◌,
}
use project_builder_sdk.Wire.{Directive, modify}
use project_builder_sdk.Wire.Value.{JsValue}
use project_builder_sdk.Errors.{Thrown, Result, ok, err}
use project_builder_sdk.Engine.{EngineClient}
use project_builder_sdk.Dialects.Handle.{
  DialectAst, Edit, Query, dialect_error, quoted, contain, Buffered, plain, lazy, put, is_buffered,
  same_content, Context, set_handle, print_live, content, session_read, ensure_live,
}

-- What a step resolves to.
pub data Answer : Type 0 where
  nothing : Answer
  text_of : Option Text → Answer
  value : JsValue → Answer

abbrev pub is_open_pending : Option ℕ → List Buffered → Bool
is_open_pending none bs = false
is_open_pending (some id) bs = is_buffered id bs

-- The first failure of the session is the one that is kept and thrown.
abbrev pub first_failure : Option Thrown → Thrown → Thrown
first_failure none e = e
first_failure (some first) e = first

abbrev pub threw : Text → Text → Text
threw name path = name ++ codes "() on " ++ quoted path ++ codes " threw"

module _ (C : EngineClient) {Ast : Type 0} (D : DialectAst Ast) where
  abbrev pub W : Type 0
  W = Context C D

  -- The handle's own directive is in the buffer still.
  unfoldable pub has_open_pending_directive : ℕ → W → Bool
  has_open_pending_directive i w = is_open_pending (w.handles i).open_directive w.buffer

  abbrev pub print_failure : ℕ → W → Thrown
  print_failure i w = dialect_error (codes "could not print " ++ quoted (w.handles i).path)

  abbrev pub baseline : ℕ → W × Option Text → W × Result (Unit {0})
  baseline i (w, none) = (w, err (print_failure i w))
  baseline i (w, some t) = (
    set_handle C D i (record (w.handles i) { last_emitted_text = some t; open_directive = none }) w,
    ok tt,
  )

  -- A directive that was drained gives the new baseline.
  abbrev pub rebaselined : ℕ → Option ℕ → W → W × Result (Unit {0})
  rebaselined i none w = (w, ok tt)
  rebaselined i (some id) w = baseline i (content C D id w)

  -- A fresh lazy directive of the handle, at the end of the buffer.
  abbrev pub register : ℕ → W → W
  register i w = record w {
    buffer = w.buffer ++ lazy w.next_id ∷ [];
    handles = put i (record (w.handles i) { open_directive = some w.next_id }) w.handles;
    lazies =
        put w.next_id (record { owner = i; path = (w.handles i).path; cached = none }) w.lazies;
    next_id = suc w.next_id;
  }

  -- The gate: a print that is the last emitted text registers nothing.
  abbrev pub gated : ℕ → W → Option Text → W × Result (Unit {0})
  gated i w none = (w, err (print_failure i w))
  gated i w (some t) =
      (if same_content (w.handles i).last_emitted_text t then w else register i w, ok tt)

  abbrev pub at_gate : ℕ → W × Result (Unit {0}) → W × Result (Unit {0})
  at_gate i (w, err e) = (w, err e)
  at_gate i (w, ok _) = gated i w (print_live C D (w.handles i).live)

  unfoldable pub ensure_open : ℕ → W → W × Result (Unit {0})
  ensure_open i w =
      if has_open_pending_directive i w
      then (w, ok tt)
      else at_gate i (rebaselined i (w.handles i).open_directive w)

  -- The live tree as a call leaves it.
  abbrev pub set_live : ℕ → Ast → W → W
  set_live i ast w = set_handle C D i (record (w.handles i) { live = some ast }) w

  abbrev pub answered : W × Result (Unit {0}) → W × Result Answer
  answered (w, ok _) = (w, ok nothing)
  answered (w, err e) = (w, err e)

  abbrev pub edited : ℕ → Text → W → Ast × Result (Unit {0}) → W × Result Answer
  edited i tail w (ast, err e) = (set_live i ast w, err (contain tail e))
  edited i tail w (ast, ok _) = answered (ensure_open i (set_live i ast w))

  abbrev pub edit_live : ℕ → Edit Ast → Text → W → Option Ast → W × Result Answer
  edit_live i f tail w none = (w, err (dialect_error tail))
  edit_live i f tail w (some ast) = edited i tail w (f ast)

  abbrev pub then_edit : ℕ → Edit Ast → Text → W × Result (Unit {0}) → W × Result Answer
  then_edit i f tail (w, err e) = (w, err e)
  then_edit i f tail (w, ok _) = edit_live i f tail w (w.handles i).live

  -- The step of an op, and of `modify`.
  unfoldable pub run_op : ℕ → Edit Ast → Text → W → W × Result Answer
  run_op i f name w = then_edit i f (threw name (w.handles i).path) (ensure_live C D i w)

  abbrev pub compared : ℕ → Text → Text → JsValue → W → Option Text → W × Result Answer
  compared i name before result w none = (w, err (print_failure i w))
  compared i name before result w (some after) =
      if text_eq before after then (w, ok (value result)) else (
        w,
        err (
            dialect_error
              (name ++ codes "() is a query and must not change " ++ quoted (w.handles i).path)),
      )

  abbrev pub queried : ℕ → Text → Text → W → Ast × Result JsValue → W × Result Answer
  queried i name before w (ast, err e) =
      (set_live i ast w, err (contain (threw name (w.handles i).path) e))
  queried i name before w (ast, ok result) =
      compared i name before result (set_live i ast w) (D.print ast)

  abbrev pub query_printed : ℕ → Query Ast → Text → W → Ast → Option Text → W × Result Answer
  query_printed i f name w ast none = (w, err (print_failure i w))
  query_printed i f name w ast (some before) = queried i name before w (f ast)

  abbrev pub query_live : ℕ → Query Ast → Text → W → Option Ast → W × Result Answer
  query_live i f name w none = (w, err (print_failure i w))
  query_live i f name w (some ast) = query_printed i f name w ast (D.print ast)

  abbrev pub then_query : ℕ → Query Ast → Text → W × Result (Unit {0}) → W × Result Answer
  then_query i f name (w, err e) = (w, err e)
  then_query i f name (w, ok _) = query_live i f name w (w.handles i).live

  unfoldable pub run_query : ℕ → Query Ast → Text → W → W × Result Answer
  run_query i f name w = then_query i f name (ensure_live C D i w)

  abbrev pub buffered : Buffered → W → W
  buffered b w = record w { buffer = w.buffer ++ b ∷ [] }

  abbrev pub replace_conflict : Text → Thrown
  replace_conflict path = dialect_error (
      codes "cannot .replaceContent() "
      ++ quoted path
      ++ codes " while a structured edit is pending — the pending edit would be lost; "
      ++ codes "call .read() to commit it first, then .replaceContent()")

  unfoldable pub run_replace_content : ℕ → Text → W → W × Result Answer
  run_replace_content i text w =
      if has_open_pending_directive i w
      then (w, err (replace_conflict (w.handles i).path))
      else (buffered (plain (modify (w.handles i).path text)) w, ok nothing)

  -- `rename`, `move`, `copy` and `remove`: the directive that the factory builds.
  unfoldable pub buffer_directive : Directive → W → W × Result Answer
  buffer_directive d w = (buffered (plain d) w, ok nothing)

  abbrev pub read_answer : W × Result (Option Text) → W × Result Answer
  read_answer (w, ok o) = (w, ok (text_of o))
  read_answer (w, err e) = (w, err e)

  unfoldable pub run_read : ℕ → W → W × Result Answer
  run_read i w = read_answer (session_read C D (w.handles i).path w)

  abbrev pub reject_tail : ℕ → Thrown → W → W
  reject_tail i e w = set_handle C D i (record (w.handles i) { tail = some e }) w

  abbrev pub settled : ℕ → W × Result Answer → W × Result Answer
  settled i (w, ok a) = (w, ok a)
  settled i (w, err e) =
      let first = first_failure w.failure e in
      (reject_tail i first (record w { failure = some first }), err first)

  abbrev pub unless_failed : ℕ → (W → W × Result Answer) → Option Thrown → W → W × Result Answer
  unless_failed i step none w = settled i (step w)
  unless_failed i step (some e) w = (reject_tail i e w, err e)

  abbrev pub behind_tail : ℕ → (W → W × Result Answer) → Option Thrown → W → W × Result Answer
  behind_tail i step none w = unless_failed i step w.failure w
  behind_tail i step (some e) w = (w, err e)

  -- A step on the chain of a handle: not run behind a rejected step, nor in a session that failed.
  unfoldable pub chain : ℕ → (W → W × Result Answer) → W → W × Result Answer
  chain i step w = behind_tail i step (w.handles i).tail w
