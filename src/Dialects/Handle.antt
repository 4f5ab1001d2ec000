-- ===== src/Dialects/Handle.antt =====
-- core/dialect-handle.ts: the controller of a dialect handle, over the buffer of a session. A step of
-- one handle runs to its end before a step of another begins.
use project_builder_sdk.Base.{
  ℕ, Bool, false, ◌||◌, Option, none, some, List, [], ◌∷◌, ◌++◌, Text, codes, text_eq, ◌==◌,
  if◌then◌else◌,
}
use project_builder_sdk.Wire.{Directive, modify}
use project_builder_sdk.Wire.Value.{JsValue}
use project_builder_sdk.Errors.{Thrown, contained, Result, ok, err}
use project_builder_sdk.Engine.{EngineClient}
use project_builder_sdk.Session.{translate, envelope}

-- The parser and the printer of a dialect, which may throw.
pub record DialectAst (Ast : Type 0) : Type 0 where
  pub parse : Text → Option Ast
  pub print : Ast → Option Text

-- What a call on a live tree leaves there, since it edits in place, and how it ends.
abbrev pub Edit : Type 0 → Type 0
Edit Ast = Ast → Ast × Result (Unit {0})

abbrev pub Query : Type 0 → Type 0
Query Ast = Ast → Ast × Result JsValue

unfoldable pub dialect_error : Text → Thrown
dialect_error tail = contained (codes "dialect operation failed: " ++ tail)

abbrev pub quoted : Text → Text
quoted path = codes "\"" ++ path ++ codes "\""

-- An error that carries the brand is thrown on; any other is replaced.
unfoldable pub contain : Text → Thrown → Thrown
contain tail (contained message) = contained message
contain tail _ = dialect_error tail

-- A modify whose content is printed when it is first asked for, and kept.
pub record LazyModify : Type 0 where
  pub owner : ℕ
  pub path : Text
  pub cached : Option Text

-- A directive in the buffer: a plain one, or the lazy one of an identity.
pub data Buffered : Type 0 where
  plain : Directive → Buffered
  lazy : ℕ → Buffered

pub record Handle (Ast : Type 0) : Type 0 where
  pub path : Text
  pub live : Option Ast
  pub open_directive : Option ℕ
  pub last_emitted_text : Option Text
  -- The reason that the chain of steps was rejected with.
  pub tail : Option Thrown

-- A map that is changed at one number.
unfoldable pub put {ℓ} : {A : Type ℓ} → ℕ → A → (ℕ → A) → ℕ → A
put i a f j = if j == i then a else f j

-- `includes` of a lazy directive, by its identity.
unfoldable pub is_buffered : ℕ → List Buffered → Bool
is_buffered id [] = false
is_buffered id (plain _ ∷ bs) = is_buffered id bs
is_buffered id (lazy j ∷ bs) = (id == j) || is_buffered id bs

abbrev pub same_content : Option Text → Text → Bool
same_content none t = false
same_content (some s) t = text_eq t s

module _ (C : EngineClient) {Ast : Type 0} (D : DialectAst Ast) where
  -- The context of a run: the session's buffer and client, the handles, the lazy directives by their
  -- identities, and the failure that poisons the session.
  pub record Context : Type 0 where
    pub buffer : List Buffered
    pub engine : C.State
    pub handles : ℕ → Handle Ast
    pub lazies : ℕ → LazyModify
    pub next_id : ℕ
    pub failure : Option Thrown

  abbrev pub set_handle : ℕ → Handle Ast → Context → Context
  set_handle i h w = record w { handles = put i h w.handles }

  abbrev pub print_live : Option Ast → Option Text
  print_live none = none
  print_live (some ast) = D.print ast

  abbrev pub memoized : ℕ → Context → Option Text → Context × Option Text
  memoized id w none = (w, none)
  memoized id w (some t) =
      (record w { lazies = put id (record (w.lazies id) { cached = some t }) w.lazies }, some t)

  abbrev pub content_from : ℕ → Context → Option Text → Context × Option Text
  content_from id w (some t) = (w, some t)
  content_from id w none = memoized id w (print_live (w.handles (w.lazies id).owner).live)

  -- The getter of the content; nothing where the printer throws.
  unfoldable pub content : ℕ → Context → Context × Option Text
  content id w = content_from id w (w.lazies id).cached

  abbrev pub with_first :
      Directive → Context × Option (List Directive) → Context × Option (List Directive)
  with_first d (w, none) = (w, none)
  with_first d (w, some ds) = (w, some (d ∷ ds))

  abbrev pub go_on :
      Text
      → (Context → Context × Option (List Directive))
      → Context × Option Text
      → Context × Option (List Directive)
  go_on path rest (w, none) = (w, none)
  go_on path rest (w, some t) = with_first (modify path t) (rest w)

  -- The batch as its contents are asked for, in order.
  unfoldable pub resolve : List Buffered → Context → Context × Option (List Directive)
  resolve [] w = (w, some [])
  resolve (plain d ∷ bs) w = with_first d (resolve bs w)
  resolve (lazy id ∷ bs) w = go_on (w.lazies id).path (λ w'. resolve bs w') (content id w)

  abbrev pub emitted :
      List Directive → Context → C.State × Result (Unit {0}) → Context × Result (Unit {0})
  emitted ds w (e, ok _) = (record w { engine = e }, ok tt)
  emitted ds w (e, err raw) = (record w { engine = e }, err (translate C raw (envelope C ds)))

  -- What the getter throws where the printer does; the translation drops the path in its text.
  abbrev pub unprintable : Thrown
  unprintable = dialect_error (codes "could not print")

  -- The client measures the batch before anything else, so a printer that throws leaves it unchanged.
  abbrev pub sent : Context × Option (List Directive) → Context × Result (Unit {0})
  sent (w, none) = (w, err (translate C (C.emit_throwing unprintable) (envelope C [])))
  sent (w, some ds) = emitted ds w (C.emit (envelope C ds) w.engine)

  abbrev pub flush_buffer : List Buffered → Context → Context × Result (Unit {0})
  flush_buffer [] w = (w, ok tt)
  flush_buffer (b ∷ bs) w = sent (resolve (b ∷ bs) (record w { buffer = [] }))

  -- `Session.flush` over a buffer with lazy directives.
  unfoldable pub flush : Context → Context × Result (Unit {0})
  flush w = flush_buffer w.buffer w

  abbrev pub served : Context → C.State × Result (Option Text) → Context × Result (Option Text)
  served w (e, r) = (record w { engine = e }, r)

  abbrev pub read_flushed : Text → Context × Result (Unit {0}) → Context × Result (Option Text)
  read_flushed path (w, err e) = (w, err e)
  read_flushed path (w, ok _) = served w (C.read path w.engine)

  unfoldable pub session_read : Text → Context → Context × Result (Option Text)
  session_read path w = read_flushed path (flush w)

  abbrev pub loaded : ℕ → Text → Context → Option Ast → Context × Result (Unit {0})
  loaded i text w none =
      (w, err (dialect_error (codes "could not parse " ++ quoted (w.handles i).path)))
  loaded i text w (some ast) = (
    set_handle i (record (w.handles i) { live = some ast; last_emitted_text = some text }) w,
    ok tt,
  )

  abbrev pub load : ℕ → Context × Result (Option Text) → Context × Result (Unit {0})
  load i (w, err e) = (w, err e)
  load i (w, ok none) = (
    w,
    err (
        dialect_error
          (quoted (w.handles i).path ++ codes " does not exist — create it first in this run")),
  )
  load i (w, ok (some text)) = loaded i text w (D.parse text)

  abbrev pub live_or_load : ℕ → Context → Option Ast → Context × Result (Unit {0})
  live_or_load i w (some _) = (w, ok tt)
  live_or_load i w none = load i (session_read (w.handles i).path w)

  unfoldable pub ensure_live : ℕ → Context → Context × Result (Unit {0})
  ensure_live i w = live_or_load i w (w.handles i).live
