-- ===== src/Dialects/Reach.antt =====
-- Whatever happens in a run, a handle has at most one lazy directive in the buffer.
use project_builder_sdk.Base.{
  ℕ, suc, ◌≤◌, Bool, true, false, Option, none, some, List, [], ◌∷◌, Text, text_eq, ◌≡◌, inl, inr,
  refl, arith, ◌==◌, if◌then◌else◌, Bool-cases, Option-cases,
}
use project_builder_sdk.Wire.Value.{JsValue}
use project_builder_sdk.Errors.{Thrown, Result, ok, err}
use project_builder_sdk.Engine.{EngineClient}
use project_builder_sdk.Dialects.Handle.{
  DialectAst, Edit, Query, plain, lazy, Buffered, LazyModify, is_buffered, ensure_live,
}
use project_builder_sdk.Dialects.Steps.{
  Answer, W, has_open_pending_directive, set_live, run_op, compared, queried, query_printed,
  query_live, then_query, run_query, run_replace_content, buffer_directive, read_answer, run_read,
  settled, unless_failed, behind_tail, chain, first_failure, reject_tail,
}
use project_builder_sdk.Dialects.Calls.{
  Call, op, query, modify, replace_content, rename, move, copy, remove, read, Event, call,
  directive, drain, step_of, perform, perform_all, new_session,
}
use project_builder_sdk.Dialects.Coalesced.{Inv, Once, set_handle-Inv, buffered-Inv, flush-Inv}
use project_builder_sdk.Dialects.Kept.{
  session_read-Inv, ensure_live-Inv, set_live-Inv, then_edit-Inv,
}

-- How many lazy directives of a handle are in a buffer.
pub count_of : ℕ → (ℕ → LazyModify) → List Buffered → ℕ
count_of i lazies [] = 0
count_of i lazies (plain _ ∷ bs) = count_of i lazies bs
count_of i lazies (lazy id ∷ bs) =
    let rest = count_of i lazies bs in if (lazies id).owner == i then suc rest else rest

abbrev bit : Bool → ℕ
bit true = 1
bit false = 0

bit-le : (b : Bool) → bit b ≤ 1
bit-le true = omega arith
bit-le false = omega arith

-- A handle whose only directive is `x` has it there once at most.
count_of-bound :
    (i x : ℕ) (lazies : ℕ → LazyModify) (bs : List Buffered)
    → Once bs
    → ((id : ℕ) → is_buffered id bs ≡ true → (lazies id).owner ≡ i → id ≡ x)
    → count_of i lazies bs ≤ bit (is_buffered x bs)
unfolding count_of Once is_buffered
count_of-bound i x lazies [] o h = omega arith
count_of-bound i x lazies (plain _ ∷ bs) o h = count_of-bound i x lazies bs o h
count_of-bound i x lazies (lazy id ∷ bs) (a, o) h = ground (
  arith,
  a,
  h id (ground arith),
  count_of-bound i x lazies bs o (λ j k e. h j (ground (arith, k)) e),
)

module _ (C : EngineClient) {Ast : Type 0} (D : DialectAst Ast) where
  abbrev I : W C D → Type 0
  I w = Inv C D w

  compared-Inv :
      (i : ℕ) (name before : Text) (r : JsValue) (w : W C D) (o : Option Text)
      → I w
      → I (compared C D i name before r w o).0
  compared-Inv i name before r w none v = v
  compared-Inv i name before r w (some after) v = elim (Bool-cases (text_eq before after)) [
    | inl s ↦ rw s v
    | inr s ↦ rw s v
  ]

  queried-Inv :
      (i : ℕ) (name before : Text) (w : W C D) (x : Ast × Result JsValue)
      → I w
      → I (queried C D i name before w x).0
  queried-Inv i name before w (ast, err e) v = set_live-Inv C D i ast w v
  queried-Inv i name before w (ast, ok r) v =
      compared-Inv i name before r (set_live C D i ast w) (D.print ast) (set_live-Inv C D i ast w v)

  query_printed-Inv :
      (i : ℕ) (f : Query Ast) (name : Text) (w : W C D) (ast : Ast) (o : Option Text)
      → I w
      → I (query_printed C D i f name w ast o).0
  query_printed-Inv i f name w ast none v = v
  query_printed-Inv i f name w ast (some before) v = queried-Inv i name before w (f ast) v

  query_live-Inv :
      (i : ℕ) (f : Query Ast) (name : Text) (w : W C D) (o : Option Ast)
      → I w
      → I (query_live C D i f name w o).0
  query_live-Inv i f name w none v = v
  query_live-Inv i f name w (some ast) v = query_printed-Inv i f name w ast (D.print ast) v

  then_query-Inv :
      (i : ℕ) (f : Query Ast) (name : Text) (x : W C D × Result (Unit {0}))
      → I x.0
      → I (then_query C D i f name x).0
  then_query-Inv i f name (w, err e) v = v
  then_query-Inv i f name (w, ok _) v = query_live-Inv i f name w (w.handles i).live v

  op-Inv : (i : ℕ) (f : Edit Ast) (name : Text) (w : W C D) → I w → I (run_op C D i f name w).0
  unfolding run_op
  op-Inv i f name w v = then_edit-Inv C D i f _ (ensure_live C D i w) (ensure_live-Inv C D i w v)

  replace-Inv : (i : ℕ) (t : Text) (w : W C D) → I w → I (run_replace_content C D i t w).0
  unfolding run_replace_content
  replace-Inv i t w v = elim (Bool-cases (has_open_pending_directive C D i w)) [
    | inl p ↦ rw p v
    | inr p ↦ rw p (buffered-Inv C D _ w v)
  ]

  read_answer-Inv : (x : W C D × Result (Option Text)) → I x.0 → I (read_answer C D x).0
  read_answer-Inv (w, ok o) v = v
  read_answer-Inv (w, err e) v = v

  step_of-Inv : (i : ℕ) (c : Call Ast) (w : W C D) → I w → I (step_of C D i c w).0
  unfolding step_of run_query buffer_directive run_read
  step_of-Inv i (op f name) w v = op-Inv i f name w v
  step_of-Inv i (query f name) w v =
      then_query-Inv i f name (ensure_live C D i w) (ensure_live-Inv C D i w v)
  step_of-Inv i (modify f) w v = op-Inv i f _ w v
  step_of-Inv i (replace_content t) w v = replace-Inv i t w v
  step_of-Inv i (rename n force) w v = buffered-Inv C D _ w v
  step_of-Inv i (move n force) w v = buffered-Inv C D _ w v
  step_of-Inv i (copy n force) w v = buffered-Inv C D _ w v
  step_of-Inv i remove w v = buffered-Inv C D _ w v
  step_of-Inv i read w v = read_answer-Inv _ (session_read-Inv C D (w.handles i).path w v)

  reject-Inv :
      (i : ℕ) (e : Thrown) (w : W C D)
      → I w
      → I (reject_tail C D i e (record w { failure = some e }))
  reject-Inv i e w v =
      set_handle-Inv C D i _ (record w { failure = some e }) refl
        (record { opened = v.opened; pending = v.pending; once = v.once })

  settled-Inv : (i : ℕ) (x : W C D × Result Answer) → I x.0 → I (settled C D i x).0
  settled-Inv i (w, ok a) v = v
  settled-Inv i (w, err e) v = reject-Inv i (first_failure w.failure e) w v

  chain-Inv :
      (i : ℕ) (step : W C D → W C D × Result Answer) (w : W C D)
      → (I w → I (step w).0)
      → I w
      → I (chain C D i step w).0
  unfolding chain
  chain-Inv i step w h v = by_tail (w.handles i).tail
    where
      by_failure : (o : Option Thrown) → I (unless_failed C D i step o w).0
      by_failure none = settled-Inv i (step w) (h v)
      by_failure (some e) = set_handle-Inv C D i _ w refl v

      by_tail : (o : Option Thrown) → I (behind_tail C D i step o w).0
      by_tail none = by_failure w.failure
      by_tail (some e) = v

  perform-Inv : (e : Event Ast) (w : W C D) → I w → I (perform C D e w)
  unfolding perform
  perform-Inv (call i c) w v = chain-Inv i (step_of C D i c) w (step_of-Inv i c w) v
  perform-Inv (directive d) w v = buffered-Inv C D d w v
  perform-Inv drain w v = flush-Inv C D w v

  pub perform_all-Inv : (es : List (Event Ast)) (w : W C D) → I w → I (perform_all C D es w)
  unfolding perform_all
  perform_all-Inv [] w v = v
  perform_all-Inv (e ∷ es) w v = perform_all-Inv es (perform C D e w) (perform-Inv e w v)

  pub new_session-Inv : (paths : ℕ → Text) (e : C.State) → I (new_session C D paths e)
  unfolding new_session is_buffered Once
  new_session-Inv paths e = record {
    opened = λ i id k. absurd (ground (arith, k));
    pending = λ id k. absurd (ground (arith, k));
    once = tt;
  }

  open-owner :
      (i id : ℕ) (w : W C D)
      → is_buffered id w.buffer ≡ true
      → (w.lazies id).owner ≡ i
      → I w
      → (w.handles i).open_directive ≡ some id
  open-owner i id w k e v = rw e at ((v.pending id k).0)

  only_open :
      (i x : ℕ) (w : W C D)
      → I w
      → ((id : ℕ) → (w.handles i).open_directive ≡ some id → id ≡ x)
      → count_of i w.lazies w.buffer ≤ 1
  only_open i x w v h = omega (
    arith,
    bit-le (is_buffered x w.buffer),
    count_of-bound i x w.lazies w.buffer v.once (λ id k e. h id (open-owner i id w k e v)),
  )

  count-Inv : (i : ℕ) (w : W C D) → I w → count_of i w.lazies w.buffer ≤ 1
  count-Inv i w v = elim (Option-cases (w.handles i).open_directive) [
    | inl e ↦ only_open i 0 w v (λ id k. absurd (ground (arith, e, k)))
    | inr (x, e) ↦ only_open i x w v (λ id k. ground (arith, e, k))
  ]

  -- Whatever calls on its handles, directives of other verbs and flushes a session sees, a handle
  -- has at most one directive of its own in the buffer: the edits in between coalesce into it.
  pub perform_all-count :
      (paths : ℕ → Text) (engine : C.State) (es : List (Event Ast)) (i : ℕ)
      → let w = perform_all C D es (new_session C D paths engine) in
        count_of i w.lazies w.buffer ≤ 1
  perform_all-count paths engine es i =
      count-Inv i _ (perform_all-Inv es _ (new_session-Inv paths engine))
