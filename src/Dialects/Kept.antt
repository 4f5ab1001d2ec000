-- ===== src/Dialects/Kept.antt =====
-- Every event of a run keeps the invariant of the handles.
use project_builder_sdk.Base.{
  ℕ, true, false, Option, none, some, Text, ◌≡◌, inl, inr, refl, ap, arith, ◌==◌, Bool-cases,
  ==_iff,
}
use project_builder_sdk.Errors.{Result, ok, err}
use project_builder_sdk.Engine.{EngineClient}
use project_builder_sdk.Dialects.Handle.{
  DialectAst, Edit, Handle, put, is_buffered, same_content, set_handle, print_live, content, flush,
  session_read, read_flushed, loaded, load, live_or_load, ensure_live,
}
use project_builder_sdk.Dialects.Steps.{
  W, has_open_pending_directive, baseline, rebaselined, gated, at_gate, ensure_open, set_live,
  answered, edited, edit_live, then_edit,
}
use project_builder_sdk.Dialects.Coalesced.{
  Inv, set_handle-Inv, content-Inv, content-frame, register-Inv, flush-Inv,
}

module _ (C : EngineClient) {Ast : Type 0} (D : DialectAst Ast) where
  abbrev pub I : W C D → Type 0
  I w = Inv C D w

  read_flushed-Inv :
      (path : Text) (x : W C D × Result (Unit {0})) → I x.0 → I (read_flushed C D path x).0
  read_flushed-Inv path (w, err e) v = v
  read_flushed-Inv path (w, ok _) v = record {
    opened = v.opened;
    pending = v.pending;
    once = v.once;
  }

  pub session_read-Inv : (path : Text) (w : W C D) → I w → I (session_read C D path w).0
  unfolding session_read
  session_read-Inv path w v = read_flushed-Inv path (flush C D w) (flush-Inv C D w v)

  loaded-Inv : (i : ℕ) (t : Text) (w : W C D) (o : Option Ast) → I w → I (loaded C D i t w o).0
  loaded-Inv i t w none v = v
  loaded-Inv i t w (some ast) v = set_handle-Inv C D i _ w refl v

  load-Inv : (i : ℕ) (x : W C D × Result (Option Text)) → I x.0 → I (load C D i x).0
  load-Inv i (w, err e) v = v
  load-Inv i (w, ok none) v = v
  load-Inv i (w, ok (some t)) v = loaded-Inv i t w (D.parse t) v

  pub ensure_live-Inv : (i : ℕ) (w : W C D) → I w → I (ensure_live C D i w).0
  unfolding ensure_live
  ensure_live-Inv i w v = by_live (w.handles i).live
    where
      by_live : (o : Option Ast) → I (live_or_load C D i w o).0
      by_live (some _) = v
      by_live none = load-Inv i _ (session_read-Inv (w.handles i).path w v)

  -- What is buffered is of another handle.
  other-owner :
      (i id : ℕ) (w : W C D)
      → has_open_pending_directive C D i w ≡ false
      → is_buffered id w.buffer ≡ true
      → I w
      → ((w.lazies id).owner == i) ≡ false
  unfolding has_open_pending_directive
  other-owner i id w p k v = elim (Bool-cases ((w.lazies id).owner == i)) [
    | inr e ↦ e
    | inl e ↦
        let e' : (w.lazies id).owner ≡ i = omega (arith, (==_iff (w.lazies id).owner i).0 e) in
        let o : (w.handles i).open_directive ≡ some id = rw e' at ((v.pending id k).0) in
        let q : is_buffered id w.buffer ≡ false = rw o at p in absurd (ground (arith, q, k))
  ]

  -- A handle whose directive is not buffered gives it up.
  close-Inv :
      (i : ℕ) (h : Handle Ast) (w : W C D)
      → has_open_pending_directive C D i w ≡ false
      → h.open_directive ≡ none
      → I w
      → I (set_handle C D i h w)
  unfolding put
  close-Inv i h w p e v = record {
    opened = λ j id k. ground (arith, e, k, v.opened j id);
    pending = λ id k. ground (arith, v.pending id k, other-owner i id w p k v);
    once = v.once;
  }

  -- Behind the new baseline the handle has no directive.
  unfoldable pub Closed : ℕ → W C D × Result (Unit {0}) → Type 0
  Closed i (w, ok _) = I w × ((w.handles i).open_directive ≡ none)
  Closed i (w, err _) = I w

  pending-frame :
      (i id : ℕ) (w : W C D)
      → has_open_pending_directive C D i (content C D id w).0 ≡ has_open_pending_directive C D i w
  unfolding has_open_pending_directive
  pending-frame i id w =
      let (b, h) = content-frame C D id w in
      let o : ((content C D id w).0.handles i).open_directive ≡ (w.handles i).open_directive =
        ap (λ (hs : ℕ → Handle Ast). (hs i).open_directive) h in
      cc

  baseline-Closed :
      (i : ℕ) (x : W C D × Option Text)
      → has_open_pending_directive C D i x.0 ≡ false
      → I x.0
      → Closed i (baseline C D i x)
  unfolding Closed put
  baseline-Closed i (w, none) p v = v
  baseline-Closed i (w, some t) p v = (close-Inv i _ w p refl v, ground arith)

  pub rebaselined-Closed :
      (i : ℕ) (o : Option ℕ) (w : W C D)
      → (w.handles i).open_directive ≡ o
      → has_open_pending_directive C D i w ≡ false
      → I w
      → Closed i (rebaselined C D i o w)
  unfolding Closed has_open_pending_directive
  rebaselined-Closed i none w e p v = (v, e)
  rebaselined-Closed i (some id) w e p v =
      baseline-Closed i (content C D id w) (rw (pending-frame i id w) p)
        (content-Inv C D id w (rw e at p) v)

  gated-Inv :
      (i : ℕ) (w : W C D) (o : Option Text)
      → I w
      → (w.handles i).open_directive ≡ none
      → I (gated C D i w o).0
  gated-Inv i w none v e = v
  gated-Inv i w (some t) v e = elim (Bool-cases (same_content (w.handles i).last_emitted_text t)) [
    | inl s ↦ rw s v
    | inr s ↦ rw s (register-Inv C D i w e v)
  ]

  at_gate-Inv : (i : ℕ) (x : W C D × Result (Unit {0})) → Closed i x → I (at_gate C D i x).0
  unfolding Closed
  at_gate-Inv i (w, err _) v = v
  at_gate-Inv i (w, ok _) (v, e) = gated-Inv i w (print_live C D (w.handles i).live) v e

  pub ensure_open-Inv : (i : ℕ) (w : W C D) → I w → I (ensure_open C D i w).0
  unfolding ensure_open
  ensure_open-Inv i w v = elim (Bool-cases (has_open_pending_directive C D i w)) [
    | inl p ↦ rw p v
    | inr p ↦ rw p (at_gate-Inv i _ (rebaselined-Closed i (w.handles i).open_directive w refl p v))
  ]

  pub set_live-Inv : (i : ℕ) (ast : Ast) (w : W C D) → I w → I (set_live C D i ast w)
  set_live-Inv i ast w v = set_handle-Inv C D i _ w refl v

  answered-Inv : (x : W C D × Result (Unit {0})) → I x.0 → I (answered C D x).0
  answered-Inv (w, ok _) v = v
  answered-Inv (w, err e) v = v

  edited-Inv :
      (i : ℕ) (tail : Text) (w : W C D) (x : Ast × Result (Unit {0}))
      → I w
      → I (edited C D i tail w x).0
  edited-Inv i tail w (ast, err e) v = set_live-Inv i ast w v
  edited-Inv i tail w (ast, ok _) v =
      answered-Inv _ (ensure_open-Inv i (set_live C D i ast w) (set_live-Inv i ast w v))

  edit_live-Inv :
      (i : ℕ) (f : Edit Ast) (tail : Text) (w : W C D) (o : Option Ast)
      → I w
      → I (edit_live C D i f tail w o).0
  edit_live-Inv i f tail w none v = v
  edit_live-Inv i f tail w (some ast) v = edited-Inv i tail w (f ast) v

  pub then_edit-Inv :
      (i : ℕ) (f : Edit Ast) (tail : Text) (x : W C D × Result (Unit {0}))
      → I x.0
      → I (then_edit C D i f tail x).0
  then_edit-Inv i f tail (w, err e) v = v
  then_edit-Inv i f tail (w, ok _) v = edit_live-Inv i f tail w (w.handles i).live v
