-- ===== src/Fake/Refines.antt =====
-- The fake's operations implement the specification on views.
use mathlib.Core.Path.{fun_ext}
use project_builder_sdk.Base.{
  ℕ, Bool, Option, none, some, Text, ◌≡◌, refl, arith, Option-cases, inl, inr,
}
use project_builder_sdk.Base.Dict.{lookup-insert, lookup-erase, has-add, has-remove}
use project_builder_sdk.Wire.Value.{JsValue}
use project_builder_sdk.Wire.{Directive, create, modify, delete, rename, move, copy, copy_in}
use project_builder_sdk.Errors.{
  applied_first, EmitRejection, EmitRejectionCode, collision, not_found,
}
use project_builder_sdk.Fake.{
  FakeState, exists, is_some, get_content, put, drop_path, Applied, applied, rejected, apply,
  rename_target, move_target,
}
use project_builder_sdk.Fake.Spec.{View, view, update, Verdict, done, clash, missing, spec}

pub exists-view : (s : FakeState) (p : Text) → exists s p ≡ is_some (view s p)
unfolding exists view
exists-view s p = ground arith

pub get_content-view : (s : FakeState) (p c : Text) → view s p ≡ some c → get_content s p ≡ c
unfolding get_content view
get_content-view s p c h = ground arith

pub view-put : (p c : Text) (s : FakeState) → view (put p c s) ≡ update p (some c) (view s)
unfolding view put
view-put p c s = fun_ext λ q. ground (arith, lookup-insert q p c s.tree, has-remove q p s.deleted)

pub view-drop_path : (p : Text) (s : FakeState) → view (drop_path p s) ≡ update p none (view s)
unfolding view drop_path
view-drop_path p s = fun_ext λ q. ground (arith, lookup-erase q p s.tree, has-add q p s.deleted)

abbrev at_index : EmitRejectionCode → ℕ → EmitRejection
at_index code i = record { code = code; failed_index = some i; applied_count = applied_first i }

-- The outcome that a verdict calls for at an index of the batch.
abbrev pub Agrees : ℕ → Verdict → Applied → Type 0
Agrees i (done v) (applied s) = view s ≡ v
Agrees i clash (rejected r) = r ≡ at_index collision i
Agrees i missing (rejected r) = r ≡ at_index not_found i
Agrees _ _ _ = ⊥

module _ (e : Bool) (i : ℕ) (s : FakeState) where
  create-Agrees :
      (p t : Text) (o : JsValue) (f : Option Bool)
      → Agrees i (spec (create p t o f) e (view s)) (apply (create p t o f) e i s)
  unfolding apply spec
  create-Agrees p t o f = ground (arith, exists-view s p, view-put p t s)

  modify-Agrees : (p c : Text) → Agrees i (spec (modify p c) e (view s)) (apply (modify p c) e i s)
  unfolding apply spec
  modify-Agrees p c = ground (arith, exists-view s p, view-put p c s)

  delete-Agrees : (p : Text) → Agrees i (spec (delete p) e (view s)) (apply (delete p) e i s)
  unfolding apply spec
  delete-Agrees p = view-drop_path p s

  copy-Agrees :
      (from to : Text) (f : Option Bool)
      → Agrees i (spec (copy from to f) e (view s)) (apply (copy from to f) e i s)
  unfolding apply spec
  copy-Agrees from to f = elim (Option-cases (view s from)) [
    | inl absent ↦ ground (arith, exists-view s from)
    | inr (c, found) ↦ ground (
      arith,
      exists-view s from,
      exists-view s to,
      get_content-view s from c found,
      view-put to c s,
    )
  ]

  copy_in-Agrees :
      (from to : Text) (f : Option Bool)
      → Agrees i (spec (copy_in from to f) e (view s)) (apply (copy_in from to f) e i s)
  unfolding apply spec
  copy_in-Agrees from to f = ground (arith, exists-view s to)

  -- The source is dropped before the destination is written.
  relocate : (src dst c : Text) → View
  relocate src dst c = update dst (some c) (update src none (view s))

  view-relocate :
      (src dst c : Text)
      → view s src ≡ some c
      → view (put dst (get_content s src) (drop_path src s)) ≡ relocate src dst c
  unfolding relocate
  view-relocate src dst c h = rw (view-put, get_content-view s src c h, view-drop_path) refl

  relocate_self : (src c : Text) → view s src ≡ some c → relocate src src c ≡ view s
  unfolding relocate
  relocate_self src c h = fun_ext λ q. ground arith

  rename-Agrees :
      (src n : Text) (f : Option Bool)
      → Agrees i (spec (rename src n f) e (view s)) (apply (rename src n f) e i s)
  unfolding apply spec relocate
  rename-Agrees src n f = elim (Option-cases (view s src)) [
    | inl absent ↦ ground (arith, exists-view s src)
    | inr (c, found) ↦ ground (
      arith,
      exists-view s src,
      exists-view s (rename_target src n),
      view-relocate src (rename_target src n) c found,
    )
  ]

  move-Agrees :
      (src dir : Text) (f : Option Bool)
      → Agrees i (spec (move src dir f) e (view s)) (apply (move src dir f) e i s)
  unfolding apply spec relocate
  move-Agrees src dir f = elim (Option-cases (view s src)) [
    | inl absent ↦ ground (arith, exists-view s src)
    | inr (c, found) ↦ ground (
      arith,
      exists-view s src,
      exists-view s (move_target src dir),
      view-relocate src (move_target src dir) c found,
      relocate_self src c found,
    )
  ]

  -- Applying a directive does to the view what the specification says, and is refused exactly where
  -- the specification refuses, with the directive's own index and count.
  pub apply-Agrees : (d : Directive) → Agrees i (spec d e (view s)) (apply d e i s)
  apply-Agrees (create p t o f) = create-Agrees p t o f
  apply-Agrees (modify p c) = modify-Agrees p c
  apply-Agrees (delete p) = delete-Agrees p
  apply-Agrees (rename src n f) = rename-Agrees src n f
  apply-Agrees (move src dir f) = move-Agrees src dir f
  apply-Agrees (copy from to f) = copy-Agrees from to f
  apply-Agrees (copy_in from to f) = copy_in-Agrees from to f
