-- ===== src/Fake/Frames.antt =====
-- What the operations of the fake leave alone, and what `commit` and `discard` do.
use project_builder_sdk.Base.{
  ℕ, suc, Bool, Option, none, some, List, [], ◌∷◌, Text, has, if◌then◌else◌, ◌≡◌, refl, ◌∙◌, arith,
}
use project_builder_sdk.Base.Dict.{
  Dict, NodupKeys, lookup, insert, erase, lookup-insert, lookup-erase, insert-NodupKeys,
  erase-NodupKeys,
}
use project_builder_sdk.Wire.{Directive, create, modify, delete, rename, move, copy, copy_in, Batch}
use project_builder_sdk.Errors.{EmitRejection, Result, err, Thrown}
use project_builder_sdk.Fake.{
  FakeState, Applied, applied, rejected, apply, apply_from, emit, emit_check, settle, commit,
  promote, withdraw, put, drop_path, read, after, get_content, rename_target, move_target,
}
use project_builder_sdk.Fake.Spec.{staged_or}

-- What no operation but `commit` changes, and the staged tree being a map.
pub record Frame (s t : FakeState) : Type 0 where
  pub seed : t.seed ≡ s.seed
  pub committed : t.committed ≡ s.committed
  pub tree : NodupKeys s.tree → NodupKeys t.tree

pub Frame-refl : (s : FakeState) → Frame s s
Frame-refl s = record { seed = refl; committed = refl; tree = λ h. h }

pub Frame-trans : {s t u : FakeState} → Frame s t → Frame t u → Frame s u
Frame-trans f g = record {
  seed = g.seed ∙ f.seed;
  committed = g.committed ∙ f.committed;
  tree = λ h. g.tree (f.tree h);
}

put-Frame : (p c : Text) (s : FakeState) → Frame s (put p c s)
unfolding put
put-Frame p c s = record { seed = refl; committed = refl; tree = insert-NodupKeys p c s.tree }

drop_path-Frame : (p : Text) (s : FakeState) → Frame s (drop_path p s)
unfolding drop_path
drop_path-Frame p s = record { seed = refl; committed = refl; tree = erase-NodupKeys p s.tree }

relocate-Frame :
    (src dst : Text) (s : FakeState) → Frame s (put dst (get_content s src) (drop_path src s))
relocate-Frame src dst s =
    Frame-trans (drop_path-Frame src s) (put-Frame dst (get_content s src) (drop_path src s))

data FrameApplied (s : FakeState) : Applied → Type 0 where
  kept : {t : FakeState} → Frame s t → FrameApplied s (applied t)
  refused : {r : EmitRejection} → FrameApplied s (rejected r)

refused_or :
    (s : FakeState) {t : FakeState} (check : Option EmitRejection)
    → Frame s t
    → FrameApplied s (after check (applied t))
refused_or s none h = kept h
refused_or s (some r) h = refused

refused_or_either :
    (s : FakeState) {t : FakeState} (first second : Option EmitRejection)
    → Frame s t
    → FrameApplied s (after first (after second (applied t)))
refused_or_either s none second h = refused_or s second h
refused_or_either s (some r) second h = refused

apply-FrameApplied :
    (d : Directive) (e : Bool) (i : ℕ) (s : FakeState) → FrameApplied s (apply d e i s)
unfolding apply
apply-FrameApplied (create p t o f) e i s = refused_or s _ (put-Frame p t s)
apply-FrameApplied (modify p c) e i s = refused_or s _ (put-Frame p c s)
apply-FrameApplied (delete p) e i s = kept (drop_path-Frame p s)
apply-FrameApplied (rename src n f) e i s =
    refused_or_either s _ _ (relocate-Frame src (rename_target src n) s)
apply-FrameApplied (move src dir f) e i s =
    refused_or_either s _ _ (relocate-Frame src (move_target src dir) s)
apply-FrameApplied (copy from to f) e i s =
    refused_or_either s _ _ (put-Frame to (get_content s from) s)
apply-FrameApplied (copy_in from to f) e i s = refused_or s _ (Frame-refl s)

apply_from-Frame :
    (i : ℕ) (e : Bool) (ds : List Directive) (s : FakeState) → Frame s (apply_from i e ds s).0
unfolding apply_from
apply_from-Frame i e [] s = Frame-refl s
apply_from-Frame i e (d ∷ ds) s =
    step (apply d e i s) (apply-FrameApplied d e i s) (λ t. apply_from-Frame (suc i) e ds t)
  where
    step :
        (a : Applied)
        → FrameApplied s a
        → ((t : FakeState) → Frame t (apply_from (suc i) e ds t).0)
        → Frame s
            (elim a as (λ _. FakeState × Option EmitRejection) [
              | rejected r ↦ (s, some r)
              | applied s' ↦ apply_from (suc i) e ds s'
            ]).0
    step (applied t) (kept h) ih = Frame-trans h (ih t)
    step (rejected r) h ih = Frame-refl s

pub emit-Frame : (b : Batch) (s : FakeState) → Frame s (emit b s).0
unfolding emit
emit-Frame b s = checked (emit_check b)
  where
    settled : (out : FakeState × Option EmitRejection) → Frame s out.0 → Frame s (settle out).0
    settled (t, none) h = h
    settled (t, some r) h = h

    checked :
        (c : Option EmitRejection)
        → Frame s
            (elim c as (λ _. FakeState × Result (Unit {0})) [
              | some r ↦ (s, err (Thrown.emit r))
              | none ↦ settle (apply_from 0 b.force b.instructions s)
            ]).0
    checked none =
        settled (apply_from 0 b.force b.instructions s)
          (apply_from-Frame 0 b.force b.instructions s)
    checked (some r) = Frame-refl s

pub read-Frame : (p : Text) (s : FakeState) → Frame s (read p s).0
unfolding read
read-Frame p s = record { seed = ground arith; committed = ground arith; tree = ground arith }

-- What the staged changes make of a path: gone, rewritten or left alone.
abbrev pub staged_over : FakeState → Text → Option Text → Option Text
staged_over s p old = if has s.deleted p then none else staged_or (lookup p s.tree) old

lookup-promote :
    (p : Text) (tree committed : Dict Text)
    → NodupKeys tree
    → lookup p (promote tree committed) ≡ staged_or (lookup p tree) (lookup p committed)
unfolding promote lookup
lookup-promote p [] committed u = refl
lookup-promote p ((q, c) ∷ tree) committed u =
    ground (arith, lookup-promote p tree (insert q c committed) u.1, lookup-insert p q c committed)

lookup-withdraw :
    (p : Text) (ps : List Text) (committed : Dict Text)
    → lookup p (withdraw ps committed) ≡ (if has ps p then none else lookup p committed)
unfolding withdraw
lookup-withdraw p [] committed = refl
lookup-withdraw p (q ∷ ps) committed =
    ground (arith, lookup-withdraw p ps (erase q committed), lookup-erase p q committed)

-- `commit` lays the staged changes over the committed tree: a deleted path is gone, a staged one
-- has its new content, any other keeps what it had. The staged tree has no key twice.
pub lookup-commit :
    (s : FakeState) (p : Text)
    → NodupKeys s.tree
    → lookup p (commit s).0.committed ≡ staged_over s p (lookup p s.committed)
unfolding commit
lookup-commit s p u = ground (
  arith,
  lookup-withdraw p s.deleted (promote s.tree s.committed),
  lookup-promote p s.tree s.committed u,
)
