-- ===== src/Verbs/Follows.antt =====
-- A chain of verbs on a handle ends at the path where the file is.
use project_builder_sdk.Base.{
  Bool, true, false, Option, none, some, List, [], ◌∷◌, ◌++◌, Text, text_eq, text_eq_iff, ◌≡◌, ◌⊎◌,
  inl, inr, refl, sym, ap, ◌∙◌, arith, append_assoc, append-nil, Bool-cases,
}
use project_builder_sdk.Wire.{Directive}
use project_builder_sdk.Engine.{EngineClient}
use project_builder_sdk.Session
use project_builder_sdk.Session.{Session}
use project_builder_sdk.Fake.{rename_target, move_target}
use project_builder_sdk.Fake.Spec.{
  View, Verdict, done, clash, missing, spec, spec_all, update, unless_taken,
}
use project_builder_sdk.Verbs.{
  HandleVerb, replace_content, rename, move, copy, handle_directive, handle_path, handle_verb,
  chained, renamed_in,
}
use project_builder_sdk.PosixPath.{dirname, basename, join}

-- The directives of a chain, and what the file holds after it.
unfoldable pub directives_of : List HandleVerb → Text → List Directive
directives_of [] path = []
directives_of (verb ∷ verbs) path =
    handle_directive verb path ∷ directives_of verbs (handle_path verb path)

abbrev content_behind : HandleVerb → Text → Text
content_behind (replace_content content) c = content
content_behind _ c = c

pub content_after : List HandleVerb → Text → Text
content_after [] c = c
content_after (verb ∷ verbs) c = content_after verbs (content_behind verb c)

abbrev view_of : View → Verdict → View
view_of v (done w) = w
view_of v _ = v

done-View : (v w : View) → done v ≡ done w → v ≡ w
done-View v w e = ap (view_of v) e

unless_taken-done :
    (o : Option Text) (force : Bool) (v w : View) → unless_taken o force (done v) ≡ done w → v ≡ w
unless_taken-done none force v w e = done-View v w e
unless_taken-done (some _) true v w e = done-View v w e
unless_taken-done (some _) false v w e = absurd (ground (arith, e))

update-same : (p : Text) (o : Option Text) (v : View) → update p o v p ≡ o
update-same p o v = ground arith

-- What is put at a path is there.
put-View :
    (p : Text) (o : Option Text) (u v w : View) (taken : Option Text) (force : Bool)
    → unless_taken taken force (done (update p o u)) ≡ done w
    → w p ≡ o
put-View p o u v w taken force e =
    sym (ap (λ (x : View). x p) (unless_taken-done taken force (update p o u) w e))
    ∙ update-same p o u

-- A verb that is not refused leaves the file at the path of its handle.
verb-Follows :
    (verb : HandleVerb) (path : Text) (v w : View) (c : Text)
    → v path ≡ some c
    → spec (handle_directive verb path) false v ≡ done w
    → w (handle_path verb path) ≡ some (content_behind verb c)
unfolding spec handle_directive handle_path rename_target move_target
verb-Follows (replace_content content) path v w c h e =
    put-View path (some content) v v w none false (rw h at e)
verb-Follows (rename n f) path v w c h e =
    put-View (renamed_in (dirname path) n) (some c) _ v w _ _ (rw h at e)
verb-Follows (move dir f) path v w c h e =
    elim (Bool-cases (text_eq (join dir (basename path)) path)) [
      | inl t ↦
          let same : join dir (basename path) ≡ path =
            (text_eq_iff (join dir (basename path)) path).0 t in
          let kept : v ≡ w = done-View v w (rw (h, t) at e) in
          rw same (sym (ap (λ (x : View). x path) kept) ∙ h)
      | inr t ↦ put-View (join dir (basename path)) (some c) _ v w _ _ (rw (h, t) at e)
    ]
verb-Follows (copy to f) path v w c h e = put-View to (some c) v v w _ _ (rw h at e)

Verdict-cases : (x : Verdict) → ((u : View) × (x ≡ done u)) ⊎ ((x ≡ clash) ⊎ (x ≡ missing))
Verdict-cases (done u) = inl (u, refl)
Verdict-cases clash = inr (inl refl)
Verdict-cases missing = inr (inr refl)

-- The first directive of those that are carried out is carried out.
spec_all-first :
    (d : Directive) (ds : List Directive) (v w : View)
    → spec_all (d ∷ ds) false v ≡ done w
    → (u : View) × (spec d false v ≡ done u) × (spec_all ds false u ≡ done w)
unfolding spec_all
spec_all-first d ds v w e = elim (Verdict-cases (spec d false v)) [
  | inl (u, x) ↦ (u, x, rw (x, spec_all) at e)
  | inr (inl x) ↦ let e' : clash ≡ done w = rw (x, spec_all) at e in absurd (ground (arith, e'))
  | inr (inr x) ↦ let e' : missing ≡ done w = rw (x, spec_all) at e in absurd (ground (arith, e'))
]

chained-path :
    (C : EngineClient) (verbs : List HandleVerb) (path : Text) (s : Session C) (v w : View)
    (c : Text)
    → v path ≡ some c
    → spec_all (directives_of verbs path) false v ≡ done w
    → w (chained C verbs path s).1 ≡ some (content_after verbs c)
unfolding chained directives_of content_after spec_all handle_verb
chained-path C [] path s v w c h e = sym (ap (λ (x : View). x path) (done-View v w e)) ∙ h
chained-path C (verb ∷ verbs) path s v w c h e =
    let (u, first, rest) = spec_all-first (handle_directive verb path) _ v w e in
    chained-path C verbs (handle_path verb path) _ u w (content_behind verb c)
      (verb-Follows verb path v u c h first) rest

chained-pending :
    (C : EngineClient) (verbs : List HandleVerb) (path : Text) (s : Session C)
    → (chained C verbs path s).0.pending ≡ s.pending ++ directives_of verbs path
unfolding chained directives_of handle_verb Session.buffer
chained-pending C [] path s = sym (append-nil s.pending)
chained-pending C (verb ∷ verbs) path s =
    chained-pending C verbs (handle_path verb path)
      (Session.buffer C (handle_directive verb path) s)
    ∙ append_assoc s.pending (handle_directive verb path ∷ [])
        (directives_of verbs (handle_path verb path))

-- A chain of verbs on a handle buffers its directives in order behind what is pending, and where
-- the specification of the engine carries them all out, the handle that the chain returns has the
-- path at which the file is then, with the content that was last put into it. The file is at the
-- path of the first handle.
pub chained-Follows :
    (C : EngineClient) (verbs : List HandleVerb) (path : Text) (s : Session C) (v w : View)
    (c : Text)
    → v path ≡ some c
    → spec_all (directives_of verbs path) false v ≡ done w
    → ((chained C verbs path s).0.pending ≡ s.pending ++ directives_of verbs path)
      × (w (chained C verbs path s).1 ≡ some (content_after verbs c))
chained-Follows C verbs path s v w c h e =
    (chained-pending C verbs path s, chained-path C verbs path s v w c h e)
