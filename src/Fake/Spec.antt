-- ===== src/Fake/Spec.antt =====
-- What the engine promises of a directive, over the view that a read gives of the staged tree.
use project_builder_sdk.Base.{
  Bool, Option, none, some, List, [], ◌∷◌, Text, text_eq, has, if◌then◌else◌,
}
use project_builder_sdk.Base.Dict.{lookup}
use project_builder_sdk.Wire.{Directive, create, modify, delete, rename, move, copy, copy_in}
use project_builder_sdk.Fake.{FakeState, effective_force, rename_target, move_target}

-- The content that a read of each path returns.
abbrev pub View : Type 0
View = Text → Option Text

abbrev pub staged_or : Option Text → Option Text → Option Text
staged_or (some c) seeded = some c
staged_or none seeded = seeded

unfoldable pub view : FakeState → View
view s p = if has s.deleted p then none else staged_or (lookup p s.tree) (lookup p s.seed)

abbrev pub update : Text → Option Text → View → View
update p o v q = if text_eq q p then o else v q

pub data Verdict : Type 0 where
  done : View → Verdict
  clash missing : Verdict

abbrev pub unless_taken : Option Text → Bool → Verdict → Verdict
unless_taken none force k = k
unless_taken (some _) force k = if force then k else clash

abbrev pub with_content : Option Text → (Text → Verdict) → Verdict
with_content none k = missing
with_content (some c) k = k c

unfoldable pub spec : Directive → Bool → View → Verdict
unfolding effective_force
spec (create p t _ f) e v = unless_taken (v p) (effective_force e f) (done (update p (some t) v))
spec (modify p c) e v = with_content (v p) (λ _. done (update p (some c) v))
spec (delete p) e v = done (update p none v)
spec (rename src n f) e v = with_content (v src) λ c.
    unless_taken (v (rename_target src n)) (effective_force e f)
      (done (update (rename_target src n) (some c) (update src none v)))
spec (move src dir f) e v = with_content (v src) λ c.
    if text_eq (move_target src dir) src
    then done v
    else unless_taken (v (move_target src dir)) (effective_force e f)
        (done (update (move_target src dir) (some c) (update src none v)))
spec (copy from to f) e v =
    with_content (v from)
      λ c. unless_taken (v to) (effective_force e f) (done (update to (some c) v))
spec (copy_in from to f) e v = unless_taken (v to) (effective_force e f) (done v)

-- The directives in order, up to the first that is refused.
unfoldable pub spec_all : List Directive → Bool → View → Verdict
spec_all [] e v = done v
spec_all (d ∷ ds) e v = elim (spec d e v) [
  | done v' ↦ spec_all ds e v'
  | clash ↦ clash
  | missing ↦ missing
]
