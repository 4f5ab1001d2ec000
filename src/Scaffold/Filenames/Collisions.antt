-- ===== src/Scaffold/Filenames/Collisions.antt =====
-- Which pipelines collide, described by the sources of each destination.
use project_builder_sdk.Base.{
  ◌≤◌, ◌<◌, true, false, List, [], ◌∷◌, ◌++◌, Text, text_eq, any, length, ltb, if◌then◌else◌, ◌≡◌,
  ◌↔◌, refl, arith, append_assoc, append-nil, Bool-cases, inl, inr,
}
use project_builder_sdk.Base.Dict.{
  Dict, lookup, insert, lookup-insert, NodupKeys, insert-NodupKeys, lookup-nil,
}
use project_builder_sdk.PosixPath.{normalize}
use project_builder_sdk.Errors.{ok}
use project_builder_sdk.Scaffold.Filenames.{
  PipelineResult, or_nil, group_by_destination, is_collision, detect_destination_collisions,
}

-- The sources whose destination normalizes to `key`.
abbrev pub sources_of : Text → List PipelineResult → List Text
sources_of key [] = []
sources_of key (r ∷ rs) =
    let rest = sources_of key rs in
    if text_eq key (normalize r.dest_rel_path) then r.source_rel_path ∷ rest else rest

grouped :
    (key : Text) (rs : List PipelineResult) (m : Dict (List Text))
    → or_nil (lookup key (group_by_destination rs m)) ≡ or_nil (lookup key m) ++ sources_of key rs
unfolding group_by_destination
grouped key [] m = rw append-nil refl
grouped key (r ∷ rs) m =
    let at = normalize r.dest_rel_path in
    let srcs = or_nil (lookup at m) ++ r.source_rel_path ∷ [] in
    ground (
      arith,
      grouped key rs (insert at srcs m),
      lookup-insert key at srcs m,
      append_assoc (or_nil (lookup at m)) (r.source_rel_path ∷ []) (sources_of key rs),
    )

group-NodupKeys :
    (rs : List PipelineResult) (m : Dict (List Text))
    → NodupKeys m
    → NodupKeys (group_by_destination rs m)
unfolding group_by_destination
group-NodupKeys [] m u = u
group-NodupKeys (r ∷ rs) m u =
    let at = normalize r.dest_rel_path in
    let srcs = or_nil (lookup at m) ++ r.source_rel_path ∷ [] in
    group-NodupKeys rs (insert at srcs m) (insert-NodupKeys at srcs m u)

none_collides :
    (m : Dict (List Text)) (key : Text)
    → any is_collision m ≡ false
    → length (or_nil (lookup key m)) ≤ 1
unfolding lookup
none_collides [] key h = omega arith
none_collides ((k, srcs) ∷ m) key h = ground (arith, none_collides m key)

some_collides :
    (m : Dict (List Text))
    → NodupKeys m
    → any is_collision m ≡ true
    → (key : Text) × (1 < length (or_nil (lookup key m)))
unfolding lookup
some_collides [] u h = cc
some_collides ((k, srcs) ∷ m) (fresh, u) h = elim (Bool-cases (ltb 1 (length srcs))) [
  | inl here ↦ (k, ground (arith, here))
  | inr later ↦
      let (key, more) = some_collides m u (ground (arith, h, later)) in
      (key, ground (arith, more, fresh))
]

-- A scaffold is let through exactly when no two of its sources have the same destination, up to the
-- normalization of the path.
pub detect_destination_collisions_iff :
    (rs : List PipelineResult)
    → (detect_destination_collisions rs ≡ ok tt) ↔ ((key : Text) → length (sources_of key rs) ≤ 1)
unfolding detect_destination_collisions
detect_destination_collisions_iff rs = (distinct, passed)
  where
    m : Dict (List Text)
    m = group_by_destination rs []

    unique : NodupKeys m
    unique = group-NodupKeys rs [] tt

    counted : (key : Text) → length (or_nil (lookup key m)) ≡ length (sources_of key rs)
    counted key = ground (arith, grouped key rs [], lookup-nil {V = List Text} key)

    distinct :
        detect_destination_collisions rs ≡ ok tt → (key : Text) → length (sources_of key rs) ≤ 1
    distinct h key = omega (arith, counted key, none_collides m key (ground (arith, h)))

    passed :
        ((key : Text) → length (sources_of key rs) ≤ 1) → detect_destination_collisions rs ≡ ok tt
    passed h = elim (Bool-cases (any is_collision m)) [
      | inl clash ↦
          let (key, more) = some_collides m unique clash in
          absurd (omega (arith, more, h key, counted key))
      | inr clear ↦ rw clear refl
    ]
