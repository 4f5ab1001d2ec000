-- ===== src/Scaffold/Walk/Ends.antt =====
-- The walk ends within its bound.
use project_builder_sdk.Base.{
  ℕ, zero, suc, ◌+◌, ◌-◌, ◌≤◌, ◌<◌, false, Option, none, some, List, [], ◌∷◌, Text, All, ltb,
  length, length-append, All-append_iff, ◌≡◌, ◌≢◌, ◌⊎◌, inl, inr, refl, arith, Bool-cases,
}
use project_builder_sdk.Errors.{invalid_input_error, Result, ok, err}
use project_builder_sdk.Scaffold.Walk.{
  FileKind, symbolic_link, directory, other_kind, Folder, Walk, entered, pushed, counted,
  classified, enumerate, visit_rest, visit, rel_path, listed, root_names, names_of, visit_names,
  visit_directory, after_directory, popped, turn, walk_loop, started, walk_folder,
}

module _ (folder : Folder) where
  -- A file, or a link that leads to no directory.
  pub IsWalkable : Text → Type 0
  IsWalkable path =
      (folder.lstat path ≡ some other_kind)
      ⊎ ((folder.lstat path ≡ some symbolic_link) × (folder.leads_to_directory path ≡ false))

  -- The entries are no more than what was counted, which is within the bound.
  pub record Within (bound : ℕ) (w : Walk) : Type 0 where
    pub count : w.enumerated_count ≤ bound
    pub total : length w.entries ≤ w.enumerated_count
    pub walkable : All IsWalkable w.entries

  -- What is put on the stack is counted; every error is one of the input.
  Bounded : ℕ → Walk → Result Walk → Type 0
  Bounded bound w (err e) = e ≡ invalid_input_error
  Bounded bound w (ok w') =
      Within bound w'
      × (length w'.dir_stack + w.enumerated_count ≤ length w.dir_stack + w'.enumerated_count)

  entered-Within :
      (bound : ℕ) (path : Text) (w : Walk)
      → w.enumerated_count < bound
      → IsWalkable path
      → Within bound w
      → Within bound (entered path (counted w))
  entered-Within bound path w h p v = record {
    count = h;
    total = omega (arith, v.total, length-append w.entries (path ∷ []));
    walkable = (All-append_iff IsWalkable w.entries (path ∷ [])).1 (v.walkable, (p, tt));
  }

  counted-Within :
      (bound : ℕ) (w : Walk)
      → w.enumerated_count < bound
      → Within bound w
      → Within bound (counted w)
  counted-Within bound w h v = record {
    count = h;
    total = omega (arith, v.total);
    walkable = v.walkable;
  }

  pushed-Within :
      (bound : ℕ) (path : Text) (w : Walk)
      → w.enumerated_count < bound
      → Within bound w
      → Within bound (pushed path (counted w))
  pushed-Within bound path w h v = record {
    count = h;
    total = omega (arith, v.total);
    walkable = v.walkable;
  }

  classified-Bounded :
      (bound : ℕ) (path : Text) (w : Walk) (k : Option FileKind)
      → folder.lstat path ≡ k
      → w.enumerated_count < bound
      → Within bound w
      → Bounded bound w (classified folder path k (counted w))
  unfolding Bounded IsWalkable
  classified-Bounded bound path w none e h v = refl
  classified-Bounded bound path w (some directory) e h v =
      (pushed-Within bound path w h v, omega arith)
  classified-Bounded bound path w (some other_kind) e h v =
      (entered-Within bound path w h (inl e) v, omega arith)
  classified-Bounded bound path w (some symbolic_link) e h v =
      elim (Bool-cases (folder.leads_to_directory path)) [
        | inl l ↦ rw l (counted-Within bound w h v, omega arith)
        | inr l ↦ rw l (entered-Within bound path w h (inr (e, l)) v, omega arith)
      ]

  enumerate-Bounded :
      (bound : ℕ) (path : Text) (w : Walk)
      → Within bound w
      → Bounded bound w (enumerate folder bound path w)
  unfolding enumerate Bounded
  enumerate-Bounded bound path w v = elim (Bool-cases (ltb bound (suc w.enumerated_count))) [
    | inl l ↦ rw l refl
    | inr l ↦ rw l (classified-Bounded bound path w (folder.lstat path) refl (ground arith) v)
  ]

  Bounded-trans :
      (bound : ℕ) (w w' : Walk) (x : Result Walk)
      → Bounded bound w (ok w')
      → Bounded bound w' x
      → Bounded bound w x
  unfolding Bounded
  Bounded-trans bound w w' (err e) a b = b
  Bounded-trans bound w w' (ok w2) (v, m) (v2, m2) = (v2, omega arith)

  rest-Bounded :
      (bound : ℕ) (w : Walk) (rest : Walk → Result Walk) (x : Result Walk)
      → Bounded bound w x
      → ((w' : Walk) → Within bound w' → Bounded bound w' (rest w'))
      → Bounded bound w (visit_rest folder rest x)
  unfolding Bounded
  rest-Bounded bound w rest (err e) b h = b
  rest-Bounded bound w rest (ok w') b h = Bounded-trans bound w w' (rest w') b (h w' b.0)

  visit-Bounded :
      (bound : ℕ) (dir : Text) (names : List Text) (w : Walk)
      → Within bound w
      → Bounded bound w (visit folder bound dir names w)
  unfolding visit Bounded
  visit-Bounded bound dir [] w v = (v, omega arith)
  visit-Bounded bound dir (name ∷ names) w v =
      rest-Bounded bound w (visit folder bound dir names)
        (enumerate folder bound (rel_path dir name) w)
        (enumerate-Bounded bound (rel_path dir name) w v)
        (λ w' v'. visit-Bounded bound dir names w' v')

  -- The names of a directory, or the one error.
  Named : Result (List Text) → Type 0
  Named (err e) = e ≡ invalid_input_error
  Named (ok _) = Unit

  listed-Named : (o : Option (List Text)) → Named (listed folder o)
  unfolding Named
  listed-Named none = refl
  listed-Named (some names) = tt

  names_of-Named : (dir : Text) → Named (names_of folder dir)
  unfolding names_of Named
  names_of-Named (c ∷ dir) = listed-Named (folder.readdir (c ∷ dir))
  names_of-Named [] = by_kind (folder.lstat [])
    where
      by_kind : (o : Option FileKind) → Named (root_names folder o)
      by_kind none = refl
      by_kind (some symbolic_link) = refl
      by_kind (some directory) = listed-Named (folder.readdir [])
      by_kind (some other_kind) = listed-Named (folder.readdir [])

  visit_directory-Bounded :
      (bound : ℕ) (dir : Text) (w : Walk)
      → Within bound w
      → Bounded bound w (visit_directory folder bound dir w)
  unfolding visit_directory Bounded Named
  visit_directory-Bounded bound dir w v = by_names (names_of folder dir) (names_of-Named dir)
    where
      by_names :
          (r : Result (List Text)) → Named r → Bounded bound w (visit_names folder bound dir r w)
      by_names (err e) h = h
      by_names (ok names) h = visit-Bounded bound dir names w v

  -- A walk ends in the one error, or with an empty stack and entries within the bound.
  pub Walked : ℕ → Result Walk → Type 0
  Walked bound (err e) = e ≡ invalid_input_error
  Walked bound (ok w) = (w.dir_stack ≡ []) × (length w.entries ≤ bound) × All IsWalkable w.entries

  Ends : ℕ → Option (Result Walk) → Type 0
  Ends bound o = (r : Result Walk) × (o ≡ some r) × Walked bound r

  after_directory-Ends :
      (bound fuel : ℕ) (w : Walk) (x : Result Walk) (rest : Walk → Option (Result Walk))
      → Bounded bound w x
      → w.enumerated_count ≤ bound
      → length w.dir_stack + (bound - w.enumerated_count) < fuel
      → ((w' : Walk)
          → Within bound w'
          → length w'.dir_stack + (bound - w'.enumerated_count) < fuel
          → Ends bound (rest w'))
      → Ends bound (after_directory folder rest x)
  unfolding Bounded Walked Ends
  after_directory-Ends bound fuel w (err e) rest b c m h = (err e, refl, b)
  after_directory-Ends bound fuel w (ok w') rest (v, n) c m h = h w' v (omega (arith, v.count))

  walk_loop-Ends :
      (fuel bound : ℕ) (w : Walk)
      → Within bound w
      → length w.dir_stack + (bound - w.enumerated_count) < fuel
      → Ends bound (walk_loop folder fuel bound w)
  unfolding walk_loop Ends Walked
  walk_loop-Ends zero bound w v m = absurd (omega arith)
  walk_loop-Ends (suc fuel) bound w v m =
      by_stack w.dir_stack refl (λ w' v' m'. walk_loop-Ends fuel bound w' v' m')
    where
      length-dirs :
          (dir : Text) (stack : List Text)
          → w.dir_stack ≡ dir ∷ stack
          → length w.dir_stack ≡ suc (length stack)
      length-dirs dir stack e = rw e refl

      by_stack :
          (ds : List Text)
          → w.dir_stack ≡ ds
          → ((w' : Walk)
              → Within bound w'
              → length w'.dir_stack + (bound - w'.enumerated_count) < fuel
              → Ends bound (walk_loop folder fuel bound w'))
          → Ends bound (turn folder (λ w'. walk_loop folder fuel bound w') bound w ds)
      by_stack [] e ih = (ok w, refl, (e, omega (arith, v.total, v.count), v.walkable))
      by_stack (dir ∷ stack) e ih =
          after_directory-Ends bound fuel (popped folder w stack)
            (visit_directory folder bound dir (popped folder w stack))
            (λ w'. walk_loop folder fuel bound w')
            (visit_directory-Bounded bound dir (popped folder w stack)
              (record { count = v.count; total = v.total; walkable = v.walkable }))
            v.count (omega (arith, m, length-dirs dir stack e)) ih

  root_link-refused :
      (bound : ℕ)
      → folder.lstat [] ≡ some symbolic_link
      → walk_folder folder bound ≡ some (err invalid_input_error)
  unfolding walk_folder walk_loop visit_directory names_of
  root_link-refused bound e = rw e refl

  -- A root that is a link is never walked.
  pub RootWalked : Result Walk → Type 0
  RootWalked (err _) = Unit
  RootWalked (ok _) = folder.lstat [] ≢ some symbolic_link

  pub FolderEnds : ℕ → Option (Result Walk) → Type 0
  FolderEnds bound o = (r : Result Walk) × (o ≡ some r) × Walked bound r × RootWalked r

  Ends-FolderEnds :
      (bound : ℕ)
      → Ends bound (walk_folder folder bound)
      → FolderEnds bound (walk_folder folder bound)
  unfolding Ends FolderEnds RootWalked
  Ends-FolderEnds bound (err e, h, v) = (err e, h, v, tt)
  Ends-FolderEnds bound (ok w, h, v) =
      (ok w, h, v, λ link. absurd (ground (arith, h, root_link-refused bound link)))

  -- The walk of a folder ends on every disk, with fuel two more than the bound: either in an
  -- invalid input, or with no folder left to visit and at most as many entries as the bound, each a
  -- file or a link that leads to no directory, and then the root is no link.
  pub walk_folder-FolderEnds : (bound : ℕ) → FolderEnds bound (walk_folder folder bound)
  unfolding walk_folder
  walk_folder-FolderEnds bound = Ends-FolderEnds bound (
      walk_loop-Ends (suc (suc bound)) bound (started folder)
        (record { count = omega arith; total = omega arith; walkable = tt }) (omega arith))
