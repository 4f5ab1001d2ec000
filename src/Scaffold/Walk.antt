-- ===== src/Scaffold/Walk.antt =====
-- scaffold/walk.ts, `walkFolder`: the files under a folder. The disk is a parameter, asked by paths
-- relative to the folder, whose own is the empty text.
pub mod Ends
use project_builder_sdk.Base.{
  ℕ, zero, suc, ◌+◌, Bool, true, false, Option, none, some, List, [], ◌∷◌, ◌++◌, Text, codes, ltb,
  if◌then◌else◌,
}
use project_builder_sdk.Errors.{Thrown, invalid_input_error, Result, ok, err}

pub data FileKind : Type 0 where
  symbolic_link directory other_kind : FileKind

-- Every failure of a read becomes an invalid input; the texts differ.
pub record Folder : Type 0 where
  pub lstat : Text → Option FileKind
  pub readdir : Text → Option (List Text)
  -- The `stat` of a link's target; a link whose target is missing leads to no directory.
  pub leads_to_directory : Text → Bool

pub data Comparison : Type 0 where
  before same after : Comparison

abbrev compare_units : ℕ → ℕ → Comparison → Comparison
compare_units a b rest = if ltb a b then before else if ltb b a then after else rest

-- The order of strings by their units.
unfoldable pub compare_texts : Text → Text → Comparison
compare_texts [] [] = same
compare_texts [] (_ ∷ _) = before
compare_texts (_ ∷ _) [] = after
compare_texts (a ∷ s) (b ∷ t) = compare_units a b (compare_texts s t)

unfoldable pub insert_sorted : Text → List Text → List Text
insert_sorted s [] = s ∷ []
insert_sorted s (t ∷ ts) =
    let rest = insert_sorted s ts in elim (compare_texts t s) [ after ↦ s ∷ t ∷ ts | _ ↦ t ∷ rest ]

-- `names.sort()`
unfoldable pub sorted : List Text → List Text
sorted [] = []
sorted (s ∷ ss) = insert_sorted s (sorted ss)

pub record Walk : Type 0 where
  -- The top is the head.
  pub dir_stack : List Text
  pub entries : List Text
  pub enumerated_count : ℕ

abbrev pub rel_path : Text → Text → Text
rel_path [] name = name
rel_path (c ∷ dir) name = c ∷ dir ++ codes "/" ++ name

abbrev pub entered : Text → Walk → Walk
entered path w = record w { entries = w.entries ++ path ∷ [] }

abbrev pub pushed : Text → Walk → Walk
pushed path w = record w { dir_stack = path ∷ w.dir_stack }

abbrev pub counted : Walk → Walk
counted w = record w { enumerated_count = suc w.enumerated_count }

module _ (folder : Folder) where
  -- A name by its own type: a link to a directory is passed over, and never descended.
  abbrev pub classified : Text → Option FileKind → Walk → Result Walk
  classified path none w = err invalid_input_error
  classified path (some symbolic_link) w =
      if folder.leads_to_directory path then ok w else ok (entered path w)
  classified path (some directory) w = ok (pushed path w)
  classified path (some other_kind) w = ok (entered path w)

  -- Every name counts against the bound.
  unfoldable pub enumerate : ℕ → Text → Walk → Result Walk
  enumerate bound path w =
      if ltb bound (suc w.enumerated_count)
      then err invalid_input_error
      else classified path (folder.lstat path) (counted w)

  abbrev pub visit_rest : (Walk → Result Walk) → Result Walk → Result Walk
  visit_rest rest (err e) = err e
  visit_rest rest (ok w) = rest w

  unfoldable pub visit : ℕ → Text → List Text → Walk → Result Walk
  visit bound dir [] w = ok w
  visit bound dir (name ∷ names) w =
      visit_rest (λ w'. visit bound dir names w') (enumerate bound (rel_path dir name) w)

  abbrev pub listed : Option (List Text) → Result (List Text)
  listed none = err invalid_input_error
  listed (some names) = ok (sorted names)

  abbrev pub root_names : Option FileKind → Result (List Text)
  root_names none = err invalid_input_error
  root_names (some symbolic_link) = err invalid_input_error
  root_names (some _) = listed (folder.readdir [])

  -- The root is asked for its own type first; it must not be a link.
  unfoldable pub names_of : Text → Result (List Text)
  names_of [] = root_names (folder.lstat [])
  names_of (c ∷ dir) = listed (folder.readdir (c ∷ dir))

  abbrev pub visit_names : ℕ → Text → Result (List Text) → Walk → Result Walk
  visit_names bound dir (err e) w = err e
  visit_names bound dir (ok names) w = visit bound dir names w

  -- One directory, which was taken from the stack.
  unfoldable pub visit_directory : ℕ → Text → Walk → Result Walk
  visit_directory bound dir w = visit_names bound dir (names_of dir) w

  abbrev pub after_directory : (Walk → Option (Result Walk)) → Result Walk → Option (Result Walk)
  after_directory rest (err e) = some (err e)
  after_directory rest (ok w) = rest w

  abbrev pub popped : Walk → List Text → Walk
  popped w stack = record w { dir_stack = stack }

  abbrev pub turn : (Walk → Option (Result Walk)) → ℕ → Walk → List Text → Option (Result Walk)
  turn rest bound w [] = some (ok w)
  turn rest bound w (dir ∷ stack) =
      after_directory rest (visit_directory bound dir (popped w stack))

  -- The loop over the stack; `none` is a loop that has run out of fuel.
  unfoldable pub walk_loop : ℕ → ℕ → Walk → Option (Result Walk)
  walk_loop zero bound w = none
  walk_loop (suc fuel) bound w = turn (λ w'. walk_loop fuel bound w') bound w w.dir_stack

  abbrev pub started : Walk
  started = record { dir_stack = [] ∷ []; entries = []; enumerated_count = 0 }

  unfoldable pub walk_folder : ℕ → Option (Result Walk)
  walk_folder bound = walk_loop (suc (suc bound)) bound started
