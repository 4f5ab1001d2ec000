-- ===== src/Tests/Scaffolds.antt =====
-- A scaffold of one file, over a disk that holds the same text everywhere.
use project_builder_sdk.Base.{
  true, false, ◌==◌, if◌then◌else◌, Option, none, some, List, [], ◌∷◌, Text, codes, ◌≡◌, refl,
}
use project_builder_sdk.Wire.Value.{str, undefined, obj, end}
use project_builder_sdk.Errors.{Result, ok}
use project_builder_sdk.Session.{Session}
use project_builder_sdk.Scaffold.Walk.{
  FileKind, symbolic_link, directory, other_kind, Folder, walk_folder, walk_loop, visit_directory,
  names_of, visit, enumerate, sorted, insert_sorted, compare_texts,
}
use project_builder_sdk.Scaffold.Walk.Ends.{FolderEnds, walk_folder-FolderEnds}
use project_builder_sdk.Scaffold.PathGuards.{regular}
use project_builder_sdk.Scaffold.Expander.Groups.{recorder}
use project_builder_sdk.Scaffold.Classify.{Disk, ClassifyParams}
use project_builder_sdk.Scaffold.Glob.{glob_to_regex, test, is_included}
use project_builder_sdk.Scaffold.Mirror.{ScaffoldArgs}

abbrev one_text : Disk
one_text = record {
  resolved = λ package_dir p. p;
  stat_sync = λ p. regular 1;
  read_file_sync = λ p. some (codes "x");
  decode = λ buf. some buf;
}

abbrev one_file : Text → Text → Result (List Text)
one_file package_dir from = ok (codes "__name__.ts.template" ∷ [])

abbrev folder_args : ScaffoldArgs
folder_args = record {
  from = str (codes "files");
  to = str (codes "src");
  options = undefined;
  include = undefined;
  exclude = undefined;
  rename = none;
  force = none;
}

abbrev empty_session : Session recorder
empty_session = record { pending = []; engine = [] }

abbrev one_source : ClassifyParams
one_source = record {
  package_dir = codes "/pkg";
  rel_path = codes "files/a";
  is_template_marked = false;
  dest_path = codes "src/a";
  options = obj end;
  force = none;
  has_fail_messages = false;
}

-- A "?" in a pattern makes the unit before it optional, and stands for nothing at the front.
question_optional : is_included (codes "") (some (codes "a?" ∷ [])) none ≡ some true
unfolding is_included glob_to_regex test
question_optional = refl

question_no_unit : is_included (codes "a?") (some (codes "a?" ∷ [])) none ≡ some false
unfolding is_included glob_to_regex test
question_no_unit = refl

question_first : is_included (codes "?a") (some (codes "?a" ∷ [])) none ≡ none
unfolding is_included glob_to_regex test
question_first = refl

-- A file, a folder with a file, and a link to a folder.
abbrev file_kind : Text → Option FileKind
file_kind [] = some directory
file_kind (c ∷ []) =
    if c == 0x64 then some directory else if c == 0x6C then some symbolic_link else some other_kind
file_kind _ = some other_kind

abbrev folder_names : Text → Option (List Text)
folder_names [] = some (codes "l" ∷ codes "d" ∷ codes "a" ∷ [])
folder_names _ = some (codes "b" ∷ [])

abbrev small_folder : Folder
small_folder = record { lstat = file_kind; readdir = folder_names; leads_to_directory = λ p. true }

walk_folder-FolderEnds_example : FolderEnds small_folder 10 (walk_folder small_folder 10)
walk_folder-FolderEnds_example = walk_folder-FolderEnds small_folder 10

-- The link is passed over, and the folder is descended after the names of the root.
walked :
    walk_folder small_folder 10
    ≡ some (
        ok
          (record { dir_stack = []; entries = codes "a" ∷ codes "d/b" ∷ []; enumerated_count = 4 }))
unfolding walk_folder walk_loop visit_directory names_of visit enumerate sorted insert_sorted
    compare_texts
walked = refl
