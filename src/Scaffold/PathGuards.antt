-- ===== src/Scaffold/PathGuards.antt =====
-- scaffold/path-guards.ts: the lexical screen of package sources and destinations, and the hygiene of
-- a source on disk. What `statSync` answers for a resolved path is a parameter.
pub mod Lexical
use project_builder_sdk.Base.{
  ℕ, Bool, true, false, ◌&&◌, ◌||◌, Option, none, some, List, [], ◌∷◌, Text, codes, text_eq, has,
  leb, ◌==◌, if◌then◌else◌,
}
use project_builder_sdk.Wire.Value.{JsValue, str}
use project_builder_sdk.Errors.{
  applied_first, Thrown, authoring, authoring_error, AuthoringReason, source_not_found,
  source_not_regular_file, source_unreadable, invalid_input_error, Result, ok, err,
}

abbrev pub is_separator : ℕ → Bool
is_separator c = c == b'/' || c == b'\\'

abbrev pub starts_separator : Text → Bool
starts_separator [] = false
starts_separator (c ∷ s) = is_separator c

abbrev pub push_unit : ℕ → List Text → List Text
push_unit c [] = (c ∷ []) ∷ []
push_unit c (t ∷ ts) = (c ∷ t) ∷ ts

-- `split(/[\\/]+/)`: a run of separators is one boundary.
unfoldable pub segments : Text → List Text
segments [] = [] ∷ []
segments (c ∷ s) =
    let rest = segments s in
    if is_separator c then (if starts_separator s then rest else [] ∷ rest) else push_unit c rest

abbrev pub is_letter : ℕ → Bool
is_letter c = (leb b'A' c && leb c b'Z') || (leb b'a' c && leb c b'z')

-- `startsWith("/") || /^[A-Za-z]:[\\/]/`
abbrev pub is_absolute : Text → Bool
is_absolute (c ∷ d ∷ e ∷ _) = c == b'/' || (is_letter c && d == b':' && is_separator e)
is_absolute (c ∷ _) = c == b'/'
is_absolute [] = false

unfoldable pub is_lexically_escaping : Text → Bool
unfolding segments
is_lexically_escaping p = is_absolute p || has (segments p) (codes "..")

-- The two validations differ in their messages only, which are left out.
abbrev screened : JsValue → Result (Unit {0})
screened (str p) = if is_lexically_escaping p then err invalid_input_error else ok tt
screened _ = err invalid_input_error

unfoldable pub validate_source_lexical : JsValue → Result (Unit {0})
unfolding is_lexically_escaping invalid_input_error
validate_source_lexical v = screened v

unfoldable pub validate_destination_lexical : JsValue → Result (Unit {0})
unfolding is_lexically_escaping invalid_input_error
validate_destination_lexical v = screened v

-- What `statSync` comes to: an exception, with its `code` where it has one, or the kind of the file.
pub data Stat : Type 0 where
  fails : Option Text → Stat
  directory : Stat
  regular : ℕ → Stat
  special : Stat

unfoldable pub source_rejection : AuthoringReason → Text → Thrown
unfolding authoring_error
source_rejection reason p = authoring (authoring_error none (some p) reason (applied_first 0))

abbrev failure_reason : Option Text → AuthoringReason
failure_reason none = source_unreadable
failure_reason (some code) =
    if text_eq code (codes "ENOENT")
      || text_eq code (codes "ENOTDIR")
      || text_eq code (codes "ENAMETOOLONG")
    then source_not_found
    else source_unreadable

-- `resolved` is `resolve(join(packageDir, relPath))`, and `stat_sync` the disk.
module _ (resolved : Text → Text → Text) (stat_sync : Text → Stat) where
  abbrev classified : Text → Text → Stat → Result (Text × ℕ)
  classified abs p (fails code) = err (source_rejection (failure_reason code) p)
  classified abs p directory = err (source_rejection source_not_regular_file p)
  classified abs p (regular size) = ok (abs, size)
  classified abs p special = err (source_rejection source_not_regular_file p)

  -- The path and the size of a source that may be read.
  unfoldable pub stat_source_for_read : Text → Text → Result (Text × ℕ)
  unfolding source_rejection
  stat_source_for_read package_dir p =
      classified (resolved package_dir p) p (stat_sync (resolved package_dir p))
