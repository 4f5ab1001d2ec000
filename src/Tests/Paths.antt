-- ===== src/Tests/Paths.antt =====
-- Paths and file names of a scaffold, and the directives that it makes.
use project_builder_sdk.Base.{
  true, false, none, some, List, [], ◌∷◌, Text, codes, length, ◌≡◌, ◌↔◌, ◌⊎◌, ◌≤◌, refl,
}
use project_builder_sdk.Wire.Value.{str, arr, obj, Fields, field, end, cons, nil}
use project_builder_sdk.Wire.{delete}
use project_builder_sdk.Errors.{
  applied_first, ok, EmitRejection, collision, Thrown, to_authoring_error,
}
use project_builder_sdk.Scaffold.PathGuards.{is_absolute, is_lexically_escaping}
use project_builder_sdk.Scaffold.PathGuards.Lexical.{
  Begins, Follows, dots, is_lexically_escaping_iff,
}
use project_builder_sdk.Scaffold.Filenames.{
  PipelineResult, detect_destination_collisions, split_marker, is_token, split_at_sign,
  translate_tokens,
}
use project_builder_sdk.Scaffold.Filenames.Collisions.{
  sources_of, detect_destination_collisions_iff,
}
use project_builder_sdk.Directives.{create, render_pending_directives}
use project_builder_sdk.Directives.Encoding.{Created, create-Created}
use project_builder_sdk.Directives.Rendering.{Blames, pending_at, to_authoring_error-Blames}

is_lexically_escaping_iff_example : (is_lexically_escaping (codes "a\\..") ≡ true) ↔ (
    (is_absolute (codes "a\\..") ≡ true)
    ⊎ (Begins dots (codes "a\\..") ⊎ Follows dots (codes "a\\..")))
is_lexically_escaping_iff_example = is_lexically_escaping_iff (codes "a\\..")

abbrev two_ways : List PipelineResult
two_ways =
    record { source_rel_path = codes "x"; dest_rel_path = codes "./b"; is_template_marked = false }
    ∷ record { source_rel_path = codes "y"; dest_rel_path = codes "b"; is_template_marked = true }
    ∷ []

detect_destination_collisions_iff_example :
    (detect_destination_collisions two_ways ≡ ok tt)
    ↔ ((key : Text) → length (sources_of key two_ways) ≤ 1)
detect_destination_collisions_iff_example = detect_destination_collisions_iff two_ways

-- The rendered file name in full.
rendered_name :
    translate_tokens (codes "src/__my_name@camelize__.ts")
    ≡ codes "src/{= .my_name | camelize =}.ts"
unfolding translate_tokens is_token split_at_sign split_marker
rendered_name = refl

abbrev fields : Fields
fields = field (codes "list") (arr (cons (str (codes "x")) nil)) end

create-Created_example :
    Created (codes "p") (codes "t") fields none (create (codes "p") (codes "t") (obj fields) none)
create-Created_example = create-Created (codes "p") (codes "t") fields none

abbrev refused : EmitRejection
refused = record { code = collision; failed_index = some 0; applied_count = applied_first 0 }

to_authoring_error-Blames_example :
    Blames
      (to_authoring_error
        (Thrown.emit refused)
        (record { force = false; instructions = delete (codes "p") ∷ [] }))
      (pending_at (some 0) (render_pending_directives (delete (codes "p") ∷ [])))
to_authoring_error-Blames_example =
    to_authoring_error-Blames (delete (codes "p") ∷ []) false refused
