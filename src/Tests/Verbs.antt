-- ===== src/Tests/Verbs.antt =====
-- Chains of verbs on one small tree, and a name that is checked.
use project_builder_sdk.Base.{
  false, none, some, List, [], ◌∷◌, ◌++◌, Text, codes, text_eq, Text-discrete, ◌≡◌, refl,
  if◌then◌else◌,
}
use project_builder_sdk.Fake.{fake_client, start, effective_force}
use project_builder_sdk.Fake.Spec.{View, update, done, spec, spec_all}
use project_builder_sdk.Errors.{Result, ok}
use project_builder_sdk.Names.{assert_valid_import_binding, validated_op}
use project_builder_sdk.Names.Grammar.{Guarded, validated_op-Guarded}
use project_builder_sdk.Session.{Session}
use project_builder_sdk.Verbs.{
  HandleVerb, replace_content, copy, handle_directive, handle_path, chained,
}
use project_builder_sdk.Verbs.Follows.{directives_of, content_after, chained-Follows}

abbrev a : Text
a = codes "a"

abbrev b : Text
b = codes "b"

abbrev one_file : View
one_file p = if text_eq p a then some (codes "1") else none

abbrev verbs : List HandleVerb
verbs = replace_content (codes "2") ∷ copy b none ∷ []

abbrev both_files : View
both_files = update b (some (codes "2")) (update a (some (codes "2")) one_file)

abbrev new_session : Session fake_client
new_session = record { pending = []; engine = start [] }

carried_out : spec_all (directives_of verbs a) false one_file ≡ done both_files
unfolding spec_all spec directives_of handle_directive handle_path effective_force Text-discrete
carried_out = refl

there : one_file a ≡ some (codes "1")
unfolding Text-discrete
there = refl

chained-Follows_example :
    ((chained fake_client verbs a new_session).0.pending
      ≡ new_session.pending ++ directives_of verbs a)
    × (both_files (chained fake_client verbs a new_session).1
        ≡ some (content_after verbs (codes "1")))
chained-Follows_example =
    chained-Follows fake_client verbs a new_session one_file both_files (codes "1") there
      carried_out

-- An op that would add the binding, called with a reserved word.
abbrev add_binding : Text → Text → Text × Result (Unit {0})
add_binding name ast = (ast ++ name, ok tt)

validated_op-Guarded_example :
    Guarded (codes "class") (add_binding (codes "class")) a (
      validated_op
        (λ n. assert_valid_import_binding n (codes "name"))
        add_binding
        (codes "class")
        a)
validated_op-Guarded_example = validated_op-Guarded (codes "name") add_binding (codes "class") a
