-- ===== src/Tests/Handles.antt =====
-- Handles of a dialect whose tree is the text itself.
use project_builder_sdk.Base.{ℕ, ◌≤◌, none, some, List, [], ◌∷◌, ◌++◌, Text, codes, ◌≡◌, refl}
use project_builder_sdk.Errors.{ok}
use project_builder_sdk.Fake.{start, fake_client}
use project_builder_sdk.Dialects.Handle.{DialectAst, Edit}
use project_builder_sdk.Dialects.Steps.{W, chain}
use project_builder_sdk.Dialects.Calls.{
  Call, modify, Event, call, step_of, perform_all, new_session,
}
use project_builder_sdk.Base.Dict.{Dict}
use project_builder_sdk.Dialects.Compose.{Dialect, with_ops, route}
use project_builder_sdk.Dialects.Compose.Merge.{Composed, with_ops-Composed}
use project_builder_sdk.Dialects.Compose.Routing.{Routed, route-Routed}
use project_builder_sdk.Dialects.Reach.{count_of, perform_all-count}
use project_builder_sdk.Dialects.Poisoned.{Poisons, perform_all-Refused}

abbrev plain_text : DialectAst Text
plain_text = record { parse = λ t. some t; print = λ t. some t }

abbrev push : Edit Text
push t = (t ++ codes "!", ok tt)

abbrev paths : ℕ → Text
paths i = codes "a"

abbrev events : List (Event Text)
events = call 0 (modify push) ∷ call 0 (modify push) ∷ call 1 Call.read ∷ call 0 (modify push) ∷ []

abbrev opened : W fake_client plain_text
opened = new_session fake_client plain_text paths (start ((codes "a", codes "1") ∷ []))

perform_all-count_example :
    (let w = perform_all fake_client plain_text events opened in count_of 0 w.lazies w.buffer) ≤ 1
perform_all-count_example =
    perform_all-count fake_client plain_text paths (start ((codes "a", codes "1") ∷ [])) events 0

-- A session over no file, where the first edit is rejected.
abbrev bare : W fake_client plain_text
bare = new_session fake_client plain_text paths (start [])

not_failed : (bare.handles 0).tail ≡ none
unfolding new_session
not_failed = refl

perform_all-Refused_example :
    Poisons fake_client plain_text
      ((1, modify push) ∷ [])
      1
      Call.read
      (chain fake_client plain_text 0 (step_of fake_client plain_text 0 (modify push)) bare)
perform_all-Refused_example =
    perform_all-Refused fake_client plain_text ((1, modify push) ∷ []) 1 Call.read 0 (modify push)
      bare not_failed

abbrev base : Dialect ℕ ℕ
base = record { extensions = codes ".ts" ∷ []; ast = 0; ops = (codes "push", 1) ∷ [] }

abbrev packs : List (Dict ℕ)
packs = ((codes "pop", 2) ∷ []) ∷ ((codes "push", 3) ∷ []) ∷ []

with_ops-Composed_example : Composed base packs (with_ops base packs)
with_ops-Composed_example = with_ops-Composed base packs

abbrev routes : List Text
routes = codes ".html" ∷ codes ".component.html" ∷ []

route-Routed_example :
    Routed (codes "a.component.html") routes (route (codes "a.component.html") routes)
route-Routed_example = route-Routed (codes "a.component.html") routes
