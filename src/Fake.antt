-- ===== src/Fake.antt =====
-- testing/contract-fake.ts: the in-memory engine. A directive is applied at once, and a rejected one
-- leaves those before it staged until `discard`.
pub mod Spec
pub mod Refines
pub mod Batches
pub mod Refusals
pub mod Frames
use project_builder_sdk.Base.{
  ℕ, zero, suc, Bool, true, false, not, ◌&&◌, ◌||◌, Option, none, some, List, [], ◌∷◌, Text, codes,
  text_eq, has, if◌then◌else◌,
}
use project_builder_sdk.Base.Dict.{Dict, lookup, insert, erase, add, remove}
use project_builder_sdk.PosixPath.{dirname, basename, join}
use project_builder_sdk.Wire.{
  Directive, create, modify, delete, rename, move, copy, copy_in, Batch, batch_value,
  is_over_budget,
}
use project_builder_sdk.Wire.Json.{Serialized, throws, omitted, text, stringify}
use project_builder_sdk.DeepEqual.{deep_equal, json_clone}
use project_builder_sdk.Errors.{
  applied_first, EmitRejection, EmitRejectionCode, collision, not_found, unrepresentable, cap,
  emit_rejection, Position, Thrown, Result, ok, err,
}
use project_builder_sdk.Engine.{EngineClient}

pub data ServedFrom : Type 0 where
  from_tree from_disk : ServedFrom

pub record FakeState : Type 0 where
  pub seed : Dict Text
  pub tree : Dict Text
  pub committed : Dict Text
  pub deleted : List Text
  pub last_served : Option ServedFrom

unfoldable pub start : Dict Text → FakeState
start seed = record { seed = seed; tree = []; committed = []; deleted = []; last_served = none }

abbrev pub is_some {ℓ} : {A : Type ℓ} → Option A → Bool
is_some none = false
is_some (some a) = true

unfoldable pub exists : FakeState → Text → Bool
exists s p = not (has s.deleted p) && (is_some (lookup p s.tree) || is_some (lookup p s.seed))

abbrev content_or : Option Text → Option Text → Text
content_or (some c) seeded = c
content_or none (some c) = c
content_or none none = []

-- Only called on a path that exists.
unfoldable pub get_content : FakeState → Text → Text
get_content s p = content_or (lookup p s.tree) (lookup p s.seed)

unfoldable pub effective_force : Bool → Option Bool → Bool
effective_force envelope none = envelope
effective_force envelope (some op) = envelope || op

abbrev at : ℕ → Option Position
at i = some (record { failed_index = i; applied_count = applied_first i })

unfoldable pub require_exists : FakeState → Text → ℕ → Option EmitRejection
unfolding exists emit_rejection
require_exists s p i = if exists s p then none else some (emit_rejection not_found (at i))

unfoldable pub reject_if_collides : FakeState → Text → Bool → ℕ → Option EmitRejection
unfolding exists emit_rejection
reject_if_collides s p effective i =
    if exists s p && not effective then some (emit_rejection collision (at i)) else none

-- `#deleted.delete(p); #tree.set(p, content);`
unfoldable pub put : Text → Text → FakeState → FakeState
put p c s = record s { tree = insert p c s.tree; deleted = remove p s.deleted }

-- `#tree.delete(p); #deleted.add(p);`
unfoldable pub drop_path : Text → FakeState → FakeState
drop_path p s = record s { tree = erase p s.tree; deleted = add p s.deleted }

pub data Applied : Type 0 where
  applied : FakeState → Applied
  rejected : EmitRejection → Applied

abbrev pub after : Option EmitRejection → Applied → Applied
after none next = next
after (some r) next = rejected r

unfoldable pub rename_target : Text → Text → Text
rename_target src new_name =
    if text_eq (dirname src) (codes ".") then new_name else join (dirname src) new_name

unfoldable pub move_target : Text → Text → Text
move_target src to_dir = join to_dir (basename src)

-- Every check of a directive stands before its first write.
unfoldable pub apply : Directive → Bool → ℕ → FakeState → Applied
unfolding require_exists reject_if_collides put drop_path get_content effective_force
apply (create p t _ f) envelope i s =
    after (reject_if_collides s p (effective_force envelope f) i) (applied (put p t s))
apply (modify p c) envelope i s = after (require_exists s p i) (applied (put p c s))
apply (delete p) envelope i s = applied (drop_path p s)
apply (rename src n f) envelope i s =
    let dst = rename_target src n in
    after (require_exists s src i) (
      after (reject_if_collides s dst (effective_force envelope f) i)
        (applied (put dst (get_content s src) (drop_path src s))))
apply (copy from to f) envelope i s = after (require_exists s from i) (
    after (reject_if_collides s to (effective_force envelope f) i)
      (applied (put to (get_content s from) s)))
apply (copy_in from to f) envelope i s =
    after (reject_if_collides s to (effective_force envelope f) i) (applied s)
apply (move src dir f) envelope i s =
    let dst = move_target src dir in
    after (require_exists s src i) (
      after
        (if text_eq dst src then none else reject_if_collides s dst (effective_force envelope f) i)
        (applied (put dst (get_content s src) (drop_path src s))))

-- The loop over the instructions, from the index `i` on.
unfoldable pub apply_from : ℕ → Bool → List Directive → FakeState → FakeState × Option EmitRejection
apply_from i envelope [] s = (s, none)
apply_from i envelope (d ∷ ds) s = elim (apply d envelope i s) [
  | rejected r ↦ (s, some r)
  | applied s' ↦ apply_from (suc i) envelope ds s'
]

abbrev pub fidelity_check : Serialized → Batch → Option EmitRejection
fidelity_check throws b = some (emit_rejection unrepresentable none)
fidelity_check _ b =
    if is_over_budget b
    then some (emit_rejection cap none)
    else if deep_equal (batch_value b) (json_clone (batch_value b))
    then none
    else some (emit_rejection unrepresentable none)

-- The checks of a whole batch, before anything is applied.
unfoldable pub emit_check : Batch → Option EmitRejection
emit_check b = fidelity_check (stringify (batch_value b)) b

abbrev settle : FakeState × Option EmitRejection → FakeState × Result (Unit {0})
settle (s, none) = (s, ok tt)
settle (s, some r) = (s, err (Thrown.emit r))

unfoldable pub emit : Batch → FakeState → FakeState × Result (Unit {0})
unfolding apply_from
emit b s = elim (emit_check b) [
  | some r ↦ (s, err (Thrown.emit r))
  | none ↦ settle (apply_from 0 b.force b.instructions s)
]

promote : Dict Text → Dict Text → Dict Text
promote [] committed = committed
promote ((p, c) ∷ tree) committed = promote tree (insert p c committed)

withdraw : List Text → Dict Text → Dict Text
withdraw [] committed = committed
withdraw (p ∷ ps) committed = withdraw ps (erase p committed)

unfoldable pub commit : FakeState → FakeState × Result (Unit {0})
unfolding promote withdraw
commit s = (
  record s { tree = []; deleted = []; committed = withdraw s.deleted (promote s.tree s.committed) },
  ok tt,
)

unfoldable pub discard : FakeState → FakeState × Result (Unit {0})
discard s = (record s { tree = []; deleted = [] }, ok tt)

abbrev serve : FakeState → Option Text → Option Text → FakeState × Option Text
serve s (some c) seeded = (record s { last_served = some from_tree }, some c)
serve s none (some c) = (record s { last_served = some from_disk }, some c)
serve s none none = (s, none)

unfoldable pub read : Text → FakeState → FakeState × Option Text
read p s = if has s.deleted p then (s, none) else serve s (lookup p s.tree) (lookup p s.seed)

abbrev pub fake_client : EngineClient
fake_client = record {
  State = FakeState;
  emit = emit;
  read = λ p s. ((read p s).0, ok (read p s).1);
  commit = commit;
  discard = discard;
  emit_throwing = λ e. Thrown.emit (emit_rejection unrepresentable none);
}
