-- ===== src/Base/Dict.antt =====
-- `Map<string, V>` as an association list in insertion order, each key once.
use project_builder_sdk.Base.Tests.{if◌then◌else◌}
use project_builder_sdk.Base.Strings.{Text, text_eq, has}
use mathlib.Core.Path.{◌≡◌, refl}
use mathlib.Core.Bool.{not, ◌&&◌, ◌||◌}
use mathlib.Core.Option.{Option, none, some}
use mathlib.Core.List.{List, [], ◌∷◌}
use native.Mathlib.Omega.{arith}

abbrev pub Dict {ℓ} : Type ℓ → Type ℓ
Dict V = List (Text × V)

module _ {ℓ} {V : Type ℓ} where
  -- `m.get(k)`
  unfoldable pub lookup : Text → Dict V → Option V
  lookup k [] = none
  lookup k ((j, v) ∷ m) = if text_eq k j then some v else lookup k m

  -- `m.set(k, v)`
  unfoldable pub insert : Text → V → Dict V → Dict V
  insert k v [] = (k, v) ∷ []
  insert k v ((j, w) ∷ m) = if text_eq k j then (k, v) ∷ m else (j, w) ∷ insert k v m

  -- `m.delete(k)`
  unfoldable pub erase : Text → Dict V → Dict V
  erase k [] = []
  erase k ((j, w) ∷ m) = let rest = erase k m in if text_eq k j then rest else (j, w) ∷ rest

  pub lookup-nil : (k : Text) → lookup k [] ≡ none
  unfolding lookup
  lookup-nil k = refl

  pub lookup-insert :
      (j k : Text) (v : V) (m : Dict V)
      → lookup j (insert k v m) ≡ (if text_eq j k then some v else lookup j m)
  unfolding lookup insert
  lookup-insert j k v [] = refl
  lookup-insert j k v (_ ∷ m) = ground (arith, lookup-insert j k v m)

  pub lookup-erase :
      (j k : Text) (m : Dict V) → lookup j (erase k m) ≡ (if text_eq j k then none else lookup j m)
  unfolding lookup erase
  lookup-erase j k [] = ground arith
  lookup-erase j k (_ ∷ m) = ground (arith, lookup-erase j k m)

-- `s.add(x)` and `s.delete(x)` of a `Set<string>`.
unfoldable pub add : Text → List Text → List Text
add x s = if has s x then s else x ∷ s

unfoldable pub remove : Text → List Text → List Text
remove x [] = []
remove x (y ∷ s) = let rest = remove x s in if text_eq x y then rest else y ∷ rest

pub has-add : (y x : Text) (s : List Text) → has (add x s) y ≡ (text_eq y x || has s y)
unfolding add
has-add y x s = ground arith

pub has-remove : (y x : Text) (s : List Text) → has (remove x s) y ≡ (not (text_eq y x) && has s y)
unfolding remove
has-remove y x [] = ground arith
has-remove y x (_ ∷ s) = ground (arith, has-remove y x s)

-- A map holds each key once.
abbrev pub NodupKeys {ℓ} : {V : Type ℓ} → Dict V → Type ℓ
NodupKeys [] = Unit
NodupKeys ((k, _) ∷ m) = (lookup k m ≡ none) × NodupKeys m

module _ {ℓ} {V : Type ℓ} where
  pub insert-NodupKeys : (k : Text) (v : V) (m : Dict V) → NodupKeys m → NodupKeys (insert k v m)
  unfolding insert
  insert-NodupKeys k v [] _ = (lookup-nil k, tt)
  insert-NodupKeys k v ((j, _) ∷ m) (fresh, u) =
      ground (arith, insert-NodupKeys k v m u, lookup-insert j k v m)

  pub erase-NodupKeys : (k : Text) (m : Dict V) → NodupKeys m → NodupKeys (erase k m)
  unfolding erase
  erase-NodupKeys k [] _ = tt
  erase-NodupKeys k ((j, _) ∷ m) (fresh, u) =
      ground (arith, erase-NodupKeys k m u, lookup-erase j k m)
