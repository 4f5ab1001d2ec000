-- ===== src/Dialects/Compose/Merge.antt =====
-- A composition of op packs keeps every op of every pack.
use project_builder_sdk.Base.{
  false, ◌||◌, List, [], ◌∷◌, ◌++◌, map, Text, text_eq, has, ◌≡◌, inl, inr, refl, sym, ap, ◌∙◌,
  arith, append_assoc, append-nil, Bool-cases,
}
use project_builder_sdk.Base.Dict.{Dict, insert}
use project_builder_sdk.Errors.{Result, ok, err}
use project_builder_sdk.Dialects.Compose.{
  reserved_handle_names, composition_error, key_of, claim, then_claim, claim_ops,
  assert_no_composition_collision, Dialect, assign, assign_all, composed, with_ops,
}

-- Every name of the packs together.
pub entries_of : {V : Type 0} → List (Dict V) → Dict V
entries_of [] = []
entries_of (pack ∷ packs) = pack ++ entries_of packs

-- No name is reserved, claimed, or there before.
pub Unclaimed : {V : Type 0} → List Text → Dict V → Type 0
Unclaimed claimed [] = Unit
Unclaimed claimed ((name, _) ∷ ops) =
    (has reserved_handle_names name ≡ false)
    × (has claimed name ≡ false)
    × Unclaimed (name ∷ claimed) ops

-- An entry whose name is not there is put at the end.
insert-absent :
    {V : Type 0} (k : Text) (v : V) (m : Dict V)
    → has (map key_of m) k ≡ false
    → insert k v m ≡ m ++ (k, v) ∷ []
unfolding insert
insert-absent k v [] h = refl
insert-absent k v ((j, w) ∷ m) h = ground (arith, h, insert-absent k v m)

entries_of-claims :
    {V : Type 0} (ops rest : Dict V) (claimed : List Text)
    → claim_ops (ops ++ rest) claimed ≡ then_claim (claim_ops rest) (claim_ops ops claimed)
unfolding claim_ops
entries_of-claims [] rest claimed = refl
entries_of-claims ((name, op) ∷ ops) rest claimed =
    by_claim (claim name claimed) (λ c. entries_of-claims ops rest c)
  where
    by_claim :
        (r : Result (List Text))
        → ((c : List Text)
            → claim_ops (ops ++ rest) c ≡ then_claim (claim_ops rest) (claim_ops ops c))
        → then_claim (λ c. claim_ops (ops ++ rest) c) r
          ≡ then_claim (claim_ops rest) (then_claim (λ c. claim_ops ops c) r)
    by_claim (err e) ih = refl
    by_claim (ok c) ih = ih c

then_claim-ext :
    (f g : List Text → Result (List Text)) (r : Result (List Text))
    → ((c : List Text) → f c ≡ g c)
    → then_claim f r ≡ then_claim g r
then_claim-ext f g (err e) h = refl
then_claim-ext f g (ok c) h = h c

-- The nested loops go over all the entries in order.
assert-entries :
    {V : Type 0} (packs : List (Dict V)) (claimed : List Text)
    → assert_no_composition_collision packs claimed ≡ claim_ops (entries_of packs) claimed
unfolding assert_no_composition_collision entries_of claim_ops
assert-entries [] claimed = refl
assert-entries (pack ∷ packs) claimed =
    then_claim-ext (assert_no_composition_collision packs) (claim_ops (entries_of packs))
      (claim_ops pack claimed) (λ c. assert-entries packs c)
    ∙ sym (entries_of-claims pack (entries_of packs) claimed)

-- The claims go through exactly where the names are unclaimed.
Claims : {V : Type 0} → List Text → Dict V → Result (List Text) → Type 0
Claims claimed ops (ok _) = Unclaimed claimed ops
Claims claimed ops (err e) = (¬ Unclaimed claimed ops) × (e ≡ composition_error)

Claims-cons :
    {V : Type 0} (name : Text) (op : V) (ops : Dict V) (claimed : List Text)
    → has reserved_handle_names name ≡ false
    → has claimed name ≡ false
    → (x : Result (List Text)) → Claims (name ∷ claimed) ops x
    → Claims claimed ((name, op) ∷ ops) x
unfolding Claims Unclaimed
Claims-cons name op ops claimed r c (ok _) u = (r, c, u)
Claims-cons name op ops claimed r c (err e) (refuted, p) = ((λ (_, _, u). refuted u), p)

claim_ops-Claims :
    {V : Type 0} (ops : Dict V) (claimed : List Text) → Claims claimed ops (claim_ops ops claimed)
unfolding claim_ops Claims Unclaimed claim
claim_ops-Claims [] claimed = tt
claim_ops-Claims ((name, op) ∷ ops) claimed = elim (Bool-cases (has reserved_handle_names name)) [
  | inl r ↦ rw r ((λ (r', _, _). absurd (ground (arith, r, r'))), refl)
  | inr r ↦ elim (Bool-cases (has claimed name)) [
    | inl c ↦ rw r (rw c ((λ (_, c', _). absurd (ground (arith, c, c'))), refl))
    | inr c ↦ rw r (
        rw c (
          Claims-cons name op ops claimed r c (claim_ops ops (name ∷ claimed))
            (claim_ops-Claims ops (name ∷ claimed))))
  ]
]

-- What is not claimed is no name of the ops.
Covers : {V : Type 0} → List Text → Dict V → Type 0
Covers claimed ops = (k : Text) → has claimed k ≡ false → has (map key_of ops) k ≡ false

keys-append :
    {V : Type 0} (k j : Text) (v : V) (ops : Dict V)
    → has (map key_of (ops ++ (k, v) ∷ [])) j ≡ (has (map key_of ops) j || text_eq j k)
keys-append k j v [] = ground arith
keys-append k j v ((i, w) ∷ ops) = ground (arith, keys-append k j v ops)

append-Covers :
    {V : Type 0} (k : Text) (v : V) (ops : Dict V) (claimed : List Text)
    → Covers claimed ops
    → Covers (k ∷ claimed) (ops ++ (k, v) ∷ [])
unfolding Covers
append-Covers k v ops claimed c j h = ground (arith, h, c j, keys-append k j v ops)

assign-append :
    {V : Type 0} (pack ops : Dict V) (claimed : List Text)
    → Covers claimed ops
    → Unclaimed claimed pack
    → assign ops pack ≡ ops ++ pack
unfolding assign Unclaimed Covers
assign-append [] ops claimed c u = sym (append-nil ops)
assign-append ((k, v) ∷ pack) ops claimed c (r, f, u) = rw (insert-absent k v ops (c k f)) (
    assign-append pack (ops ++ (k, v) ∷ []) (k ∷ claimed) (append-Covers k v ops claimed c) u
    ∙ append_assoc ops ((k, v) ∷ []) pack)

assign-assign : {V : Type 0} (a b ops : Dict V) → assign (assign ops a) b ≡ assign ops (a ++ b)
unfolding assign
assign-assign [] b ops = refl
assign-assign ((k, v) ∷ a) b ops = assign-assign a b (insert k v ops)

assign_all-assign :
    {V : Type 0} (packs : List (Dict V)) (ops : Dict V)
    → assign_all ops packs ≡ assign ops (entries_of packs)
unfolding assign_all assign entries_of
assign_all-assign [] ops = refl
assign_all-assign (pack ∷ packs) ops =
    assign_all-assign packs (assign ops pack) ∙ assign-assign pack (entries_of packs) ops

-- A composition has the ops of the base, then those of the packs, where no name is reserved or there
-- twice; else it throws.
pub Composed : {A V : Type 0} → Dialect A V → List (Dict V) → Result (Dialect A V) → Type 0
Composed base packs (ok d) =
    Unclaimed (map key_of base.ops) (entries_of packs)
    × (d ≡ record base { ops = base.ops ++ entries_of packs })
Composed base packs (err e) =
    (¬ Unclaimed (map key_of base.ops) (entries_of packs)) × (e ≡ composition_error)

-- A composition of op packs succeeds exactly where no name is reserved, or there twice among the
-- base and the packs, and then it has the ops of the base followed by those of the packs, each
-- unchanged; everywhere else it throws.
pub with_ops-Composed :
    {A V : Type 0} (base : Dialect A V) (packs : List (Dict V))
    → Composed base packs (with_ops base packs)
unfolding with_ops Composed Claims Covers
with_ops-Composed base packs =
    by_claims (assert_no_composition_collision packs keys)
      (rw (assert-entries packs keys) (claim_ops-Claims (entries_of packs) keys))
  where
    keys : List Text
    keys = map key_of base.ops

    by_claims :
        (r : Result (List Text))
        → Claims keys (entries_of packs) r
        → Composed base packs (composed base packs r)
    by_claims (err e) h = h
    by_claims (ok c) u = (
      u,
      ap (λ ops. record base { ops = ops })
          (assign_all-assign packs base.ops
            ∙ assign-append (entries_of packs) base.ops keys (λ k f. f) u),
    )
