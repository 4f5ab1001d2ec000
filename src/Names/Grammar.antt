-- ===== src/Names/Grammar.antt =====
-- What the check of an import binding lets through.
use project_builder_sdk.Base.{
  ℕ, ◌≤◌, true, false, [], ◌∷◌, Text, has, all, All, ◌≡◌, ◌↔◌, ◌⊎◌, inl, inr, refl, ap, arith,
  Bool-cases,
}
use project_builder_sdk.Errors.{Result, ok, err}
use project_builder_sdk.Dialects.Handle.{dialect_error}
use project_builder_sdk.Names.{
  jsx_name_denylist, import_reserved_words, starts_binding, continues_binding, is_import_binding,
  assert_grammar, assert_not_reserved_word, assert_not_denylisted, assert_valid_import_binding,
  validated, validated_op,
}

-- A letter, an underscore or a dollar; and these or a digit.
pub IsStart : ℕ → Type 0
IsStart u = ((65 ≤ u) × (u ≤ 90)) ⊎ (((97 ≤ u) × (u ≤ 122)) ⊎ ((u ≡ 95) ⊎ (u ≡ 36)))

pub IsPart : ℕ → Type 0
IsPart u = IsStart u ⊎ ((48 ≤ u) × (u ≤ 57))

pub IsIdentifier : Text → Type 0
IsIdentifier [] = ⊥
IsIdentifier (u ∷ s) = IsStart u × All IsPart s

starts_binding_iff : (u : ℕ) → (starts_binding u ≡ true) ↔ IsStart u
unfolding IsStart
starts_binding_iff u = ground arith

continues_binding_iff : (u : ℕ) → (continues_binding u ≡ true) ↔ IsPart u
unfolding IsPart IsStart
continues_binding_iff u = ground arith

all_iff : (s : Text) → (all continues_binding s ≡ true) ↔ All IsPart s
all_iff [] = ground arith
all_iff (u ∷ s) = ground (arith, continues_binding_iff u, all_iff s)

is_import_binding_iff : (s : Text) → (is_import_binding s ≡ true) ↔ IsIdentifier s
unfolding is_import_binding IsIdentifier
is_import_binding_iff [] = ground arith
is_import_binding_iff (u ∷ s) = ground (arith, starts_binding_iff u, all_iff s)

-- An identifier that is neither a reserved word nor denied.
pub IsBinding : Text → Type 0
IsBinding name =
    IsIdentifier name
    × (has import_reserved_words name ≡ false)
    × (has jsx_name_denylist name ≡ false)

-- The check passes exactly for a binding; else it throws a contained error.
Checked : Text → Result (Unit {0}) → Type 0
Checked name (ok _) = IsBinding name
Checked name (err e) = (¬ IsBinding name) × ((message : Text) × (e ≡ dialect_error message))

assert_valid_import_binding-Checked :
    (name arg_name : Text) → Checked name (assert_valid_import_binding name arg_name)
unfolding Checked IsBinding assert_valid_import_binding assert_grammar assert_not_reserved_word
    assert_not_denylisted
assert_valid_import_binding-Checked name arg_name = elim (Bool-cases (is_import_binding name)) [
  | inr g ↦
      rw g ((λ (i, _, _). absurd (ground (arith, g, i, is_import_binding_iff name))), (_, refl))
  | inl g ↦ elim (Bool-cases (has import_reserved_words name)) [
    | inl r ↦ rw g (rw r ((λ (_, r', _). absurd (ground (arith, r, r'))), (_, refl)))
    | inr r ↦ elim (Bool-cases (has jsx_name_denylist name)) [
      | inl d ↦ rw g (rw r (rw d ((λ (_, _, d'). absurd (ground (arith, d, d'))), (_, refl))))
      | inr d ↦ rw g (rw r (rw d ((is_import_binding_iff name).0 g, r, d)))
    ]
  ]
]

-- The body runs exactly for a binding; else the tree is as it was.
pub Guarded :
    {Ast : Type 0} → Text → (Ast → Ast × Result (Unit {0})) → Ast → Ast × Result (Unit {0}) → Type 0
Guarded name body ast out =
    (IsBinding name × (out ≡ body ast))
    ⊎ ((¬ IsBinding name) × ((message : Text) × (out ≡ (ast, err (dialect_error message)))))

-- An op that is guarded by the check of an import binding runs its body exactly for an identifier
-- that is neither a reserved word nor denied; for any other name it leaves the tree as it was and
-- throws a contained error.
pub validated_op-Guarded :
    {Ast : Type 0} (arg_name : Text) (body : Text → Ast → Ast × Result (Unit {0})) (name : Text)
    (ast : Ast)
    → Guarded name
        (body name)
        ast
        (validated_op (λ n. assert_valid_import_binding n arg_name) body name ast)
unfolding validated_op Guarded Checked
validated_op-Guarded arg_name body name ast =
    by_check (assert_valid_import_binding name arg_name)
      (assert_valid_import_binding-Checked name arg_name)
  where
    by_check :
        (r : Result (Unit {0}))
        → Checked name r
        → Guarded name (body name) ast (validated ast (body name) r)
    by_check (ok _) h = inl (h, refl)
    by_check (err e) (refuted, (m, p)) = inr (refuted, (m, ap (λ x. (ast, err x)) p))
