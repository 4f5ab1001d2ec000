-- ===== src/Names.antt =====
-- core/jsx-name-validator.ts and core/reject-tail.ts: the grammars of JSX names and import bindings,
-- the names that are reserved, and the texts of their rejections.
pub mod Grammar
use project_builder_sdk.Base.{
  ℕ, Bool, true, false, ◌&&◌, ◌||◌, Option, none, some, List, [], ◌∷◌, ◌++◌, Text, codes, has, leb,
  ltb, ◌==◌, all, take, length, if◌then◌else◌,
}
use project_builder_sdk.Errors.{Thrown, Result, ok, err}
use project_builder_sdk.Transport.Decimal.{decimal}
use project_builder_sdk.Dialects.Handle.{dialect_error}

abbrev pub jsx_name_denylist : List Text
jsx_name_denylist = codes "__proto__" ∷ codes "constructor" ∷ codes "prototype" ∷ []

abbrev pub import_reserved_words : List Text
import_reserved_words =
    codes "break"
    ∷ codes "case"
    ∷ codes "catch"
    ∷ codes "class"
    ∷ codes "const"
    ∷ codes "continue"
    ∷ codes "debugger"
    ∷ codes "default"
    ∷ codes "delete"
    ∷ codes "do"
    ∷ codes "else"
    ∷ codes "enum"
    ∷ codes "export"
    ∷ codes "extends"
    ∷ codes "false"
    ∷ codes "finally"
    ∷ codes "for"
    ∷ codes "function"
    ∷ codes "if"
    ∷ codes "import"
    ∷ codes "in"
    ∷ codes "instanceof"
    ∷ codes "new"
    ∷ codes "null"
    ∷ codes "return"
    ∷ codes "super"
    ∷ codes "switch"
    ∷ codes "this"
    ∷ codes "throw"
    ∷ codes "true"
    ∷ codes "try"
    ∷ codes "typeof"
    ∷ codes "var"
    ∷ codes "void"
    ∷ codes "while"
    ∷ codes "with"
    ∷ codes "implements"
    ∷ codes "interface"
    ∷ codes "let"
    ∷ codes "package"
    ∷ codes "private"
    ∷ codes "protected"
    ∷ codes "public"
    ∷ codes "static"
    ∷ codes "yield"
    ∷ codes "await"
    ∷ codes "eval"
    ∷ codes "arguments"
    ∷ []

abbrev is_letter : ℕ → Bool
is_letter u = (leb 65 u && leb u 90) || (leb 97 u && leb u 122)

-- `[A-Za-z_]` and `[A-Za-z0-9_-]`
abbrev pub starts_name : ℕ → Bool
starts_name u = is_letter u || (u == 95)

abbrev pub continues_name : ℕ → Bool
continues_name u = starts_name u || ((leb 48 u && leb u 57) || (u == 45))

-- `[A-Za-z_$]` and `[A-Za-z0-9_$]`
abbrev pub starts_binding : ℕ → Bool
starts_binding u = starts_name u || (u == 36)

abbrev pub continues_binding : ℕ → Bool
continues_binding u = starts_binding u || (leb 48 u && leb u 57)

-- A segment is a first unit of one class and further ones of another.
abbrev pub is_segment : (ℕ → Bool) → (ℕ → Bool) → Text → Bool
is_segment first more [] = false
is_segment first more (u ∷ s) = first u && all more s

-- The text cut at every separator, with the part that is being read.
unfoldable pub cut : ℕ → Text → Text → List Text
cut at part [] = part ∷ []
cut at part (u ∷ s) =
    let closed = cut at [] s in
    let longer = cut at (part ++ u ∷ []) s in if u == at then part ∷ closed else longer

unfoldable pub is_attribute_name : Text → Bool
is_attribute_name s =
    let parts = cut 58 [] s in
    all (is_segment starts_name continues_name) parts && ltb (length parts) 3

unfoldable pub is_element_name : Text → Bool
is_element_name s = all (is_segment starts_name continues_name) (cut 46 [] s)

unfoldable pub is_import_binding : Text → Bool
is_import_binding s = is_segment starts_binding continues_binding s

unfoldable pub bounded_fragment : Text → Text
bounded_fragment s = if ltb 16 (length s) then take 16 s else s

unfoldable pub element_name_echo : Text → Text
element_name_echo s = if ltb 100 (length s) then take 100 s ++ codes "…" else s

unfoldable pub name_rule_tail : Text → Text → Text
name_rule_tail arg_name rule_label =
    codes "`"
    ++ arg_name
    ++ codes "` must "
    ++ rule_label
    ++ codes " — fix the name, or use `.modify()` to make this edit directly."

abbrev named_props : List Text → Text
named_props [] = []
named_props (p ∷ []) = codes "`" ++ element_name_echo p ++ codes "`"
named_props (p ∷ q ∷ ps) = codes "`" ++ element_name_echo p ++ codes "`, " ++ named_props (q ∷ ps)

unfoldable pub with_props : List Text → Text
with_props [] = []
with_props (p ∷ ps) = codes " with props " ++ named_props (p ∷ ps)

unfoldable pub zero_match_tail : Text → List Text → Text
zero_match_tail element_name props =
    codes "no element named `"
    ++ element_name_echo element_name
    ++ codes "`"
    ++ with_props props
    ++ codes " was found — use `.modify()` to inspect the file and edit it directly."

unfoldable pub multi_match_tail : Text → Text → ℕ → List Text → Text
multi_match_tail op_name element_name match_count props =
    codes "`"
    ++ element_name_echo element_name
    ++ codes "`"
    ++ with_props props
    ++ codes " matched "
    ++ decimal match_count
    ++ codes " elements — "
    ++ op_name
    ++ codes " requires exactly one match; use `.modify()` to disambiguate."

-- The first check that fails decides.
abbrev pub and_check : Result (Unit {0}) → Result (Unit {0}) → Result (Unit {0})
and_check (err e) next = err e
and_check (ok _) next = next

abbrev reserved_tail : Text → Text → Text → Text
reserved_tail arg_name value rule =
    codes "`"
    ++ arg_name
    ++ codes "` \""
    ++ bounded_fragment value
    ++ rule
    ++ codes " — fix the name, or use `.modify()` to make this edit directly."

unfoldable pub assert_not_denylisted : Text → Text → Result (Unit {0})
assert_not_denylisted arg_name value =
    if has jsx_name_denylist value
    then err (
        dialect_error
          (reserved_tail arg_name value (codes "\" is a reserved name and cannot be used")))
    else ok tt

unfoldable pub assert_not_reserved_word : Text → Text → Result (Unit {0})
assert_not_reserved_word arg_name value =
    if has import_reserved_words value
    then err (
        dialect_error (
          reserved_tail arg_name value
            (codes "\" is a reserved word and cannot be used as an import binding")))
    else ok tt

unfoldable pub assert_grammar : Text → Bool → Text → Result (Unit {0})
assert_grammar arg_name passes rule_label =
    if passes then ok tt else err (dialect_error (name_rule_tail arg_name rule_label))

unfoldable pub assert_valid_attribute_name : Text → Result (Unit {0})
assert_valid_attribute_name prop_name =
    and_check
      (assert_grammar (codes "propName") (is_attribute_name prop_name) (
        codes "match the attribute-name grammar (letters, digits, underscore, and hyphen, "
        ++ codes "with one optional `:namespace` segment)"))
      (assert_not_denylisted (codes "propName") prop_name)

unfoldable pub assert_valid_element_name : Text → Text → Result (Unit {0})
assert_valid_element_name element_name arg_name =
    and_check
      (assert_grammar arg_name (is_element_name element_name) (
        codes "match the JSX element-name grammar (identifier or hyphenated segments, "
        ++ codes "optionally joined by `.`)"))
      (assert_not_denylisted arg_name element_name)

unfoldable pub assert_valid_import_binding : Text → Text → Result (Unit {0})
assert_valid_import_binding name arg_name =
    and_check
      (assert_grammar arg_name (is_import_binding name) (codes "be a valid JavaScript identifier"))
      (and_check (assert_not_reserved_word arg_name name) (assert_not_denylisted arg_name name))

unfoldable pub assert_valid_property_key : Text → Text → Result (Unit {0})
assert_valid_property_key key arg_name =
    and_check
      (assert_grammar arg_name (is_import_binding key)
        (codes "use object keys that are valid JavaScript identifiers"))
      (assert_not_denylisted arg_name key)

abbrev pub validated :
    {Ast : Type 0}
    → Ast
    → (Ast → Ast × Result (Unit {0}))
    → Result (Unit {0})
    → Ast × Result (Unit {0})
validated ast body (err e) = (ast, err e)
validated ast body (ok _) = body ast

-- An op whose arguments are checked before its body sees the tree.
unfoldable pub validated_op :
    {Ast Args : Type 0}
    → (Args → Result (Unit {0}))
    → (Args → Ast → Ast × Result (Unit {0}))
    → Args
    → Ast
    → Ast × Result (Unit {0})
validated_op validators body args ast = validated ast (body args) (validators args)
