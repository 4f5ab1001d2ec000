-- ===== src/Dialects/Compose/Routing.antt =====
-- A routed path goes to the dialect of its longest extension.
use project_builder_sdk.Base.{
  ℕ, ◌≤◌, true, false, ◌||◌, Option, none, some, List, [], ◌∷◌, Text, text_eq, has, All, length,
  ltb, ◌≡◌, ◌↔◌, ◌⊎◌, inl, inr, refl, sym, ◌∙◌, arith, Bool-cases,
}
use project_builder_sdk.Dialects.Compose.{
  has_declared_extension, insert_longest, longest_first, first_matching, route,
}

-- Longest first.
Descending : List Text → Type 0
Descending [] = Unit
Descending (e ∷ es) = All (λ f. length f ≤ length e) es × Descending es

insert_longest-All :
    (P : Text → Type 0) (s : Text) (es : List Text) → All P (insert_longest s es) ↔ (P s × All P es)
unfolding insert_longest
insert_longest-All P s [] = ((λ h. h), λ h. h)
insert_longest-All P s (t ∷ ts) = elim (Bool-cases (ltb (length s) (length t))) [
  | inl l ↦ rw l (
    (λ (h, hs). let (a, b) = (insert_longest-All P s ts).0 hs in (a, (h, b))),
    λ (a, (h, b)). (h, (insert_longest-All P s ts).1 (a, b)),
  )
  | inr l ↦ rw l ((λ h. h), λ h. h)
]

longest_first-All : (P : Text → Type 0) (es : List Text) → All P (longest_first es) ↔ All P es
unfolding longest_first
longest_first-All P [] = ((λ h. h), λ h. h)
longest_first-All P (e ∷ es) = (
  (λ h.
      let (a, b) = (insert_longest-All P e (longest_first es)).0 h in
      (a, (longest_first-All P es).0 b)),
  λ (a, b). (insert_longest-All P e (longest_first es)).1 (a, (longest_first-All P es).1 b),
)

has-insert_longest :
    (x s : Text) (es : List Text) → has (insert_longest s es) x ≡ (text_eq x s || has es x)
unfolding insert_longest
has-insert_longest x s [] = refl
has-insert_longest x s (t ∷ ts) = ground (arith, has-insert_longest x s ts)

has-longest_first : (x : Text) (es : List Text) → has (longest_first es) x ≡ has es x
unfolding longest_first
has-longest_first x [] = refl
has-longest_first x (e ∷ es) =
    ground (arith, has-insert_longest x e (longest_first es), has-longest_first x es)

All-le :
    (m n : ℕ) (es : List Text) → m ≤ n → All (λ f. length f ≤ m) es → All (λ f. length f ≤ n) es
All-le m n [] h k = tt
All-le m n (e ∷ es) h (a, k) = (omega arith, All-le m n es h k)

insert_longest-Descending :
    (s : Text) (es : List Text) → Descending es → Descending (insert_longest s es)
unfolding insert_longest Descending
insert_longest-Descending s [] d = (tt, tt)
insert_longest-Descending s (t ∷ ts) (a, d) = elim (Bool-cases (ltb (length s) (length t))) [
  | inl l ↦ rw l (
    (insert_longest-All (λ f. length f ≤ length t) s ts).1 (ground arith, a),
    insert_longest-Descending s ts d,
  )
  | inr l ↦
      let h : length t ≤ length s = ground arith in
      rw l ((h, All-le (length t) (length s) ts h a), (a, d))
]

longest_first-Descending : (es : List Text) → Descending (longest_first es)
unfolding longest_first Descending
longest_first-Descending [] = tt
longest_first-Descending (e ∷ es) =
    insert_longest-Descending e (longest_first es) (longest_first-Descending es)

-- The extension is one of these, the path has it, and has no longer one of them; or it has none.
pub Routed : Text → List Text → Option Text → Type 0
Routed path es none = All (λ e. has_declared_extension path (e ∷ []) ≡ false) es
Routed path es (some e) =
    (has es e ≡ true)
    × (has_declared_extension path (e ∷ []) ≡ true)
    × All (λ f. (has_declared_extension path (f ∷ []) ≡ false) ⊎ (length f ≤ length e)) es

All-right : (P Q : Text → Type 0) (es : List Text) → All Q es → All (λ f. P f ⊎ Q f) es
All-right P Q [] h = tt
All-right P Q (e ∷ es) (a, h) = (inr a, All-right P Q es h)

Routed-cons :
    (path e : Text) (es : List Text) (o : Option Text)
    → has_declared_extension path (e ∷ []) ≡ false
    → Routed path es o
    → Routed path (e ∷ es) o
unfolding Routed
Routed-cons path e es none h r = (h, r)
Routed-cons path e es (some x) h (a, b, c) = (ground (arith, a), b, (inl h, c))

first_matching-Routed :
    (path : Text) (es : List Text) → Descending es → Routed path es (first_matching path es)
unfolding Routed Descending
first_matching-Routed path [] d = tt
first_matching-Routed path (e ∷ es) (a, d) =
    elim (Bool-cases (has_declared_extension path (e ∷ []))) [
      | inl m ↦
          rw m (ground arith, m, (inr (omega arith), All-right _ (λ f. length f ≤ length e) es a))
      | inr m ↦
          rw m (Routed-cons path e es (first_matching path es) m (first_matching-Routed path es d))
    ]

-- A path is routed to an extension that is declared, that the path has, and than which the path has
-- no longer declared one; it is routed nowhere only where the path has none of them.
pub route-Routed : (path : Text) (es : List Text) → Routed path es (route path es)
unfolding route Routed
route-Routed path es =
    by_route (first_matching path (longest_first es))
      (first_matching-Routed path (longest_first es) (longest_first-Descending es))
  where
    by_route : (o : Option Text) → Routed path (longest_first es) o → Routed path es o
    by_route none r = (longest_first-All _ es).0 r
    by_route (some x) (a, b, c) =
        (sym (has-longest_first x es) ∙ a, b, (longest_first-All _ es).0 c)
