-- ===== src/Transport/ErrorText/Ordering.antt =====
-- The anchors that are long enough, the longest first.
use project_builder_sdk.Base.{
  ℕ, ◌≤◌, ◌<◌, Bool, true, false, List, [], ◌∷◌, length, All, ltb, ◌≡◌, ◌⊎◌, ◌↔◌, inl, inr, refl,
  arith, Bool-cases, if◌then◌else◌,
}
use project_builder_sdk.Transport.ErrorText.{
  ScrubAnchor, is_long, long_anchors, insert_anchor, longest_path_first,
}

unfoldable pub Among : ScrubAnchor → List ScrubAnchor → Type 0
Among a [] = ⊥
Among a (b ∷ bs) = (a ≡ b) ⊎ Among a bs

-- What holds of each anchor in a list, and of which anchor in it.
module _ (P : ScrubAnchor → Type 0) where
  insert_anchor-All :
      (a : ScrubAnchor) (bs : List ScrubAnchor) → All P (insert_anchor a bs) ↔ (P a × All P bs)
  unfolding insert_anchor
  insert_anchor-All a [] = ((λ h. h), λ h. h)
  insert_anchor-All a (b ∷ bs) = elim (Bool-cases (ltb (length a.path) (length b.path))) [
    | inl l ↦ rw l (
      (λ (h, hs). let (x, y) = (insert_anchor-All a bs).0 hs in (x, (h, y))),
      λ (x, (h, y)). (h, (insert_anchor-All a bs).1 (x, y)),
    )
    | inr l ↦ rw l ((λ h. h), λ h. h)
  ]

  pub longest_path_first-All :
      (anchors : List ScrubAnchor) → All P (longest_path_first anchors) ↔ All P anchors
  unfolding longest_path_first
  longest_path_first-All [] = ((λ h. h), λ h. h)
  longest_path_first-All (a ∷ anchors) = (
    (λ h.
        let (x, y) = (insert_anchor-All a (longest_path_first anchors)).0 h in
        (x, (longest_path_first-All anchors).0 y)),
    λ (x, y).
        (insert_anchor-All a (longest_path_first anchors)).1
          (x, (longest_path_first-All anchors).1 y),
  )

  -- Where it holds of the anchors that are too short anyhow.
  pub long_anchors-All :
      (anchors : List ScrubAnchor)
      → ((a : ScrubAnchor) → is_long a ≡ false → P a)
      → All P (long_anchors anchors)
      → All P anchors
  unfolding long_anchors
  long_anchors-All [] short h = tt
  long_anchors-All (a ∷ anchors) short h =
      by_length (is_long a) refl (long_anchors-All anchors short) h
    where
      by_length :
          (b : Bool)
          → is_long a ≡ b
          → (All P (long_anchors anchors) → All P anchors)
          → All P (if b then a ∷ long_anchors anchors else long_anchors anchors)
          → All P (a ∷ anchors)
      by_length true l ih (x, xs) = (x, ih xs)
      by_length false l ih xs = (short a l, ih xs)

unfoldable pub Descending : List ScrubAnchor → Type 0
Descending [] = Unit
Descending (a ∷ anchors) = All (λ b. length b.path ≤ length a.path) anchors × Descending anchors

All-le :
    (m n : ℕ) (anchors : List ScrubAnchor)
    → m ≤ n
    → All (λ b. length b.path ≤ m) anchors
    → All (λ b. length b.path ≤ n) anchors
All-le m n [] h k = tt
All-le m n (a ∷ anchors) h (x, k) = (omega arith, All-le m n anchors h k)

insert_anchor-Descending :
    (a : ScrubAnchor) (bs : List ScrubAnchor) → Descending bs → Descending (insert_anchor a bs)
unfolding insert_anchor Descending
insert_anchor-Descending a [] d = (tt, tt)
insert_anchor-Descending a (b ∷ bs) (h, d) =
    elim (Bool-cases (ltb (length a.path) (length b.path))) [
      | inl l ↦ rw l (
        (insert_anchor-All (λ x. length x.path ≤ length b.path) a bs).1 (ground arith, h),
        insert_anchor-Descending a bs d,
      )
      | inr l ↦
          let k : length b.path ≤ length a.path = ground arith in
          rw l ((k, All-le (length b.path) (length a.path) bs k h), (h, d))
    ]

pub longest_path_first-Descending :
    (anchors : List ScrubAnchor) → Descending (longest_path_first anchors)
unfolding longest_path_first Descending
longest_path_first-Descending [] = tt
longest_path_first-Descending (a ∷ anchors) =
    insert_anchor-Descending a (longest_path_first anchors) (longest_path_first-Descending anchors)

Among-insert_anchor :
    (x a : ScrubAnchor) (bs : List ScrubAnchor)
    → Among x (insert_anchor a bs)
    → (x ≡ a) ⊎ Among x bs
unfolding insert_anchor Among
Among-insert_anchor x a [] h = h
Among-insert_anchor x a (b ∷ bs) h =
    by_length (ltb (length a.path) (length b.path)) (Among-insert_anchor x a bs) h
  where
    by_length :
        (t : Bool)
        → (Among x (insert_anchor a bs) → (x ≡ a) ⊎ Among x bs)
        → Among x (if t then b ∷ insert_anchor a bs else a ∷ b ∷ bs)
        → (x ≡ a) ⊎ ((x ≡ b) ⊎ Among x bs)
    by_length true ih (inl e) = inr (inl e)
    by_length true ih (inr k) = elim (ih k) [ inl e ↦ inl e | inr m ↦ inr (inr m) ]
    by_length false ih k = k

pub Among-longest_path_first :
    (x : ScrubAnchor) (anchors : List ScrubAnchor)
    → Among x (longest_path_first anchors)
    → Among x anchors
unfolding longest_path_first Among
Among-longest_path_first x [] h = h
Among-longest_path_first x (a ∷ anchors) h =
    elim (Among-insert_anchor x a (longest_path_first anchors) h) [
      | inl e ↦ inl e
      | inr k ↦ inr (Among-longest_path_first x anchors k)
    ]

pub Among-long_anchors :
    (x : ScrubAnchor) (anchors : List ScrubAnchor)
    → Among x (long_anchors anchors)
    → Among x anchors × (1 < length x.path)
unfolding long_anchors Among
Among-long_anchors x [] h = absurd h
Among-long_anchors x (a ∷ anchors) h = by_length (is_long a) refl (Among-long_anchors x anchors) h
  where
    by_length :
        (t : Bool)
        → is_long a ≡ t
        → (Among x (long_anchors anchors) → Among x anchors × (1 < length x.path))
        → Among x (if t then a ∷ long_anchors anchors else long_anchors anchors)
        → ((x ≡ a) ⊎ Among x anchors) × (1 < length x.path)
    by_length true l ih (inl e) = (inl e, rw e (ground arith))
    by_length true l ih (inr k) = (inr (ih k).0, (ih k).1)
    by_length false l ih k = (inr (ih k).0, (ih k).1)

pub All-map :
    (P Q : ScrubAnchor → Type 0) (anchors : List ScrubAnchor)
    → ((a : ScrubAnchor) → P a → Q a)
    → All P anchors
    → All Q anchors
All-map P Q [] f h = tt
All-map P Q (a ∷ anchors) f (x, h) = (f a x, All-map P Q anchors f h)
