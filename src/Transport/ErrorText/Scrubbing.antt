-- ===== src/Transport/ErrorText/Scrubbing.antt =====
-- What the pass over the known prefixes makes of a message.
use project_builder_sdk.Base.{
  ℕ, zero, suc, ◌≤◌, true, false, Option, none, some, List, [], ◌∷◌, ◌++◌, Text, length, drop,
  length-drop, drop-length_append, All, ◌≡◌, ◌⊎◌, inl, inr, refl, sym, ap, ◌∙◌, arith, Bool-cases,
}
use project_builder_sdk.Transport.ErrorText.{
  ScrubAnchor, claims, long_anchors, longest_path_first, find_anchor, emitted, scrub_turn,
  scrub_loop, anchor_known_prefixes,
}
use project_builder_sdk.Transport.ErrorText.Fits.{Fits, claims-Fits, not_claims-Fits, short_Fits}
use project_builder_sdk.Transport.ErrorText.Ordering.{
  Among, longest_path_first-All, long_anchors-All, Descending, longest_path_first-Descending,
  Among-longest_path_first, Among-long_anchors, All-map,
}

-- A message from left to right: an anchor is replaced by its token where it fits and no longer one
-- does; a code unit is kept where none fits.
pub data Scrubbed (anchors : List ScrubAnchor) : Text → Text → Type 0 where
  ended : Scrubbed anchors [] []
  kept :
      (c : ℕ) (rest scrubbed : Text)
      → All (λ a. ¬ Fits (c ∷ rest) a) anchors
      → Scrubbed anchors rest scrubbed
      → Scrubbed anchors (c ∷ rest) (c ∷ scrubbed)
  replaced :
      (a : ScrubAnchor) (text rest scrubbed : Text)
      → Among a anchors
      → Fits text a
      → All (λ b. (¬ Fits text b) ⊎ (length b.path ≤ length a.path)) anchors
      → text ≡ a.path ++ rest
      → Scrubbed anchors rest scrubbed
      → Scrubbed anchors text (a.token ++ scrubbed)

-- The first anchor of a descending list that claims the text is a longest one that does.
Found : Text → List ScrubAnchor → Option ScrubAnchor → Type 0
Found text anchors none = All (λ a. claims text a ≡ false) anchors
Found text anchors (some a) =
    Among a anchors
    × (claims text a ≡ true)
    × All (λ b. (claims text b ≡ false) ⊎ (length b.path ≤ length a.path)) anchors

Found-cons :
    (text : Text) (a : ScrubAnchor) (anchors : List ScrubAnchor) (o : Option ScrubAnchor)
    → claims text a ≡ false
    → Found text anchors o
    → Found text (a ∷ anchors) o
unfolding Found Among
Found-cons text a anchors none h f = (h, f)
Found-cons text a anchors (some b) h (m, c, f) = (inr m, c, (inl h, f))

find_anchor-Found :
    (text : Text) (anchors : List ScrubAnchor)
    → Descending anchors
    → Found text anchors (find_anchor text anchors)
unfolding find_anchor Found Descending Among
find_anchor-Found text [] d = tt
find_anchor-Found text (a ∷ anchors) (h, d) = elim (Bool-cases (claims text a)) [
  | inl c ↦ rw c (
    inl refl,
    c,
    (inr (omega arith), All-map (λ b. length b.path ≤ length a.path) _ anchors (λ b k. inr k) h),
  )
  | inr c ↦
      rw c
        (Found-cons text a anchors (find_anchor text anchors) c (find_anchor-Found text anchors d))
]

-- The same in terms of what fits, for the anchors as they are given.
Chosen : Text → List ScrubAnchor → Option ScrubAnchor → Type 0
Chosen text anchors none = All (λ a. ¬ Fits text a) anchors
Chosen text anchors (some a) =
    Among a anchors
    × Fits text a
    × All (λ b. (¬ Fits text b) ⊎ (length b.path ≤ length a.path)) anchors

module _ (anchors : List ScrubAnchor) where
  Found-Chosen :
      (text : Text) (o : Option ScrubAnchor)
      → Found text (longest_path_first (long_anchors anchors)) o
      → Chosen text anchors o
  unfolding Found Chosen
  Found-Chosen text none h =
      long_anchors-All (λ a. ¬ Fits text a) anchors (short_Fits text)
        (All-map (λ a. claims text a ≡ false) (λ a. ¬ Fits text a) (long_anchors anchors)
          (not_claims-Fits text)
          ((longest_path_first-All (λ a. claims text a ≡ false) (long_anchors anchors)).0 h))
  Found-Chosen text (some a) (m, c, h) =
      let (k, l) =
        Among-long_anchors a anchors (Among-longest_path_first a (long_anchors anchors) m) in
      (k, claims-Fits text a l c, others)
    where
      Shorter : ScrubAnchor → Type 0
      Shorter b = (claims text b ≡ false) ⊎ (length b.path ≤ length a.path)

      NoLonger : ScrubAnchor → Type 0
      NoLonger b = (¬ Fits text b) ⊎ (length b.path ≤ length a.path)

      fits : (b : ScrubAnchor) → Shorter b → NoLonger b
      fits b (inl d) = inl (not_claims-Fits text b d)
      fits b (inr l) = inr l

      others : All NoLonger anchors
      others =
          long_anchors-All NoLonger anchors (λ b d. inl (short_Fits text b d))
            (All-map Shorter NoLonger (long_anchors anchors) fits
              ((longest_path_first-All Shorter (long_anchors anchors)).0 h))

  find_anchor-Chosen :
      (text : Text)
      → Chosen text anchors (find_anchor text (longest_path_first (long_anchors anchors)))
  find_anchor-Chosen text =
      Found-Chosen text (find_anchor text (longest_path_first (long_anchors anchors))) (
        find_anchor-Found text (longest_path_first (long_anchors anchors))
          (longest_path_first-Descending (long_anchors anchors)))

  -- The loop has a result, and it is the scrubbed text.
  pub Scrubs : Text → Option Text → Type 0
  Scrubs text o = (scrubbed : Text) × (o ≡ some scrubbed) × Scrubbed anchors text scrubbed

  turn-Scrubs :
      (loop : Text → Option Text) (c : ℕ) (rest : Text) (o : Option ScrubAnchor)
      → Chosen (c ∷ rest) anchors o
      → ((t : Text) → length t ≤ length rest → Scrubs t (loop t))
      → Scrubs (c ∷ rest) (scrub_turn loop c rest o)
  unfolding Scrubs Chosen Fits
  turn-Scrubs loop c rest none h ih =
      let (out, e, s) = ih rest (omega arith) in
      (c ∷ out, ap (emitted (c ∷ [])) e, kept c rest out h s)
  turn-Scrubs loop c rest (some a) (m, f, h) ih =
      let (out, e, s) = ih (drop (length a.path) (c ∷ rest)) (shorter f) in
      (
        a.token ++ out,
        ap (emitted a.token) e,
        replaced a (c ∷ rest) (drop (length a.path) (c ∷ rest)) out m f h (split f) s,
      )
    where
      shorter : Fits (c ∷ rest) a → length (drop (length a.path) (c ∷ rest)) ≤ length rest
      shorter (l, _) = omega (arith, l, length-drop (length a.path) (c ∷ rest))

      split : Fits (c ∷ rest) a → (c ∷ rest) ≡ a.path ++ drop (length a.path) (c ∷ rest)
      split (l, (t, e, b)) =
          e
          ∙ ap (λ u. a.path ++ u)
              (sym (drop-length_append a.path t) ∙ ap (drop (length a.path)) (sym e))

  scrub_loop-Scrubs :
      (fuel : ℕ) (text : Text)
      → length text ≤ fuel
      → Scrubs text (scrub_loop fuel (longest_path_first (long_anchors anchors)) text)
  unfolding Scrubs scrub_loop
  scrub_loop-Scrubs fuel [] h = ([], refl, ended)
  scrub_loop-Scrubs zero (c ∷ rest) h = absurd (omega arith)
  scrub_loop-Scrubs (suc fuel) (c ∷ rest) h =
      turn-Scrubs (λ t. scrub_loop fuel (longest_path_first (long_anchors anchors)) t) c rest
        (find_anchor (c ∷ rest) (longest_path_first (long_anchors anchors)))
        (find_anchor-Chosen (c ∷ rest)) (λ t k. scrub_loop-Scrubs fuel t (omega arith))

  -- For any anchors, the pass ends on any message within fuel of its length, and its result is the
  -- message read from left to right, where each anchor of more than a slash that stands there as
  -- whole segments, and than which no longer one does, is replaced by its token, and each code unit
  -- where none stands is kept.
  pub anchor_known_prefixes-Scrubs :
      (message : Text) → Scrubs message (anchor_known_prefixes message anchors)
  unfolding anchor_known_prefixes
  anchor_known_prefixes-Scrubs message = scrub_loop-Scrubs (length message) message (omega arith)
