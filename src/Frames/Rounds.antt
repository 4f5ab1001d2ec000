-- ===== src/Frames/Rounds.antt =====
-- The drain of a buffer, one round at a time and without its fuel.
use project_builder_sdk.Base.{
  ℕ, zero, suc, ◌≤◌, ◌<◌, true, false, Option, [], ◌∷◌, length, take, drop, ltb, lt→ltb,
  if◌then◌else◌, ◌≡◌, refl, arith, length-drop,
}
use project_builder_sdk.Errors.{oversize}
use project_builder_sdk.Frames.{
  Bytes, declared, is_oversize_declared_length, waiting, thrown, decoded, Drained, push_event,
  drain, drain_complete_frames,
}

module _ {ℓ} {V : Type ℓ} (parse : Bytes → Option V) where
  -- More fuel than the buffer is long changes nothing.
  drain_fuel :
      (f g : ℕ) (buffer : Bytes)
      → length buffer ≤ f
      → length buffer ≤ g
      → drain parse f buffer ≡ drain parse g buffer
  unfolding drain
  drain_fuel zero zero buffer p q = refl
  drain_fuel zero (suc g) [] p q = refl
  drain_fuel zero (suc g) (_ ∷ _) p q = absurd (omega arith)
  drain_fuel (suc f) zero [] p q = refl
  drain_fuel (suc f) zero (_ ∷ _) p q = absurd (omega arith)
  drain_fuel (suc f) (suc g) [] p q = refl
  drain_fuel (suc f) (suc g) (_ ∷ []) p q = refl
  drain_fuel (suc f) (suc g) (_ ∷ _ ∷ []) p q = refl
  drain_fuel (suc f) (suc g) (_ ∷ _ ∷ _ ∷ []) p q = refl
  drain_fuel (suc f) (suc g) (a ∷ b ∷ c ∷ d ∷ rest) p q = rw (
      drain_fuel f g (drop (declared a b c d) rest)
        (omega (arith, length-drop (declared a b c d) rest))
        (omega (arith, length-drop (declared a b c d) rest)))

  -- One round of the drain, with no fuel in sight.
  pub round : ℕ → (a b c d : ℕ) → Bytes → Drained parse
  round n a b c d rest =
      if is_oversize_declared_length n
      then ([], thrown oversize)
      else if ltb (length rest) n
      then ([], waiting (a ∷ b ∷ c ∷ d ∷ rest))
      else push_event parse (decoded parse (parse (take n rest)))
          (drain_complete_frames parse (drop n rest))

  pub drain_complete_frames-cons :
      (a b c d : ℕ) (rest : Bytes)
      → drain_complete_frames parse (a ∷ b ∷ c ∷ d ∷ rest) ≡ round (declared a b c d) a b c d rest
  unfolding round drain_complete_frames
  drain_complete_frames-cons a b c d rest = rw (
      drain_fuel (suc (suc (suc (length rest)))) (length (drop (declared a b c d) rest))
        (drop (declared a b c d) rest) (omega (arith, length-drop (declared a b c d) rest))
        (omega arith))

  module _ (n a b c d : ℕ) (rest : Bytes) where
    pub round_over :
        is_oversize_declared_length n ≡ true → round n a b c d rest ≡ ([], thrown oversize)
    unfolding round
    round_over over = rw over

    pub round_short :
        is_oversize_declared_length n ≡ false
        → length rest < n
        → round n a b c d rest ≡ ([], waiting (a ∷ b ∷ c ∷ d ∷ rest))
    unfolding round
    round_short within short = rw (within, lt→ltb _ _ short)

    pub round_full :
        is_oversize_declared_length n ≡ false
        → n ≤ length rest
        → round n a b c d rest
          ≡ push_event parse
              (decoded parse (parse (take n rest)))
              (drain_complete_frames parse (drop n rest))
    unfolding round
    round_full within full = ground (arith, within)
