-- ===== src/Frames/Stream.antt =====
-- The frames that a stream holds do not depend on how it is cut into chunks.
use mathlib.Core.Path.{subst}
use mathlib.Core.List.{flatten, append-nil, append_assoc}
use project_builder_sdk.Base.{
  ℕ, zero, suc, ◌≤◌, Option, List, [], ◌∷◌, ◌++◌, length, take, drop, ltb, ltb→lt, ◌≡◌, refl, sym,
  ap, ◌∙◌, arith, length-append, length-drop, Bool-cases, inl, inr,
}
use project_builder_sdk.Frames.Rounds.{
  round, drain_complete_frames-cons, round_over, round_short, round_full,
}
use project_builder_sdk.Frames.{
  Bytes, declared, is_oversize_declared_length, Event, waiting, thrown, decoded, Drained,
  push_event, drain_complete_frames, Read, end_of_stream, after_events, after_stop, frames,
}

take-append_le {ℓ} :
    {A : Type ℓ} (n : ℕ) (xs ys : List A) → n ≤ length xs → take n (xs ++ ys) ≡ take n xs
take-append_le zero xs ys h = refl
take-append_le (suc n) [] ys h = absurd (omega arith)
take-append_le (suc n) (x ∷ xs) ys h = ap (λ t. x ∷ t) (take-append_le n xs ys (omega arith))

drop-append_le {ℓ} :
    {A : Type ℓ} (n : ℕ) (xs ys : List A) → n ≤ length xs → drop n (xs ++ ys) ≡ drop n xs ++ ys
drop-append_le zero xs ys h = refl
drop-append_le (suc n) [] ys h = absurd (omega arith)
drop-append_le (suc n) (x ∷ xs) ys h = drop-append_le n xs ys (omega arith)

module _ {ℓ} {V : Type ℓ} (parse : Bytes → Option V) where
  -- What the rest of the stream adds to a drain that has stopped.
  abbrev pub resume : Bytes → Drained parse → Drained parse
  resume later (es, waiting rest) =
      let r = drain_complete_frames parse (rest ++ later) in (es ++ r.0, r.1)
  resume later (es, thrown k) = (es, thrown k)

  resume-push_event :
      (later : Bytes) (e : Event V) (r : Drained parse)
      → resume later (push_event parse e r) ≡ push_event parse e (resume later r)
  resume-push_event later e (es, waiting rest) = refl
  resume-push_event later e (es, thrown k) = refl

  round-append :
      (n a b c d : ℕ) (rest later : Bytes)
      → (n ≤ length rest
          → drain_complete_frames parse (drop n rest ++ later)
            ≡ resume later (drain_complete_frames parse (drop n rest)))
      → declared a b c d ≡ n
      → round parse n a b c d (rest ++ later) ≡ resume later (round parse n a b c d rest)
  round-append n a b c d rest later ih e = elim (Bool-cases (is_oversize_declared_length n)) [
    | inl over ↦
        rw (round_over parse n a b c d rest over) (round_over parse n a b c d (rest ++ later) over)
    | inr within ↦ elim (Bool-cases (ltb (length rest) n)) [
      | inl short ↦ rw (round_short parse n a b c d rest within (ltb→lt _ _ short)) (
          ap (λ m. round parse m a b c d (rest ++ later)) (sym e)
          ∙ sym (drain_complete_frames-cons parse a b c d (rest ++ later)))
      | inr full ↦
          let fits : n ≤ length rest = ground arith in
          rw (round_full parse n a b c d rest within fits) (
            rw resume-push_event (
              round_full parse n a b c d (rest ++ later) within
                (omega (arith, length-append rest later))
              ∙ rw (take-append_le n rest later fits, drop-append_le n rest later fits)
                  (ap (push_event parse (decoded parse (parse (take n rest)))) (ih fits))))
    ]
  ]

  resume_stuck :
      (buffer later : Bytes)
      → drain_complete_frames parse buffer ≡ ([], waiting buffer)
      → drain_complete_frames parse (buffer ++ later)
        ≡ resume later (drain_complete_frames parse buffer)
  resume_stuck buffer later h = rw (ap (resume later) h) refl

  -- A drain of a longer buffer is the drain of its beginning, resumed with the rest.
  drain-append :
      (f : ℕ) (buffer later : Bytes)
      → length buffer ≤ f
      → drain_complete_frames parse (buffer ++ later)
        ≡ resume later (drain_complete_frames parse buffer)
  unfolding drain_complete_frames
  drain-append f [] later p = resume_stuck [] later refl
  drain-append f (a ∷ []) later p = resume_stuck (a ∷ []) later refl
  drain-append f (a ∷ (b ∷ [])) later p = resume_stuck (a ∷ b ∷ []) later refl
  drain-append f (a ∷ (b ∷ (c ∷ []))) later p = resume_stuck (a ∷ b ∷ c ∷ []) later refl
  drain-append zero (a ∷ b ∷ c ∷ d ∷ rest) later p = absurd (omega arith)
  drain-append (suc f) (a ∷ b ∷ c ∷ d ∷ rest) later p =
      rw (drain_complete_frames-cons parse a b c d rest) (
        drain_complete_frames-cons parse a b c d (rest ++ later)
        ∙ round-append (declared a b c d) a b c d rest later
            (λ fits.
              drain-append f (drop (declared a b c d) rest) later
                (omega (arith, length-drop (declared a b c d) rest)))
            refl)

  -- A drain stops only where nothing more can be taken.
  abbrev StopsAtEnd : Drained parse → Type ℓ
  StopsAtEnd (_, waiting rest) = drain_complete_frames parse rest ≡ ([], waiting rest)
  StopsAtEnd (_, thrown _) = Unit {ℓ}

  push_event-StopsAtEnd :
      (e : Event V) (r : Drained parse) → StopsAtEnd r → StopsAtEnd (push_event parse e r)
  push_event-StopsAtEnd e (es, waiting rest) h = h
  push_event-StopsAtEnd e (es, thrown k) h = tt

  round-StopsAtEnd :
      (a b c d : ℕ) (rest : Bytes)
      → StopsAtEnd (drain_complete_frames parse (drop (declared a b c d) rest))
      → StopsAtEnd (round parse (declared a b c d) a b c d rest)
  round-StopsAtEnd a b c d rest ih =
      elim (Bool-cases (is_oversize_declared_length (declared a b c d))) [
        | inl over ↦ rw (round_over parse (declared a b c d) a b c d rest over) tt
        | inr within ↦ elim (Bool-cases (ltb (length rest) (declared a b c d))) [
          | inl short ↦
              let e = round_short parse (declared a b c d) a b c d rest within (ltb→lt _ _ short) in
              rw e (drain_complete_frames-cons parse a b c d rest ∙ e)
          | inr full ↦ rw (round_full parse (declared a b c d) a b c d rest within (ground arith)) (
              push_event-StopsAtEnd (decoded parse (parse (take (declared a b c d) rest)))
                (drain_complete_frames parse (drop (declared a b c d) rest)) ih)
        ]
      ]

  drain-StopsAtEnd :
      (f : ℕ) (buffer : Bytes) → length buffer ≤ f → StopsAtEnd (drain_complete_frames parse buffer)
  unfolding drain_complete_frames
  drain-StopsAtEnd f [] p = refl
  drain-StopsAtEnd f (a ∷ []) p = refl
  drain-StopsAtEnd f (a ∷ (b ∷ [])) p = refl
  drain-StopsAtEnd f (a ∷ (b ∷ (c ∷ []))) p = refl
  drain-StopsAtEnd zero (a ∷ b ∷ c ∷ d ∷ rest) p = absurd (omega arith)
  drain-StopsAtEnd (suc f) (a ∷ b ∷ c ∷ d ∷ rest) p =
      subst StopsAtEnd (sym (drain_complete_frames-cons parse a b c d rest)) (
        round-StopsAtEnd a b c d rest (
          drain-StopsAtEnd f (drop (declared a b c d) rest)
            (omega (arith, length-drop (declared a b c d) rest))))

  -- What a stopped drain comes to at the end of the stream.
  abbrev pub whole : Drained parse → Read parse
  whole (es, stop) = after_events parse es (after_stop parse (end_of_stream parse) stop)

  whole-resume :
      (later : Bytes) (es : List (Event V)) (rest : Bytes)
      → whole (resume later (es, waiting rest))
        ≡ after_events parse es (whole (drain_complete_frames parse (rest ++ later)))
  whole-resume later es rest = by_stop (drain_complete_frames parse (rest ++ later))
    where
      by_stop : (r : Drained parse) → whole (es ++ r.0, r.1) ≡ after_events parse es (whole r)
      by_stop (fs, stop) =
          ap (λ t. (t, (after_stop parse (end_of_stream parse) stop).1))
            (append_assoc es fs (after_stop parse (end_of_stream parse) stop).0)

  pub frames-flatten :
      (buffer : Bytes) (chunks : List Bytes)
      → drain_complete_frames parse buffer ≡ ([], waiting buffer)
      → frames parse buffer chunks ≡ whole (drain_complete_frames parse (buffer ++ flatten chunks))
  unfolding frames flatten
  frames-flatten buffer [] h = rw append-nil (rw h refl)
  frames-flatten buffer (chunk ∷ chunks) h =
      by_stop (drain_complete_frames parse (buffer ++ chunk))
        (drain-StopsAtEnd (length (buffer ++ chunk)) (buffer ++ chunk) (omega arith))
        (λ rest. frames-flatten rest chunks)
      ∙ sym (
          ap whole (
            drain-append (length (buffer ++ chunk)) (buffer ++ chunk) (flatten chunks)
              (omega arith)))
      ∙ ap (λ t. whole (drain_complete_frames parse t)) (append_assoc buffer chunk (flatten chunks))
    where
      by_stop :
          (r : Drained parse)
          → StopsAtEnd r
          → ((rest : Bytes)
              → drain_complete_frames parse rest ≡ ([], waiting rest)
              → frames parse rest chunks
                ≡ whole (drain_complete_frames parse (rest ++ flatten chunks)))
          → after_events parse r.0 (after_stop parse (λ rest. frames parse rest chunks) r.1)
            ≡ whole (resume (flatten chunks) r)
      by_stop (es, waiting rest) stuck ih =
          ap (after_events parse es) (ih rest stuck) ∙ sym (whole-resume (flatten chunks) es rest)
      by_stop (es, thrown k) stuck ih = refl

  pub drain-nil : drain_complete_frames parse [] ≡ ([], waiting [])
  unfolding drain_complete_frames
  drain-nil = refl

  flatten-singleton : (chunk : Bytes) → flatten (chunk ∷ []) ≡ chunk
  unfolding flatten
  flatten-singleton chunk = append-nil chunk

  -- The frames and the ending of a stream depend on its bytes alone: every division into chunks
  -- gives what one chunk gives.
  pub frames_chunks :
      (chunks : List Bytes) → frames parse [] chunks ≡ frames parse [] (flatten chunks ∷ [])
  frames_chunks chunks =
      frames-flatten [] chunks drain-nil
      ∙ ap (λ t. whole (drain_complete_frames parse t)) (sym (flatten-singleton (flatten chunks)))
      ∙ sym (frames-flatten [] (flatten chunks ∷ []) drain-nil)
