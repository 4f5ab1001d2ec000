-- ===== src/Frames/RoundTrip.antt =====
-- Frames that are encoded one behind another come back in order, however the bytes are cut.
use mathlib.Core.List.{flatten, append-nil, append_assoc}
use project_builder_sdk.Base.{
  ℕ, zero, suc, ◌+◌, ◌/◌, ◌%◌, ◌^◌, ◌≤◌, ◌<◌, true, false, Option, List, [], ◌∷◌, ◌++◌, length,
  take, ◌≡◌, refl, sym, ap, ◌∙◌, arith, length-append, length-take, take-length_append,
  drop-length_append, All,
}
use project_builder_sdk.Wire.{batch_cap_bytes}
use project_builder_sdk.Errors.{eof, oversize}
use project_builder_sdk.Frames.{
  Bytes, prefix, declared, encode_frame, is_oversize_declared_length, Event, Stop, waiting, thrown,
  Drained, closed, failed, decoded, push_event, drain_complete_frames, frames,
}
use project_builder_sdk.Frames.Rounds
use project_builder_sdk.Frames.Rounds.{
  drain_complete_frames-cons, round_full, round_short, round_over,
}
use project_builder_sdk.Frames.Stream.{whole, frames-flatten, drain-nil}

declared-prefix :
    (n : ℕ)
    → n < 2 ^ 32
    → declared (n / 2 ^ 24 % 256) (n / 2 ^ 16 % 256) (n / 2 ^ 8 % 256) (n % 256) ≡ n
declared-prefix n h = omega arith

within_cap : (n : ℕ) → n ≤ batch_cap_bytes → is_oversize_declared_length n ≡ false
unfolding is_oversize_declared_length
within_cap n h = ground arith

beyond_cap : (n : ℕ) → batch_cap_bytes < n → is_oversize_declared_length n ≡ true
unfolding is_oversize_declared_length
beyond_cap n h = ground arith

-- The bytes of several frames.
abbrev pub encode_all : List Bytes → Bytes
encode_all [] = []
encode_all (body ∷ bodies) = encode_frame body ++ encode_all bodies

-- Bodies that the cap admits.
abbrev pub AllFit : List Bytes → Type 0
AllFit bodies = All (λ body. length body ≤ batch_cap_bytes) bodies

module _ {ℓ} {V : Type ℓ} (parse : Bytes → Option V) where
  abbrev pub events : List Bytes → List (Event V)
  events [] = []
  events (body ∷ bodies) = decoded parse (parse body) ∷ events bodies

  -- A drain whose first four bytes are the prefix of `n`.
  drain-prefix :
      (n : ℕ) (rest : Bytes)
      → n < 2 ^ 32
      → drain_complete_frames parse (prefix n ++ rest)
        ≡ Rounds.round parse n
            (n / 2 ^ 24 % 256)
            (n / 2 ^ 16 % 256)
            (n / 2 ^ 8 % 256)
            (n % 256)
            rest
  unfolding prefix
  drain-prefix n rest h =
      drain_complete_frames-cons parse (n / 2 ^ 24 % 256) (n / 2 ^ 16 % 256) (n / 2 ^ 8 % 256)
        (n % 256) rest
      ∙ ap
          (λ m.
            Rounds.round parse m (n / 2 ^ 24 % 256) (n / 2 ^ 16 % 256) (n / 2 ^ 8 % 256) (n % 256)
              rest)
          (declared-prefix n h)

  drain-encode_frame :
      (body later : Bytes)
      → length body ≤ batch_cap_bytes
      → drain_complete_frames parse (encode_frame body ++ later)
        ≡ push_event parse (decoded parse (parse body)) (drain_complete_frames parse later)
  unfolding encode_frame
  drain-encode_frame body later h =
      let n = length body in
      drain-prefix (length body) (body ++ later) (omega arith)
      ∙ round_full parse n (n / 2 ^ 24 % 256) (n / 2 ^ 16 % 256) (n / 2 ^ 8 % 256) (n % 256)
          (body ++ later) (within_cap n h) (omega (arith, length-append body later))
      ∙ rw (take-length_append body later, drop-length_append body later)

  drain-encode_all :
      (bodies : List Bytes) (tail : Bytes)
      → AllFit bodies
      → drain_complete_frames parse (encode_all bodies ++ tail) ≡ (
        events bodies ++ (drain_complete_frames parse tail).0,
        (drain_complete_frames parse tail).1,
      )
  drain-encode_all [] tail h = refl
  drain-encode_all (body ∷ bodies) tail (h, hs) =
      ap (drain_complete_frames parse) (append_assoc (encode_frame body) (encode_all bodies) tail)
      ∙ drain-encode_frame body (encode_all bodies ++ tail) h
      ∙ ap (push_event parse (decoded parse (parse body))) (drain-encode_all bodies tail hs)

  -- What stands behind whole frames decides the ending: `stop` is where the drain of it stops.
  frames-tail :
      (chunks bodies : List Bytes) (tail : Bytes) (stop : Stop)
      → AllFit bodies
      → drain_complete_frames parse tail ≡ ([], stop)
      → flatten chunks ≡ encode_all bodies ++ tail
      → frames parse [] chunks ≡ whole parse (events bodies, stop)
  frames-tail chunks bodies tail stop h stuck cut =
      frames-flatten parse [] chunks (drain-nil parse)
      ∙ ap (λ t. whole parse (drain_complete_frames parse t)) cut
      ∙ ap (whole parse) (drain-encode_all bodies tail h)
      ∙ ap (λ (r : Drained parse). whole parse (events bodies ++ r.0, r.1)) stuck
      ∙ ap (λ es. whole parse (es, stop)) (append-nil (events bodies))

  -- However the bytes of several encoded frames are cut into chunks, the reader yields what their
  -- bodies decode to, in order, a malformed body as a fault of its own frame, and then closes. Each
  -- body is within the cap.
  pub frames-encode_all :
      (chunks bodies : List Bytes)
      → AllFit bodies
      → flatten chunks ≡ encode_all bodies
      → frames parse [] chunks ≡ (events bodies, closed)
  frames-encode_all chunks bodies h cut =
      frames-tail chunks bodies [] (waiting []) h (drain-nil parse)
        (cut ∙ sym (append-nil (encode_all bodies)))
      ∙ ap (λ es. (es, closed)) (append-nil (events bodies))

  drain_partial_body :
      (body : Bytes) (k : ℕ)
      → length body ≤ batch_cap_bytes
      → k < length body
      → drain_complete_frames parse (prefix (length body) ++ take k body)
        ≡ ([], waiting (prefix (length body) ++ take k body))
  unfolding prefix
  drain_partial_body body k h lt =
      let n = length body in
      drain-prefix n (take k body) (omega arith)
      ∙ round_short parse n (n / 2 ^ 24 % 256) (n / 2 ^ 16 % 256) (n / 2 ^ 8 % 256) (n % 256)
          (take k body) (within_cap n h) (omega (arith, length-take k body))

  drain_partial_prefix :
      (a b c d : ℕ) (rest : Bytes) (k : ℕ)
      → k < 4
      → drain_complete_frames parse (take k (a ∷ b ∷ c ∷ d ∷ rest))
        ≡ ([], waiting (take k (a ∷ b ∷ c ∷ d ∷ rest)))
  unfolding drain_complete_frames
  drain_partial_prefix a b c d rest zero lt = refl
  drain_partial_prefix a b c d rest (suc zero) lt = refl
  drain_partial_prefix a b c d rest (suc (suc zero)) lt = refl
  drain_partial_prefix a b c d rest (suc (suc (suc zero))) lt = refl
  drain_partial_prefix a b c d rest (suc (suc (suc (suc k)))) lt = absurd (omega arith)

  drain_partial :
      (body : Bytes) (k : ℕ)
      → length body ≤ batch_cap_bytes
      → k < length (encode_frame body)
      → drain_complete_frames parse (take k (encode_frame body))
        ≡ ([], waiting (take k (encode_frame body)))
  unfolding encode_frame prefix
  drain_partial body (suc (suc (suc (suc k)))) h lt = drain_partial_body body k h (omega arith)
  drain_partial body k h lt =
      drain_partial_prefix (length body / 2 ^ 24 % 256) (length body / 2 ^ 16 % 256)
        (length body / 2 ^ 8 % 256) (length body % 256) body k (omega arith)

  -- A stream that ends inside a frame, at least one byte of which has come, yields the frames
  -- before it and fails at the end of the stream. Each body is within the cap.
  pub frames-truncated :
      (chunks bodies : List Bytes) (body : Bytes) (k : ℕ)
      → AllFit (body ∷ bodies)
      → k + 1 < length (encode_frame body)
      → flatten chunks ≡ encode_all bodies ++ take (suc k) (encode_frame body)
      → frames parse [] chunks ≡ (events bodies, failed eof)
  unfolding encode_frame
  frames-truncated chunks bodies body k (h, hs) lt cut =
      frames-tail chunks bodies (take (suc k) (encode_frame body))
        (waiting (take (suc k) (encode_frame body))) hs (drain_partial body (suc k) h (omega arith))
        cut
      ∙ ap (λ es. (es, failed eof)) (append-nil (events bodies))

  -- A prefix that declares more than the cap ends the stream by a fault, after the frames before
  -- it, whatever follows it: nothing of its body is waited for. Each body before it is within the
  -- cap, and the declared length fits in four bytes.
  pub frames-oversize :
      (chunks bodies : List Bytes) (n : ℕ) (rest : Bytes)
      → AllFit bodies
      → batch_cap_bytes < n
      → n < 2 ^ 32
      → flatten chunks ≡ encode_all bodies ++ (prefix n ++ rest)
      → frames parse [] chunks ≡ (events bodies, failed oversize)
  frames-oversize chunks bodies n rest hs big fits cut =
      frames-tail chunks bodies (prefix n ++ rest) (thrown oversize) hs
        (drain-prefix n rest fits
          ∙ round_over parse n (n / 2 ^ 24 % 256) (n / 2 ^ 16 % 256) (n / 2 ^ 8 % 256) (n % 256)
              rest (beyond_cap n big))
        cut
      ∙ ap (λ es. (es, failed oversize)) (append-nil (events bodies))
