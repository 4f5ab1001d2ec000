-- ===== src/Tests/Streams.antt =====
-- Streams of frames, sizes of batches and glob patterns.
use mathlib.Core.List.{flatten}
use project_builder_sdk.Base.{
  ℕ, false, Option, none, some, List, [], ◌∷◌, ◌++◌, codes, ◌≡◌, ◌↔◌, ◌≤◌, ◌<◌, refl, take, length,
  arith, ◌+◌,
}
use project_builder_sdk.Wire.{
  Directive, delete, directive_value, measured_bytes, is_over_budget, emit_batch_budget_bytes,
  batch_value,
}
use project_builder_sdk.Wire.Json.{stringify, byte_length, quote, number_text}
use project_builder_sdk.Wire.Size.{Serializable}
use project_builder_sdk.Wire.Budget.{is_over_budget_iff}
use project_builder_sdk.Errors.{eof, oversize}
use project_builder_sdk.Frames.{Bytes, prefix, encode_frame, frames, failed, closed}
use project_builder_sdk.Frames.Stream.{frames_chunks}
use project_builder_sdk.Frames.RoundTrip.{
  frames-encode_all, frames-truncated, frames-oversize, events, encode_all, AllFit,
}
use project_builder_sdk.Session.{Session, envelope}
use project_builder_sdk.Scaffold.Expander.{emit_directives, start}
use project_builder_sdk.Scaffold.Expander.Groups.{recorder, Holds, emit_directives-accepted, Within}

-- A body parses to its first byte; an empty one does not parse.
abbrev first_byte : Bytes → Option ℕ
first_byte [] = none
first_byte (b ∷ _) = some b

abbrev body : Bytes
body = 5 ∷ 6 ∷ []

body_fits : AllFit (body ∷ [])
body_fits = (omega arith, tt)

abbrev two_chunks : List Bytes
two_chunks = (0 ∷ 0 ∷ 0 ∷ []) ∷ (2 ∷ 5 ∷ 6 ∷ []) ∷ []

two_chunks_cut : flatten two_chunks ≡ encode_all (body ∷ [])
unfolding flatten encode_frame prefix
two_chunks_cut = refl

frames-encode_all_example :
    frames first_byte [] two_chunks ≡ (events first_byte (body ∷ []), closed)
frames-encode_all_example =
    frames-encode_all first_byte two_chunks (body ∷ []) body_fits two_chunks_cut

frames_chunks_example :
    frames first_byte [] two_chunks ≡ frames first_byte [] (flatten two_chunks ∷ [])
frames_chunks_example = frames_chunks first_byte two_chunks

abbrev cut_short : List Bytes
cut_short = (0 ∷ 0 ∷ 0 ∷ 2 ∷ 5 ∷ []) ∷ []

cut_short_cut : flatten cut_short ≡ encode_all [] ++ take 5 (encode_frame body)
unfolding flatten encode_frame prefix
cut_short_cut = refl

cut_short_inside : 4 + 1 < length (encode_frame body)
unfolding encode_frame prefix
cut_short_inside = omega arith

frames-truncated_example : frames first_byte [] cut_short ≡ (events first_byte [], failed eof)
frames-truncated_example =
    frames-truncated first_byte cut_short [] body 4 body_fits cut_short_inside cut_short_cut

abbrev too_long : List Bytes
too_long = (255 ∷ 255 ∷ 255 ∷ 255 ∷ []) ∷ []

too_long_cut : flatten too_long ≡ encode_all [] ++ (prefix 4294967295 ++ [])
unfolding flatten encode_frame prefix
too_long_cut = refl

frames-oversize_example : frames first_byte [] too_long ≡ (events first_byte [], failed oversize)
frames-oversize_example =
    frames-oversize first_byte too_long [] 4294967295 [] tt (omega arith) (omega arith) too_long_cut

abbrev small : Directive
small = delete (codes "a")

small_text : Serializable small
unfolding stringify directive_value quote
small_text = (_, refl)

exceeds_emit_batch_budget_iff_example :
    (is_over_budget (envelope recorder (small ∷ [])) ≡ false)
    ↔ (measured_bytes (envelope recorder (small ∷ [])) ≤ emit_batch_budget_bytes)
exceeds_emit_batch_budget_iff_example = is_over_budget_iff (envelope recorder (small ∷ []))

abbrev idle : Session recorder
idle = record { pending = small ∷ []; engine = [] }

small-Within : Within (envelope recorder (small ∷ []))
unfolding is_over_budget measured_bytes stringify byte_length batch_value quote number_text
small-Within = refl

emit_directives-accepted_example :
    Holds
      (small ∷ small ∷ [])
      (emit_directives recorder (small ∷ []) (start recorder idle [])).session
emit_directives-accepted_example =
    emit_directives-accepted idle [] (small ∷ []) refl small-Within (small_text, tt)
      ((small-Within, small_text), tt)
