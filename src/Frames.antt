-- ===== src/Frames.antt =====
-- transport/framing.ts and transport/frame-reader.ts: the length-prefixed frame codec, and the
-- reassembly of frames from the chunks of a byte stream. A byte is a number. What `JSON.parse` makes
-- of a body is a parameter, with `none` where it throws.
pub mod Rounds
pub mod Stream
pub mod RoundTrip
use project_builder_sdk.Base.{
  ℕ, zero, suc, ◌+◌, ◌*◌, ◌/◌, ◌%◌, ◌^◌, Bool, true, false, Option, none, some, List, [], ◌∷◌, ◌++◌,
  length, take, drop, ltb, if◌then◌else◌,
}
use project_builder_sdk.Wire.{exceeds_batch_cap}
use project_builder_sdk.Errors.{FaultKind, malformed, oversize, eof}

abbrev pub Bytes : Type 0
Bytes = List ℕ

abbrev pub length_prefix_bytes : ℕ
length_prefix_bytes = 4

-- `writeUInt32BE`
unfoldable pub prefix : ℕ → Bytes
prefix n = n / 2 ^ 24 % 256 ∷ n / 2 ^ 16 % 256 ∷ n / 2 ^ 8 % 256 ∷ n % 256 ∷ []

-- `readUInt32BE` of four bytes.
abbrev pub declared : ℕ → ℕ → ℕ → ℕ → ℕ
declared a b c d = a * 2 ^ 24 + b * 2 ^ 16 + c * 2 ^ 8 + d

unfoldable pub encode_frame : Bytes → Bytes
unfolding prefix
encode_frame body = prefix (length body) ++ body

unfoldable pub is_oversize_declared_length : ℕ → Bool
unfolding exceeds_batch_cap
is_oversize_declared_length n = exceeds_batch_cap n

pub data Event {ℓ} (V : Type ℓ) : Type ℓ where
  frame : V → Event V
  frame_fault : FaultKind → Event V

-- How a drain of the buffer stops: waiting for more bytes, or by a fault that is thrown.
pub data Stop : Type 0 where
  waiting : Bytes → Stop
  thrown : FaultKind → Stop

-- How the generator ends.
pub data Ending : Type 0 where
  closed : Ending
  failed : FaultKind → Ending

module _ {ℓ} {V : Type ℓ} (parse : Bytes → Option V) where
  abbrev pub decoded : Option V → Event V
  decoded none = frame_fault malformed
  decoded (some v) = frame v

  abbrev pub Drained : Type ℓ
  Drained = List (Event V) × Stop

  abbrev pub push_event : Event V → Drained → Drained
  push_event e r = (e ∷ r.0, r.1)

  -- `#drainCompleteFrames` on a buffer. Each round takes a prefix off it, so its length is enough
  -- fuel.
  unfoldable pub drain : ℕ → Bytes → Drained
  drain zero buffer = ([], waiting buffer)
  drain (suc fuel) (a ∷ b ∷ c ∷ d ∷ rest) =
      let n = declared a b c d in
      let more = push_event (decoded (parse (take n rest))) (drain fuel (drop n rest)) in
      if is_oversize_declared_length n
      then ([], thrown oversize)
      else if ltb (length rest) n
      then ([], waiting (a ∷ b ∷ c ∷ d ∷ rest))
      else more
  drain (suc fuel) buffer = ([], waiting buffer)

  unfoldable pub drain_complete_frames : Bytes → Drained
  unfolding drain is_oversize_declared_length
  drain_complete_frames buffer = drain (length buffer) buffer

  abbrev pub Read : Type ℓ
  Read = List (Event V) × Ending

  abbrev pub end_of_stream : Bytes → Read
  end_of_stream [] = ([], closed)
  end_of_stream (_ ∷ _) = ([], failed eof)

  abbrev pub after_events : List (Event V) → Read → Read
  after_events es r = (es ++ r.0, r.1)

  abbrev pub after_stop : (Bytes → Read) → Stop → Read
  after_stop next (waiting rest) = next rest
  after_stop next (thrown k) = ([], failed k)

  -- `frames()`, over the chunks that the source yields.
  unfoldable pub frames : Bytes → List Bytes → Read
  unfolding drain_complete_frames
  frames buffer [] = end_of_stream buffer
  frames buffer (chunk ∷ chunks) =
      let r = drain_complete_frames (buffer ++ chunk) in
      after_events r.0 (after_stop (λ rest. frames rest chunks) r.1)
