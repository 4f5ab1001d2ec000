-- ===== src/Transport/Client.antt =====
-- transport/stdio-engine-client.ts: the engine client that writes a request frame per call and awaits
-- its response. Its calls are chained, so they are modelled one after another; what the channel brings
-- is a list of arrivals, in which `silence` is the expiry of the timer of a call before the next frame.
pub mod Waiting
pub mod Minting
use project_builder_sdk.Base.{
  ℕ, ◌+◌, Bool, true, false, Option, none, some, List, [], ◌∷◌, ◌++◌, Text, codes, text_eq,
  if◌then◌else◌,
}
use project_builder_sdk.Wire.{Batch, exceeds_emit_batch_budget}
use project_builder_sdk.Wire.Value.{JsValue, str, obj, end, field}
use project_builder_sdk.Errors.{
  Thrown, foreign, transport_fault, intent_rejected, FaultKind, timeout, Result, ok, err,
  emit_rejection, cap,
}
use project_builder_sdk.Engine.{EngineClient}
use project_builder_sdk.Transport.Requests.{
  ReverseMethod, tree_read, ir_emit, ir_commit, ir_discard, RequestFrame, request_id, emit_request,
}
use project_builder_sdk.Transport.Rejections.{WireError, reconstruct_emit_rejection}

-- The content of a result, where it is one of `tree.read`: `null` is `none`.
pub record ResponseFrame : Type 0 where
  pub id : Text
  pub error : Option WireError
  pub content : Option Text

-- A frame that is read: no object, an object of another type than "response", or a response.
pub data Incoming : Type 0 where
  non_object : Incoming
  other_type : Incoming
  response : ResponseFrame → Incoming

pub data Arrival : Type 0 where
  arrives : Incoming → Arrival
  faults : FaultKind → Arrival
  silence : Arrival

pub record StdioEngineClient : Type 0 where
  pub next_request_id : ℕ
  -- The frames that were written.
  pub written : List RequestFrame
  -- What the channel is still to bring.
  pub inbox : List Arrival
  -- `#danglingRead`: a read that was issued and is not consumed.
  pub dangling_read : Bool
  -- How often the channel's `read` was called.
  pub reads : ℕ
  -- The notes of discarded frames on stderr.
  pub notes : ℕ

-- `this.#danglingRead ??= this.#io.read()`
unfoldable pub adopt_or_read : StdioEngineClient → StdioEngineClient
adopt_or_read c = record c {
  dangling_read = true;
  reads = if c.dangling_read then c.reads else c.reads + 1;
}

unfoldable pub consumed : List Arrival → StdioEngineClient → StdioEngineClient
consumed later c = record c { inbox = later; dangling_read = false }

-- `candidate.id !== id`, and the two discards before it.
abbrev pub matching : Text → Incoming → Option ResponseFrame
matching id non_object = none
matching id other_type = none
matching id (response r) = if text_eq r.id id then some r else none

abbrev note : StdioEngineClient → StdioEngineClient
note c = record c { notes = c.notes + 1 }

-- The loop of `#readUntilMatch` in the race of `#awaitResponse`, on the arrivals to come. A call that
-- times out is abandoned, and leaves its read to the next one.
unfoldable pub read_until_match :
    Text → List Arrival → StdioEngineClient → StdioEngineClient × Result ResponseFrame
unfolding adopt_or_read consumed
read_until_match id [] c = (record (adopt_or_read c) { inbox = [] }, err (transport_fault timeout))
read_until_match id (silence ∷ later) c =
    (record (adopt_or_read c) { inbox = later }, err (transport_fault timeout))
read_until_match id (faults k ∷ later) c =
    (consumed later (adopt_or_read c), err (transport_fault k))
read_until_match id (arrives f ∷ later) c =
    let next = consumed later (adopt_or_read c) in
    let rest = read_until_match id later (note next) in
    elim (matching id f) [ some r ↦ (next, ok r) | none ↦ rest ]

unfoldable pub await_response : Text → StdioEngineClient → StdioEngineClient × Result ResponseFrame
unfolding read_until_match
await_response id c = read_until_match id c.inbox c

-- Mints the id and writes the frame.
unfoldable pub write_request : RequestFrame → StdioEngineClient → StdioEngineClient
write_request r c = record c {
  next_request_id = c.next_request_id + 1;
  written = c.written ++ r ∷ [];
}

unfoldable pub call :
    ReverseMethod → JsValue → StdioEngineClient → StdioEngineClient × Result ResponseFrame
unfolding write_request await_response request_id
call method params c =
    let id = request_id c.next_request_id in
    await_response id (write_request (record { id = id; method = method; params = params }) c)

abbrev refused_by : (WireError → Thrown) → Option WireError → Result (Unit {0})
refused_by f none = ok tt
refused_by f (some e) = err (f e)

abbrev pub settled :
    (WireError → Thrown)
    → StdioEngineClient × Result ResponseFrame
    → StdioEngineClient × Result (Unit {0})
settled f (c, ok r) = (c, refused_by f r.error)
settled f (c, err e) = (c, err e)

-- The `TypeError` of `JSON.stringify`.
abbrev pub unserializable : Thrown
unserializable = foreign (codes "TypeError")

-- No id is minted and no frame is written for a batch that cannot be measured or is beyond the
-- budget.
abbrev pub emit_measured :
    Batch → StdioEngineClient → Option Bool → StdioEngineClient × Result (Unit {0})
emit_measured b c none = (c, err unserializable)
emit_measured b c (some true) = (c, err (Thrown.emit (emit_rejection cap none)))
emit_measured b c (some false) =
    settled (λ e. Thrown.emit (reconstruct_emit_rejection e))
      (await_response (request_id c.next_request_id)
        (write_request (emit_request c.next_request_id b) c))

unfoldable pub emit : Batch → StdioEngineClient → StdioEngineClient × Result (Unit {0})
unfolding await_response write_request emit_request reconstruct_emit_rejection
emit b c = emit_measured b c (exceeds_emit_batch_budget b)

abbrev content_of : Option WireError → Option Text → Result (Option Text)
content_of none o = ok o
content_of (some e) o = err intent_rejected

abbrev pub read_result :
    StdioEngineClient × Result ResponseFrame → StdioEngineClient × Result (Option Text)
read_result (c, ok r) = (c, content_of r.error r.content)
read_result (c, err e) = (c, err e)

unfoldable pub read : Text → StdioEngineClient → StdioEngineClient × Result (Option Text)
unfolding call
read p c = read_result (call tree_read (obj (field (codes "path") (str p) end)) c)

unfoldable pub commit : StdioEngineClient → StdioEngineClient × Result (Unit {0})
unfolding call
commit c = settled (λ e. intent_rejected) (call ir_commit (obj end) c)

unfoldable pub discard : StdioEngineClient → StdioEngineClient × Result (Unit {0})
unfolding call
discard c = settled (λ e. intent_rejected) (call ir_discard (obj end) c)

abbrev pub stdio_client : EngineClient
stdio_client = record {
  State = StdioEngineClient;
  emit = emit;
  read = read;
  commit = commit;
  discard = discard;
  emit_throwing = λ e. e;
}
