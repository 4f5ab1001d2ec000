-- ===== src/Transport/Client/Minting.antt =====
-- The frames that the calls write, and the ids that they mint.
use mathlib.Core.Path.{subst}
use project_builder_sdk.Base.{
  ℕ, ◌+◌, ◌<◌, ◌≤◌, Bool, Option, some, Text, true, false, List, [], ◌∷◌, ◌++◌, Text, ◌≡◌, ◌⊎◌, inl,
  inr, refl, ap, ◌∙◌, sym, length, length-append, arith, none, codes,
}
use project_builder_sdk.Wire.{
  Batch, batch_value, exceeds_batch_cap, emit_batch_budget_bytes,
  emit_frame_envelope_allowance_bytes, serialized_batch_bytes, exceeds_emit_batch_budget, bytes_of,
  over_budget_by,
}
use project_builder_sdk.Wire.Budget.{allowance-eq, budget-eq}
use project_builder_sdk.Wire.Json.{
  Serialized, throws, omitted, text, stringify, byte_length, enclose,
}
use project_builder_sdk.Wire.Value.{JsValue, obj, end, field, str}
use project_builder_sdk.Errors.{Thrown, Result, ok, err, emit_rejection, cap}
use project_builder_sdk.Transport.Requests.{
  RequestFrame, ReverseMethod, tree_read, ir_commit, ir_discard, request_id, emit_request,
}
use project_builder_sdk.Transport.Rejections.{WireError}
use project_builder_sdk.Transport.Client.{
  StdioEngineClient, ResponseFrame, await_response, write_request, call, settled, read_result, emit,
  emit_measured, unserializable, read, commit, discard,
}
use project_builder_sdk.Transport.Client.Waiting.{await_response-Waits}

-- The frames carry the numbers from `i` on as their ids.
abbrev pub Numbered : ℕ → List RequestFrame → Type 0
Numbered i [] = Unit
Numbered i (r ∷ rs) = (r.id ≡ request_id i) × Numbered (i + 1) rs

-- The frames were written under the ids "s0", "s1" and so on, up to the next one to mint.
abbrev pub Minted : StdioEngineClient → Type 0
Minted c = Numbered 0 c.written × (length c.written ≡ c.next_request_id)

Numbered-append :
    (i : ℕ) (rs : List RequestFrame) (r : RequestFrame)
    → Numbered i rs
    → r.id ≡ request_id (i + length rs)
    → Numbered i (rs ++ r ∷ [])
Numbered-append i [] r h e = (e ∙ ap request_id (omega arith), tt)
Numbered-append i (q ∷ rs) r (h, hs) e =
    (h, Numbered-append (i + 1) rs r hs (e ∙ ap request_id (omega arith)))

-- A client that went on from another by one frame, under the next id.
pub record Sends (r : RequestFrame) (c c' : StdioEngineClient) : Type 0 where
  pub written : c'.written ≡ c.written ++ r ∷ []
  pub next : c'.next_request_id ≡ c.next_request_id + 1
  pub numbered : r.id ≡ request_id c.next_request_id

sent :
    (r : RequestFrame) (c : StdioEngineClient)
    → r.id ≡ request_id c.next_request_id
    → Sends r c (await_response r.id (write_request r c)).0
unfolding write_request
sent r c e =
    let w = await_response-Waits r.id (write_request r c) in
    record { written = w.written; next = w.next; numbered = e }

pub Sends-Minted :
    (r : RequestFrame) (c c' : StdioEngineClient) → Sends r c c' → Minted c → Minted c'
Sends-Minted r c c' s (h, n) = (
  subst (Numbered 0) (sym s.written)
      (Numbered-append 0 c.written r h (s.numbered ∙ ap request_id (omega (arith, n)))),
  ap length s.written ∙ omega (arith, n, s.next, length-append c.written (r ∷ [])),
)

settled-client :
    (f : WireError → Thrown) (out : StdioEngineClient × Result ResponseFrame)
    → (settled f out).0 ≡ out.0
settled-client f (c, ok r) = refl
settled-client f (c, err e) = refl

read_result-client : (out : StdioEngineClient × Result ResponseFrame) → (read_result out).0 ≡ out.0
read_result-client (c, ok r) = refl
read_result-client (c, err e) = refl

abbrev pub numbered_request : ReverseMethod → JsValue → StdioEngineClient → RequestFrame
numbered_request m params c = record {
  id = request_id c.next_request_id;
  method = m;
  params = params;
}

call-Sends :
    (m : ReverseMethod) (params : JsValue) (c : StdioEngineClient)
    → Sends (numbered_request m params c) c (call m params c).0
unfolding call
call-Sends m params c = sent (numbered_request m params c) c refl

pub commit-Sends :
    (c : StdioEngineClient) → Sends (numbered_request ir_commit (obj end) c) c (commit c).0
unfolding commit
commit-Sends c =
    subst (Sends (numbered_request ir_commit (obj end) c) c) (sym (settled-client _ _))
      (call-Sends ir_commit (obj end) c)

pub discard-Sends :
    (c : StdioEngineClient) → Sends (numbered_request ir_discard (obj end) c) c (discard c).0
unfolding discard
discard-Sends c =
    subst (Sends (numbered_request ir_discard (obj end) c) c) (sym (settled-client _ _))
      (call-Sends ir_discard (obj end) c)

abbrev pub read_params : Text → JsValue
read_params p = obj (field (codes "path") (str p) end)

pub read-Sends :
    (p : Text) (c : StdioEngineClient)
    → Sends (numbered_request tree_read (read_params p) c) c (read p c).0
unfolding read
read-Sends p c =
    subst (Sends (numbered_request tree_read (read_params p) c) c) (sym (read_result-client _))
      (call-Sends tree_read (read_params p) c)

emit_request-id : (n : ℕ) (b : Batch) → (emit_request n b).id ≡ request_id n
unfolding emit_request
emit_request-id n b = refl

-- What an emit does with a batch, by its JSON text.
pub EmitSends :
    Batch → StdioEngineClient → StdioEngineClient × Result (Unit {0}) → Serialized → Type 0
EmitSends b c out throws = out ≡ (c, err unserializable)
EmitSends b c out omitted = ⊥
EmitSends b c out (text t) =
    ((emit_batch_budget_bytes < byte_length t)
      × (out ≡ (c, err (Thrown.emit (emit_rejection cap none)))))
    ⊎ ((byte_length t ≤ emit_batch_budget_bytes) × Sends (emit_request c.next_request_id b) c out.0)

module _ (b : Batch) (c : StdioEngineClient) where
  measured-EmitSends :
      (t : Text) (over : Bool)
      → exceeds_batch_cap (byte_length t + emit_frame_envelope_allowance_bytes) ≡ over
      → EmitSends b c (emit_measured b c (some over)) (text t)
  unfolding EmitSends exceeds_batch_cap await_response write_request emit_request
  measured-EmitSends t true h = inl (ground (arith, h, allowance-eq, budget-eq), refl)
  measured-EmitSends t false h = inr (
    ground (arith, h, allowance-eq, budget-eq),
    subst (Sends (emit_request c.next_request_id b) c) (sym (settled-client _ _))
        (sent (emit_request c.next_request_id b) c (emit_request-id c.next_request_id b)),
  )

  fields-EmitSends :
      (o : Option (List Text))
      → EmitSends b c
          (emit_measured b c (over_budget_by (bytes_of (enclose b'{' b'}' o))))
          (enclose b'{' b'}' o)
  unfolding EmitSends
  fields-EmitSends none = refl
  fields-EmitSends (some ts) = measured-EmitSends _ _ refl

  -- An emit of a batch that has no JSON text throws, and one whose text is beyond the emit budget
  -- is refused, each without a frame, an id or any change of the client; any other batch is written
  -- in one frame, under the next id.
  pub emit_lem : EmitSends b c (emit b c) (stringify (batch_value b))
  unfolding emit exceeds_emit_batch_budget serialized_batch_bytes stringify batch_value
  emit_lem = fields-EmitSends _

EmitSends-Minted :
    (b : Batch) (c : StdioEngineClient) (out : StdioEngineClient × Result (Unit {0}))
    (t : Serialized)
    → EmitSends b c out t
    → Minted c
    → Minted out.0
unfolding EmitSends
EmitSends-Minted b c out throws e h =
    subst Minted (sym (ap (λ (o : StdioEngineClient × Result (Unit {0})). o.0) e)) h
EmitSends-Minted b c out omitted e h = absurd e
EmitSends-Minted b c out (text t) (inl (_, e)) h =
    subst Minted (sym (ap (λ (o : StdioEngineClient × Result (Unit {0})). o.0) e)) h
EmitSends-Minted b c out (text t) (inr (_, s)) h =
    Sends-Minted (emit_request c.next_request_id b) c out.0 s h

pub emit-Minted : (b : Batch) (c : StdioEngineClient) → Minted c → Minted (emit b c).0
emit-Minted b c h = EmitSends-Minted b c (emit b c) (stringify (batch_value b)) (emit_lem b c) h
