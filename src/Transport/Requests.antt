-- ===== src/Transport/Requests.antt =====
-- The request frames of transport/wire-protocol.ts, as transport/stdio-engine-client.ts writes them.
use project_builder_sdk.Base.{
  ℕ, ◌+◌, ◌^◌, ◌<◌, ◌≤◌, false, some, [], ◌∷◌, ◌++◌, Text, codes, All, length, ◌||◌, ◌≡◌, refl, ap,
  ◌∙◌, arith, append_assoc,
}
use project_builder_sdk.Wire.{Batch, batch_value, batch_cap_bytes, measured_bytes, is_over_budget}
use project_builder_sdk.Wire.Value.{JsValue, str, obj, end, field}
use project_builder_sdk.Wire.Json.{
  stringify, text, text_or_nil, Serialized, enclose, push_field, byte_length, unit_bytes, quote,
  quote_from, quote_unit, quote_plain, starts_pair, is_high, is_low,
}
use project_builder_sdk.Wire.Size.{byte_length-append}
use project_builder_sdk.Wire.Budget.{is_over_budget_iff, budget-eq}
use project_builder_sdk.Transport.Decimal.{
  decimal, IsDigit, decimal-IsDigit, decimal-length, decimal_injective,
}

-- `REVERSE_CALLBACK_METHODS`
pub data ReverseMethod : Type 0 where
  tree_read ir_emit ir_commit ir_discard : ReverseMethod

abbrev pub method_name : ReverseMethod → Text
method_name tree_read = codes "tree.read"
method_name ir_emit = codes "ir.emit"
method_name ir_commit = codes "ir.commit"
method_name ir_discard = codes "ir.discard"

pub record RequestFrame : Type 0 where
  pub id : Text
  pub method : ReverseMethod
  pub params : JsValue

abbrev pub request_value : RequestFrame → JsValue
request_value r = obj (
    field (codes "type") (str (codes "request")) (
      field (codes "id") (str r.id) (
        field (codes "method") (str (method_name r.method)) (field (codes "params") r.params end))))

-- `encodeFrameBody`, the text of the body.
unfoldable pub frame_body : RequestFrame → Text
frame_body r = text_or_nil (stringify (request_value r))

-- `s${n}`
unfoldable pub request_id : ℕ → Text
request_id n = b's' ∷ decimal n

unfoldable pub emit_request : ℕ → Batch → RequestFrame
unfolding request_id
emit_request n b = record {
  id = request_id n;
  method = ir_emit;
  params = obj (field (codes "batch") (batch_value b) end);
}

pub request_id_injective : (m n : ℕ) → request_id m ≡ request_id n → m ≡ n
unfolding request_id
request_id_injective m n h = decimal_injective m n (cc)

quote_plain_digit : (c : ℕ) → IsDigit c → quote_plain c ≡ c ∷ []
unfolding quote_plain
quote_plain_digit c (low, high) = ground arith

not_surrogate : (c : ℕ) → IsDigit c → (is_high c || is_low c) ≡ false
not_surrogate c (low, high) = ground arith

quote_unit_digit : (c : ℕ) (s : Text) → IsDigit c → quote_unit false c s ≡ c ∷ []
unfolding quote_unit
quote_unit_digit c s h = rw (not_surrogate c h) (quote_plain_digit c h)

no_pair : (c : ℕ) (s : Text) → IsDigit c → starts_pair c s ≡ false
no_pair c [] h = refl
no_pair c (d ∷ s) (low, high) = ground arith

quote_digits : (s : Text) → All IsDigit s → quote_from false s ≡ s
unfolding quote_from
quote_digits [] h = refl
quote_digits (c ∷ s) (h, hs) =
    rw (quote_unit_digit c s h, no_pair c s h) (ap (λ t. c ∷ t) (quote_digits s hs))

bytes_digits : (s : Text) → All IsDigit s → byte_length s ≡ length s
unfolding byte_length
bytes_digits [] h = refl
bytes_digits (c ∷ s) (h, hs) = ground (arith, bytes_digits s hs)

quote_from-s : (s : Text) → quote_from false (b's' ∷ s) ≡ b's' ∷ quote_from false s
unfolding quote_from quote_unit quote_plain
quote_from-s [] = refl
quote_from-s (c ∷ s) = refl

-- The text of the id between its quotation marks.
quote-request_id : (n : ℕ) → quote (request_id n) ≡ codes "\"s" ++ (decimal n ++ codes "\"")
unfolding quote request_id
quote-request_id n =
    ap (λ t. codes "\"" ++ (t ++ codes "\""))
      (quote_from-s (decimal n) ∙ ap (λ t. b's' ∷ t) (quote_digits (decimal n) (decimal-IsDigit n)))

-- The text of an emit frame, from the text of its id and that of the batch.
abbrev emit_text : Text → Serialized → Text
emit_text id batch = text_or_nil (
    enclose b'{' b'}' (
      push_field (quote (codes "type")) (text (quote (codes "request"))) (
        push_field (quote (codes "id")) (text id) (
          push_field (quote (codes "method")) (text (quote (codes "ir.emit"))) (
            push_field (quote (codes "params"))
              (enclose b'{' b'}' (push_field (quote (codes "batch")) batch (some [])))
              (some []))))))

abbrev before_id : Text
before_id = codes "{\"type\":\"request\",\"id\":\"s"

abbrev between : Text
between = codes "\",\"method\":\"ir.emit\",\"params\":{\"batch\":"

emit_text-parts :
    (digits t : Text)
    → emit_text (codes "\"s" ++ (digits ++ codes "\"")) (text t)
      ≡ before_id ++ (digits ++ (between ++ (t ++ codes "}}")))
unfolding quote quote_from quote_unit quote_plain
emit_text-parts digits t = simp append_assoc

frame_body-emit :
    (n : ℕ) (b : Batch)
    → frame_body (emit_request n b) ≡ emit_text (quote (request_id n)) (stringify (batch_value b))
unfolding frame_body emit_request stringify
frame_body-emit n b = refl

frame_body-parts :
    (n : ℕ) (b : Batch) (t : Text)
    → stringify (batch_value b) ≡ text t
    → frame_body (emit_request n b) ≡ before_id ++ (decimal n ++ (between ++ (t ++ codes "}}")))
frame_body-parts n b t h =
    frame_body-emit n b
    ∙ ap (λ q. emit_text q (stringify (batch_value b))) (quote-request_id n)
    ∙ ap (emit_text (codes "\"s" ++ (decimal n ++ codes "\""))) h
    ∙ emit_text-parts (decimal n) t

-- Everything of the frame but the digits of its id and the batch.
envelope_bytes : ℕ
envelope_bytes = byte_length before_id + (byte_length between + byte_length (codes "}}"))

envelope_bytes-eq : envelope_bytes ≡ 66
unfolding envelope_bytes byte_length unit_bytes
envelope_bytes-eq = refl

frame_bytes :
    (n : ℕ) (b : Batch) (t : Text)
    → stringify (batch_value b) ≡ text t
    → byte_length (frame_body (emit_request n b)) ≡ measured_bytes b + length (decimal n) + 66
unfolding measured_bytes envelope_bytes
frame_bytes n b t h =
    rw (frame_body-parts n b t h, h)
      (omega (
        arith,
        byte_length-append before_id (decimal n ++ (between ++ (t ++ codes "}}"))),
        byte_length-append (decimal n) (between ++ (t ++ codes "}}")),
        byte_length-append between (t ++ codes "}}"),
        byte_length-append t (codes "}}"),
        bytes_digits (decimal n) (decimal-IsDigit n),
        envelope_bytes-eq,
      ))

-- A batch that has a JSON text and that the emit budget accepts makes a frame body within the cap,
-- whatever safe integer its request is numbered with.
pub frame_body-within_cap :
    (n : ℕ) (b : Batch) (t : Text)
    → n < 2 ^ 53
    → stringify (batch_value b) ≡ text t
    → is_over_budget b ≡ false
    → byte_length (frame_body (emit_request n b)) ≤ batch_cap_bytes
frame_body-within_cap n b t safe h accepted = omega (
  arith,
  frame_bytes n b t h,
  decimal-length 15 n (omega (arith, safe)),
  (is_over_budget_iff b).0 accepted,
  budget-eq,
)
