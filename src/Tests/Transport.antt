-- ===== src/Tests/Transport.antt =====
-- The client that speaks frames, its requests and its rejections.
use project_builder_sdk.Base.{
  true, false, none, some, List, [], ◌∷◌, Text, codes, ◌≡◌, ◌≢◌, ◌≤◌, refl, arith, Text-discrete,
  text_eq_iff,
}
use project_builder_sdk.Wire.{
  delete, Batch, batch_value, batch_cap_bytes, measured_bytes, is_over_budget,
}
use project_builder_sdk.Wire.Value.{null, function, arr, obj, cons, nil, field, end}
use project_builder_sdk.Wire.Assertion.{
  key, index, kind, assert_json_value, assert_items, assert_entries,
}
use project_builder_sdk.Wire.Json.{stringify, byte_length, quote, number_text, text}
use project_builder_sdk.Errors.{EmitRejection, applied_first, collision, ok}
use project_builder_sdk.Transport.Decimal.{decimal}
use project_builder_sdk.Transport.Requests.{
  frame_body, frame_body-within_cap, emit_request, request_id,
}
use project_builder_sdk.Transport.Rejections.{string, absent, WireError}
use project_builder_sdk.Transport.Client.{
  StdioEngineClient, arrives, response, other_type, ResponseFrame, matching, await_response, emit,
  stdio_client,
}
use project_builder_sdk.Transport.Client.Waiting.{
  answered, await_response-answered, stale_response, Waits, await_response-Waits,
}
use project_builder_sdk.Transport.Client.Minting.{EmitSends, emit_lem}
use project_builder_sdk.Transport.ErrorText.{
  ScrubAnchor, ends_segment, claims, long_anchors, insert_anchor, longest_path_first, find_anchor,
  scrub_loop, anchor_known_prefixes, truncate_token, bound_message, compose_with_token,
}
use project_builder_sdk.Transport.ErrorText.Scrubbing.{Scrubs, anchor_known_prefixes-Scrubs}
use project_builder_sdk.Run.{Script, run}
use project_builder_sdk.Run.Protocol.{Ended, run-Ended}

abbrev one_delete : Batch
one_delete = record { force = false; instructions = delete (codes "a") ∷ [] }

one_delete_fits : is_over_budget one_delete ≡ false
unfolding is_over_budget measured_bytes stringify byte_length batch_value quote number_text
one_delete_fits = refl

one_delete_text : (t : Text) × (stringify (batch_value one_delete) ≡ text t)
unfolding stringify batch_value quote number_text
one_delete_text = (_, refl)

frame_body-within_cap_example :
    byte_length (frame_body (emit_request 9007199254740991 one_delete)) ≤ batch_cap_bytes
frame_body-within_cap_example =
    frame_body-within_cap 9007199254740991 one_delete one_delete_text.0 (omega arith)
      one_delete_text.1 one_delete_fits

abbrev collided : EmitRejection
collided = record { code = collision; failed_index = some 2; applied_count = applied_first 2 }

-- A collision without an index.
abbrev broken : WireError
broken = record {
  content =
      some
        (record { code = string (codes "collision"); failed_index = absent; applied_count = none });
}

abbrev answer : ResponseFrame
answer = record { id = codes "s1"; error = none; content = some (codes "x") }

abbrev stale : ResponseFrame
stale = record { id = codes "s0"; error = none; content = none }

-- A client that waits for "s1" behind a frame of another type and a late answer.
abbrev waiting : StdioEngineClient
waiting = record {
  next_request_id = 2;
  written = [];
  inbox = arrives other_type ∷ arrives (response stale) ∷ arrives (response answer) ∷ [];
  dangling_read = true;
  reads = 1;
  notes = 0;
}

stale_is_other : codes "s0" ≢ codes "s1"
unfolding Text-discrete
stale_is_other h =
    let e : false ≡ true = (text_eq_iff (codes "s0") (codes "s1")).1 h in absurd (cc e)

await_response-answered_example :
    await_response (codes "s1") waiting ≡ (answered 2 [] waiting, ok answer)
await_response-answered_example =
    await_response-answered (codes "s1") (other_type ∷ response stale ∷ []) answer [] waiting
      (tt, (stale_is_other, tt)) refl refl

await_response-Waits_example : Waits waiting (await_response (codes "s1") waiting).0
await_response-Waits_example = await_response-Waits (codes "s1") waiting

id_of_first : codes "s0" ≡ request_id 0
unfolding request_id decimal
id_of_first = refl

stale_response_example : matching (request_id 1) (response stale) ≡ none
stale_response_example = stale_response 0 1 stale (omega arith) id_of_first

emit_lem_example :
    EmitSends one_delete waiting (emit one_delete waiting) (stringify (batch_value one_delete))
emit_lem_example = emit_lem one_delete waiting

-- A client before its first call, whose host never answers.
abbrev fresh : StdioEngineClient
fresh = record {
  next_request_id = 0;
  written = [];
  inbox = [];
  dangling_read = false;
  reads = 0;
  notes = 0;
}

abbrev one_edit : Script
one_edit = Script.buffer (delete (codes "a")) Script.done

run-Ended_example : Ended (run stdio_client one_edit fresh)
run-Ended_example = run-Ended one_edit fresh (tt, refl)

-- A project, a package inside it, and a root that claims nothing.
abbrev host_anchors : List ScrubAnchor
host_anchors =
    record { token = codes "<p>"; path = codes "/r" }
    ∷ record { token = codes "<sdk>"; path = codes "/r/s" }
    ∷ record { token = codes "<root>"; path = codes "/" }
    ∷ []

-- A path behind a word, a neighbour with a longer name, and the end of the message.
host_anchors_replaced :
    anchor_known_prefixes (codes "at/r/s/x, /r-old /r") host_anchors
    ≡ some (codes "at<sdk>/x, /r-old <p>")
unfolding anchor_known_prefixes scrub_loop find_anchor longest_path_first insert_anchor long_anchors
    claims ends_segment Text-discrete
host_anchors_replaced = refl

composed_token : compose_with_token (codes "no ") (codes "-x") (codes ".") ≡ codes "no -x."
unfolding compose_with_token bound_message truncate_token
composed_token = refl

anchor_known_prefixes-Scrubs_example :
    Scrubs host_anchors
      (codes "at/r/s/x, /r-old /r")
      (anchor_known_prefixes (codes "at/r/s/x, /r-old /r") host_anchors)
anchor_known_prefixes-Scrubs_example =
    anchor_known_prefixes-Scrubs host_anchors (codes "at/r/s/x, /r-old /r")

-- A function two levels down.
offending_item :
    assert_json_value (obj (field (codes "a") (arr (cons null (cons function nil))) end)) []
    ≡ some (record { where_at = key (codes "a") ∷ index 1 ∷ []; what = kind (codes "function") })
unfolding assert_json_value assert_items assert_entries
offending_item = refl
