-- ===== src/Transport/ErrorText.antt =====
-- transport/error-text.ts: the ceilings of an error's text, and the pass that replaces the prefixes
-- that the host knows. The pass by shapes is built on regular expressions and left out.
pub mod Fits
pub mod Ordering
pub mod Scrubbing
use project_builder_sdk.Base.{
  ℕ, zero, suc, Bool, true, false, not, ◌&&◌, ◌||◌, Option, none, some, List, [], ◌∷◌, ◌++◌, Text,
  codes, text_eq, length, take, drop, any, ltb, leb, ◌==◌, if◌then◌else◌,
}

abbrev pub message_ceiling_chars : ℕ
message_ceiling_chars = 2000

abbrev pub token_ceiling_chars : ℕ
token_ceiling_chars = 200

abbrev pub outside_project_token : Text
outside_project_token = codes "<outside-project>"

unfoldable pub truncate_token : Text → Text
truncate_token token =
    if ltb token_ceiling_chars (length token) then take token_ceiling_chars token else token

unfoldable pub bound_message : Text → Text
bound_message message =
    if ltb message_ceiling_chars (length message)
    then take message_ceiling_chars message
    else message

unfoldable pub compose_with_token : Text → Text → Text → Text
compose_with_token prefix token suffix = bound_message (prefix ++ truncate_token token ++ suffix)

-- `isAbsolute` on a POSIX host.
abbrev is_absolute : Text → Bool
is_absolute [] = false
is_absolute (c ∷ _) = c == 47

abbrev pub format_relative_candidate : Text → Text
format_relative_candidate candidate =
    if is_absolute candidate then outside_project_token else candidate

-- An absolute prefix, and the token that replaces it.
pub record ScrubAnchor : Type 0 where
  pub token : Text
  pub path : Text

-- `\s` of a regular expression.
abbrev pub is_space : ℕ → Bool
is_space c =
    leb 9 c && leb c 13
    || (c == 32
        || (c == 160
            || (c == 5760
                || (leb 8192 c && leb c 8202
                    || (c == 8232
                        || (c == 8233
                            || (c == 8239 || (c == 8287 || (c == 12288 || c == 65279)))))))))

-- What `CONTINUES_SEGMENT` does not match: a space, a quote, an angle bracket or a slash.
unfoldable pub ends_segment : ℕ → Bool
ends_segment c =
    is_space c || (c == 39 || (c == 34 || (c == 60 || (c == 62 || (c == 92 || c == 47)))))

-- The text's end has no code unit that continues the segment.
abbrev pub at_boundary : Text → Bool
at_boundary [] = true
at_boundary (c ∷ _) = ends_segment c

-- The anchor's path stands here as whole segments.
unfoldable pub claims : Text → ScrubAnchor → Bool
claims rest anchor =
    text_eq (take (length anchor.path) rest) anchor.path
    && at_boundary (drop (length anchor.path) rest)

abbrev pub is_long : ScrubAnchor → Bool
is_long anchor = ltb 1 (length anchor.path)

unfoldable pub long_anchors : List ScrubAnchor → List ScrubAnchor
long_anchors [] = []
long_anchors (a ∷ anchors) = let rest = long_anchors anchors in if is_long a then a ∷ rest else rest

-- The stable sort, the longest path first.
unfoldable pub insert_anchor : ScrubAnchor → List ScrubAnchor → List ScrubAnchor
insert_anchor a [] = a ∷ []
insert_anchor a (b ∷ bs) =
    let rest = insert_anchor a bs in
    if ltb (length a.path) (length b.path) then b ∷ rest else a ∷ b ∷ bs

unfoldable pub longest_path_first : List ScrubAnchor → List ScrubAnchor
longest_path_first [] = []
longest_path_first (a ∷ anchors) = insert_anchor a (longest_path_first anchors)

unfoldable pub find_anchor : Text → List ScrubAnchor → Option ScrubAnchor
find_anchor rest [] = none
find_anchor rest (a ∷ anchors) =
    let found = find_anchor rest anchors in if claims rest a then some a else found

abbrev pub emitted : Text → Option Text → Option Text
emitted piece none = none
emitted piece (some scrubbed) = some (piece ++ scrubbed)

-- One turn of the loop at the code unit `c`, and the turns behind it.
abbrev pub scrub_turn : (Text → Option Text) → ℕ → Text → Option ScrubAnchor → Option Text
scrub_turn loop c rest none = emitted (c ∷ []) (loop rest)
scrub_turn loop c rest (some anchor) =
    emitted anchor.token (loop (drop (length anchor.path) (c ∷ rest)))

-- The loop on what is left of the message; `none` where the fuel runs out.
unfoldable pub scrub_loop : ℕ → List ScrubAnchor → Text → Option Text
scrub_loop fuel ordered [] = some []
scrub_loop zero ordered (c ∷ rest) = none
scrub_loop (suc fuel) ordered (c ∷ rest) =
    scrub_turn (λ t. scrub_loop fuel ordered t) c rest (find_anchor (c ∷ rest) ordered)

unfoldable pub anchor_known_prefixes : Text → List ScrubAnchor → Option Text
anchor_known_prefixes message anchors =
    scrub_loop (length message) (longest_path_first (long_anchors anchors)) message
