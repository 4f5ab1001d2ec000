-- ===== src/Transport/Client/Waiting.antt =====
-- The wait for a response: what it skips, what it leaves, and how often it reads the channel.
use project_builder_sdk.Base.{
  ℕ, suc, ◌+◌, ◌<◌, Bool, true, false, none, List, [], ◌∷◌, ◌++◌, Text, All, length, map,
  if◌then◌else◌, ◌≡◌, ◌≢◌, refl, ap, ◌∙◌, arith, Option-cases, inl, inr,
}
use project_builder_sdk.Errors.{ok}
use project_builder_sdk.Transport.Requests.{request_id, request_id_injective}
use project_builder_sdk.Transport.Client.{
  StdioEngineClient, Arrival, arrives, faults, silence, Incoming, non_object, other_type, response,
  ResponseFrame, matching, read_until_match, await_response, adopt_or_read, consumed,
}

-- What a wait that skips `n` frames and takes the next one leaves of a client.
abbrev pub answered : ℕ → List Arrival → StdioEngineClient → StdioEngineClient
answered n later c = record c {
  inbox = later;
  dangling_read = false;
  reads = (if c.dangling_read then c.reads else c.reads + 1) + n;
  notes = c.notes + n;
}

counted :
    (later : List Arrival) (c : StdioEngineClient) {m n m' n' : ℕ}
    → m ≡ m'
    → n ≡ n'
    → record c { inbox = later; dangling_read = false; reads = m; notes = n }
      ≡ record c { inbox = later; dangling_read = false; reads = m'; notes = n' }
counted later c h k = rw (h, k) refl

read_until_match-answered :
    (id : Text) (before : List Incoming) (r : ResponseFrame) (later : List Arrival)
    (c : StdioEngineClient)
    → All (λ f. matching id f ≡ none) before
    → r.id ≡ id
    → read_until_match id (map arrives before ++ arrives (response r) ∷ later) c
      ≡ (answered (length before) later c, ok r)
unfolding read_until_match adopt_or_read consumed
read_until_match-answered id [] r later c h e = ground arith
read_until_match-answered id (f ∷ before) r later c (h, hs) e =
    rw (h, read_until_match)
      (read_until_match-answered id before r later
          (record c {
            inbox = map arrives before ++ arrives (response r) ∷ later;
            dangling_read = false;
            reads = if c.dangling_read then c.reads else c.reads + 1;
            notes = c.notes + 1;
          })
          hs e
        ∙ ap (λ next. (next, ok r)) (counted later c (omega arith) (omega arith)))

-- A frame that is no response, or a response under another id.
abbrev pub IsOther : Text → Incoming → Type 0
IsOther id non_object = Unit
IsOther id other_type = Unit
IsOther id (response r) = r.id ≢ id

IsOther-matching : (id : Text) (f : Incoming) → IsOther id f → matching id f ≡ none
IsOther-matching id non_object h = refl
IsOther-matching id other_type h = refl
IsOther-matching id (response r) h = ground arith

unmatched :
    (id : Text) (before : List Incoming)
    → All (IsOther id) before
    → All (λ f. matching id f ≡ none) before
unmatched id [] h = tt
unmatched id (f ∷ before) (h, hs) = (IsOther-matching id f h, unmatched id before hs)

-- A call gets the first response that carries its id, where only frames come before it, and no
-- fault or expiry of the timer: each frame before is skipped with a note, and what comes after is
-- left for the next call.
pub await_response-answered :
    (id : Text) (before : List Incoming) (r : ResponseFrame) (later : List Arrival)
    (c : StdioEngineClient)
    → All (IsOther id) before
    → r.id ≡ id
    → c.inbox ≡ map arrives before ++ arrives (response r) ∷ later
    → await_response id c ≡ (answered (length before) later c, ok r)
unfolding await_response
await_response-answered id before r later c h e inbox =
    ap (λ arrivals. read_until_match id arrivals c) inbox
    ∙ read_until_match-answered id before r later c (unmatched id before h) e

-- A response to an earlier request is never taken for one to a later request.
pub stale_response :
    (m n : ℕ) (r : ResponseFrame)
    → m < n
    → r.id ≡ request_id m
    → matching (request_id n) (response r) ≡ none
stale_response m n r lt e = ground (arith, request_id_injective m n)

-- The frames and faults that are still to come.
abbrev pub to_come : List Arrival → ℕ
to_come [] = 0
to_come (silence ∷ later) = to_come later
to_come (_ ∷ later) = suc (to_come later)

abbrev pub outstanding : Bool → ℕ
outstanding true = 1
outstanding false = 0

-- Since `c`, the channel was read once per frame or fault taken from it, up to the one read that a
-- call may leave to the next.
abbrev pub Balanced : StdioEngineClient → StdioEngineClient → Type 0
Balanced c c' =
    c'.reads + to_come c'.inbox + outstanding c.dangling_read
    ≡ c.reads + to_come c.inbox + outstanding c'.dangling_read

-- What a wait leaves alone.
pub record Waits (c c' : StdioEngineClient) : Type 0 where
  pub written : c'.written ≡ c.written
  pub next : c'.next_request_id ≡ c.next_request_id
  pub balanced : Balanced c c'

read_until_match-Waits :
    (id : Text) (arrivals : List Arrival) (c : StdioEngineClient)
    → c.inbox ≡ arrivals
    → Waits c (read_until_match id arrivals c).0
unfolding read_until_match adopt_or_read consumed
read_until_match-Waits id [] c e = record {
  written = refl;
  next = refl;
  balanced = ground (arith, e);
}
read_until_match-Waits id (silence ∷ later) c e = record {
  written = refl;
  next = refl;
  balanced = ground (arith, e);
}
read_until_match-Waits id (faults k ∷ later) c e = record {
  written = refl;
  next = refl;
  balanced = ground (arith, e);
}
read_until_match-Waits id (arrives f ∷ later) c e = elim (Option-cases (matching id f)) [
  | inl skipped ↦
      let next = record (consumed later (adopt_or_read c)) { notes = c.notes + 1 } in
      let w = read_until_match-Waits id later next refl in
      rw (skipped, read_until_match)
        (record { written = w.written; next = w.next; balanced = ground (arith, e, w.balanced) })
  | inr (r, taken) ↦
      rw (taken, read_until_match)
        (record { written = refl; next = refl; balanced = ground (arith, e) })
]

-- A wait writes no frame and mints no id, and it reads the channel once per frame or fault that it
-- takes, up to the one read that a call that times out leaves to the next.
pub await_response-Waits : (id : Text) (c : StdioEngineClient) → Waits c (await_response id c).0
unfolding await_response
await_response-Waits id c = read_until_match-Waits id c.inbox c refl
