-- ===== src/Schema/Locate/Ends.antt =====
-- The scan of a value comes to an end on every text.
use project_builder_sdk.Base.{
  ℕ, zero, suc, ◌+◌, ◌-◌, ◌*◌, ◌≤◌, ◌<◌, Option, some, Text, ◌≡◌, refl, arith, length,
}
use project_builder_sdk.Schema.Scanner.{
  ScanResult, ok, fail, Next, stop, continue, Start, open_object, open_array, scalar, value_start,
  open_body, open_at, after_comma, separator, colon_at, colon_after, key_at, member_key,
  after_value, skip_whitespace, scan_string, ended,
}
use project_builder_sdk.Schema.Locate.{
  scan_value, scan_members, scan_items, scan_fuel, resume, behind, started,
}
use project_builder_sdk.Schema.Locate.Bounds.{
  Within, skip_whitespace_bounds, at-bound, scan_string-Within, scan_number-Within, keyword-Within,
}

-- A loop stops with a result from `i`, or goes on behind `i`.
Advances : ℕ → ℕ → Next → Type 0
Advances n i (stop r) = Within n i r
Advances n i (continue p) = (i < p) × (p ≤ n)

-- The start of a value is a result from `i`, or a bracket within the text.
Starts : ℕ → ℕ → Start → Type 0
Starts n i (scalar r) = Within n i r
Starts n i open_object = i < n
Starts n i open_array = i < n

-- What stands at a position behind `i`, within the text.
module _ (raw : Text) (i : ℕ) where
  open_at-Advances :
      (close pos : ℕ) → i < pos → pos ≤ length raw → Advances (length raw) i (open_at raw close pos)
  unfolding Advances Within open_at ended
  open_at-Advances close pos h k = ground (arith, at-bound raw pos close)

  after_comma-Advances :
      (close pos : ℕ)
      → i < pos
      → pos ≤ length raw
      → Advances (length raw) i (after_comma raw close pos)
  unfolding Advances Within after_comma ended
  after_comma-Advances close pos h k = ground (arith, at-bound raw pos close)

  separator-Advances :
      (close pos : ℕ)
      → i < pos
      → pos ≤ length raw
      → Advances (length raw) i (separator raw close pos)
  unfolding Advances Within separator ended
  separator-Advances close pos h k = ground (
    arith,
    at-bound raw pos close,
    skip_whitespace_bounds raw (pos + 1),
    after_comma-Advances close (skip_whitespace raw (pos + 1)),
  )

  after_value-Advances :
      (close : ℕ) (r : ScanResult)
      → Within (length raw) i r
      → Advances (length raw) i (after_value raw close r)
  unfolding Advances Within after_value
  after_value-Advances close (fail o) h = h
  after_value-Advances close (ok next) (h, k) =
      separator-Advances close (skip_whitespace raw next)
        (omega (arith, skip_whitespace_bounds raw next))
        (omega (arith, skip_whitespace_bounds raw next))

  colon_at-Advances :
      (pos : ℕ) → i < pos → pos ≤ length raw → Advances (length raw) i (colon_at raw pos)
  unfolding Advances Within colon_at ended
  colon_at-Advances pos h k = ground (arith, at-bound raw pos 58)

  colon_after-Advances :
      (r : ScanResult) → Within (length raw) i r → Advances (length raw) i (colon_after raw r)
  unfolding Advances Within colon_after
  colon_after-Advances (fail o) h = h
  colon_after-Advances (ok next) (h, k) =
      colon_at-Advances (skip_whitespace raw next) (omega (arith, skip_whitespace_bounds raw next))
        (omega (arith, skip_whitespace_bounds raw next))

Within-mono : (n i j : ℕ) (r : ScanResult) → i ≤ j → Within n j r → Within n i r
unfolding Within
Within-mono n i j (ok next) h (a, b) = (omega arith, b)
Within-mono n i j (fail o) h (a, b) = (omega arith, b)

Advances-mono : (n i j : ℕ) (x : Next) → i ≤ j → Advances n j x → Advances n i x
unfolding Advances
Advances-mono n i j (stop r) h a = Within-mono n i j r h a
Advances-mono n i j (continue p) h (a, b) = (omega arith, b)

module _ (raw : Text) where
  key_at-Advances : (i : ℕ) → i ≤ length raw → Advances (length raw) i (key_at raw i)
  unfolding Advances Within key_at ended
  key_at-Advances i h =
      ground (arith, colon_after-Advances raw i (scan_string raw i), scan_string-Within raw i)

  member_key-Advances : (i : ℕ) → i ≤ length raw → Advances (length raw) i (member_key raw i)
  unfolding member_key
  member_key-Advances i h =
      Advances-mono (length raw) i (skip_whitespace raw i) _
        (omega (arith, skip_whitespace_bounds raw i))
        (key_at-Advances (skip_whitespace raw i) (omega (arith, skip_whitespace_bounds raw i)))

  open_body-Advances :
      (close i : ℕ) → i < length raw → Advances (length raw) i (open_body raw close i)
  unfolding open_body
  open_body-Advances close i h =
      open_at-Advances raw i close (skip_whitespace raw (i + 1))
        (omega (arith, skip_whitespace_bounds raw (i + 1)))
        (omega (arith, skip_whitespace_bounds raw (i + 1)))

  value_start-Starts : (i : ℕ) → i ≤ length raw → Starts (length raw) i (value_start raw i)
  unfolding Starts Within value_start ended
  value_start-Starts i h = ground (
    arith,
    at-bound raw i 123,
    at-bound raw i 91,
    scan_string-Within raw i,
    scan_number-Within raw i,
    keyword-Within raw i,
  )

-- A scan has a result, which is within the text.
pub Ends : Text → ℕ → Option ScanResult → Type 0
Ends raw i o = (r : ScanResult) × (o ≡ some r) × Within (length raw) i r

module _ (raw : Text) where
  resume-Ends :
      (i : ℕ) (x : Next) (k : ℕ → Option ScanResult)
      → Advances (length raw) i x
      → ((p : ℕ) → i < p → p ≤ length raw → Ends raw i (k p))
      → Ends raw i (resume x k)
  unfolding Advances Ends
  resume-Ends i (stop r) k a h = (r, refl, a)
  resume-Ends i (continue p) k (a, b) h = h p a b

  behind-Ends :
      (i j : ℕ) (o : Option ScanResult) (k : ScanResult → Option ScanResult)
      → Ends raw j o
      → ((r : ScanResult) → Within (length raw) j r → Ends raw i (k r))
      → Ends raw i (behind o k)
  unfolding Ends
  behind-Ends i j o k (r, e, a) h = rw e (h r a)

  Ends-mono : (i j : ℕ) (o : Option ScanResult) → i ≤ j → Ends raw j o → Ends raw i o
  unfolding Ends
  Ends-mono i j o h (r, e, a) = (r, e, Within-mono (length raw) i j r h a)

  AllEnd : ℕ → Type 0
  AllEnd n =
      ((i : ℕ) → i ≤ length raw → 2 * (length raw - i) < n → Ends raw i (scan_value n raw i))
      × (((i : ℕ)
            → i ≤ length raw
            → 2 * (length raw - i) + 1 < n
            → Ends raw i (scan_members n raw i))
          × ((i : ℕ)
              → i ≤ length raw
              → 2 * (length raw - i) + 1 < n
              → Ends raw i (scan_items n raw i)))

  -- The rest of a loop behind a value that was scanned from `i`.
  loop-Ends :
      (n i close : ℕ) (again : ℕ → Option ScanResult)
      → 2 * (length raw - i) < suc n
      → ((p : ℕ) → p ≤ length raw → 2 * (length raw - p) + 1 < n → Ends raw p (again p))
      → (r : ScanResult) → Within (length raw) i r
      → Ends raw i (resume (after_value raw close r) again)
  loop-Ends n i close again f h r a =
      resume-Ends i (after_value raw close r) again (after_value-Advances raw i close r a)
        λ p b c. Ends-mono i p (again p) (omega arith) (h p c (omega arith))

  module _ (n : ℕ) (ih : AllEnd n) where
    members-Ends :
        (i : ℕ)
        → i ≤ length raw
        → 2 * (length raw - i) + 1 < suc n
        → Ends raw i (scan_members (suc n) raw i)
    unfolding AllEnd scan_value
    members-Ends i h f = resume-Ends i (member_key raw i) _ (member_key-Advances raw i h) λ p b c.
        behind-Ends i p (scan_value n raw p) _ (ih.0 p c (omega arith)) λ r a.
          Ends-mono i p _ (omega arith)
            (loop-Ends n p 125 (scan_members n raw) (omega arith) ih.1.0 r a)

    items-Ends :
        (i : ℕ)
        → i ≤ length raw
        → 2 * (length raw - i) + 1 < suc n
        → Ends raw i (scan_items (suc n) raw i)
    unfolding AllEnd scan_value
    items-Ends i h f =
        behind-Ends i i (scan_value n raw i) _ (ih.0 i h (omega arith))
          (loop-Ends n i 93 (scan_items n raw) (omega arith) ih.1.1)

    bracket-Ends :
        (i close : ℕ) (body : ℕ → Option ScanResult)
        → i < length raw
        → 2 * (length raw - i) < suc n
        → ((p : ℕ) → p ≤ length raw → 2 * (length raw - p) + 1 < n → Ends raw p (body p))
        → Ends raw i (resume (open_body raw close i) body)
    bracket-Ends i close body h f each =
        resume-Ends i (open_body raw close i) body (open_body-Advances raw close i h)
          λ p b c. Ends-mono i p (body p) (omega arith) (each p c (omega arith))

    started-Ends :
        (i : ℕ) (s : Start)
        → i ≤ length raw
        → 2 * (length raw - i) < suc n
        → Starts (length raw) i s
        → Ends raw i (started raw i (scan_members n raw) (scan_items n raw) s)
    unfolding AllEnd Starts Ends
    started-Ends i (scalar r) h f a = (r, refl, a)
    started-Ends i open_object h f a = bracket-Ends i 125 (scan_members n raw) a f ih.1.0
    started-Ends i open_array h f a = bracket-Ends i 93 (scan_items n raw) a f ih.1.1

    value-Ends :
        (i : ℕ)
        → i ≤ length raw
        → 2 * (length raw - i) < suc n
        → Ends raw i (scan_value (suc n) raw i)
    unfolding scan_value
    value-Ends i h f =
        let (low, high) = skip_whitespace_bounds raw i in
        Ends-mono i (skip_whitespace raw i) _ low (
          started-Ends (skip_whitespace raw i) _ (omega arith) (omega arith)
            (value_start-Starts raw (skip_whitespace raw i) (omega arith)))

  all_end : (n : ℕ) → AllEnd n
  unfolding AllEnd
  all_end zero = (
    λ i h f. absurd (omega arith),
    (λ i h f. absurd (omega arith), λ i h f. absurd (omega arith)),
  )
  all_end (suc n) =
      (value-Ends n (all_end n), (members-Ends n (all_end n), items-Ends n (all_end n)))

-- Where the call stack has room for one more than twice the length of a text, the scan of the text
-- has a result, which ends behind the start and within the text, or fails at an offset at most one
-- unit behind its end.
pub scan_value-Ends :
    (room : ℕ) (raw : Text) → scan_fuel raw ≤ room → Ends raw 0 (scan_value room raw 0)
unfolding AllEnd
scan_value-Ends room raw h = (all_end raw room).0 0 (omega (arith, h)) (omega (arith, h))
