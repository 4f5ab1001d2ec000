-- ===== src/Transport/ErrorText/Fits.antt =====
-- Where an anchor stands in a text.
use project_builder_sdk.Base.{
  ◌<◌, true, false, ◌++◌, Text, length, drop, append-take-drop, take-length_append,
  drop-length_append, ◌≡◌, sym, ap, ◌∙◌, arith,
}
use project_builder_sdk.Transport.ErrorText.{ScrubAnchor, at_boundary, claims, is_long}

-- The path is more than a slash, the text begins with it, and there a segment ends.
unfoldable pub Fits : Text → ScrubAnchor → Type 0
Fits text a =
    (1 < length a.path) × ((rest : Text) × (text ≡ a.path ++ rest) × (at_boundary rest ≡ true))

pub claims-Fits :
    (text : Text) (a : ScrubAnchor) → 1 < length a.path → claims text a ≡ true → Fits text a
unfolding claims Fits
claims-Fits text a l h = (
  l,
  (
    drop (length a.path) text,
    sym (append-take-drop (length a.path) text)
        ∙ ap (λ t. t ++ drop (length a.path) text) (ground arith),
    ground arith,
  ),
)

claims-append :
    (a : ScrubAnchor) (rest : Text) → at_boundary rest ≡ true → claims (a.path ++ rest) a ≡ true
unfolding claims
claims-append a rest b =
    rw (take-length_append a.path rest, drop-length_append a.path rest, b) (ground arith)

pub not_claims-Fits : (text : Text) (a : ScrubAnchor) → claims text a ≡ false → ¬ Fits text a
unfolding Fits
not_claims-Fits text a h (_, (rest, e, b)) =
    ground (arith, sym h ∙ ap (λ t. claims t a) e ∙ claims-append a rest b)

pub short_Fits : (text : Text) (a : ScrubAnchor) → is_long a ≡ false → ¬ Fits text a
unfolding Fits
short_Fits text a h (l, _) = ground arith
