-- ===== src/Scaffold/Glob/Compiled.antt =====
-- A glob pattern is compiled to an expression for its dialect.
use project_builder_sdk.Base.{ℕ, [], ◌∷◌, Text, ◌≢◌}
use project_builder_sdk.Scaffold.Glob.Matching.{AllIn}
use project_builder_sdk.Scaffold.Glob.Matching
use project_builder_sdk.Scaffold.Glob.Dialect.{StartsNot}

-- A pattern as it is read, piece by piece.
data Pieces : Text → Type 0 where
  no_piece : Pieces []
  dirs_piece : {p : Text} → Pieces p → Pieces (b'*' ∷ b'*' ∷ b'/' ∷ p)
  run_piece : {p : Text} → StartsNot b'/' p → Pieces p → Pieces (b'*' ∷ b'*' ∷ p)
  segment_piece : {p : Text} → StartsNot b'*' p → Pieces p → Pieces (b'*' ∷ p)
  unit_piece : {c : ℕ} {p : Text} → c ≢ b'*' → Pieces p → Pieces (c ∷ p)
