-- ===== src/Dialects/Written.antt =====
-- What a handle has handed to the session is the print of its live tree.
use project_builder_sdk.Base.{ℕ, true, Option, none, some, List, Text, ◌≡◌}
use project_builder_sdk.Errors.{Result, ok, err}
use project_builder_sdk.Engine.{EngineClient}
use project_builder_sdk.Dialects.Handle.{
  DialectAst, Edit, Buffered, is_buffered, Handle, print_live, content, ensure_live,
}
use project_builder_sdk.Dialects.Steps.{Answer, W}

module _ (C : EngineClient) {Ast : Type 0} (D : DialectAst Ast) where
  handed : Option ℕ → Option Text → W C D → Option Text
  handed none last w = last
  handed (some id) last w = (content C D id w).1

  -- The text that a handle has handed over: that of its open directive, or the last one before.
  pub written : ℕ → W C D → Option Text
  written i w = handed (w.handles i).open_directive (w.handles i).last_emitted_text w

  -- An open directive stands in the buffer.
  Placed : Option ℕ → List Buffered → Type 0
  Placed none bs = Unit
  Placed (some id) bs = is_buffered id bs ≡ true

  -- What is handed over is the print of the live tree, and stands in the buffer where it is not
  -- emitted, where a step ends well.
  Handed : ℕ → Option Ast → W C D × Result (Unit {0}) → Type 0
  Handed i o (w, err _) = Unit
  Handed i o (w, ok _) =
      ((w.handles i).live ≡ o)
      × (written i w ≡ print_live C D o)
      × Placed (w.handles i).open_directive w.buffer

  -- The new baseline leaves the live tree.
  Based : ℕ → Option Ast → W C D × Result (Unit {0}) → Type 0
  Based i o (w, ok _) = (w.handles i).live ≡ o
  Based i o (w, err _) = Unit

  -- An op that ends well leaves the tree that it made of the loaded one, and its print is handed over.
  pub Edited : ℕ → Edit Ast → W C D → W C D × Result Answer → Type 0
  Edited i f w (w', err _) = Unit
  Edited i f w (w', ok _) =
      (ast : Ast) × (((ensure_live C D i w).0.handles i).live ≡ some ast)
      × ((w'.handles i).live ≡ some (f ast).0)
      × (written i w' ≡ D.print (f ast).0)
      × Placed (w'.handles i).open_directive w'.buffer
