-- ===== src/Dialects/Poisoned.antt =====
-- After the first failure no handle does anything more.
use project_builder_sdk.Base.{ℕ, Option, none, some, List, [], ◌∷◌, ◌≡◌, refl, ◌∙◌, map}
use project_builder_sdk.Errors.{Thrown, Result, ok, err}
use project_builder_sdk.Engine.{EngineClient}
use project_builder_sdk.Dialects.Handle.{DialectAst}
use project_builder_sdk.Dialects.Steps.{Answer, W, behind_tail, unless_failed, settled, chain}
use project_builder_sdk.Dialects.Calls.{Call, Event, call, step_of, perform, perform_all}

abbrev pub event_of : {Ast : Type 0} → ℕ × Call Ast → Event Ast
event_of (i, c) = call i c

module _ (C : EngineClient) {Ast : Type 0} (D : DialectAst Ast) where
  -- The client, the buffer, the lazy directives and the failure are as they were.
  pub record Frozen (w w' : W C D) : Type 0 where
    pub engine : w'.engine ≡ w.engine
    pub buffer : w'.buffer ≡ w.buffer
    pub lazies : w'.lazies ≡ w.lazies
    pub next_id : w'.next_id ≡ w.next_id
    pub failure : w'.failure ≡ w.failure

  Frozen-refl : (w : W C D) → Frozen w w
  Frozen-refl w = record {
    engine = refl;
    buffer = refl;
    lazies = refl;
    next_id = refl;
    failure = refl;
  }

  Frozen-trans : (u v w : W C D) → Frozen u v → Frozen v w → Frozen u w
  Frozen-trans u v w a b = record {
    engine = b.engine ∙ a.engine;
    buffer = b.buffer ∙ a.buffer;
    lazies = b.lazies ∙ a.lazies;
    next_id = b.next_id ∙ a.next_id;
    failure = b.failure ∙ a.failure;
  }

  -- A step in a session that failed is rejected, and leaves all but the chain of its own handle.
  pub Refused : W C D → W C D × Result Answer → Type 0
  Refused w (w', ok _) = ⊥
  Refused w (w', err _) = Frozen w w'

  chain-Refused :
      (i : ℕ) (step : W C D → W C D × Result Answer) (w : W C D) (e : Thrown)
      → w.failure ≡ some e
      → Refused w (chain C D i step w)
  unfolding chain Refused
  chain-Refused i step w e h = by_tail (w.handles i).tail
    where
      by_tail : (o : Option Thrown) → Refused w (behind_tail C D i step o w)
      by_tail (some x) = Frozen-refl w
      by_tail none =
          rw h
            (record { engine = refl; buffer = refl; lazies = refl; next_id = refl; failure = refl })

  Refused-Frozen : (w : W C D) (x : W C D × Result Answer) → Refused w x → Frozen w x.0
  unfolding Refused
  Refused-Frozen w (w', ok _) h = absurd h
  Refused-Frozen w (w', err _) h = h

  perform_all-Frozen :
      (calls : List (ℕ × Call Ast)) (w : W C D) (e : Thrown)
      → w.failure ≡ some e
      → Frozen w (perform_all C D (map event_of calls) w)
  unfolding perform_all perform
  perform_all-Frozen [] w e h = Frozen-refl w
  perform_all-Frozen ((i, c) ∷ calls) w e h =
      let w' : W C D = (chain C D i (step_of C D i c) w).0 in
      let f : Frozen w w' = Refused-Frozen w _ (chain-Refused i (step_of C D i c) w e h) in
      Frozen-trans w w' _ f (perform_all-Frozen calls w' e (f.failure ∙ h))

  Frozen-Refused :
      (w w' : W C D) (x : W C D × Result Answer) → Frozen w w' → Refused w' x → Refused w x
  unfolding Refused
  Frozen-Refused w w' (w2, ok _) f h = h
  Frozen-Refused w w' (w2, err _) f h = Frozen-trans w w' w2 f h

  -- In a session that has failed, each call on each handle, after any number of calls, is rejected,
  -- and the engine client, the buffer, the lazy directives and the first failure are as they were.
  failed-Refused :
      (calls : List (ℕ × Call Ast)) (i : ℕ) (c : Call Ast) (w : W C D) (e : Thrown)
      → w.failure ≡ some e
      → Refused w (chain C D i (step_of C D i c) (perform_all C D (map event_of calls) w))
  failed-Refused calls i c w e h =
      let f : Frozen w (perform_all C D (map event_of calls) w) = perform_all-Frozen calls w e h in
      Frozen-Refused w _ _ f (chain-Refused i (step_of C D i c) _ e (f.failure ∙ h))

  -- The error of a rejected step is the failure of the session.
  Recorded : W C D × Result Answer → Type 0
  Recorded (w', ok _) = Unit
  Recorded (w', err e) = w'.failure ≡ some e

  chain-Recorded :
      (i : ℕ) (step : W C D → W C D × Result Answer) (w : W C D)
      → (w.handles i).tail ≡ none
      → Recorded (chain C D i step w)
  unfolding chain Recorded
  chain-Recorded i step w h = rw h (by_failure w.failure refl)
    where
      by_result : (x : W C D × Result Answer) → Recorded (settled C D i x)
      by_result (w', ok _) = tt
      by_result (w', err e) = refl

      by_failure : (o : Option Thrown) → w.failure ≡ o → Recorded (unless_failed C D i step o w)
      by_failure none e = by_result (step w)
      by_failure (some x) e = e

  -- A rejected call is the end of the session: its error is recorded, and the call `d` on the handle
  -- `j`, behind these calls, is refused.
  pub Poisons : List (ℕ × Call Ast) → ℕ → Call Ast → W C D × Result Answer → Type 0
  Poisons calls j d (w', ok _) = Unit
  Poisons calls j d (w', err e) =
      (w'.failure ≡ some e)
      × Refused w' (chain C D j (step_of C D j d) (perform_all C D (map event_of calls) w'))

  Recorded-Poisons :
      (calls : List (ℕ × Call Ast)) (j : ℕ) (d : Call Ast) (x : W C D × Result Answer)
      → Recorded x
      → Poisons calls j d x
  unfolding Recorded Poisons
  Recorded-Poisons calls j d (w', ok _) h = tt
  Recorded-Poisons calls j d (w', err e) h = (h, failed-Refused calls j d w' e h)

  -- A call that is rejected, on a handle that has not failed before, fails the session: its error
  -- is recorded as the failure, and from then on each call on each handle, after any number of
  -- calls, is rejected, and the engine client, the buffer, the lazy directives and the failure stay
  -- as the rejected call left them.
  pub perform_all-Refused :
      (calls : List (ℕ × Call Ast)) (j : ℕ) (d : Call Ast) (i : ℕ) (c : Call Ast) (w : W C D)
      → (w.handles i).tail ≡ none
      → Poisons calls j d (chain C D i (step_of C D i c) w)
  perform_all-Refused calls j d i c w h =
      Recorded-Poisons calls j d _ (chain-Recorded i (step_of C D i c) w h)
