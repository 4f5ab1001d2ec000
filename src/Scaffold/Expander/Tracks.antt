-- ===== src/Scaffold/Expander/Tracks.antt =====
-- The counters of the expander are exact, whatever the engine client answers.
use mathlib.Core.Path.{subst}
use project_builder_sdk.Base.{
  ℕ, ◌+◌, List, [], ◌∷◌, ◌++◌, length, length-append, All, ◌≡◌, refl, ap, sym, arith, if◌then◌else◌,
  ltb, Bool-cases, inl, inr,
}
use project_builder_sdk.Wire.{Directive, serialized_batch_size}
use project_builder_sdk.Wire.Size.{Serializable, size-append, comma}
use project_builder_sdk.Errors.{Result, ok, err}
use project_builder_sdk.Engine.{EngineClient}
use project_builder_sdk.Session
use project_builder_sdk.Session.{Session, flush_pending, flush_result, envelope}
use project_builder_sdk.Scaffold.Expander.{
  Expansion, start, make_room, append, emit_directives, overflows,
}

pub All-concat :
    (ds : List Directive) (d : Directive)
    → All Serializable ds
    → Serializable d
    → All Serializable (ds ++ d ∷ [])
All-concat [] d h k = (k, tt)
All-concat (c ∷ ds) d (h, hs) k = (h, All-concat ds d hs k)

comma_of_count :
    (ds : List Directive) (n : ℕ) → n ≡ length ds → (if ltb 1 (n + 1) then 1 else 0) ≡ comma ds
comma_of_count [] n e = ground arith
comma_of_count (d ∷ ds) n e = ground arith

module _ (C : EngineClient) where
  flush_result-pending :
      (ds : List Directive) (out : C.State × Result (Unit {0}))
      → (flush_result C (envelope C ds) out).0.pending ≡ []
  flush_result-pending ds (e, ok _) = refl
  flush_result-pending ds (e, err _) = refl

  flush_pending-pending :
      (ds : List Directive) (s : Session C) → s.pending ≡ ds → (flush_pending C ds s).0.pending ≡ []
  flush_pending-pending [] s e = e
  flush_pending-pending (d ∷ ds) s e = flush_result-pending (d ∷ ds) _

  -- A flush empties the buffer, whatever the client answers.
  pub flush-pending : (s : Session C) → (Session.flush C s).0.pending ≡ []
  unfolding Session.flush
  flush-pending s = flush_pending-pending s.pending s refl

  pub record Tracks (x : Expansion C) : Type 0 where
    pub count : x.pending_count ≡ length x.session.pending
    pub size : x.pending_size ≡ serialized_batch_size x.session.pending
    pub serializable : All Serializable x.session.pending

  pub make_room-Tracks : (d : Directive) (x : Expansion C) → Tracks x → Tracks (make_room C d x)
  unfolding make_room
  make_room-Tracks d x t = elim (Bool-cases (overflows C d x)) [
    | inl over ↦
        let e = flush-pending x.session in
        rw over (record {
          count = ap length (sym e);
          size = ap serialized_batch_size (sym e);
          serializable = subst (All Serializable) (sym e) tt;
        })
    | inr room ↦ rw room t
  ]

  pub append-Tracks :
      (d : Directive) (x : Expansion C) → Serializable d → Tracks x → Tracks (append C d x)
  unfolding append Session.buffer
  append-Tracks d x h t =
      let ds = x.session.pending in
      let all = All-concat x.session.pending d t.serializable h in
      record {
        count = omega (arith, t.count, length-append x.session.pending (d ∷ []));
        size = omega (
          arith,
          t.size,
          size-append x.session.pending d all,
          comma_of_count x.session.pending x.pending_count t.count,
        );
        serializable = all;
      }

  -- The counters stay the length and the serialized size of the pending buffer, so that the
  -- expander never measures the batch again; whatever the client answers to a flush. Each directive
  -- has a JSON text.
  pub emit_directives-Tracks :
      (ds : List Directive) (x : Expansion C)
      → All Serializable ds
      → Tracks x
      → Tracks (emit_directives C ds x)
  unfolding emit_directives
  emit_directives-Tracks [] x h t = t
  emit_directives-Tracks (d ∷ ds) x (h, hs) t =
      emit_directives-Tracks ds (append C d (make_room C d x)) hs
        (append-Tracks d (make_room C d x) h (make_room-Tracks d x t))

  pub start-Tracks :
      (s : Session C) (hs : List (Result (Unit {0})))
      → All Serializable s.pending
      → Tracks (start C s hs)
  unfolding start
  start-Tracks s hs h = record { count = refl; size = refl; serializable = h }
