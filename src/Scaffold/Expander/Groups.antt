-- ===== src/Scaffold/Expander/Groups.antt =====
-- The groups that the expander flushes, seen by a client that records the batches it is given.
use mathlib.Core.Path.{subst}
use mathlib.Core.List.{append-nil}
use project_builder_sdk.Base.{
  ℕ, ◌+◌, ◌≤◌, true, false, none, List, [], ◌∷◌, ◌++◌, All, length, ◌≡◌, refl, ap, ◌∙◌, sym,
  append_assoc, arith, ltb, Bool-cases, inl, inr, ◌&&◌,
}
use project_builder_sdk.Wire.{
  Directive, Batch, is_over_budget, emit_batch_budget_bytes, serialized_batch_size,
}
use project_builder_sdk.Wire.Size.{Serializable, directive_bytes, size-append}
use project_builder_sdk.Wire.Budget.{budget-eq, is_over_budget_iff}
use project_builder_sdk.Wire.Json.{stringify, byte_length, quote, number_text}
use project_builder_sdk.Errors.{Result, ok}
use project_builder_sdk.Engine.{EngineClient}
use project_builder_sdk.Session
use project_builder_sdk.Session.{Session, flush_pending, envelope}
use project_builder_sdk.Scaffold.Expander.{
  Expansion, start, make_room, append, emit_directives, overflows,
}
use project_builder_sdk.Scaffold.Expander.Tracks.{
  Tracks, make_room-Tracks, append-Tracks, start-Tracks, All-concat, flush-pending,
}

-- A client that accepts everything and keeps the batches in order.
abbrev pub recorder : EngineClient
recorder = record {
  State = List Batch;
  emit = λ b log. (log ++ b ∷ [], ok tt);
  read = λ p log. (log, ok none);
  commit = λ log. (log, ok tt);
  discard = λ log. (log, ok tt);
  emit_throwing = λ e. e;
}

-- The directives of the recorded batches.
abbrev pub sent : List Batch → List Directive
sent [] = []
sent (b ∷ bs) = b.instructions ++ sent bs

sent-append : (bs : List Batch) (b : Batch) → sent (bs ++ b ∷ []) ≡ sent bs ++ b.instructions
sent-append [] b = append-nil b.instructions
sent-append (c ∷ bs) b =
    rw (sent-append bs b) (sym (append_assoc c.instructions (sent bs) b.instructions))

-- What the emit authority accepts.
abbrev pub Within : Batch → Type 0
Within b = is_over_budget b ≡ false

All-concat_batch :
    (bs : List Batch) (b : Batch) → All Within bs → Within b → All Within (bs ++ b ∷ [])
All-concat_batch [] b h k = (k, tt)
All-concat_batch (c ∷ bs) b (h, hs) k = (h, All-concat_batch bs b hs k)

abbrev pub group : List Directive → Batch
group ds = envelope recorder ds

Within-of_le :
    (ds : List Directive) → serialized_batch_size ds ≤ emit_batch_budget_bytes → Within (group ds)
unfolding serialized_batch_size
Within-of_le ds h = (is_over_budget_iff (group ds)).1 h

flushed_session :
    (s : Session recorder) (d : Directive) (ds : List Directive)
    → s.pending ≡ d ∷ ds
    → (Session.flush recorder s).0
      ≡ record { pending = []; engine = s.engine ++ group s.pending ∷ [] }
unfolding Session.flush
flushed_session s d ds e = rw (e, flush_pending) refl

empty_size : serialized_batch_size [] ≡ 53
unfolding serialized_batch_size stringify byte_length quote number_text
empty_size = refl

empty-Within : Within (group [])
empty-Within = Within-of_le [] (omega (arith, empty_size, budget-eq))

-- The log and the buffer of a session hold `total`, in order and in accepted groups.
abbrev pub Holds : List Directive → Session recorder → Type 0
Holds total s =
    (sent s.engine ++ s.pending ≡ total) × All Within s.engine × Within (group s.pending)

flush-Holds :
    (total : List Directive) (s : Session recorder) (d : Directive) (ds : List Directive)
    → s.pending ≡ d ∷ ds
    → Holds total s
    → Holds total (Session.flush recorder s).0
flush-Holds total s d ds e (order, accepted, within) =
    subst (Holds total) (sym (flushed_session s d ds e)) (
      append-nil (sent (s.engine ++ group s.pending ∷ []))
          ∙ sent-append s.engine (group s.pending)
          ∙ order,
      All-concat_batch s.engine (group s.pending) accepted within,
      empty-Within,
    )

-- The buffer can take `d` and stay within the budget.
abbrev RoomFor : Directive → Session recorder → Type 0
RoomFor d s = Within (group (s.pending ++ d ∷ []))

module _ (total : List Directive) (d : Directive) (fits : Within (group (d ∷ [])))
    (ser : Serializable d) where
  nonempty :
      (ds : List Directive) (n : ℕ)
      → n ≡ length ds
      → ltb 0 n ≡ true
      → (c : Directive) × (cs : List Directive) × (ds ≡ c ∷ cs)
  nonempty [] n e h = absurd (ground arith)
  nonempty (c ∷ cs) n e h = (c, cs, refl)

  room_in :
      (ds : List Directive) (n size : ℕ)
      → n ≡ length ds
      → size ≡ serialized_batch_size ds
      → All Serializable ds
      → (ltb 0 n && ltb emit_batch_budget_bytes (size + directive_bytes d + 1)) ≡ false
      → Within (group (ds ++ d ∷ []))
  room_in [] n size e f hs h = fits
  room_in (c ∷ cs) n size e f hs h =
      Within-of_le (c ∷ cs ++ d ∷ [])
        (ground (arith, size-append (c ∷ cs) d (All-concat (c ∷ cs) d hs ser)))

  make_room-Holds :
      (x : Expansion recorder)
      → Tracks recorder x
      → Holds total x.session
      → Holds total (make_room recorder d x).session × RoomFor d (make_room recorder d x).session
  unfolding make_room
  make_room-Holds x t h = elim (Bool-cases (overflows recorder d x)) [
    | inl over ↦
        let (c, cs, e) = nonempty x.session.pending x.pending_count t.count (ground arith) in
        rw over (
          flush-Holds total x.session c cs e h,
          subst (λ ds. Within (group (ds ++ d ∷ []))) (sym (flush-pending recorder x.session)) fits,
        )
    | inr room ↦ rw room (
      h,
      room_in x.session.pending x.pending_count x.pending_size t.count t.size t.serializable room,
    )
  ]

-- A directive that is accepted in a batch of its own.
abbrev pub FitsAlone : Directive → Type 0
FitsAlone d = Within (group (d ∷ [])) × Serializable d

append-Holds :
    (total : List Directive) (d : Directive) (x : Expansion recorder)
    → Holds total x.session
    → RoomFor d x.session
    → Holds (total ++ d ∷ []) (append recorder d x).session
unfolding append Session.buffer
append-Holds total d x (order, accepted, _) room = (
  sym (append_assoc (sent x.session.engine) x.session.pending (d ∷ []))
      ∙ ap (λ t. t ++ d ∷ []) order,
  accepted,
  room,
)

emit_directives-Holds :
    (total ds : List Directive) (x : Expansion recorder)
    → All FitsAlone ds
    → Tracks recorder x
    → Holds total x.session
    → Holds (total ++ ds) (emit_directives recorder ds x).session
unfolding emit_directives
emit_directives-Holds total [] x h t g = subst (λ t. Holds t x.session) (sym (append-nil total)) g
emit_directives-Holds total (d ∷ ds) x ((fits, ser), hs) t g =
    let (kept, room) = make_room-Holds total d fits ser x t g in
    let x' = make_room recorder d x in
    subst (λ t. Holds t (emit_directives recorder ds (append recorder d x')).session)
      (append_assoc total (d ∷ []) ds)
      (emit_directives-Holds (total ++ d ∷ []) ds (append recorder d x') hs
        (append-Tracks recorder d x' ser (make_room-Tracks recorder d x t))
        (append-Holds total d x' kept room))

-- A scaffold whose directives are each accepted alone, over a buffer that is accepted, sends only
-- batches that the emit authority accepts, leaves a buffer that it accepts, and loses, repeats and
-- reorders nothing: what was sent, then what is pending, is what was pending, then the directives.
pub emit_directives-accepted :
    (s : Session recorder) (hs : List (Result (Unit {0}))) (ds : List Directive)
    → s.engine ≡ []
    → Within (group s.pending)
    → All Serializable s.pending
    → All FitsAlone ds
    → Holds (s.pending ++ ds) (emit_directives recorder ds (start recorder s hs)).session
unfolding start
emit_directives-accepted s hs ds empty within ser fit =
    emit_directives-Holds s.pending ds (start recorder s hs) fit (start-Tracks recorder s hs ser)
      (ap (λ log. sent log ++ s.pending) empty, subst (All Within) (sym empty) tt, within)
