-- ===== src/Run/Protocol.antt =====
-- A run over the client that speaks frames: the ids of its frames, and its last frame.
use project_builder_sdk.Base.{List, [], ◌∷◌, ◌++◌, ◌≡◌, refl, Text}
use project_builder_sdk.Wire.{Directive}
use project_builder_sdk.Wire.Value.{obj, end}
use project_builder_sdk.Errors.{Thrown, Result, ok, err}
use project_builder_sdk.Transport.Requests.{
  RequestFrame, ReverseMethod, ir_commit, ir_discard, tree_read,
}
use project_builder_sdk.Transport.Client
use project_builder_sdk.Transport.Client.{StdioEngineClient, stdio_client}
use project_builder_sdk.Transport.Client.Minting.{
  Sends-Minted, Minted, numbered_request, commit-Sends, discard-Sends, read_params, read-Sends,
  emit-Minted,
}
use project_builder_sdk.Session
use project_builder_sdk.Session.{Session}
use project_builder_sdk.Run.{
  Script, Outcome, resolved, rejected, RunState, run_script, drain, run, give_up, rejection,
  after_script, after_drain, after_flush, after_commit,
}
use project_builder_sdk.Run.Invariant.{flush-P, run_script-P}

abbrev C : Type 0
C = Session stdio_client

-- The last frame asks for this.
abbrev pub EndsWith : ReverseMethod → StdioEngineClient → Type 0
EndsWith m c =
    (front : List RequestFrame) × (r : RequestFrame) × (c.written ≡ front ++ r ∷ [])
    × (r.method ≡ m)

-- A run that resolves ends by its commit, and one that rejects by its discard.
abbrev pub Ended : StdioEngineClient × Outcome → Type 0
Ended (c, resolved) = Minted c × EndsWith ir_commit c
Ended (c, rejected _ _) = Minted c × EndsWith ir_discard c

rejection-Ended :
    (e : Thrown) (out : StdioEngineClient × Result (Unit {0}))
    → Minted out.0
    → EndsWith ir_discard out.0
    → Ended (rejection stdio_client e out)
rejection-Ended e (c, ok _) m h = (m, h)
rejection-Ended e (c, err _) m h = (m, h)

give_up-Ended : (e : Thrown) (s : C) → Minted s.engine → Ended (give_up stdio_client e s)
give_up-Ended e s m =
    let d = discard-Sends s.engine in
    let r = numbered_request ir_discard (obj end) s.engine in
    rejection-Ended e (Client.discard s.engine)
      (Sends-Minted r s.engine (Client.discard s.engine).0 d m)
      (s.engine.written, r, d.written, refl)

committed-Ended :
    (out : StdioEngineClient × Result (Unit {0}))
    → Minted out.0
    → EndsWith ir_commit out.0
    → (ds : List Directive)
    → Ended (after_commit stdio_client (record { pending = ds; engine = out.0 }, out.1))
committed-Ended (c, ok _) m h ds = (m, h)
committed-Ended (c, err e) m h ds = give_up-Ended e (record { pending = ds; engine = c }) m

after_flush-Ended :
    (out : C × Result (Unit {0})) → Minted out.0.engine → Ended (after_flush stdio_client out)
unfolding Session.commit
after_flush-Ended (s, ok _) m =
    let d = commit-Sends s.engine in
    let r = numbered_request ir_commit (obj end) s.engine in
    committed-Ended (Client.commit s.engine)
      (Sends-Minted r s.engine (Client.commit s.engine).0 d m)
      (s.engine.written, r, d.written, refl) s.pending
after_flush-Ended (s, err e) m = give_up-Ended e s m

read-Minted : (p : Text) (c : StdioEngineClient) → Minted c → Minted (Client.read p c).0
read-Minted p c m =
    Sends-Minted (numbered_request tree_read (read_params p) c) c (Client.read p c).0
      (read-Sends p c) m

after_drain-Ended :
    (s : C) (r : Result (Unit {0})) → Minted s.engine → Ended (after_drain stdio_client s r)
after_drain-Ended s (ok _) m =
    after_flush-Ended (Session.flush stdio_client s)
      (flush-P stdio_client Minted emit-Minted read-Minted s m)
after_drain-Ended s (err e) m = give_up-Ended e s m

after_script-Ended :
    (st : RunState stdio_client) → Minted st.0.engine → Ended (after_script stdio_client st)
after_script-Ended (s, hs, ok _) m = after_drain-Ended s (drain hs) m
after_script-Ended (s, hs, err e) m = give_up-Ended e s m

-- Whatever the factory does and the host answers, the frames of a run over the stdio client are
-- numbered without a gap or a repetition from those before it, and its last frame is a commit where
-- it resolves, and a discard where it rejects. The frames before the run are numbered so.
pub run-Ended :
    (script : Script) (c : StdioEngineClient) → Minted c → Ended (run stdio_client script c)
unfolding run
run-Ended script c m =
    after_script-Ended (run_script stdio_client script (record { pending = []; engine = c }) []) (
      run_script-P stdio_client Minted emit-Minted read-Minted script
        (record { pending = []; engine = c }) [] m)
