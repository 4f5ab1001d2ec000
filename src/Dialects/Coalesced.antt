-- ===== src/Dialects/Coalesced.antt =====
-- A handle has at most one directive of its own in the buffer.
use project_builder_sdk.Base.{
  ℕ, ◌<◌, true, false, ◌||◌, Option, none, some, List, [], ◌∷◌, ◌++◌, Text, ◌≡◌, inl, inr, refl,
  ◌∙◌, arith, ◌==◌, Bool-cases,
}
use project_builder_sdk.Wire.{Directive, modify}
use project_builder_sdk.Session.{envelope}
use project_builder_sdk.Errors.{Result, ok, err}
use project_builder_sdk.Engine.{EngineClient}
use project_builder_sdk.Dialects.Handle.{
  DialectAst, Buffered, plain, lazy, Handle, put, is_buffered, set_handle, content, content_from,
  memoized, resolve, go_on, with_first, emitted, sent, flush_buffer, flush, print_live,
}
use project_builder_sdk.Dialects.Steps.{W, register}

-- No lazy directive is there twice.
unfoldable pub Once : List Buffered → Type 0
Once [] = Unit
Once (plain _ ∷ bs) = Once bs
Once (lazy id ∷ bs) = (is_buffered id bs ≡ false) × Once bs

is_buffered-append :
    (id : ℕ) (bs cs : List Buffered)
    → is_buffered id (bs ++ cs) ≡ (is_buffered id bs || is_buffered id cs)
unfolding is_buffered
is_buffered-append id [] cs = refl
is_buffered-append id (plain d ∷ bs) cs = is_buffered-append id bs cs
is_buffered-append id (lazy j ∷ bs) cs = ground (arith, is_buffered-append id bs cs)

Once-plain : (bs : List Buffered) (d : Directive) → Once bs → Once (bs ++ plain d ∷ [])
unfolding Once is_buffered
Once-plain [] d h = tt
Once-plain (plain _ ∷ bs) d h = Once-plain bs d h
Once-plain (lazy j ∷ bs) d (a, h) =
    (rw (is_buffered-append j bs (plain d ∷ [])) (ground (arith, a)), Once-plain bs d h)

Once-lazy :
    (bs : List Buffered) (id : ℕ) → is_buffered id bs ≡ false → Once bs → Once (bs ++ lazy id ∷ [])
unfolding Once is_buffered
Once-lazy [] id h o = (refl, tt)
Once-lazy (plain _ ∷ bs) id h o = Once-lazy bs id h o
Once-lazy (lazy j ∷ bs) id h (a, o) = (
  rw (is_buffered-append j bs (lazy id ∷ [])) (ground (arith, a, h)),
  Once-lazy bs id (ground (arith, h)) o,
)

module _ (C : EngineClient) {Ast : Type 0} (D : DialectAst Ast) where
  -- An open directive is its handle's; one that is buffered is open, and has not been printed.
  pub record Inv (w : W C D) : Type 0 where
    pub opened :
        (i id : ℕ)
        → (w.handles i).open_directive ≡ some id
        → (id < w.next_id) × ((w.lazies id).owner ≡ i)
    pub pending :
        (id : ℕ)
        → is_buffered id w.buffer ≡ true
        → ((w.handles (w.lazies id).owner).open_directive ≡ some id) × ((w.lazies id).cached ≡ none)
    pub once : Once w.buffer

  pub set_handle-Inv :
      (i : ℕ) (h : Handle Ast) (w : W C D)
      → h.open_directive ≡ (w.handles i).open_directive
      → Inv w
      → Inv (set_handle C D i h w)
  unfolding put
  set_handle-Inv i h w e v = record {
    opened = λ j id k. ground (arith, k, v.opened j id);
    pending = λ id k. ground (arith, k, v.pending id);
    once = v.once;
  }

  memo-Inv :
      (id : ℕ) (t : Text) (w : W C D)
      → is_buffered id w.buffer ≡ false
      → Inv w
      → Inv (record w { lazies = put id (record (w.lazies id) { cached = some t }) w.lazies })
  unfolding put
  memo-Inv id t w h v = record {
    opened = λ j x k. ground (arith, k, v.opened j x);
    pending = λ x k. ground (arith, h, k, v.pending x);
    once = v.once;
  }

  memoized-Inv :
      (id : ℕ) (o : Option Text) (w : W C D)
      → is_buffered id w.buffer ≡ false
      → Inv w
      → Inv (memoized C D id w o).0
  memoized-Inv id none w h v = v
  memoized-Inv id (some t) w h v = memo-Inv id t w h v

  content_from-Inv :
      (id : ℕ) (o : Option Text) (w : W C D)
      → is_buffered id w.buffer ≡ false
      → Inv w
      → Inv (content_from C D id w o).0
  content_from-Inv id (some t) w h v = v
  content_from-Inv id none w h v = memoized-Inv id _ w h v

  pub content-Inv :
      (id : ℕ) (w : W C D) → is_buffered id w.buffer ≡ false → Inv w → Inv (content C D id w).0
  unfolding content
  content-Inv id w h v = content_from-Inv id (w.lazies id).cached w h v

  pub buffered-Inv :
      (d : Directive) (w : W C D) → Inv w → Inv (record w { buffer = w.buffer ++ plain d ∷ [] })
  unfolding is_buffered
  buffered-Inv d w v = record {
    opened = v.opened;
    pending =
        λ id k. v.pending id (ground (arith, k, is_buffered-append id w.buffer (plain d ∷ [])));
    once = Once-plain w.buffer d v.once;
  }

  -- The next identity is not in the buffer.
  next-fresh : (w : W C D) → Inv w → is_buffered w.next_id w.buffer ≡ false
  next-fresh w v = elim (Bool-cases (is_buffered w.next_id w.buffer)) [
    | inl e ↦
        let (p, _) = v.pending w.next_id e in
        absurd (omega (arith, v.opened (w.lazies w.next_id).owner w.next_id p))
    | inr e ↦ e
  ]

  pub register-Inv :
      (i : ℕ) (w : W C D) → (w.handles i).open_directive ≡ none → Inv w → Inv (register C D i w)
  unfolding put is_buffered
  register-Inv i w h v = record {
    opened = λ j id k. ground (arith, k, v.opened j id);
    pending = λ id k. ground (
      arith,
      k,
      h,
      is_buffered-append id w.buffer (lazy w.next_id ∷ []),
      v.pending id,
      (w.lazies id).owner == i,
    );
    once = Once-lazy w.buffer w.next_id (next-fresh w v) v.once;
  }

  -- With nothing in the buffer.
  Drained : W C D → Type 0
  Drained w = Inv w × (w.buffer ≡ [])

  memoized-frame :
      (id : ℕ) (o : Option Text) (w : W C D)
      → ((memoized C D id w o).0.buffer ≡ w.buffer) × ((memoized C D id w o).0.handles ≡ w.handles)
  memoized-frame id none w = (refl, refl)
  memoized-frame id (some t) w = (refl, refl)

  -- The getter leaves the buffer and the handles.
  pub content-frame :
      (id : ℕ) (w : W C D)
      → ((content C D id w).0.buffer ≡ w.buffer) × ((content C D id w).0.handles ≡ w.handles)
  unfolding content
  content-frame id w = from (w.lazies id).cached
    where
      from :
          (o : Option Text)
          → ((content_from C D id w o).0.buffer ≡ w.buffer)
            × ((content_from C D id w o).0.handles ≡ w.handles)
      from (some t) = (refl, refl)
      from none = memoized-frame id (print_live C D (w.handles (w.lazies id).owner).live) w

  content-Drained : (id : ℕ) (w : W C D) → Drained w → Drained (content C D id w).0
  unfolding Drained content is_buffered
  content-Drained id w (v, e) = (content-Inv id w (rw e refl) v, (content-frame id w).0 ∙ e)

  with_first-Drained :
      (d : Directive) (x : W C D × Option (List Directive))
      → Drained x.0
      → Drained (with_first C D d x).0
  with_first-Drained d (w, none) v = v
  with_first-Drained d (w, some ds) v = v

  go_on-Drained :
      (path : Text) (rest : W C D → W C D × Option (List Directive)) (x : W C D × Option Text)
      → ((w : W C D) → Drained w → Drained (rest w).0)
      → Drained x.0
      → Drained (go_on C D path rest x).0
  go_on-Drained path rest (w, none) h v = v
  go_on-Drained path rest (w, some t) h v = with_first-Drained (modify path t) (rest w) (h w v)

  resolve-Drained : (bs : List Buffered) (w : W C D) → Drained w → Drained (resolve C D bs w).0
  unfolding resolve
  resolve-Drained [] w v = v
  resolve-Drained (plain d ∷ bs) w v =
      with_first-Drained d (resolve C D bs w) (resolve-Drained bs w v)
  resolve-Drained (lazy id ∷ bs) w v =
      go_on-Drained (w.lazies id).path (resolve C D bs) (content C D id w)
        (λ w' v'. resolve-Drained bs w' v') (content-Drained id w v)

  emitted-Inv :
      (ds : List Directive) (w : W C D) (x : C.State × Result (Unit {0}))
      → Inv w
      → Inv (emitted C D ds w x).0
  emitted-Inv ds w (e, ok _) v = record { opened = v.opened; pending = v.pending; once = v.once }
  emitted-Inv ds w (e, err _) v = record { opened = v.opened; pending = v.pending; once = v.once }

  sent-Inv : (x : W C D × Option (List Directive)) → Inv x.0 → Inv (sent C D x).0
  sent-Inv (w, none) v = v
  sent-Inv (w, some ds) v = emitted-Inv ds w (C.emit (envelope C ds) w.engine) v

  pub flush-Inv : (w : W C D) → Inv w → Inv (flush C D w).0
  unfolding flush Drained is_buffered Once
  flush-Inv w v = flushed w.buffer
    where
      empty : Inv (record w { buffer = [] })
      empty = record { opened = v.opened; pending = λ id k. absurd (ground arith); once = tt }

      flushed : (bs : List Buffered) → Inv (flush_buffer C D bs w).0
      flushed [] = v
      flushed (b ∷ bs) =
          sent-Inv _ (resolve-Drained (b ∷ bs) (record w { buffer = [] }) (empty, refl)).0
