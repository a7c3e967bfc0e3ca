-- ===== src/Relay/Honesty.antt =====
-- At least once: a row that is marked published has been sent.
use soarcore.Common.{
  some_inj, ℕ, zero, suc, ◌<◌, ◌≡◌, ◌⊎◌, inl, inr, refl, sym, ap, ◌∙◌, true, some, List, [], ◌∷◌,
  ◌++◌, arith, ◌==◌, ==_iff, Bool-cases, All, OneOf, All-map, OneOf-append_left, OneOf-append_right,
}
use mathlib.Core.Path.{subst, subst₂}
use soarcore.Common.Int.{pos}
use soarcore.Json.{Json}
use soarcore.Errors.{Error, Result, ok, err}
use soarcore.Events.Envelope.{Envelope, decode}
use soarcore.Events.Bus.{Publisher, copies}
use soarcore.World.{Env, World, Time, OutboxRow, tick}
use soarcore.Persistence.Outbox.{
  mark_published-cases, fetch_unpublished-cases, select_unpublished, is_unpublished, mark_rows,
}
use soarcore.Relay.{State, go, stop, batch, drain_rows, drain_once, drain_fetched, run}
use soarcore.Relay.Table.{
  payload_at, IsAt, IsFresh, payload_at-mark_rows, mark_rows-IsAt, mark_rows-fresh, select-All,
}
use soarcore.World.{Db}
use soarcore.Relay.Order.{Outcome, skipped, done, refused, drain_rows-cons}

module _ (env : Env) (publisher : Publisher) where
  -- The row waits, or its envelope is among what was sent.
  abbrev pub IsHonestRow : List Envelope → OutboxRow → Type 0
  IsHonestRow sent r =
      (is_unpublished r ≡ true)
      ⊎ ((e : Envelope) × (decode env r.payload ≡ some e) × OneOf (λ x. x ≡ e) sent)

  mark_rows-IsHonestRow :
      (table : List OutboxRow) (i : ℕ) (at : Time) (payload : Json) (e : Envelope)
      (sent : List Envelope) (rows : List OutboxRow)
      → payload_at i table ≡ some payload
      → decode env payload ≡ some e
      → OneOf (λ x. x ≡ e) sent
      → All (IsAt table) rows
      → All (IsHonestRow sent) rows
      → All (IsHonestRow sent) (mark_rows i at rows)
  unfolding mark_rows
  mark_rows-IsHonestRow table i at payload e sent [] f d m k h = tt
  mark_rows-IsHonestRow table i at payload e sent (r ∷ rows) f d m (p, k) (q, h) = (
    elim (Bool-cases (r.id == i)) [
      | inl y ↦
          let same : payload ≡ r.payload =
            some_inj (sym f ∙ (ap (λ j. payload_at j table) (sym ((==_iff r.id i).0 y)) ∙ p)) in
          rw y (inr (e, subst (λ x. decode env x ≡ some e) same d, m))
      | inr n ↦ rw n q
    ],
    mark_rows-IsHonestRow table i at payload e sent rows f d m k h,
  )

  -- The table as the relay needs it: ids come from the sequence and find their
  -- rows, and no row is marked in vain.
  pub record IsHonest (s : State publisher) : Type 0 where
    pub fresh : IsFresh s.world.db
    pub keyed : All (IsAt s.world.db.outbox) s.world.db.outbox
    pub honest : All (IsHonestRow (publisher.sent s.bus)) s.world.db.outbox

  later :
      (sent more : List Envelope) (rows : List OutboxRow)
      → All (IsHonestRow sent) rows
      → All (IsHonestRow (sent ++ more)) rows
  later sent more =
      All-map (IsHonestRow sent) (IsHonestRow (sent ++ more))
        λ r. elim [ inl w ↦ inl w | inr (e, d, m) ↦ inr (e, d, OneOf-append_left _ sent more m) ]

  copies-OneOf : (k : ℕ) (e : Envelope) → 0 < k → OneOf (λ x. x ≡ e) (copies k e)
  copies-OneOf zero e p = absurd (omega arith)
  copies-OneOf (suc k) e p = inl refl

  -- What the rest of a batch needs: the invariant, and that its rows are the table's.
  abbrev Inv : List OutboxRow → State publisher → Type 0
  Inv rows s = IsHonest s × All (IsAt s.world.db.outbox) rows

  -- A step that leaves the tables alone, whatever it sends.
  still :
      (rows : List OutboxRow) (s t : State publisher) (more : List Envelope)
      → t.world.db ≡ s.world.db
      → publisher.sent t.bus ≡ publisher.sent s.bus ++ more
      → Inv rows s
      → Inv rows t
  still rows s t more same sent (h, k) = (
    record {
      fresh = subst IsFresh (sym same) h.fresh;
      keyed = subst (λ (b : Db). All (IsAt b.outbox) b.outbox) (sym same) h.keyed;
      honest =
          subst₂ (λ (b : Db) l. All (IsHonestRow l) b.outbox) (sym same) (sym sent)
            (later _ more _ h.honest);
    },
    subst (λ (b : Db). All (IsAt b.outbox) rows) (sym same) k,
  )

  -- Marking a row whose envelope is among what the step sent.
  marked :
      (row : OutboxRow) (rows : List OutboxRow) (s t : State publisher) (e : Envelope)
      (more : List Envelope) (at : Time)
      → decode env row.payload ≡ some e
      → OneOf (λ x. x ≡ e) more
      → publisher.sent t.bus ≡ publisher.sent s.bus ++ more
      → t.world.db ≡ record s.world.db { outbox = mark_rows row.id at s.world.db.outbox }
      → Inv (row ∷ rows) s
      → Inv rows t
  marked row rows s t e more at d m sent set (h, (k, ks)) = (
    record {
      fresh =
          subst IsFresh (sym set) (mark_rows-fresh s.world.db.next_outbox_id row.id at _ h.fresh);
      keyed =
          subst (λ (b : Db). All (IsAt b.outbox) b.outbox) (sym set)
            (mark_rows-IsAt _ row.id at _ h.keyed);
      honest =
          subst₂ (λ (b : Db) l. All (IsHonestRow l) b.outbox) (sym set) (sym sent)
            (mark_rows-IsHonestRow s.world.db.outbox row.id at row.payload e _ _ k d
              (OneOf-append_right _ _ more m) h.keyed (later _ more _ h.honest));
    },
    subst (λ (b : Db). All (IsAt b.outbox) rows) (sym set)
        (All-map (IsAt s.world.db.outbox) (IsAt (mark_rows row.id at s.world.db.outbox))
          (λ r p. payload_at-mark_rows r.id row.id at s.world.db.outbox ∙ p) rows ks),
  )

  row_Inv :
      (row : OutboxRow) (rows : List OutboxRow) (s t : State publisher)
      → Outcome env publisher row s (go t)
      → Inv (row ∷ rows) s
      → Inv rows t
  row_Inv row rows s t (skipped n) (h, (k, ks)) = (h, ks)
  row_Inv row rows s t (done e k _ d p sent w) i =
      elim (mark_published-cases env row.id (env.now s.world.reads) (tick s.world)) [
        | inl same ↦
            still rows s t (copies k e) (ap (λ (v : World). v.db) w ∙ same) sent (i.0, i.1.1)
        | inr set ↦
            marked row rows s t e (copies k e) (env.now s.world.reads) d (copies-OneOf k e p) sent
              (ap (λ (v : World). v.db) w ∙ set) i
      ]

  stop-IsHonest :
      (row : OutboxRow) (rows : List OutboxRow) (s t : State publisher)
      → Outcome env publisher row s (stop t)
      → Inv (row ∷ rows) s
      → IsHonest t
  stop-IsHonest row rows s t (refused e k _ d sent w n) i =
      (still (row ∷ rows) s t (copies k e) (ap (λ (v : World). v.db) w) sent i).0

  drain_rows-IsHonest :
      (rows : List OutboxRow) (s : State publisher)
      → Inv rows s
      → IsHonest (drain_rows env publisher rows s)
  unfolding drain_rows
  drain_rows-IsHonest [] s i = i.0
  drain_rows-IsHonest (row ∷ rows) s i =
      let ih = drain_rows-IsHonest rows in
      drain_rows-cons env publisher IsHonest row rows s (λ t o. ih t (row_Inv row rows s t o i))
        (λ t o. stop-IsHonest row rows s t o i)

  drain_fetched-IsHonest :
      (s : State publisher) (r : Result (List OutboxRow) × World)
      → ((e : Error) × (r ≡ (err e, tick s.world)))
        ⊎ (r ≡ (ok (select_unpublished (pos batch) s.world.db.outbox), tick s.world))
      → IsHonest s
      → IsHonest (drain_fetched env publisher s.bus r).1
  unfolding drain_fetched
  drain_fetched-IsHonest s r (inl (e, eq)) h =
      rw (eq, drain_fetched) (record { fresh = h.fresh; keyed = h.keyed; honest = h.honest })
  drain_fetched-IsHonest s r (inr eq) h =
      rw (eq, drain_fetched)
        (drain_rows-IsHonest _ _ (
          record { fresh = h.fresh; keyed = h.keyed; honest = h.honest },
          select-All (IsAt s.world.db.outbox) (pos batch) s.world.db.outbox h.keyed,
        ))

  -- Where the ids of the outbox come from the sequence and find their rows, a pass of the relay
  -- keeps that, and keeps it true that every row that is marked published holds an envelope that has
  -- been sent: whichever publish or database call of the pass fails, no event is lost.
  pub drain_once-IsHonest :
      (s : State publisher) → IsHonest s → IsHonest (drain_once env publisher s).1
  unfolding drain_once
  drain_once-IsHonest s h =
      drain_fetched-IsHonest s _ (fetch_unpublished-cases env (pos batch) s.world) h

  -- Where the ids of the outbox come from the sequence and find their rows, every number of passes
  -- of the relay keeps that, and keeps it true that every row that is marked published holds an
  -- envelope that has been sent.
  pub run-IsHonest : (n : ℕ) (s : State publisher) → IsHonest s → IsHonest (run env publisher n s)
  unfolding run
  run-IsHonest zero s h = h
  run-IsHonest (suc n) s h = run-IsHonest n _ (drain_once-IsHonest s h)
