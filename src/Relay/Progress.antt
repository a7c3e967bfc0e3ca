-- ===== src/Relay/Progress.antt =====
-- What a pass of the relay achieves, and when it achieves nothing.
use soarcore.Common.{
  ℕ, zero, suc, ◌≡◌, ◌⊎◌, inl, inr, refl, sym, ap, ◌∙◌, true, false, none, List, [], ◌∷◌, arith,
  ◌==◌, Bool-cases, All,
}
use mathlib.Core.Path.{subst}
use soarcore.Common.Int.{pos}
use soarcore.Relay.{
  State, go, stop, batch, drain_rows, drain_once, drain_fetched, run, drain_row, drain_decoded,
}
use soarcore.Relay.Order.{Outcome, skipped, done, refused, drain_rows-cons}
use soarcore.Persistence.Outbox.{
  mark_published-cases, mark_published-works, fetch_unpublished-cases, fetch_unpublished-works,
  select_unpublished, mark_rows, is_unpublished,
}
use soarcore.World.{Env, World, Time, OutboxRow, tick}
use soarcore.Events.Envelope.{decode, Envelope}
use soarcore.Events.Bus.{Publisher}
use soarcore.Errors.{Error, Result, ok, err}

-- No row with the id waits any more.
abbrev pub IsMarked : ℕ → List OutboxRow → Type 0
IsMarked id rows = All (λ r. (r.id == id) ≡ true → is_unpublished r ≡ false) rows

mark_rows-IsMarked :
    (id : ℕ) (at : Time) (rows : List OutboxRow) → IsMarked id (mark_rows id at rows)
unfolding mark_rows
mark_rows-IsMarked id at [] = tt
mark_rows-IsMarked id at (r ∷ rows) = (
  λ h. elim (Bool-cases (r.id == id)) [ inl y ↦ rw y | inr n ↦ absurd (ground arith) ],
  mark_rows-IsMarked id at rows,
)

mark_rows-keeps :
    (id i : ℕ) (at : Time) (rows : List OutboxRow)
    → IsMarked id rows
    → IsMarked id (mark_rows i at rows)
unfolding mark_rows
mark_rows-keeps id i at [] h = tt
mark_rows-keeps id i at (r ∷ rows) (p, h) = (
  elim (Bool-cases (r.id == i)) [ inl y ↦ rw y (λ k. refl) | inr n ↦ rw n p ],
  mark_rows-keeps id i at rows h,
)

module _ (env : Env) (publisher : Publisher) where
  -- A row that is marked stays so, whatever else a batch does.
  step_keeps :
      (id : ℕ) (row : OutboxRow) (s t : State publisher)
      → Outcome env publisher row s (go t)
      → IsMarked id s.world.db.outbox
      → IsMarked id t.world.db.outbox
  step_keeps id row s t (skipped n) h = h
  step_keeps id row s t (done e k _ d p sent w) h =
      let at = env.now s.world.reads in
      subst (λ (v : World). IsMarked id v.db.outbox) (sym w)
        (elim (mark_published-cases env row.id at (tick s.world)) [
          | inl same ↦ subst (λ b. IsMarked id b.outbox) (sym same) h
          | inr set ↦ subst (λ b. IsMarked id b.outbox) (sym set) (mark_rows-keeps id row.id at _ h)
        ])

  stop_keeps :
      (id : ℕ) (row : OutboxRow) (s t : State publisher)
      → Outcome env publisher row s (stop t)
      → IsMarked id s.world.db.outbox
      → IsMarked id t.world.db.outbox
  stop_keeps id row s t (refused e k _ d sent w n) h =
      subst (λ (v : World). IsMarked id v.db.outbox) (sym w) h

  drain_rows-keeps :
      (id : ℕ) (rows : List OutboxRow) (s : State publisher)
      → IsMarked id s.world.db.outbox
      → IsMarked id (drain_rows env publisher rows s).world.db.outbox
  unfolding drain_rows
  drain_rows-keeps id [] s h = h
  drain_rows-keeps id (row ∷ rows) s h =
      let ih = drain_rows-keeps id rows in
      drain_rows-cons env publisher (λ u. IsMarked id u.world.db.outbox) row rows s
        (λ t o. ih t (step_keeps id row s t o h)) (λ t o. stop_keeps id row s t o h)

  -- The row holds no envelope, or no row with its id waits in the state.
  abbrev Handled : State publisher → OutboxRow → Type 0
  Handled t row = (decode env row.payload ≡ none) ⊎ IsMarked row.id t.world.db.outbox

  module _ (works : (n : ℕ) → env.fails n ≡ false)
      (up : (e : Envelope) (s : publisher.State) → (publisher.publish e s).0 ≡ none) where
    row-Handled :
        (row : OutboxRow) (rows : List OutboxRow) (s t : State publisher)
        → Outcome env publisher row s (go t)
        → Handled (drain_rows env publisher rows t) row
    row-Handled row rows s t (skipped n) = inl n
    row-Handled row rows s t (done e k _ d p sent w) =
        let at = env.now s.world.reads in
        inr (
          drain_rows-keeps row.id rows t (
            subst (λ (v : World). IsMarked row.id v.db.outbox) (sym w)
              (subst (λ b. IsMarked row.id b.outbox)
                (sym (mark_published-works env row.id at (tick s.world) (works _)))
                (mark_rows-IsMarked row.id at _))))

    drain_rows-Handled :
        (rows : List OutboxRow) (s : State publisher)
        → All (Handled (drain_rows env publisher rows s)) rows
    unfolding drain_rows
    drain_rows-Handled [] s = tt
    drain_rows-Handled (row ∷ rows) s =
        let ih = drain_rows-Handled rows in
        drain_rows-cons env publisher (λ u. All (Handled u) (row ∷ rows)) row rows s
          (λ t o. (row-Handled row rows s t o, ih t))
          (λ t o. elim o [ refused e k _ d sent w n ↦ absurd (n (up e s.bus)) ])

    -- When no database call fails and the bus takes every envelope, a pass of the relay leaves no
    -- row of the batch waiting that holds an envelope.
    drain_once-Handled :
        (s : State publisher)
        → All
            (Handled (drain_once env publisher s).1)
            (select_unpublished (pos batch) s.world.db.outbox)
    unfolding drain_once drain_fetched
    drain_once-Handled s =
        rw (fetch_unpublished-works env (pos batch) s.world (works _)) (drain_rows-Handled _ _)

  -- The row's payload is no envelope.
  abbrev pub IsMalformed : OutboxRow → Type 0
  IsMalformed row = decode env row.payload ≡ none

  drain_rows-malformed :
      (rows : List OutboxRow) (s : State publisher)
      → All IsMalformed rows
      → drain_rows env publisher rows s ≡ s
  unfolding drain_rows drain_row drain_decoded
  drain_rows-malformed [] s h = refl
  drain_rows-malformed (row ∷ rows) s (p, h) = rw (p, drain_rows) (drain_rows-malformed rows s h)

  abbrev Unmoved : State publisher → State publisher → Type 0
  Unmoved s t = (t.world.db ≡ s.world.db) × (t.bus ≡ s.bus)

  drain_fetched_starved :
      (s : State publisher) (r : Result (List OutboxRow) × World)
      → ((e : Error) × (r ≡ (err e, tick s.world)))
        ⊎ (r ≡ (ok (select_unpublished (pos batch) s.world.db.outbox), tick s.world))
      → All IsMalformed (select_unpublished (pos batch) s.world.db.outbox)
      → Unmoved s (drain_fetched env publisher s.bus r).1
  unfolding drain_fetched
  drain_fetched_starved s r (inl (e, eq)) h = rw (eq, drain_fetched) (refl, refl)
  drain_fetched_starved s r (inr eq) h =
      let stays = drain_rows-malformed _ (record { world = tick s.world; bus = s.bus }) h in
      rw (eq, drain_fetched) (ap (λ u. u.world.db) stays, ap (λ u. u.bus) stays)

  -- When the rows of the batch all hold no envelope, no number of passes sends or marks anything:
  -- the rows behind them are never reached.
  pub run_starved :
      (n : ℕ) (s : State publisher)
      → All IsMalformed (select_unpublished (pos batch) s.world.db.outbox)
      → ((run env publisher n s).world.db ≡ s.world.db) × ((run env publisher n s).bus ≡ s.bus)
  unfolding run drain_once
  run_starved zero s h = (refl, refl)
  run_starved (suc n) s h =
      let (same, quiet) =
        drain_fetched_starved s _ (fetch_unpublished-cases env (pos batch) s.world) h in
      let (same', quiet') =
        run_starved n (drain_once env publisher s).1
          (subst (λ b. All IsMalformed (select_unpublished (pos batch) b.outbox)) (sym same) h) in
      (same' ∙ same, quiet' ∙ quiet)
