-- ===== src/Relay/Draining.antt =====
-- Passes of the relay with nothing failing: they drain the outbox, and all its envelopes are sent.
use soarcore.Common.{
  ℕ, zero, suc, ◌+◌, ◌*◌, ◌≤◌, ◌≡◌, inl, inr, refl, sym, ap, ◌∙◌, false, not, none, some, List, [],
  ◌∷◌, arith, ◌==◌, Bool-cases, All, OneOf, length, keep,
}
use mathlib.Core.Path.{subst}
use soarcore.Common.Int.{pos}
use soarcore.Json.{Json}
use soarcore.World.{Env, World, Time, OutboxRow, tick}
use soarcore.Events.Envelope.{decode, Envelope}
use soarcore.Events.Bus.{Publisher}
use soarcore.Persistence.Outbox.{
  is_unpublished, mark_rows, select_unpublished, mark_published-works, mark_published-cases,
  fetch_unpublished-cases, mark_published-reads, fetch_unpublished-works,
}
use soarcore.Relay.{State, go, stop, batch, drain_rows, drain_once, drain_fetched, run}
use soarcore.Relay.Table.{select-All}
use soarcore.Relay.Order.{Outcome, skipped, done, refused, drain_rows-cons}
use soarcore.Relay.Honesty.{IsHonest, IsHonestRow, run-IsHonest}
use soarcore.Relay.Waiting.{unmarked, keep-mark_rows, keep-keep, keep_all, length-unmarked}

abbrev pub payloads : List OutboxRow → List Json
payloads [] = []
payloads (r ∷ rows) = r.payload ∷ payloads rows

payloads-mark_rows :
    (i : ℕ) (at : Time) (rows : List OutboxRow) → payloads (mark_rows i at rows) ≡ payloads rows
unfolding mark_rows
payloads-mark_rows i at [] = refl
payloads-mark_rows i at (r ∷ rows) = ground (arith, payloads-mark_rows i at rows)

module _ (env : Env) (publisher : Publisher) where
  -- The JSON is the form of an envelope.
  abbrev pub HoldsEnvelope : Json → Type 0
  HoldsEnvelope j = (e : Envelope) × (decode env j ≡ some e)

  of_payloads :
      (rows : List OutboxRow)
      → All HoldsEnvelope (payloads rows)
      → All (λ r. HoldsEnvelope r.payload) rows
  of_payloads [] h = tt
  of_payloads (r ∷ rows) (p, h) = (p, of_payloads rows h)

  abbrev table : State publisher → List OutboxRow
  table s = s.world.db.outbox

  row-payloads :
      (row : OutboxRow) (s t : State publisher)
      → Outcome env publisher row s (go t)
      → payloads (table t) ≡ payloads (table s)
  row-payloads row s t (skipped n) = refl
  row-payloads row s t (done e k _ d p sent w) =
      let at = env.now s.world.reads in
      ap (λ (v : World). payloads v.db.outbox) w
      ∙ elim (mark_published-cases env row.id at (tick s.world)) [
        | inl same ↦ ap (λ b. payloads b.outbox) same
        | inr set ↦ ap (λ b. payloads b.outbox) set ∙ payloads-mark_rows row.id at (table s)
      ]

  stopped-payloads :
      (row : OutboxRow) (s t : State publisher)
      → Outcome env publisher row s (stop t)
      → payloads (table t) ≡ payloads (table s)
  stopped-payloads row s t (refused e k _ d sent w n) = ap (λ (v : World). payloads v.db.outbox) w

  drain_rows-payloads :
      (rows : List OutboxRow) (s : State publisher)
      → payloads (table (drain_rows env publisher rows s)) ≡ payloads (table s)
  unfolding drain_rows
  drain_rows-payloads [] s = refl
  drain_rows-payloads (row ∷ rows) s =
      drain_rows-cons env publisher (λ u. payloads (table u) ≡ payloads (table s)) row rows s
        (λ t o. drain_rows-payloads rows t ∙ row-payloads row s t o)
        (λ t o. stopped-payloads row s t o)

  -- A pass changes no payload, whatever fails in it.
  pub drain_once-payloads :
      (s : State publisher)
      → payloads (drain_once env publisher s).1.world.db.outbox ≡ payloads s.world.db.outbox
  unfolding drain_once drain_fetched
  drain_once-payloads s = elim (fetch_unpublished-cases env (pos batch) s.world) [
    | inl (e, eq) ↦ rw eq refl
    | inr eq ↦ rw eq (drain_rows-payloads _ (record { world = tick s.world; bus = s.bus }))
  ]

  -- The envelope of the row has been sent.
  abbrev pub IsSent : State publisher → OutboxRow → Type 0
  IsSent s r =
      (e : Envelope) × (decode env r.payload ≡ some e) × OneOf (λ x. x ≡ e) (publisher.sent s.bus)

  all_sent :
      (s : State publisher) (rows : List OutboxRow)
      → length (keep is_unpublished rows) ≡ 0
      → All (IsHonestRow env publisher (publisher.sent s.bus)) rows
      → All (IsSent s) rows
  all_sent s [] empty h = tt
  all_sent s (r ∷ rows) empty (p, h) = elim (Bool-cases (is_unpublished r)) [
    | inl y ↦ absurd (ground (arith, rw y at empty))
    | inr n ↦ (
      elim p [ inl waits ↦ absurd (ground arith) | inr sent ↦ sent ],
      all_sent s rows (rw n at empty) h,
    )
  ]

  module _ (from : ℕ) (works : (n : ℕ) → from ≤ n → env.fails n ≡ false)
      (up : (e : Envelope) (s : publisher.State) → (publisher.publish e s).0 ≡ none) where
    -- What a batch does to the table: its rows wait no more, and no payload changes.
    abbrev Drains : List OutboxRow → State publisher → State publisher → Type 0
    Drains rows s t =
        (keep is_unpublished (table t) ≡ keep (unmarked rows) (keep is_unpublished (table s)))
        × (payloads (table t) ≡ payloads (table s))
        × (s.world.reads ≤ t.world.reads)

    -- A row that goes on has been published and marked.
    row_done :
        (row : OutboxRow) (s t : State publisher)
        → from ≤ s.world.reads
        → HoldsEnvelope row.payload
        → Outcome env publisher row s (go t)
        → (table t ≡ mark_rows row.id (env.now s.world.reads) (table s))
          × (t.world.reads ≡ s.world.reads + 1 + 1)
    row_done row s t le (e, d) (skipped n) = absurd (ground (arith, sym d ∙ n))
    row_done row s t le holds (done e k _ d p sent w) =
        let at = env.now s.world.reads in
        let call : env.fails (tick s.world).reads ≡ false = works _ (omega (arith, le)) in
        (
          ap (λ (v : World). v.db.outbox) w
              ∙ ap (λ b. b.outbox) (mark_published-works env row.id at (tick s.world) call),
          ap (λ (v : World). v.reads) w ∙ mark_published-reads env row.id at (tick s.world),
        )

    go_on :
        (row : OutboxRow) (rows : List OutboxRow) (s t u : State publisher)
        → (table t ≡ mark_rows row.id (env.now s.world.reads) (table s))
          × (t.world.reads ≡ s.world.reads + 1 + 1)
        → Drains rows t u
        → Drains (row ∷ rows) s u
    go_on row rows s t u (set, reads) (waits, same, on) = (
      waits
          ∙ (ap (keep (unmarked rows)) (
                ap (keep is_unpublished) set
                ∙ keep-mark_rows row.id (env.now s.world.reads) (table s))
              ∙ keep-keep (unmarked rows) (λ r. not (r.id == row.id))
                  (keep is_unpublished (table s))),
      same ∙ (ap payloads set ∙ payloads-mark_rows row.id (env.now s.world.reads) (table s)),
      omega (arith, on, reads),
    )

    drain_rows-Drains :
        (rows : List OutboxRow) (s : State publisher)
        → from ≤ s.world.reads
        → All (λ r. HoldsEnvelope r.payload) rows
        → Drains rows s (drain_rows env publisher rows s)
    unfolding drain_rows
    drain_rows-Drains [] s le h =
        (sym (keep_all (keep is_unpublished (table s))), refl, omega arith)
    drain_rows-Drains (row ∷ rows) s le (p, h) =
        drain_rows-cons env publisher (Drains (row ∷ rows) s) row rows s
          (λ t o.
            let at_row = row_done row s t le p o in
            go_on row rows s t (drain_rows env publisher rows t) at_row
              (drain_rows-Drains rows t (omega (arith, le, at_row.1)) h))
          (λ t o. elim o [ refused e k _ d sent w n ↦ absurd (n (up e s.bus)) ])

    fetched_rows :
        (s : State publisher)
        → from ≤ s.world.reads
        → All HoldsEnvelope (payloads (table s))
        → Drains (select_unpublished (pos batch) (table s)) s (
            drain_rows env publisher
              (select_unpublished (pos batch) (table s))
              (record { world = tick s.world; bus = s.bus }))
    fetched_rows s le h =
        let (waits, same, on) =
          drain_rows-Drains (select_unpublished (pos batch) (table s))
            (record { world = tick s.world; bus = s.bus }) (omega (arith, le))
            (select-All (λ r. HoldsEnvelope r.payload) (pos batch) (table s)
              (of_payloads (table s) h)) in
        (waits, same, omega (arith, on))

    drain_once-Drains :
        (s : State publisher)
        → from ≤ s.world.reads
        → All HoldsEnvelope (payloads (table s))
        → Drains (select_unpublished (pos batch) (table s)) s (drain_once env publisher s).1
    unfolding drain_once drain_fetched
    drain_once-Drains s le h =
        rw (fetch_unpublished-works env (pos batch) s.world (works _ le)) (fetched_rows s le h)

    run_drains :
        (n : ℕ) (s : State publisher)
        → from ≤ s.world.reads
        → All HoldsEnvelope (payloads (table s))
        → length (keep is_unpublished (table s)) ≤ n * batch
        → (length (keep is_unpublished (table (run env publisher n s))) ≡ 0)
          × (payloads (table (run env publisher n s)) ≡ payloads (table s))
    unfolding run
    run_drains zero s le holds few = (omega (arith, few), refl)
    run_drains (suc n) s le holds few =
        let t = (drain_once env publisher s).1 in
        let (waits, same, on) = drain_once-Drains s le holds in
        let fewer : length (keep is_unpublished (table t)) ≤ n * batch =
          omega (arith, ap length waits, length-unmarked (table s), few) in
        let (none_left, kept) =
          run_drains n t (omega (arith, le, on)) (subst (All HoldsEnvelope) (sym same) holds)
            fewer in
        (none_left, kept ∙ same)

    -- When no database call of the relay fails from a reading on and the bus takes every envelope,
    -- where every row of the outbox holds an envelope, its ids come from the sequence and find their
    -- rows, and no row is marked in vain: after as many passes as it takes at 100 rows a pass, no row
    -- waits, the outbox holds the payloads that it held, in their order, and the envelope of every
    -- row has been sent.
    pub run_delivers :
        (n : ℕ) (s : State publisher)
        → from ≤ s.world.reads
        → All HoldsEnvelope (payloads s.world.db.outbox)
        → IsHonest env publisher s
        → length (keep is_unpublished s.world.db.outbox) ≤ n * batch
        → (length (keep is_unpublished (run env publisher n s).world.db.outbox) ≡ 0)
          × (payloads (run env publisher n s).world.db.outbox ≡ payloads s.world.db.outbox)
          × All (IsSent (run env publisher n s)) (run env publisher n s).world.db.outbox
    run_delivers n s le holds honest few =
        let (none_left, kept) = run_drains n s le holds few in
        (
          none_left,
          kept,
          all_sent (run env publisher n s) (run env publisher n s).world.db.outbox none_left
              (run-IsHonest env publisher n s honest).honest,
        )
