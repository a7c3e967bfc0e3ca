-- ===== src/Relay/Order.antt =====
-- What one row and one batch of the relay do, and the order in which envelopes reach the bus.
use soarcore.Common.{
  ℕ, ◌<◌, ◌≡◌, ◌≢◌, ◌⊎◌, inl, inr, refl, sym, ap, ◌∙◌, Option, none, some, List, [], ◌∷◌, ◌++◌,
}
use mathlib.Core.Path.{subst}
use mathlib.Core.List.{append-nil, append_assoc}
use soarcore.Common.Int.{pos}
use soarcore.Errors.{Error, Result, ok, err}
use soarcore.Events.Envelope.{Envelope, decode}
use soarcore.Events.Bus.{Publisher, copies}
use soarcore.World.{Env, World, OutboxRow, tick}
use soarcore.Persistence.Outbox.{mark_published, fetch_unpublished-cases, select_unpublished}
use soarcore.Relay.{
  State, Flow, go, stop, batch, drain_row, drain_decoded, after_publish, drain_rows, drain_once,
  drain_fetched,
}

module _ (env : Env) (publisher : Publisher) where
  -- The three ends of a row: skipped as no envelope, published and marked, or refused by the bus.
  pub data Outcome (row : OutboxRow) (s : State publisher) : Flow publisher → Type 0 where
    skipped : decode env row.payload ≡ none → Outcome row s (go s)
    done :
        (e : Envelope) (k : ℕ) (t : State publisher)
        → decode env row.payload ≡ some e
        → 0 < k
        → publisher.sent t.bus ≡ publisher.sent s.bus ++ copies k e
        → t.world ≡ (mark_published env row.id (env.now s.world.reads) (tick s.world)).1
        → Outcome row s (go t)
    refused :
        (e : Envelope) (k : ℕ) (t : State publisher)
        → decode env row.payload ≡ some e
        → publisher.sent t.bus ≡ publisher.sent s.bus ++ copies k e
        → t.world ≡ s.world
        → (publisher.publish e s.bus).0 ≢ none
        → Outcome row s (stop t)

  after_publish-Outcome :
      (row : OutboxRow) (s : State publisher) (e : Envelope) (r : Option Error × publisher.State)
      → decode env row.payload ≡ some e
      → publisher.publish e s.bus ≡ r
      → Outcome row s (after_publish env publisher row s.world r)
  unfolding after_publish
  after_publish-Outcome row s e (none, bus) h eq =
      let (k, sent, positive) = publisher.hands_over e s.bus in
      done e k _ h (positive (ap (λ (r : Option Error × publisher.State). r.0) eq))
        (subst
          (λ (r : Option Error × publisher.State).
            publisher.sent r.1 ≡ publisher.sent s.bus ++ copies k e)
          eq sent)
        refl
  after_publish-Outcome row s e (some x, bus) h eq =
      let (k, sent, positive) = publisher.hands_over e s.bus in
      refused e k _ h
        (subst
          (λ (r : Option Error × publisher.State).
            publisher.sent r.1 ≡ publisher.sent s.bus ++ copies k e)
          eq sent)
        refl (λ n. cc (ap (λ (r : Option Error × publisher.State). r.0) eq))

  drain_decoded-Outcome :
      (row : OutboxRow) (s : State publisher) (o : Option Envelope)
      → decode env row.payload ≡ o
      → Outcome row s (drain_decoded env publisher row s o)
  unfolding drain_decoded
  drain_decoded-Outcome row s none h = skipped h
  drain_decoded-Outcome row s (some e) h = after_publish-Outcome row s e _ h refl

  pub drain_row-Outcome :
      (row : OutboxRow) (s : State publisher) → Outcome row s (drain_row env publisher row s)
  unfolding drain_row
  drain_row-Outcome row s = drain_decoded-Outcome row s _ refl

  -- To prove something of the state after a batch: of its rest after each row that goes on, and of
  -- the state after a row that stops it.
  pub drain_rows-cons {ℓ} :
      (P : State publisher → Type ℓ) (row : OutboxRow) (rows : List OutboxRow) (s : State publisher)
      → ((t : State publisher) → Outcome row s (go t) → P (drain_rows env publisher rows t))
      → ((t : State publisher) → Outcome row s (stop t) → P t)
      → P (drain_rows env publisher (row ∷ rows) s)
  unfolding drain_rows
  drain_rows-cons P row rows s on end =
      split (drain_row env publisher row s) (drain_row-Outcome row s)
    where
      split :
          (f : Flow publisher)
          → Outcome row s f
          → P (elim f [ go t ↦ drain_rows env publisher rows t | stop t ↦ t ])
      split (go t) o = on t o
      split (stop t) o = end t o

  -- The envelopes of the rows that hold one.
  abbrev pub decoded : List OutboxRow → List Envelope
  decoded [] = []
  decoded (row ∷ rows) = elim (decode env row.payload) [
    | none ↦ decoded rows
    | some e ↦ e ∷ decoded rows
  ]

  -- Each envelope as often as its number says, in order.
  abbrev pub expand : List ℕ → List Envelope → List Envelope
  expand (k ∷ ks) (e ∷ es) = copies k e ++ expand ks es
  expand _ _ = []

  -- All but the last number are positive.
  abbrev pub IsRun : List ℕ → Type 0
  IsRun [] = Unit
  IsRun (k ∷ []) = Unit
  IsRun (k ∷ l ∷ ks) = (0 < k) × IsRun (l ∷ ks)

  IsRun-cons : (k : ℕ) (ks : List ℕ) → 0 < k → IsRun ks → IsRun (k ∷ ks)
  IsRun-cons k [] p r = tt
  IsRun-cons k (l ∷ ks) p r = (p, r)

  abbrev Runs : List OutboxRow → State publisher → State publisher → Type 0
  Runs rows s t =
      (ks : List ℕ) × IsRun ks
      × (publisher.sent t.bus ≡ publisher.sent s.bus ++ expand ks (decoded rows))

  decoded-none :
      (row : OutboxRow) (rows : List OutboxRow)
      → decode env row.payload ≡ none
      → decoded (row ∷ rows) ≡ decoded rows
  decoded-none row rows h = rw (h, decoded)

  decoded-some :
      (row : OutboxRow) (rows : List OutboxRow) (e : Envelope)
      → decode env row.payload ≡ some e
      → decoded (row ∷ rows) ≡ e ∷ decoded rows
  decoded-some row rows e h = rw (h, decoded)

  run_on :
      (row : OutboxRow) (rows : List OutboxRow) (s t u : State publisher)
      → Outcome row s (go t)
      → Runs rows t u
      → Runs (row ∷ rows) s u
  run_on row rows s t u (skipped none_) (ks, r, eq) = (ks, r, rw (decoded-none row rows none_) eq)
  run_on row rows s t u (done e k _ h p sent w) (ks, r, eq) = (
    k ∷ ks,
    IsRun-cons k ks p r,
    rw (decoded-some row rows e h)
        (eq ∙ (ap (λ l. l ++ expand ks (decoded rows)) sent ∙ append_assoc _ (copies k e) _)),
  )

  run_end :
      (row : OutboxRow) (rows : List OutboxRow) (s t : State publisher)
      → Outcome row s (stop t)
      → Runs (row ∷ rows) s t
  run_end row rows s t (refused e k _ h sent w n) = (
    k ∷ [],
    tt,
    rw (decoded-some row rows e h)
        (sent ∙ ap (◌++◌ (publisher.sent s.bus)) (sym (append-nil (copies k e)))),
  )

  drain_rows-Runs :
      (rows : List OutboxRow) (s : State publisher) → Runs rows s (drain_rows env publisher rows s)
  unfolding drain_rows
  drain_rows-Runs [] s = ([], tt, sym (append-nil _))
  drain_rows-Runs (row ∷ rows) s =
      let ih = drain_rows-Runs rows in
      drain_rows-cons (Runs (row ∷ rows) s) row rows s
        (λ t o. run_on row rows s t (drain_rows env publisher rows t) o (ih t))
        (λ t o. run_end row rows s t o)

  drain_fetched-Runs :
      (s : State publisher) (r : Result (List OutboxRow) × World)
      → ((e : Error) × (r ≡ (err e, tick s.world)))
        ⊎ (r ≡ (ok (select_unpublished (pos batch) s.world.db.outbox), tick s.world))
      → Runs
          (select_unpublished (pos batch) s.world.db.outbox)
          s
          (drain_fetched env publisher s.bus r).1
  unfolding drain_fetched
  drain_fetched-Runs s r (inl (e, h)) = rw (h, drain_fetched) ([], tt, sym (append-nil _))
  drain_fetched-Runs s r (inr h) =
      rw (h, drain_fetched) (drain_rows-Runs _ (record { world = tick s.world; bus = s.bus }))

  -- What one pass of the relay sends is, after what was sent before, a run of the envelopes of the
  -- oldest unpublished rows, in the order of their creation: no envelope is sent before the ones
  -- ahead of it have been sent at least once, and nothing else is sent.
  pub drain_once-Runs :
      (s : State publisher)
      → (ks : List ℕ) × IsRun ks
        × (publisher.sent (drain_once env publisher s).1.bus
            ≡ publisher.sent s.bus
              ++ expand ks (decoded (select_unpublished (pos batch) s.world.db.outbox)))
  unfolding drain_once
  drain_once-Runs s = drain_fetched-Runs s _ (fetch_unpublished-cases env (pos batch) s.world)
