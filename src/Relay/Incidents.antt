-- ===== src/Relay/Incidents.antt =====
-- A pass of the relay touches no incident.
use soarcore.Common.{◌≡◌, inl, inr, refl, ap, ◌∙◌, Option, none, some, List, [], ◌∷◌}
use soarcore.Errors.{Error, Result, ok, err}
use soarcore.Events.Envelope.{Envelope, decode}
use soarcore.Events.Bus.{Publisher}
use soarcore.World.{Env, World, OutboxRow, IncidentRow, tick}
use soarcore.Persistence.Outbox.{mark_published-cases, fetch_unpublished-cases}
use soarcore.Common.Int.{pos}
use soarcore.Relay.{
  State, Flow, go, stop, batch, after_publish, drain_decoded, drain_row, drain_rows, drain_fetched,
  drain_once,
}

module _ (env : Env) (publisher : Publisher) where
  abbrev incidents : State publisher → List IncidentRow
  incidents s = s.world.db.incidents

  -- Where a row has led to, whether the loop goes on or not.
  abbrev reached : Flow publisher → State publisher
  reached (go t) = t
  reached (stop t) = t

  after_publish-incidents :
      (row : OutboxRow) (w : World) (x : Option Error × publisher.State)
      → incidents (reached (after_publish env publisher row w x)) ≡ w.db.incidents
  unfolding after_publish
  after_publish-incidents row w (some e, bus) = refl
  after_publish-incidents row w (none, bus) =
      elim (mark_published-cases env row.id (env.now w.reads) (tick w)) [
        | inl same ↦ ap (λ b. b.incidents) same
        | inr set ↦ ap (λ b. b.incidents) set
      ]

  drain_decoded-incidents :
      (row : OutboxRow) (s : State publisher) (o : Option Envelope)
      → incidents (reached (drain_decoded env publisher row s o)) ≡ incidents s
  unfolding drain_decoded
  drain_decoded-incidents row s none = refl
  drain_decoded-incidents row s (some e) = after_publish-incidents row s.world _

  drain_row-incidents :
      (row : OutboxRow) (s : State publisher)
      → incidents (reached (drain_row env publisher row s)) ≡ incidents s
  unfolding drain_row
  drain_row-incidents row s = drain_decoded-incidents row s (decode env row.payload)

  drain_flow-incidents :
      (rows : List OutboxRow)
      → ((t : State publisher) → incidents (drain_rows env publisher rows t) ≡ incidents t)
      → (f : Flow publisher)
      → incidents (elim f [ go t ↦ drain_rows env publisher rows t | stop t ↦ t ])
        ≡ incidents (reached f)
  drain_flow-incidents rows rest (go t) = rest t
  drain_flow-incidents rows rest (stop t) = refl

  drain_rows-incidents :
      (rows : List OutboxRow) (s : State publisher)
      → incidents (drain_rows env publisher rows s) ≡ incidents s
  unfolding drain_rows
  drain_rows-incidents [] s = refl
  drain_rows-incidents (row ∷ rows) s =
      drain_flow-incidents rows (drain_rows-incidents rows) (drain_row env publisher row s)
      ∙ drain_row-incidents row s

  drain_fetched-incidents :
      (bus : publisher.State) (x : Result (List OutboxRow) × World)
      → incidents (drain_fetched env publisher bus x).1 ≡ x.1.db.incidents
  unfolding drain_fetched
  drain_fetched-incidents bus (err e, w) = refl
  drain_fetched-incidents bus (ok rows, w) = drain_rows-incidents rows _

  pub drain_once-incidents :
      (s : State publisher) → incidents (drain_once env publisher s).1 ≡ incidents s
  unfolding drain_once
  drain_once-incidents s = elim (fetch_unpublished-cases env (pos batch) s.world) [
    | inl (e, failed) ↦
        drain_fetched-incidents s.bus _
        ∙ ap (λ (x : Result (List OutboxRow) × World). x.1.db.incidents) failed
    | inr got ↦
        drain_fetched-incidents s.bus _
        ∙ ap (λ (x : Result (List OutboxRow) × World). x.1.db.incidents) got
  ]
