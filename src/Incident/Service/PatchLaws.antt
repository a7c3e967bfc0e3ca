-- ===== src/Incident/Service/PatchLaws.antt =====
-- Patch: the row, one audit row and the events of the change, all or none.
use mathlib.Core.Path.{subst}
use soarcore.Common.{
  String, ◌≡◌, refl, ◌∙◌, ap, none, some, List, [], ◌∷◌, arith, if◌then◌else◌, str_eq, Bool-cases,
  inl, inr,
}
use soarcore.Json.{Json}
use soarcore.Errors.{Result, ok}
use soarcore.Auth.{Principal}
use soarcore.Audit.{success, record_audit}
use soarcore.Events.Envelope.{Envelope, incident_updated, incident_status_changed, incident_closed}
use soarcore.World.{Env, Uuid, World, AuditRow, IncidentRow, Db, >>=-eq-ok, along_ok}
use soarcore.Persistence.Incidents
use soarcore.Persistence.Incidents.{
  IncidentUpdate, find_row, apply_update, update_rows, update_refuses, set_incident, set_columns,
}
use soarcore.Persistence.Audit.{push_audit}
use soarcore.Persistence.Outbox.{push_outbox}
use soarcore.Incident.{Incident}
use soarcore.Incident.Rows.{from_row}
use soarcore.Incident.Input.{Plan}
use soarcore.Incident.Service.{
  incident_target, outbox_row, enqueue_event, updated_payload, status_payload, closed_payload,
  closed_event, status_events, audit_action, patch_rows,
}
use soarcore.Incident.Service.Steps.{IsAudit, IsEvent, record_audit-eq-ok, enqueue_event-eq-ok}

module _ (env : Env) where
  -- The type and the payload of each event of a change, in order.
  abbrev pub closed_specs : Plan → Incident → List (String × Json)
  closed_specs d inc =
      if str_eq d.to_status "closed"
      then (incident_closed, closed_payload env d.to_status inc) ∷ []
      else []

  abbrev pub status_specs : Plan → Incident → List (String × Json)
  status_specs d inc =
      if d.status_changed
      then (incident_status_changed, status_payload env d.from_status d.to_status inc)
        ∷ closed_specs d inc
      else []

  abbrev pub event_specs : Plan → Incident → List (String × Json)
  event_specs d inc =
      (incident_updated, updated_payload env d.changed_fields inc) ∷ status_specs d inc

  module _ (tenant : Uuid) (p : Principal) (corr : Uuid) where
    -- One envelope for each specification, about the incident `id`.
    abbrev pub AreEvents : Uuid → List (String × Json) → List Envelope → Type 0
    AreEvents id [] [] = Unit
    AreEvents id ((type, payload) ∷ specs) (e ∷ es) =
        IsEvent env tenant p corr type id payload e × AreEvents id specs es
    AreEvents id _ _ = ⊥

    -- The outbox rows of the envelopes, in order.
    abbrev pub push_events : List Envelope → Db → Db
    push_events [] db = db
    push_events (e ∷ es) db =
        push_events es (push_outbox (outbox_row env tenant e e.occurred_at) db)

    pub incidents-push_events :
        (es : List Envelope) (db : Db) → (push_events es db).incidents ≡ db.incidents
    incidents-push_events [] db = refl
    incidents-push_events (e ∷ es) db = incidents-push_events es _

    abbrev Emits : Uuid → List (String × Json) → Db → Db → Type 0
    Emits id specs before after =
        (es : List Envelope) × AreEvents id specs es × (after ≡ push_events es before)

    closed_event-Emits :
        (d : Plan) (inc : Incident) (w : World) {u : Unit {0}} {w' : World}
        → closed_event env tenant p d inc corr w ≡ (ok u, w')
        → Emits inc.id (closed_specs d inc) w.db w'.db
    unfolding closed_event
    closed_event-Emits d inc w {w' = x} h = elim (Bool-cases (str_eq d.to_status "closed")) [
      | inl c ↦
          let (e, is_event, pushed) =
            enqueue_event-eq-ok env tenant p corr _ inc _ w (rw (c, closed_event) at h) in
          rw c (e ∷ [], (is_event, tt), pushed)
      | inr n ↦
          let same : ◌≡◌ {A = Result (Unit {0}) × World} (ok tt, w) (ok tt, x) =
            rw (n, closed_event) at h in
          rw n ([], tt, ground arith)
    ]

    status_events-Emits :
        (d : Plan) (inc : Incident) (w : World) {u : Unit {0}} {w' : World}
        → status_events env tenant p d inc corr w ≡ (ok u, w')
        → Emits inc.id (status_specs d inc) w.db w'.db
    unfolding status_events
    status_events-Emits d inc w {w' = x} h = elim (Bool-cases d.status_changed) [
      | inl c ↦
          let (_, v, one, two) =
            >>=-eq-ok
              (enqueue_event env incident_status_changed tenant p inc corr
                (status_payload env d.from_status d.to_status inc))
              (λ _. closed_event env tenant p d inc corr) w (rw (c, status_events) at h) in
          let (e, is_event, pushed) = enqueue_event-eq-ok env tenant p corr _ inc _ w one in
          let (es, are_events, rest) = closed_event-Emits d inc v two in
          rw c (e ∷ es, (is_event, are_events), rest ∙ ap (push_events es) pushed)
      | inr n ↦
          let same : ◌≡◌ {A = Result (Unit {0}) × World} (ok tt, w) (ok tt, x) =
            rw (n, status_events) at h in
          rw n ([], tt, ground arith)
    ]

    -- What the writes of a patch leave behind.
    pub record Written (id : Uuid) (d : Plan) (inc : Incident) (before after : Db) : Type 0 where
      pub row : IncidentRow
      pub audit : AuditRow
      pub events : List Envelope
      pub row_is :
          find_row tenant id (update_rows tenant id (set_columns env d.upd) before.incidents)
          ≡ some row
      pub incident_is : inc ≡ from_row row
      pub fits : update_refuses d.upd before ≡ none
      pub audit_is :
          IsAudit env tenant p corr
            (audit_action d.status_changed)
            (incident_target id)
            success
            audit
      pub events_are : AreEvents inc.id (event_specs d inc) events
      pub rows :
          after
          ≡ push_events events
              (push_audit audit (set_incident tenant id (set_columns env d.upd) before))

    pub patch_rows-Written :
        (id : Uuid) (d : Plan) (w : World) {inc : Incident} {w' : World}
        → patch_rows env tenant p id d corr w ≡ (ok inc, w')
        → Written id d inc w.db w'.db
    unfolding patch_rows
    patch_rows-Written id d w h =
        let (_, v₁, one, rest₁) = >>=-eq-ok (Incidents.update env tenant id d.upd) _ w h in
        let (row, v₂, two, rest₂) = >>=-eq-ok (Incidents.get_by_id env tenant id) _ v₁ rest₁ in
        let (_, v₃, three, rest₃) =
          >>=-eq-ok
            (record_audit env tenant p (audit_action d.status_changed) (incident_target id) success
              corr none)
            _ v₂ rest₂ in
        let (_, v₄, four, rest₄) =
          >>=-eq-ok
            (enqueue_event env incident_updated tenant p (from_row row) corr
              (updated_payload env d.changed_fields (from_row row)))
            _ v₃ rest₃ in
        let (_, v₅, five, rest₅) =
          >>=-eq-ok (status_events env tenant p d (from_row row) corr) _ v₄ rest₄ in
        let (fits, set) = Incidents.update-eq-ok env tenant id d.upd w one in
        let (found, same) = Incidents.get_by_id-eq-ok env tenant id v₁ two in
        let (a, audit_is, audited) = record_audit-eq-ok env tenant p corr _ _ _ v₂ three in
        let (e, event_is, pushed) =
          enqueue_event-eq-ok env tenant p corr _ (from_row row) _ v₃ four in
        let (es, are_events, more) = status_events-Emits d (from_row row) v₄ five in
        along_ok (λ x y. Written id d x w.db y.db) rest₅
          (record {
            row = row;
            audit = a;
            events = e ∷ es;
            row_is = subst (λ (db : Db). find_row tenant id db.incidents ≡ some row) set found;
            incident_is = refl;
            fits = fits;
            audit_is = audit_is;
            events_are = (event_is, are_events);
            rows =
                more
                ∙ ap (push_events es)
                    (pushed ∙ ap (push_outbox _) (audited ∙ ap (push_audit a) (same ∙ set)));
          })
