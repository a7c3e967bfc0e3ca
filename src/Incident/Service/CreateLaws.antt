-- ===== src/Incident/Service/CreateLaws.antt =====
-- Create: all three rows or none.
use mathlib.Core.Path.{subst}
use soarcore.Common.{
  ◌≡◌, ◌⊎◌, inl, inr, refl, sym, ap, ◌∙◌, false, none, some, arith, ◌==◌, Bool-cases, Option-cases,
}
use soarcore.Json.{Json, obj, field, end}
use soarcore.Errors.{Error, Result, err, ok}
use soarcore.Auth.{Principal}
use soarcore.Audit.{success, record_audit}
use soarcore.Events.Envelope.{Envelope, incident_created, new_envelope}
use soarcore.World.{>>=-eq-err, along_ok, Env, Uuid, Time, World, AuditRow, Db, tick, >>=-eq-ok}
use soarcore.Persistence.Pool.{with_tx-eq-err, with_tx, with_tx-eq-ok}
use soarcore.Persistence.Incidents
use soarcore.Persistence.Incidents.{push_incident, insert_refuses, in_columns}
use soarcore.Persistence.Audit.{push_audit}
use soarcore.Persistence.Outbox.{push_outbox, enqueue-eq-ok}
use soarcore.Incident.{Incident}
use soarcore.Incident.Rows.{to_row, marshal_attributes, incident_json}
use soarcore.Incident.Input.{CreateInput, validate_create_input, attributes_error}
use soarcore.Incident.Service.{
  Service, incident_target, outbox_row, new_incident, create_rows, create_from, create_checked,
  create, deny,
}
use soarcore.Incident.Service.{create_authorized}
use soarcore.Incident.Service.Steps.{
  IsRefusal, deny-IsRefusal, IsAudit, IsEvent, record_audit-eq-ok,
}

module _ (env : Env) where
  create_rows-eq-ok :
      (tenant : Uuid) (p : Principal) (inc : Incident) (bytes : Json) (e : Envelope) (now : Time)
      (corr : Uuid) (w : World) {u : Unit {0}} {w' : World}
      → create_rows env tenant p inc bytes e now corr w ≡ (ok u, w')
      → (a : AuditRow) × IsAudit env tenant p corr "incident.create"
          (incident_target inc.id)
          success
          a
        × (insert_refuses (to_row inc (some bytes)) w.db ≡ none)
        × (w'.db
            ≡ push_outbox
                (outbox_row env tenant e now)
                (push_audit a (push_incident (in_columns env (to_row inc (some bytes))) w.db)))
  unfolding create_rows
  create_rows-eq-ok tenant p inc bytes e now corr w h =
      let (_, v, inserted, rest) =
        >>=-eq-ok (Incidents.insert env (to_row inc (some bytes))) _ w h in
      let (_, v', audited, enqueued) =
        >>=-eq-ok
          (record_audit env tenant p "incident.create" (incident_target inc.id) success corr none) _
          v rest in
      let (fits, one) = Incidents.insert-eq-ok env (to_row inc (some bytes)) w inserted in
      let (a, is_audit, two) = record_audit-eq-ok env tenant p corr _ _ _ v audited in
      let (_, three) = enqueue-eq-ok env (outbox_row env tenant e now) v' enqueued in
      (
        a,
        is_audit,
        fits,
        three ∙ ap (push_outbox (outbox_row env tenant e now)) (two ∙ ap (push_audit a) one),
      )

  -- What Create leaves behind when it returns an incident.
  pub record Created (given tenant : Uuid) (p : Principal) (i : CreateInput) (inc : Incident)
      (before after : Db) : Type 0 where
    pub corr : Uuid
    pub corr_is : (given == 0) ≡ false → corr ≡ given
    pub audit : AuditRow
    pub event : Envelope
    pub incident_is : inc ≡ new_incident tenant inc.id inc.created_at i
    pub audit_is :
        IsAudit env tenant p corr "incident.create" (incident_target inc.id) success audit
    pub event_is :
        IsEvent env tenant p corr incident_created inc.id
          (obj (field "incident" (incident_json env inc) end))
          event
    pub fits : insert_refuses (to_row inc (some (marshal_attributes i.attributes))) before ≡ none
    pub rows :
        after
        ≡ push_outbox (outbox_row env tenant event inc.created_at) (
            push_audit audit (
              push_incident
                (in_columns env (to_row inc (some (marshal_attributes i.attributes))))
                before))

  -- What the body of the transaction leaves.
  create_rows-Created :
      (p : Principal) (given tenant : Uuid) (i : CreateInput) (corr : Uuid) (inc : Incident)
      (e : Envelope) (w : World) {u : Unit {0}} {w' : World}
      → ((given == 0) ≡ false → corr ≡ given)
      → inc ≡ new_incident tenant inc.id inc.created_at i
      → IsEvent env tenant p corr incident_created inc.id
          (obj (field "incident" (incident_json env inc) end))
          e
      → create_rows env tenant p inc (marshal_attributes i.attributes) e inc.created_at corr w
        ≡ (ok u, w')
      → Created given tenant p i inc w.db w'.db
  create_rows-Created p given tenant i corr inc e w g is_new is_event h =
      let (a, is_audit, fits, written) =
        create_rows-eq-ok tenant p inc (marshal_attributes i.attributes) e inc.created_at corr w
          h in
      record {
        corr = corr;
        corr_is = g;
        audit = a;
        event = e;
        incident_is = is_new;
        audit_is = is_audit;
        event_is = is_event;
        fits = fits;
        rows = written;
      }

  -- Create from the moment when the correlation id is known.
  create_known :
      (p : Principal) (given tenant : Uuid) (i : CreateInput) (corr : Uuid) (w : World)
      {inc : Incident} {w' : World}
      → ((given == 0) ≡ false → corr ≡ given)
      → create_from env p tenant i (marshal_attributes i.attributes) corr w ≡ (ok inc, w')
      → Created given tenant p i inc w.db w'.db
  unfolding create_from new_envelope
  create_known p given tenant i corr w {inc} {w'} g h =
      let (_, v, wrote, rest) =
        >>=-eq-ok
          (with_tx env (create_rows env tenant p _ (marshal_attributes i.attributes) _ _ corr)) _
          (tick (tick (tick (tick w)))) h in
      let (u, done, same) =
        with_tx-eq-ok env (create_rows env tenant p _ (marshal_attributes i.attributes) _ _ corr) _
          wrote in
      along_ok (λ x y. Created given tenant p i x w.db y.db) rest
        (subst (Created given tenant p i _ w.db) (sym same) (
          create_rows-Created p given tenant i corr _ _ _ g refl
            (record {
              of_type = refl;
              of_tenant = refl;
              of_actor = refl;
              of_entity = refl;
              of_payload = refl;
              of_correlation = refl;
            })
            done))

  create_checked-Created :
      (p : Principal) (tenant : Uuid) (i : CreateInput) (corr : Uuid) (w : World) {inc : Incident}
      {w' : World}
      → create_checked env p tenant i (marshal_attributes i.attributes) corr w ≡ (ok inc, w')
      → Created corr tenant p i inc w.db w'.db
  unfolding create_checked
  create_checked-Created p tenant i corr w h = elim (Bool-cases (corr == 0)) [
    | inl e ↦
        create_known p corr tenant i (env.uuid w.reads) (tick w) (λ n. absurd (ground arith))
          (rw (e, create_checked) at h)
    | inr e ↦ create_known p corr tenant i corr w (λ n. refl) (rw (e, create_checked) at h)
  ]

  -- When Create returns an incident, the authorizer allowed the action, the input and its
  -- attributes were valid, and the database differs from before by exactly three rows written
  -- together: the incident in status `new`, its success audit row, and the outbox row with the
  -- incident.created envelope whose payload is the incident's snapshot. They carry the given
  -- correlation id where it is not nil.
  pub create-Created :
      (s : Service) (p : Principal) (tenant : Uuid) (i : CreateInput) (corr : Uuid) (w : World)
      {inc : Incident} {w' : World}
      → create env s p tenant i corr w ≡ (ok inc, w')
      → (s.allow p "incident.create" "incident" ≡ none)
        × (validate_create_input i ≡ none)
        × (attributes_error s.registry (marshal_attributes i.attributes) ≡ none)
        × Created corr tenant p i inc w.db w'.db
  unfolding create deny
  create-Created s p tenant i corr w h =
      elim (Option-cases (s.allow p "incident.create" "incident")) [
        | inr (e, refused) ↦ absurd (ground arith)
        | inl allowed ↦ elim (Option-cases (validate_create_input i)) [
          | inr (e, bad) ↦ absurd (ground arith)
          | inl valid ↦
              elim (Option-cases (attributes_error s.registry (marshal_attributes i.attributes))) [
                | inr (e, bad) ↦ absurd (ground arith)
                | inl fits ↦ (
                  allowed,
                  valid,
                  fits,
                  create_checked-Created p tenant i corr w (rw (allowed, valid, fits, create) at h),
                )
              ]
        ]
      ]

  -- A create that fails has changed nothing, or all that a create changes.
  abbrev IsUnknown : Uuid → Uuid → Principal → CreateInput → Db → Db → Type 0
  IsUnknown given tenant p i before after =
      (after ≡ before) ⊎ ((inc : Incident) × Created given tenant p i inc before after)

  create_from-err :
      (p : Principal) (given tenant : Uuid) (i : CreateInput) (corr : Uuid) (w : World) {e : Error}
      {w' : World}
      → ((given == 0) ≡ false → corr ≡ given)
      → create_from env p tenant i (marshal_attributes i.attributes) corr w ≡ (err e, w')
      → IsUnknown given tenant p i w.db w'.db
  unfolding create_from new_envelope
  create_from-err p given tenant i corr w g h =
      elim (>>=-eq-err
        (with_tx env (create_rows env tenant p _ (marshal_attributes i.attributes) _ _ corr)) _
        (tick (tick (tick (tick w)))) h) [
          | inl failed ↦
              elim (with_tx-eq-err env
                (create_rows env tenant p _ (marshal_attributes i.attributes) _ _ corr) _ failed) [
                  | inl same ↦ inl same
                  | inr (u, v, done, same) ↦ inr (
                    _,
                    subst (Created given tenant p i _ w.db) (sym same) (
                        create_rows-Created p given tenant i corr _ _ _ g refl
                          (record {
                            of_type = refl;
                            of_tenant = refl;
                            of_actor = refl;
                            of_entity = refl;
                            of_payload = refl;
                            of_correlation = refl;
                          })
                          done),
                  )
                ]
          | inr (a, v, wrote, rest) ↦ absurd (cc rest)
        ]

  create_checked-err :
      (p : Principal) (tenant : Uuid) (i : CreateInput) (corr : Uuid) (w : World) {e : Error}
      {w' : World}
      → create_checked env p tenant i (marshal_attributes i.attributes) corr w ≡ (err e, w')
      → IsUnknown corr tenant p i w.db w'.db
  unfolding create_checked
  create_checked-err p tenant i corr w h = elim (Bool-cases (corr == 0)) [
    | inl e ↦
        create_from-err p corr tenant i (env.uuid w.reads) (tick w) (λ n. absurd (ground arith))
          (rw (e, create_checked) at h)
    | inr e ↦ create_from-err p corr tenant i corr w (λ n. refl) (rw (e, create_checked) at h)
  ]

  create_allowed-err :
      (s : Service) (p : Principal) (tenant : Uuid) (i : CreateInput) (corr : Uuid) (w : World)
      {e : Error} {w' : World}
      → create_authorized env s p tenant i corr w ≡ (err e, w')
      → IsUnknown corr tenant p i w.db w'.db
  create_allowed-err s p tenant i corr w {w' = x} h =
      elim (Option-cases (validate_create_input i)) [
        | inr (e, bad) ↦ inl (ap (λ (r : Result Incident × World). r.1.db) (sym (rw bad at h)))
        | inl valid ↦
            elim (Option-cases (attributes_error s.registry (marshal_attributes i.attributes))) [
              | inr (e, bad) ↦
                  inl (ap (λ (r : Result Incident × World). r.1.db) (sym (rw (valid, bad) at h)))
              | inl fits ↦ create_checked-err p tenant i corr w (rw (valid, fits) at h)
            ]
      ]

  pub create_failed :
      (s : Service) (p : Principal) (tenant : Uuid) (i : CreateInput) (corr : Uuid) (w : World)
      {e : Error} {w' : World}
      → create env s p tenant i corr w ≡ (err e, w')
      → ((s.allow p "incident.create" "incident" ≡ none)
          × ((w'.db ≡ w.db) ⊎ ((inc : Incident) × Created corr tenant p i inc w.db w'.db)))
        ⊎ ((s.allow p "incident.create" "incident" ≡ some e)
            × IsRefusal env tenant p corr "incident.create" none w.db w'.db)
  unfolding create
  create_failed s p tenant i corr w h =
      elim (Option-cases (s.allow p "incident.create" "incident")) [
        | inl allowed ↦
            inl (allowed, create_allowed-err s p tenant i corr w (rw (allowed, create) at h))
        | inr (e', refused) ↦
            let (same, left) =
              deny-IsRefusal env tenant p corr "incident.create" none e' w
                (rw (refused, create) at h) in
            inr (refused ∙ ap some same, left)
      ]
