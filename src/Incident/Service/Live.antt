-- ===== src/Incident/Service/Live.antt =====
-- A create that nothing stands in the way of succeeds.
pub mod Planning
pub mod Writes
pub mod Patching
use soarcore.Common.{
  ℕ, ◌≤◌, ◌+◌, String, ◌≡◌, inl, inr, refl, ap, ◌∙◌, true, false, Option, none, some, arith, ◌==◌,
  Bool-cases, any,
}
use soarcore.Json.{Json, obj, field, end}
use soarcore.Errors.{ok}
use soarcore.Auth.{Principal}
use soarcore.Audit.{Target, success, record_audit}
use soarcore.World.{Env, Uuid, World, Db, Exec, exec, tick}
use soarcore.Persistence.Pool.{with_tx}
use soarcore.Persistence.Incidents
use soarcore.Persistence.Incidents.{insert_refuses, same_external, push_incident, in_columns}
use soarcore.Persistence.Audit
use soarcore.Persistence.Outbox.{NewOutboxRow, enqueue, enqueue_refuses, push_outbox}
use soarcore.Events.Envelope.{new_envelope, incident_created, Envelope}
use soarcore.Incident.{Incident, is_valid_severity}
use soarcore.Incident.Rows.{marshal_attributes, actor_of, incident_json, to_row}
use soarcore.Incident.Input.{validate_create_input, attributes_error, CreateInput}
use soarcore.Incident.Service.{
  Service, create, create_checked, create_from, entity_of, new_incident, create_rows, outbox_row,
  incident_target,
}

severity_valid :
    (i : CreateInput) → validate_create_input i ≡ none → is_valid_severity i.severity ≡ true
unfolding validate_create_input
severity_valid i h = ground arith

module _ (env : Env) (works : (n : ℕ) → env.fails n ≡ false) where
  pub exec_done :
      (what : String) (refuses : Db → Option String) (effect : Db → Db) (w : World)
      → refuses w.db ≡ none
      → exec env what refuses effect w ≡ (ok tt, record (tick w) { db = effect w.db })
  unfolding exec
  exec_done what refuses effect w h = rw (works w.reads, h) refl

  pub with_tx_done {ℓ} :
      {A : Type ℓ} (fn : Exec A) (w v : World) (a : A)
      → fn (tick w) ≡ (ok a, v)
      → with_tx env fn w ≡ (ok a, tick v)
  unfolding with_tx
  with_tx_done fn w v a h = rw (works w.reads, h, with_tx) (rw (works v.reads) refl)

  -- The UUIDs that are drawn at the reading `from` and later are in no table, and the external id of
  -- the input is free.
  pub record Room (tenant : Uuid) (i : CreateInput) (from : ℕ) (db : Db) : Type 0 where
    pub incident_ids : (n : ℕ) → from ≤ n → any (λ r. r.id == env.uuid n) db.incidents ≡ false
    pub audit_ids : (n : ℕ) → from ≤ n → any (λ r. r.id == env.uuid n) db.audits ≡ false
    pub event_ids : (n : ℕ) → from ≤ n → any (λ r. r.event_id == env.uuid n) db.outbox ≡ false
    pub external :
        any (same_external (to_row (new_incident tenant 0 0 i) none)) db.incidents ≡ false

  insert_fits :
      (tenant : Uuid) (i : CreateInput) (n : ℕ) (now : ℕ) (bytes : Option Json) (from : ℕ) (db : Db)
      → Room tenant i from db
      → from ≤ n
      → is_valid_severity i.severity ≡ true
      → insert_refuses (to_row (new_incident tenant (env.uuid n) now i) bytes) db ≡ none
  unfolding insert_refuses to_row
  insert_fits tenant i n now bytes from db room later valid =
      rw (valid, room.incident_ids n later, room.external) refl

  insert_done :
      (tenant : Uuid) (i : CreateInput) (n : ℕ) (now : ℕ) (bytes : Option Json) (from : ℕ)
      (w : World)
      → Room tenant i from w.db
      → from ≤ n
      → is_valid_severity i.severity ≡ true
      → Incidents.insert env (to_row (new_incident tenant (env.uuid n) now i) bytes) w ≡ (
        ok tt,
        record (tick w) {
          db =
              push_incident
                (in_columns env (to_row (new_incident tenant (env.uuid n) now i) bytes))
                w.db;
        },
      )
  unfolding Incidents.insert
  insert_done tenant i n now bytes from w room later valid =
      exec_done "insert incident" _ _ w
        (insert_fits tenant i n now bytes from w.db room later valid)

  pub audit_done :
      (tenant : Uuid) (p : Principal) (action : String) (target : Option Target) (corr : Uuid)
      (w : World)
      → any (λ r. r.id == env.uuid w.reads) w.db.audits ≡ false
      → (v : World) × (record_audit env tenant p action target success corr none w ≡ (ok tt, v))
        × (v.db.outbox ≡ w.db.outbox)
        × (v.reads ≡ w.reads + 1 + 1 + 1)
  unfolding record_audit Audit.insert exec
  audit_done tenant p action target corr w free = (
    (record_audit env tenant p action target success corr none w).1,
    rw (works (w.reads + 1 + 1), free) refl,
    rw (works (w.reads + 1 + 1), free) refl,
    rw (works (w.reads + 1 + 1), free) refl,
  )

  pub enqueue_done :
      (row : NewOutboxRow) (w : World)
      → any (λ r. r.event_id == row.event_id) w.db.outbox ≡ false
      → enqueue env row w ≡ (ok tt, record (tick w) { db = push_outbox row w.db })
  unfolding enqueue enqueue_refuses
  enqueue_done row w free = exec_done "enqueue outbox" _ _ w (rw free refl)

  create_rows_done :
      (tenant : Uuid) (p : Principal) (i : CreateInput) (n : ℕ) (now : ℕ) (bytes : Json)
      (e : Envelope) (corr : Uuid) (from : ℕ) (w : World)
      → Room tenant i from w.db
      → from ≤ n
      → from ≤ w.reads
      → is_valid_severity i.severity ≡ true
      → any (λ r. r.event_id == e.event_id) w.db.outbox ≡ false
      → (v : World) × (create_rows env tenant p
            (new_incident tenant (env.uuid n) now i)
            bytes
            e
            now
            corr
            w
          ≡ (ok tt, v))
  unfolding create_rows
  create_rows_done tenant p i n now bytes e corr from w room later begun valid free =
      let inc = new_incident tenant (env.uuid n) now i in
      let w₁ : World = record (tick w) {
        db = push_incident (in_columns env (to_row inc (some bytes))) w.db;
      } in
      let (v, audited, same, _) =
        audit_done tenant p "incident.create" (incident_target inc.id) corr w₁
          (room.audit_ids w₁.reads (omega (arith, begun))) in
      let queued =
        enqueue_done (outbox_row env tenant e now) v
          (ap (any (λ r. r.event_id == e.event_id)) same ∙ free) in
      (
        record (tick v) { db = push_outbox (outbox_row env tenant e now) v.db },
        rw (insert_done tenant i n now (some bytes) from w room later valid) (rw audited queued),
      )

  create_from_done :
      (p : Principal) (tenant : Uuid) (i : CreateInput) (bytes : Json) (corr : Uuid) (from : ℕ)
      (w : World)
      → Room tenant i from w.db
      → from ≤ w.reads
      → is_valid_severity i.severity ≡ true
      → (inc : Incident) × (v : World) × (create_from env p tenant i bytes corr w ≡ (ok inc, v))
  unfolding create_from new_envelope
  create_from_done p tenant i bytes corr from w room begun valid =
      let now = env.now w.reads in
      let n = w.reads + 1 in
      let w₄ = tick (tick (tick (tick w))) in
      let envelope : Envelope = record {
        event_id = env.uuid (w.reads + 1 + 1);
        event_type = incident_created;
        event_schema_version = 1;
        occurred_at = env.now (w.reads + 1 + 1 + 1);
        tenant_id = tenant;
        actor = actor_of p;
        entity = entity_of (env.uuid n);
        payload =
            obj (field "incident" (incident_json env (new_incident tenant (env.uuid n) now i)) end);
        correlation_id = corr;
        prior_event_id = none;
      } in
      let (v, wrote) =
        create_rows_done tenant p i n now bytes envelope corr from (tick w₄) room
          (omega (arith, begun)) (omega (arith, begun)) valid
          (room.event_ids (w.reads + 1 + 1) (omega (arith, begun))) in
      let done =
        with_tx_done
          (create_rows env tenant p (new_incident tenant (env.uuid n) now i) bytes envelope now
            corr)
          w₄ v tt wrote in
      (new_incident tenant (env.uuid n) now i, tick v, rw done refl)

  -- When no database call fails, the caller is allowed, the input and its attributes are valid, the
  -- UUIDs that will be drawn are in no table and the external id is free, Create returns an incident.
  pub create_succeeds :
      (s : Service) (p : Principal) (tenant : Uuid) (i : CreateInput) (corr : Uuid) (w : World)
      → s.allow p "incident.create" "incident" ≡ none
      → validate_create_input i ≡ none
      → attributes_error s.registry (marshal_attributes i.attributes) ≡ none
      → Room tenant i w.reads w.db
      → (inc : Incident) × (v : World) × (create env s p tenant i corr w ≡ (ok inc, v))
  unfolding create create_checked
  create_succeeds s p tenant i corr w allowed valid fits room =
      let known : is_valid_severity i.severity ≡ true = severity_valid i valid in
      elim (Bool-cases (corr == 0)) [
        | inl y ↦
            let (inc, v, done) =
              create_from_done p tenant i (marshal_attributes i.attributes) (env.uuid w.reads)
                w.reads (tick w) room (omega arith) known in
            (inc, v, rw (allowed, valid, fits, create) (rw (y, create_checked) done))
        | inr n ↦
            let (inc, v, done) =
              create_from_done p tenant i (marshal_attributes i.attributes) corr w.reads w room
                (omega arith) known in
            (inc, v, rw (allowed, valid, fits, create) (rw (n, create_checked) done))
      ]
