-- ===== src/Incident/Service.antt =====
-- internal/domain/incident/service.go: Create, Patch, Get and List.
pub mod Steps
pub mod CreateLaws
pub mod PatchLaws
pub mod Asked
pub mod Patched
pub mod Isolation
pub mod Listing
pub mod Live
pub mod Race
use soarcore.Common.{
  String, Bool, Option, none, some, List, [], ◌∷◌, map, ◌==◌, str_eq, if◌then◌else◌,
}
use soarcore.Common.Int.{ℤ}
use soarcore.Json.{Json, null, str, arr, obj, end, field, strings}
use soarcore.Errors.{Error, err}
use soarcore.Auth.{Principal, Authorizer}
use soarcore.Audit.{success, denied, Target, record_audit}
use soarcore.Events.Envelope.{
  Envelope, Entity, incident_created, incident_updated, incident_status_changed, incident_closed,
  new_envelope, encode,
}
use soarcore.Schema.{Registry}
use soarcore.World.{Env, Uuid, Time, Exec, ◌>>=◌, ◌>>◌, pure, check, new_uuid, time_now}
use soarcore.Persistence.Pool.{with_tx}
use soarcore.Persistence.Incidents
use soarcore.Persistence.Outbox.{NewOutboxRow, enqueue}
use soarcore.Incident.{Incident, schema_version}
use soarcore.Incident.Rows.{actor_of, to_row, from_row, marshal_attributes, incident_json}
use soarcore.Incident.Input.{
  CreateInput, PatchInput, Plan, validate_create_input, attributes_error, plan,
}

-- The parts of `Service` that are not stateless.
pub record Service : Type 0 where
  pub registry : Registry
  pub allow : Authorizer

abbrev pub incident_target : Uuid → Option Target
incident_target id = some (record { type = "incident"; id = id })

abbrev pub entity_of : Uuid → Entity
entity_of id = record { type = "incident"; id = id; schema_version = schema_version }

-- The struct literal of Create: every incident starts in `new`.
abbrev pub new_incident : Uuid → Uuid → Time → CreateInput → Incident
new_incident tenant id now i = record {
  id = id;
  tenant_id = tenant;
  schema_version = schema_version;
  external_id = i.external_id;
  title = i.title;
  description = i.description;
  severity = i.severity;
  status = "new";
  assignee_id = i.assignee_id;
  source_connector_id = i.source_connector_id;
  attributes = i.attributes;
  tags = i.tags;
  created_at = now;
  updated_at = now;
  closed_at = none;
}

-- The audit action: a change of status has its own.
abbrev pub audit_action : Bool → String
audit_action changed = if changed then "incident.status_change" else "incident.update"

module _ (env : Env) where
  -- `if correlationID == uuid.Nil { correlationID = uuid.New() }`
  abbrev pub ensure_correlation : Uuid → Exec Uuid
  ensure_correlation corr = if corr == 0 then new_uuid env else pure corr

  -- A refusal is recorded in a transaction of its own, whose failure is ignored.
  unfoldable pub deny {ℓ} :
      {A : Type ℓ} → Uuid → Principal → String → Option Target → Uuid → Error → Exec A
  deny tenant p action target corr e w =
      (err e, (with_tx env (record_audit env tenant p action target denied corr none) w).1)

  -- The outbox row of an envelope.
  abbrev pub outbox_row : Uuid → Envelope → Time → NewOutboxRow
  outbox_row tenant e at = record {
    event_id = e.event_id;
    event_type = e.event_type;
    tenant_id = tenant;
    payload = encode env e;
    created_at = at;
  }

  -- The body of Create's transaction: the row, the audit row, the outbox row.
  unfoldable pub create_rows :
      Uuid → Principal → Incident → Json → Envelope → Time → Uuid → Exec (Unit {0})
  create_rows tenant p inc bytes envelope now corr = do
    Incidents.insert env (to_row inc (some bytes))
    record_audit env tenant p "incident.create" (incident_target inc.id) success corr none
    enqueue env (outbox_row tenant envelope now)

  -- Create after its checks, once the correlation id is known.
  unfoldable pub create_from : Principal → Uuid → CreateInput → Json → Uuid → Exec Incident
  create_from p tenant i bytes corr = do
    now ← time_now env
    id ← new_uuid env
    let inc = new_incident tenant id now i
    envelope ←
        new_envelope env incident_created tenant (actor_of p) (entity_of id)
          (obj (field "incident" (incident_json env inc) end)) corr
    with_tx env (create_rows tenant p inc bytes envelope now corr)
    pure inc

  unfoldable pub create_checked : Principal → Uuid → CreateInput → Json → Uuid → Exec Incident
  create_checked p tenant i bytes corr₀ = do
    corr ← ensure_correlation corr₀
    create_from p tenant i bytes corr

  abbrev pub create_authorized : Service → Principal → Uuid → CreateInput → Uuid → Exec Incident
  create_authorized s p tenant i corr =
      let bytes = marshal_attributes i.attributes in
      check (validate_create_input i)
        (check (attributes_error s.registry bytes) (create_checked p tenant i bytes corr))

  abbrev guarded {ℓ} :
      {A : Type ℓ}
      → Uuid
      → Principal
      → String
      → Option Target
      → Uuid
      → Option Error
      → Exec A
      → Exec A
  guarded tenant p action target corr none m = m
  guarded tenant p action target corr (some e) m = deny tenant p action target corr e

  unfoldable pub create : Service → Principal → Uuid → CreateInput → Uuid → Exec Incident
  create s p tenant i corr =
      guarded tenant p "incident.create" none corr (s.allow p "incident.create" "incident")
        (create_authorized s p tenant i corr)

  unfoldable pub enqueue_event :
      String → Uuid → Principal → Incident → Uuid → Json → Exec (Unit {0})
  enqueue_event event_type tenant p inc corr payload = do
    e ← new_envelope env event_type tenant (actor_of p) (entity_of inc.id) payload corr
    enqueue env (outbox_row tenant e e.occurred_at)

  abbrev pub updated_payload : List String → Incident → Json
  updated_payload changed inc = obj (
      field "changed_fields" (arr (strings changed)) (field "incident" (incident_json env inc) end))

  abbrev pub status_payload : String → String → Incident → Json
  status_payload from to inc = obj (
      field "from" (str from)
        (field "to" (str to) (field "incident_id" (str (env.uuid_string inc.id)) end)))

  abbrev pub time_json : Option Time → Json
  time_json none = null
  time_json (some t) = str (env.time_string t)

  abbrev pub closed_payload : String → Incident → Json
  closed_payload to inc = obj (
      field "incident_id" (str (env.uuid_string inc.id))
        (field "closed_at" (time_json inc.closed_at) (field "final_status" (str to) end)))

  unfoldable pub closed_event : Uuid → Principal → Plan → Incident → Uuid → Exec (Unit {0})
  closed_event tenant p d inc corr =
      if str_eq d.to_status "closed"
      then enqueue_event incident_closed tenant p inc corr (closed_payload d.to_status inc)
      else pure tt

  unfoldable pub status_events : Uuid → Principal → Plan → Incident → Uuid → Exec (Unit {0})
  unfolding closed_event
  status_events tenant p d inc corr =
      if d.status_changed
      then (do
        enqueue_event incident_status_changed tenant p inc corr
            (status_payload d.from_status d.to_status inc)
        closed_event tenant p d inc corr)
      else pure tt

  -- The writes of Patch, once something has changed.
  unfoldable pub patch_rows : Uuid → Principal → Uuid → Plan → Uuid → Exec Incident
  patch_rows tenant p id d corr = do
    Incidents.update env tenant id d.upd
    after ← Incidents.get_by_id env tenant id
    let updated = from_row after
    record_audit env tenant p (audit_action d.status_changed) (incident_target id) success corr none
    enqueue_event incident_updated tenant p updated corr (updated_payload d.changed_fields updated)
    status_events tenant p d updated corr
    pure updated

  abbrev pub write_plan :
      Uuid → Principal → Uuid → Incident → Plan → List String → Uuid → Exec Incident
  write_plan tenant p id prior d [] corr = pure prior
  write_plan tenant p id prior d (_ ∷ _) corr = patch_rows tenant p id d corr

  -- The body of Patch's transaction.
  unfoldable pub patch_body : Service → Principal → Uuid → Uuid → PatchInput → Uuid → Exec Incident
  patch_body s p tenant id input corr = do
    prior ← Incidents.get_by_id env tenant id
    d ← plan env s.registry (from_row prior) input
    write_plan tenant p id (from_row prior) d d.changed_fields corr

  unfoldable pub patch : Service → Principal → Uuid → Uuid → PatchInput → Uuid → Exec Incident
  patch s p tenant id input corr₀ =
      guarded tenant p "incident.update" (incident_target id) corr₀
        (s.allow p "incident.update" "incident")
        (do corr ← ensure_correlation corr₀; with_tx env (patch_body s p tenant id input corr))

  unfoldable pub get : Uuid → Uuid → Exec Incident
  get tenant id = Incidents.get_by_id env tenant id >>= λ row. pure (from_row row)

  unfoldable pub list : Uuid → List String → Time → Time → ℤ → ℤ → Exec (List Incident)
  list tenant statuses since until limit offset = do
    rows ← Incidents.list env (record {
      tenant_id = tenant;
      statuses = statuses;
      since = since;
      until = until;
      limit = limit;
      offset = offset;
    })
    pure (map from_row rows)
