-- ===== src/Incident/Rows.antt =====
-- internal/domain/incident/service.go: the conversions between the domain, the table and the wire.
pub mod Laws
use soarcore.Common.{ℕ, String, Option, none, some, List}
use soarcore.Json.{Json, null, int, str, arr, obj, Fields, end, field, strings}
use soarcore.Auth.{Principal}
use soarcore.Events.Envelope.{Actor}
use soarcore.World.{Env, IncidentRow}
use soarcore.Incident.{Incident}

abbrev pub actor_of : Principal → Actor
actor_of p = record { type = p.type; id = p.id }

unfoldable pub to_row : Incident → Option Json → IncidentRow
to_row inc attributes = record {
  id = inc.id;
  tenant_id = inc.tenant_id;
  schema_version = inc.schema_version;
  external_id = inc.external_id;
  title = inc.title;
  description = inc.description;
  severity = inc.severity;
  status = inc.status;
  assignee_id = inc.assignee_id;
  source_connector_id = inc.source_connector_id;
  attributes = attributes;
  tags = inc.tags;
  created_at = inc.created_at;
  updated_at = inc.updated_at;
  closed_at = inc.closed_at;
}

-- Best effort: what is no object, and NULL, decode to the nil map.
abbrev pub decode_attributes : Option Json → Option Fields
decode_attributes (some (obj fs)) = some fs
decode_attributes _ = none

unfoldable pub from_row : IncidentRow → Incident
from_row r = record {
  id = r.id;
  tenant_id = r.tenant_id;
  schema_version = r.schema_version;
  external_id = r.external_id;
  title = r.title;
  description = r.description;
  severity = r.severity;
  status = r.status;
  assignee_id = r.assignee_id;
  source_connector_id = r.source_connector_id;
  attributes = decode_attributes r.attributes;
  tags = r.tags;
  created_at = r.created_at;
  updated_at = r.updated_at;
  closed_at = r.closed_at;
}

-- `marshalAttributes`: a nil map becomes {}.
unfoldable pub marshal_attributes : Option Fields → Json
marshal_attributes none = obj end
marshal_attributes (some fs) = obj fs

-- A nil slice is written as null.
abbrev pub tags_json : Option (List String) → Json
tags_json none = null
tags_json (some tags) = arr (strings tags)

-- `if p != nil { out[key] = *p }`
abbrev pub optional {ℓ} : {A : Type ℓ} → String → (A → Json) → Option A → Fields → Fields
optional key write none rest = rest
optional key write (some a) rest = field key (write a) rest

-- `incidentJSON`
unfoldable pub incident_json : Env → Incident → Json
incident_json env inc =
    let uuid = λ (u : ℕ). str (env.uuid_string u) in
    let time = λ (t : ℕ). str (env.time_string t) in
    obj (
      field "id" (uuid inc.id) (
        field "tenant_id" (uuid inc.tenant_id) (
          field "schema_version" (int inc.schema_version) (
            field "title" (str inc.title) (
              field "severity" (str inc.severity) (
                field "status" (str inc.status) (
                  field "tags" (tags_json inc.tags) (
                    field "created_at" (time inc.created_at) (
                      field "updated_at" (time inc.updated_at) (
                        optional "external_id" str inc.external_id (
                          optional "description" str inc.description (
                            optional "assignee_id" uuid inc.assignee_id (
                              optional "source_connector_id" str inc.source_connector_id (
                                optional "attributes" obj inc.attributes
                                  (optional "closed_at" time inc.closed_at end)))))))))))))))
