-- ===== src/Events/Envelope.antt =====
-- internal/events/envelope.go, and the JSON form that its struct tags give an envelope.
pub mod RoundTrip
use soarcore.Common.{ℕ, String, Option, none, some}
use soarcore.Json.{Json, int, str, obj, Fields, end, field, get}
use soarcore.Json.Decode.{◌>>=?◌, as_string, as_int, as_fields, as_parsed, as_pointer, as_any}
use soarcore.World.{Env, Uuid, Time, Exec, ◌>>=◌, pure, new_uuid, time_now}

abbrev pub schema_version : ℕ
schema_version = 1

abbrev pub incident_created : String
incident_created = "incident.created"

abbrev pub incident_updated : String
incident_updated = "incident.updated"

abbrev pub incident_status_changed : String
incident_status_changed = "incident.status_changed"

abbrev pub incident_closed : String
incident_closed = "incident.closed"

pub record Actor : Type 0 where
  pub type : String
  pub id : String

pub record Entity : Type 0 where
  pub type : String
  pub id : Uuid
  pub schema_version : ℕ

pub record Envelope : Type 0 where
  pub event_id : Uuid
  pub event_type : String
  pub event_schema_version : ℕ
  pub occurred_at : Time
  pub tenant_id : Uuid
  pub actor : Actor
  pub entity : Entity
  pub payload : Json
  pub correlation_id : Uuid
  pub prior_event_id : Option Uuid

module _ (env : Env) where
  unfoldable pub new_envelope : String → Uuid → Actor → Entity → Json → Uuid → Exec Envelope
  new_envelope event_type tenant actor entity payload corr = do
    id ← new_uuid env
    now ← time_now env
    pure (record {
      event_id = id;
      event_type = event_type;
      event_schema_version = schema_version;
      occurred_at = now;
      tenant_id = tenant;
      actor = actor;
      entity = entity;
      payload = payload;
      correlation_id = corr;
      prior_event_id = none;
    })

  abbrev uuid_json : Uuid → Json
  uuid_json u = str (env.uuid_string u)

  -- `omitempty`
  abbrev prior_field : Option Uuid → Fields
  prior_field none = end
  prior_field (some u) = field "prior_event_id" (uuid_json u) end

  abbrev actor_fields : Actor → Fields
  actor_fields a = field "type" (str a.type) (field "id" (str a.id) end)

  abbrev entity_fields : Entity → Fields
  entity_fields e =
      field "type" (str e.type)
        (field "id" (uuid_json e.id) (field "schema_version" (int e.schema_version) end))

  -- `json.Marshal(env)`
  unfoldable pub encode : Envelope → Json
  encode e = obj (
      field "event_id" (uuid_json e.event_id) (
        field "event_type" (str e.event_type) (
          field "event_schema_version" (int e.event_schema_version) (
            field "occurred_at" (str (env.time_string e.occurred_at)) (
              field "tenant_id" (uuid_json e.tenant_id) (
                field "actor" (obj (actor_fields e.actor)) (
                  field "entity" (obj (entity_fields e.entity)) (
                    field "payload" e.payload (
                      field "correlation_id" (uuid_json e.correlation_id)
                        (prior_field e.prior_event_id))))))))))

module _ (env : Env) where
  decode_actor : Fields → Option Actor
  decode_actor fs = as_string (get "type" fs) >>=? λ type.
      as_string (get "id" fs) >>=? λ id. some (record { type = type; id = id })

  decode_entity : Fields → Option Entity
  decode_entity fs = as_string (get "type" fs) >>=? λ type.
      as_parsed env.uuid_parse (get "id" fs) >>=? λ id.
      as_int (get "schema_version" fs) >>=? λ version.
      some (record { type = type; id = id; schema_version = version })

  decode_fields : Fields → Option Envelope
  unfolding decode_actor decode_entity get
  decode_fields fs = as_parsed env.uuid_parse (get "event_id" fs) >>=? λ event_id.
      as_string (get "event_type" fs) >>=? λ event_type.
      as_int (get "event_schema_version" fs) >>=? λ version.
      as_parsed env.time_parse (get "occurred_at" fs) >>=? λ occurred_at.
      as_parsed env.uuid_parse (get "tenant_id" fs) >>=? λ tenant_id.
      as_fields (get "actor" fs) >>=? λ actor_fs. decode_actor actor_fs >>=? λ actor.
      as_fields (get "entity" fs) >>=? λ entity_fs. decode_entity entity_fs >>=? λ entity.
      as_parsed env.uuid_parse (get "correlation_id" fs) >>=? λ corr.
      as_pointer env.uuid_parse (get "prior_event_id" fs) >>=? λ prior. some (record {
        event_id = event_id;
        event_type = event_type;
        event_schema_version = version;
        occurred_at = occurred_at;
        tenant_id = tenant_id;
        actor = actor;
        entity = entity;
        payload = as_any (get "payload" fs);
        correlation_id = corr;
        prior_event_id = prior;
      })

  -- `json.Unmarshal(body, &env)` on a JSON text.
  unfoldable pub decode : Json → Option Envelope
  unfolding decode_fields
  decode body = as_fields (some body) >>=? decode_fields
