-- ===== src/World/Rows.antt =====
-- The four tables of migrations/0001_init.up.sql, their rows as internal/persistence declares them.
-- A pointer, a nullable column and a nil slice are options. Times count from Go's zero time, so
-- that `IsZero` is the test for 0; a UUID is its 128-bit number, so that `uuid.Nil` is 0.
use soarcore.Common.{ℕ, String, Option, List, []}
use soarcore.Json.{Json}

abbrev pub Uuid : Type 0
Uuid = ℕ

abbrev pub Time : Type 0
Time = ℕ

pub record IncidentRow : Type 0 where
  pub id : Uuid
  pub tenant_id : Uuid
  pub schema_version : ℕ
  pub external_id : Option String
  pub title : String
  pub description : Option String
  pub severity : String
  pub status : String
  pub assignee_id : Option Uuid
  pub source_connector_id : Option String
  pub attributes : Option Json
  pub tags : Option (List String)
  pub created_at : Time
  pub updated_at : Time
  pub closed_at : Option Time

pub record AuditRow : Type 0 where
  pub id : Uuid
  pub tenant_id : Uuid
  pub occurred_at : Time
  pub actor : Json
  pub action : String
  pub target : Option Json
  pub result : String
  pub correlation_id : Option Uuid
  pub metadata : Option Json

pub record OutboxRow : Type 0 where
  pub id : ℕ
  pub event_id : Uuid
  pub event_type : String
  pub tenant_id : Uuid
  pub payload : Json
  pub created_at : Time
  pub published_at : Option Time

pub record ConnectorRow : Type 0 where
  pub id : String
  pub tenant_id : Uuid
  pub capabilities : Json
  pub status : String
  pub last_heartbeat_at : Option Time
  pub registered_at : Time
  pub deregistered_at : Option Time

-- The newest row of a table stands last. `next_outbox_id` is the sequence behind BIGSERIAL.
pub record Db : Type 0 where
  pub incidents : List IncidentRow
  pub audits : List AuditRow
  pub outbox : List OutboxRow
  pub connectors : List ConnectorRow
  pub next_outbox_id : ℕ

abbrev pub empty_db : Db
empty_db = record { incidents = []; audits = []; outbox = []; connectors = []; next_outbox_id = 1 }
