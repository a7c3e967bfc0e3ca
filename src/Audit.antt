-- ===== src/Audit.antt =====
-- internal/audit/audit.go: the one place that shapes audit rows.
use soarcore.Common.{String, Option, none, some, ◌==◌, if◌then◌else◌}
use soarcore.Json.{Json, str, obj, end, field}
use soarcore.Auth.{Principal}
use soarcore.World.{Env, Uuid, Exec, ◌>>=◌, new_uuid, time_now}
use soarcore.Persistence.Audit

pub data AuditResult : Type 0 where
  success denied error : AuditResult

abbrev pub result_text : AuditResult → String
result_text success = "success"
result_text denied = "denied"
result_text error = "error"

pub record Target : Type 0 where
  pub type : String
  pub id : Uuid

-- {"type": …, "id": …}
abbrev pub actor_json : Principal → Json
actor_json p = obj (field "type" (str p.type) (field "id" (str p.id) end))

abbrev pub target_json : Env → Target → Json
target_json env t = obj (field "type" (str t.type) (field "id" (str (env.uuid_string t.id)) end))

abbrev pub map_target : Env → Option Target → Option Json
map_target env none = none
map_target env (some t) = some (target_json env t)

-- `uuid.Nil` is left out.
abbrev pub correlation : Uuid → Option Uuid
correlation c = if c == 0 then none else some c

-- `Record`. The service passes no metadata.
unfoldable pub record_audit :
    Env
    → Uuid
    → Principal
    → String
    → Option Target
    → AuditResult
    → Uuid
    → Option Json
    → Exec (Unit {0})
record_audit env tenant p action target result corr metadata = do
  id ← new_uuid env
  now ← time_now env
  Audit.insert env (record {
    id = id;
    tenant_id = tenant;
    occurred_at = now;
    actor = actor_json p;
    action = action;
    target = map_target env target;
    result = result_text result;
    correlation_id = correlation corr;
    metadata = metadata;
  })
