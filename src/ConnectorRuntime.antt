-- ===== src/ConnectorRuntime.antt =====
-- internal/connectorruntime/runtime.go: registration and liveness of connectors.
pub mod Stored
pub mod Laws
pub mod Heartbeats
use Prim.Native.String.{◌++◌ as ◌<>◌}
use soarcore.Common.{
  ℕ, ◌+◌, String, Bool, false, Option, none, some, List, [], ◌∷◌, ◌++◌, ◌==◌, str_eq, if◌then◌else◌,
}
use soarcore.Common.Int.{ℤ, pos, negsuc}
use soarcore.Json.{Json, null, int, real, arr, obj, Items, nil, item, end, field, strings}
use soarcore.Errors.{Error, sentinel, plain, wrapped, unknown_entity_type, unsupported_event_schema}
use soarcore.Schema.{Registry, has}
use soarcore.World.{Env, Uuid, Time, ConnectorRow, Exec, ◌>>=◌, ◌>>◌, pure, check, time_now}
use soarcore.Persistence.Connectors

-- A nil slice is `none`.
pub record Capabilities : Type 0 where
  pub produces : Option (List String)
  pub consumes : Option (List String)
  pub event_schema_versions : Option (List ℤ)

pub record Registration : Type 0 where
  pub id : String
  pub tenant_id : Uuid
  pub capabilities : Capabilities
  pub status : String
  pub last_heartbeat_at : Option Time
  pub registered_at : Time

-- The elements of a slice that may be nil.
abbrev pub each {ℓ} : {A : Type ℓ} → Option (List A) → List A
each none = []
each (some xs) = xs

abbrev pub declared_types : Capabilities → List String
declared_types caps = each caps.produces ++ each caps.consumes

-- The loop over the declared entity types.
unfoldable pub check_types : Registry → List String → Option Error
check_types registry [] = none
check_types registry (t ∷ ts) =
    if has registry t 1
    then check_types registry ts
    else some (wrapped t (sentinel unknown_entity_type))

abbrev pub is_one : ℤ → Bool
is_one (pos n) = n == 1
is_one (negsuc n) = false

-- The loop over the event schema versions.
unfoldable pub check_versions : List ℤ → Option Error
check_versions [] = none
check_versions (v ∷ vs) =
    if is_one v then check_versions vs else some (wrapped "v" (sentinel unsupported_event_schema))

-- `json.Marshal(caps)`
abbrev slice_json {ℓ} : {A : Type ℓ} → (List A → Items) → Option (List A) → Json
slice_json write none = null
slice_json write (some xs) = arr (write xs)

abbrev version_json : (ℕ → String) → ℤ → Json
version_json decimal (pos n) = int n
version_json decimal (negsuc n) = real ("-" <> decimal (n + 1))

abbrev versions : (ℕ → String) → List ℤ → Items
versions decimal [] = nil
versions decimal (v ∷ vs) = item (version_json decimal v) (versions decimal vs)

abbrev pub capabilities_json : (ℕ → String) → Capabilities → Json
capabilities_json decimal caps = obj (
    field "produces" (slice_json strings caps.produces) (
      field "consumes" (slice_json strings caps.consumes) (
        field "event_schema_versions" (slice_json (versions decimal) caps.event_schema_versions)
          end)))

abbrev id_error : String → Option Error
id_error id = if str_eq id "" then some (plain "connector id is required") else none

abbrev pub connector_row : Registry → String → Uuid → Capabilities → Time → ConnectorRow
connector_row registry id tenant caps now = record {
  id = id;
  tenant_id = tenant;
  capabilities = capabilities_json registry.decimal caps;
  status = "active";
  last_heartbeat_at = none;
  registered_at = now;
  deregistered_at = none;
}

abbrev pub registration : String → Uuid → Capabilities → Time → Registration
registration id tenant caps now = record {
  id = id;
  tenant_id = tenant;
  capabilities = caps;
  status = "active";
  last_heartbeat_at = none;
  registered_at = now;
}

module _ (env : Env) where
  unfoldable pub store : Registry → String → Uuid → Capabilities → Exec Registration
  store registry id tenant caps = do
    now ← time_now env
    Connectors.upsert env (connector_row registry id tenant caps now)
    pure (registration id tenant caps now)

  -- `Register`
  unfoldable pub register : Registry → String → Uuid → Capabilities → Exec Registration
  unfolding check_types check_versions
  register registry id tenant caps = check (id_error id) (
      check (check_types registry (declared_types caps))
        (check (check_versions (each caps.event_schema_versions)) (store registry id tenant caps)))

  -- `Heartbeat`
  unfoldable pub heartbeat : String → Exec (Unit {0})
  heartbeat id = time_now env >>= Connectors.heartbeat env id
