-- ===== src/Api/Connectors.antt =====
-- internal/api/connectors.go: registering a connector, and its heartbeat.
use Prim.Native.Char.{code}
use Prim.Native.String.{◌∷◌ as ◌∷ˢ◌, [] as ε}
use soarcore.Common.{ℕ, String, Option, none, some, List, [], ◌∷◌, ◌==◌, if◌then◌else◌}
use soarcore.Common.Int.{ℤ, pos}
use soarcore.Json.{Json, null, int, real, str, arr, obj, Items, nil, item, Fields, end, field, get}
use soarcore.Json.Decode.{◌>>=?◌, as_string, as_strings, known_fields}
use soarcore.Auth.{Context}
use soarcore.Schema.{Registry}
use soarcore.World.{Env}
use soarcore.ConnectorRuntime.{Capabilities, Registration, register, heartbeat, capabilities_json}
use soarcore.Api.{respond, value, message, Handler, finish, with_principal_and_tenant}
use soarcore.Numbers.{digits, negative}

-- `registerConnectorRequest`
pub record RegisterRequest : Type 0 where
  pub id : String
  pub capabilities : Capabilities

abbrev negative_literal : Option ℕ → Option ℤ
negative_literal none = none
negative_literal (some n) = some (negative n)

-- An integer literal that is no natural number is a minus sign and digits.
as_negative : String → Option ℤ
unfolding digits
as_negative ε = none
as_negative (c ∷ˢ s) = if code c == b'-' then negative_literal (digits 0 s) else none

abbrev as_version : Json → Option ℤ
unfolding as_negative
as_version (int n) = some (pos n)
as_version (real literal) = as_negative literal
as_version null = some (pos 0)
as_version _ = none

abbrev version_items : Items → Option (List ℤ)
unfolding as_version as_negative
version_items nil = some []
version_items (item j rest) = as_version j >>=? λ v. version_items rest >>=? λ vs. some (v ∷ vs)

abbrev as_versions : Option Json → Option (Option (List ℤ))
unfolding version_items
as_versions none = some none
as_versions (some null) = some none
as_versions (some (arr items)) = version_items items >>=? λ vs. some (some vs)
as_versions _ = none

-- An object with none but the given keys; null leaves a struct as it is.
abbrev strict : List String → Option Json → Option Fields
strict names none = some end
strict names (some null) = some end
strict names (some (obj fs)) = if known_fields names fs then some fs else none
strict names _ = none

capabilities_of_fields : Fields → Option Capabilities
unfolding get as_versions
capabilities_of_fields fs = as_strings (get "produces" fs) >>=? λ produces.
    as_strings (get "consumes" fs) >>=? λ consumes.
    as_versions (get "event_schema_versions" fs) >>=? λ versions.
    some (record { produces = produces; consumes = consumes; event_schema_versions = versions })

register_of_fields : Fields → Option RegisterRequest
unfolding get capabilities_of_fields
register_of_fields fs = as_string (get "id" fs) >>=? λ id.
    strict ("produces" ∷ "consumes" ∷ "event_schema_versions" ∷ []) (get "capabilities" fs)
    >>=? λ cs. capabilities_of_fields cs >>=? λ capabilities.
        some (record { id = id; capabilities = capabilities })

-- A body has to be there.
abbrev body_fields : Option Json → Option Fields
body_fields none = none
body_fields (some body) = strict ("id" ∷ "capabilities" ∷ []) (some body)

unfoldable pub decode_register : Option Json → Option RegisterRequest
unfolding register_of_fields
decode_register body = body_fields body >>=? register_of_fields

module _ (env : Env) where
  -- `connectorResponse`: a registration carries no heartbeat.
  abbrev pub registration_json : Registry → Registration → Json
  registration_json registry r = obj (
      field "id" (str r.id) (
        field "tenant_id" (str (env.uuid_string r.tenant_id)) (
          field "capabilities" (capabilities_json registry.decimal r.capabilities) (
            field "status" (str r.status)
              (field "registered_at" (str (env.time_string r.registered_at)) end)))))

  -- `handleRegisterConnector`
  unfoldable pub handle_register : Registry → Context → Option Json → Handler
  handle_register registry c body = with_principal_and_tenant c λ p tenant w.
      elim (decode_register body) [
        | none ↦ (respond 400 (message "invalid JSON"), w)
        | some r ↦
            finish (λ reg. respond 201 (value (registration_json registry reg)))
              (register env registry r.id tenant r.capabilities w)
      ]

  -- `handleConnectorHeartbeat`
  unfoldable pub handle_heartbeat : Context → String → Handler
  handle_heartbeat c id = with_principal_and_tenant c λ p tenant w.
      finish (λ u. respond 200 (value (obj (field "status" (str "ok") end)))) (heartbeat env id w)
