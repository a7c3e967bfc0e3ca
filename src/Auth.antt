-- ===== src/Auth.antt =====
-- internal/auth/auth.go: who calls, for which tenant, and whether the action is allowed.
pub mod Principals
pub mod Callers
use Prim.Native.Char.{code}
use Prim.Native.String.{[], ◌∷◌, ◌++◌}
use mathlib.Core.Option
use soarcore.Common.{
  ℕ, String, ◌||◌, Option, none, some, List, ◌==◌, str_eq, if◌then◌else◌, contains,
}
use soarcore.Common
use soarcore.Errors.{Error, plain, Result, ok, err}
use soarcore.World.{Env, Uuid}

pub record Principal : Type 0 where
  pub type : String
  pub id : String

abbrev pub principal_types : List String
principal_types = Common.◌∷◌ "user" (Common.◌∷◌ "connector" (Common.◌∷◌ "system" Common.[]))

-- `String`: "type:id"
unfoldable pub render : Principal → String
render p = p.type ++ (":" ++ p.id)

-- `strings.SplitN(s, ":", 2)`, where two parts come back.
unfoldable pub split_colon : String → Option (String × String)
split_colon [] = none
split_colon (c ∷ s) =
    if code c == b':'
    then some ([], s)
    else Option.map (λ (parts : String × String). (c ∷ parts.0, parts.1)) (split_colon s)

-- The checks on the two parts.
unfoldable pub principal_of_parts : Option (String × String) → Result Principal
principal_of_parts none = err (plain "expected type:id")
principal_of_parts (some (type, id)) =
    if str_eq type "" || str_eq id ""
    then err (plain "expected type:id")
    else if contains principal_types type
    then ok (record { type = type; id = id })
    else err (plain "unknown principal type")

unfoldable pub parse_principal : String → Result Principal
unfolding split_colon principal_of_parts
parse_principal s = principal_of_parts (split_colon s)

-- What an implementation of `Authorizer.Allow` answers; the principal is the context's.
abbrev pub Authorizer : Type 0
Authorizer = Principal → String → String → Option Error

-- v1's `StubAuthorizer`
abbrev pub stub_authorizer : Authorizer
stub_authorizer p action resource = none

-- The values that `Middleware` puts into the request's context.
pub record Context : Type 0 where
  pub principal : Option Principal
  pub tenant : Option Uuid

pub data Gate : Type 0 where
  reject : ℕ → String → Gate
  pass : Context → Gate

-- The tenant of a request: the header's, or the default where there is none.
unfoldable pub tenant_of : Env → Uuid → Principal → String → Gate
tenant_of env default_tenant p header =
    if str_eq header ""
    then pass (record { principal = some p; tenant = some default_tenant })
    else elim (env.uuid_parse header) [
      | none ↦ reject 400 "invalid X-Tenant-Id"
      | some t ↦ pass (record { principal = some p; tenant = some t })
    ]

-- The rest of the middleware, once the principal's header is parsed.
unfoldable pub middleware_of : Env → Uuid → (String → String) → Result Principal → Gate
middleware_of env default_tenant header (err e) = reject 401 "invalid X-Principal-Id"
middleware_of env default_tenant header (ok p) =
    tenant_of env default_tenant p (header "X-Tenant-Id")

-- `Middleware`, up to the call of `next`; an absent header reads as the empty text.
unfoldable pub middleware : Env → Uuid → (String → String) → Gate
middleware env default_tenant header =
    if str_eq (header "X-Principal-Id") ""
    then reject 401 "missing X-Principal-Id"
    else middleware_of env default_tenant header (parse_principal (header "X-Principal-Id"))
