-- ===== src/Api.antt =====
-- internal/api: the HTTP surface. A response is its status and body; the body of a failure is the
-- error whose text it carries. The router and the middleware of chi are called by this code only.
pub mod Incidents
pub mod Query
pub mod Listing
pub mod Connectors
pub mod Outcomes
pub mod Router
use soarcore.Common.{ℕ, String, ◌||◌, none, some, if◌then◌else◌}
use soarcore.Json.{Json}
use soarcore.Errors.{
  Error, Result, ok, err, is, invalid_input, invalid_transition, not_found, denied,
  unknown_entity_type, unsupported_event_schema,
}
use soarcore.Auth.{Principal, Context}
use soarcore.World.{Uuid, World}

-- `value` is a JSON document, `failure` is `errorBody` with the error's text, `message` is
-- `errorBody` with a fixed text.
pub data Body : Type 0 where
  value : Json → Body
  failure : Error → Body
  message : String → Body

pub record Response : Type 0 where
  pub status : ℕ
  pub body : Body

abbrev pub respond : ℕ → Body → Response
respond status body = record { status = status; body = body }

-- `writeError`
unfoldable pub write_error : Error → Response
write_error e =
    if is e invalid_input
    then respond 400 (failure e)
    else if is e invalid_transition
    then respond 422 (failure e)
    else if is e not_found
    then respond 404 (failure e)
    else if is e denied
    then respond 403 (failure e)
    else if is e unknown_entity_type || is e unsupported_event_schema
    then respond 400 (failure e)
    else respond 500 (message "internal error")

-- A handler's action always answers.
abbrev pub Handler : Type 0
Handler = World → Response × World

abbrev pub answer : Response → Handler
answer r w = (r, w)

-- The end of a handler: the error table, or the response to a result.
abbrev pub finish {ℓ} : {A : Type ℓ} → (A → Response) → Result A × World → Response × World
finish success (ok a, w) = (success a, w)
finish success (err e, w) = (write_error e, w)

-- `principalAndTenant`, and what the handler does with the two.
unfoldable pub with_principal_and_tenant : Context → (Principal → Uuid → Handler) → Handler
with_principal_and_tenant c f w = elim c.principal [
  | none ↦ (respond 500 (message "principal missing"), w)
  | some p ↦ elim c.tenant [ none ↦ (respond 500 (message "tenant missing"), w) | some t ↦ f p t w ]
]
