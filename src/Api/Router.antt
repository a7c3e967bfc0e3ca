-- ===== src/Api/Router.antt =====
-- internal/api/server.go: the route table, the middleware of /v1, the health check and the request
-- log. How chi matches a path, and what it answers where no route does, is a parameter; the
-- deadline of its Timeout middleware is a database call that fails.
pub mod Table
pub mod Reading
pub mod Served
pub mod Isolation
use soarcore.Common.{
  ℕ, String, Bool, true, false, Option, none, some, List, [], ◌∷◌, str_eq, if◌then◌else◌,
}
use soarcore.Json.{Json, str, obj, field, end}
use soarcore.Errors.{Result, ok, err}
use soarcore.Auth.{Context, reject, pass, Gate, middleware}
use soarcore.Schema.{Registry}
use soarcore.World.{Env, Uuid, World, query}
use soarcore.Incident.Service.{Service}
use soarcore.Api.{Response, respond, value, message, Handler, answer}
use soarcore.Api.Incidents.{handle_create, handle_get, handle_patch}
use soarcore.Api.Listing.{handle_list}
use soarcore.Api.Connectors.{handle_register, handle_heartbeat}

-- What the handlers read of a request. `body` is none where it is empty or no JSON.
pub record Request : Type 0 where
  pub method : String
  pub path : String
  pub header : String → String
  pub query : String → String
  pub body : Option Json

-- `match pattern path` is the value of the pattern's parameter where the path fits the pattern (the
-- empty text where it has none); `under_v1` is the test of the mount of /v1.
pub record Chi : Type 0 where
  pub match : String → String → Option String
  pub under_v1 : String → Bool
  pub not_found : Response
  pub not_allowed : Response

-- `Server`, as `NewServer` fills it.
pub record Server : Type 0 where
  pub service : Service
  pub connector_registry : Registry
  pub default_tenant : Uuid

pub data Route : Type 0 where
  create list get patch register heartbeat : Route

abbrev pub v1_routes : List (String × String × Route)
v1_routes =
    ("POST", "/v1/incidents/", create)
    ∷ ("GET", "/v1/incidents/", list)
    ∷ ("GET", "/v1/incidents/{id}", get)
    ∷ ("PATCH", "/v1/incidents/{id}", patch)
    ∷ ("POST", "/v1/connectors/", register)
    ∷ ("POST", "/v1/connectors/{id}/heartbeat", heartbeat)
    ∷ []

-- The end of a search: a route with its parameter, a path with no such method, or no path.
pub data Found : Type 0 where
  to : Route → String → Found
  wrong_method : Found
  nowhere : Found

-- One line of the request log.
pub record LogLine : Type 0 where
  pub method : String
  pub path : String
  pub status : ℕ

module _ (chi : Chi) where
  unfoldable pub find : String → String → List (String × String × Route) → Bool → Found
  find method path [] known = if known then wrong_method else nowhere
  find method path ((m, pattern, route) ∷ rest) known = elim (chi.match pattern path) [
    | none ↦ find method path rest known
    | some id ↦ elim (str_eq m method) [ true ↦ to route id | false ↦ find method path rest true ]
  ]

module _ (env : Env) where
  abbrev pub health_answer : Result (Unit {0}) × World → Response × World
  health_answer (ok u, w) = (respond 200 (value (obj (field "status" (str "ok") end))), w)
  health_answer (err e, w) = (respond 503 (value (obj (field "status" (str "unhealthy") end))), w)

  -- `handleHealthz`
  unfoldable pub handle_healthz : Handler
  handle_healthz w = health_answer (query env "select" (λ db. ok tt) w)

  module _ (chi : Chi) (s : Server) where
    unfoldable pub run_route : Request → Context → Route → String → Handler
    run_route r c create id = handle_create env s.service c r.body
    run_route r c list id = handle_list env c r.query
    run_route r c get id = handle_get env c id
    run_route r c patch id = handle_patch env s.service c id r.body
    run_route r c register id = handle_register env s.connector_registry c r.body
    run_route r c heartbeat id = handle_heartbeat env c id

    unfoldable pub follow : Request → Context → Found → Handler
    unfolding run_route
    follow r c (to route id) = run_route r c route id
    follow r c wrong_method = answer chi.not_allowed
    follow r c nowhere = answer chi.not_found

    -- The routes under /v1, behind the middleware.
    unfoldable pub behind : Request → Gate → Handler
    unfolding follow
    behind r (reject status text) = answer (respond status (message text))
    behind r (pass c) = follow r c (find chi r.method r.path v1_routes false)

    abbrev pub healthz : Request → Handler
    healthz r = if str_eq r.method "GET" then handle_healthz else answer chi.not_allowed

    abbrev pub v1 : Request → Handler
    v1 r =
        if chi.under_v1 r.path
        then behind r (middleware env s.default_tenant r.header)
        else answer chi.not_found

    -- The handler that `Router` returns.
    unfoldable pub router : Request → Handler
    unfolding behind
    router r w = elim (chi.match "/healthz" r.path) [ some id ↦ healthz r w | none ↦ v1 r w ]

    -- `requestLogger` around the routes.
    pub request_logger : (Request → Handler) → Request → World → LogLine × Response × World
    request_logger next r w =
        let (answered, w') = next r w in
        (record { method = r.method; path = r.path; status = answered.status }, answered, w')

    unfoldable pub serve_http : Request → World → LogLine × Response × World
    unfolding request_logger router
    serve_http = request_logger router
