-- ===== src/ReferenceConnector/Registering.antt =====
-- The registration of the connector at the core.
use Prim.Native.String.{◌++◌ as ◌<>◌}
use soarcore.Common.{String, ◌≡◌, refl, ◌∙◌, ◌+◌, true, false, none, some, [], ◌∷◌, arith, str_eq}
use soarcore.Common.Int.{pos}
use soarcore.Errors.{ok}
use soarcore.Auth.{middleware, pass}
use soarcore.Auth.Callers.{context_of}
use soarcore.Schema.{Registry, has}
use soarcore.World.{Env, Uuid, World, exec}
use soarcore.Persistence.Connectors
use soarcore.Persistence.Connectors.{upsert_rows}
use soarcore.ConnectorRuntime
use soarcore.ConnectorRuntime.{
  Capabilities, check_types, check_versions, store, connector_row, registration,
}
use soarcore.ConnectorRuntime.Stored.{IsStored, upsert_rows-IsStored}
use soarcore.Api.{Response, respond, value, with_principal_and_tenant}
use soarcore.Api.Connectors.{handle_register, registration_json}
use soarcore.Api.Router.{
  Chi, Request, Server, Route, router, follow, behind, run_route, find, to, v1_routes,
}
use soarcore.ReferenceConnector.{principal_header}
use soarcore.ReferenceConnector.Client.{
  HttpRequest, Client, register, register_json, do_request, after_exchange,
}
use soarcore.ReferenceConnector.Core.{as_request, connector_principal, core_http}
use soarcore.ReferenceConnector.EndToEnd.{connector_passes}
use soarcore.ReferenceConnector.Wire.{decode_register-register_json}

-- What the connector declares.
abbrev pub offered : Capabilities
offered = record {
  produces = some [];
  consumes = some ("incident" ∷ []);
  event_schema_versions = some (pos 1 ∷ []);
}

-- The world once the connector has been stored.
abbrev stored_in : Env → Registry → String → Uuid → World → World
stored_in env registry id tenant w = record {
  db = record w.db {
    connectors =
        upsert_rows (connector_row registry id tenant offered (env.now w.reads)) w.db.connectors;
  };
  reads = w.reads + 1 + 1;
}

module _ (env : Env) where
  runtime_done :
      (registry : Registry) (id : String) (tenant : Uuid) (w : World)
      → str_eq id "" ≡ false
      → has registry "incident" 1 ≡ true
      → env.fails (w.reads + 1) ≡ false
      → ConnectorRuntime.register env registry id tenant offered w ≡ (
        ok (registration id tenant offered (env.now w.reads)),
        stored_in env registry id tenant w,
      )
  unfolding ConnectorRuntime.register check_types check_versions store Connectors.upsert exec
  runtime_done registry id tenant w named known works = rw (named, known, works) refl

  handler_done :
      (registry : Registry) (id : String) (tenant : Uuid) (w : World)
      → str_eq id "" ≡ false
      → has registry "incident" 1 ≡ true
      → env.fails (w.reads + 1) ≡ false
      → handle_register env registry
          (context_of connector_principal tenant)
          (some (register_json id))
          w
        ≡ (
          respond 201 (
              value (
                registration_json env registry (registration id tenant offered (env.now w.reads)))),
          stored_in env registry id tenant w,
        )
  unfolding handle_register with_principal_and_tenant
  handler_done registry id tenant w named known works =
      rw (decode_register-register_json id, handle_register)
        (rw (runtime_done registry id tenant w named known works) refl)

  module _ (chi : Chi) (s : Server) where
    -- How chi routes a path to the registration of a connector.
    pub record RoutesToRegister (path id : String) : Type 0 where
      pub no_health : chi.match "/healthz" path ≡ none
      pub under_v1 : chi.under_v1 path ≡ true
      pub no_list : chi.match "/v1/incidents/" path ≡ none
      pub no_incident : chi.match "/v1/incidents/{id}" path ≡ none
      pub connectors : chi.match "/v1/connectors/" path ≡ some id

    find-register :
        (path id : String)
        → RoutesToRegister path id
        → find chi "POST" path v1_routes false ≡ to Route.register id
    unfolding find
    find-register path id h = ground (arith, h.no_list, h.no_incident, h.connectors)

    router-register :
        (r : Request) (tenant : Uuid) (id : String) (w : World)
        → chi.match "/healthz" r.path ≡ none
        → chi.under_v1 r.path ≡ true
        → middleware env s.default_tenant r.header ≡ pass (context_of connector_principal tenant)
        → find chi r.method r.path v1_routes false ≡ to Route.register id
        → router env chi s r w
          ≡ handle_register env s.connector_registry
              (context_of connector_principal tenant)
              r.body
              w
    unfolding router behind follow run_route
    router-register r tenant id w off under passes found =
        rw (off, router) (rw (under, router) (rw (passes, router) (rw (found, router) refl)))

    -- The connector's registration at the core: where the client has the connector's principal and a
    -- tenant that parses, the connector an id, chi routes the path to the registration of a
    -- connector, the core's registry knows the incident schema, and the one statement of the request
    -- does not fail, it ends without an error and leaves the connector stored: its row is of its
    -- tenant, active, not deregistered, with the incident events that it consumes and the heartbeat
    -- of an earlier row, and no other connector and no other table has changed.
    pub register_succeeds :
        (path_of : String → String) (render : Response → String) (c : Client) (tenant : Uuid)
        (id x : String) (w : World)
        → c.principal ≡ principal_header
        → str_eq c.tenant "" ≡ false
        → env.uuid_parse c.tenant ≡ some tenant
        → RoutesToRegister (path_of (c.base <> "/v1/connectors")) x
        → str_eq id "" ≡ false
        → has s.connector_registry "incident" 1 ≡ true
        → env.fails (w.reads + 1) ≡ false
        → (v : World) × (register (core_http env chi s path_of render) c id w ≡ (none, v))
          × IsStored s.connector_registry id tenant offered (env.now w.reads) w.db v.db
    unfolding register do_request after_exchange
    register_succeeds path_of render c tenant id x w who named whose routes has_id known works =
        let q : HttpRequest = record {
          method = "POST";
          url = c.base <> "/v1/connectors";
          content_type = some "application/json";
          principal = some c.principal;
          tenant = some c.tenant;
          body = some (register_json id);
        } in
        let here = as_request path_of q in
        let runs =
          router-register here tenant x w routes.no_health routes.under_v1
            (connector_passes env chi s here tenant c.tenant who refl named whose)
            (find-register here.path x routes)
          ∙ handler_done s.connector_registry id tenant w has_id known works in
        let v = stored_in env s.connector_registry id tenant w in
        (
          v,
          rw runs refl,
          upsert_rows-IsStored s.connector_registry id tenant offered (env.now w.reads) w.db v.db
              refl,
        )
