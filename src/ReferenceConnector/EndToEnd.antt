-- ===== src/ReferenceConnector/EndToEnd.antt =====
-- The client of the connector against the router of the core.
use Prim.Native.String.{◌++◌ as ◌<>◌}
use soarcore.Common.{
  ℕ, String, ◌≡◌, refl, sym, ap, ◌∙◌, true, false, none, some, arith, ◌==◌, str_eq,
}
use mathlib.Core.Path.{subst}
use soarcore.Errors.{ok}
use soarcore.Auth.{Principal, parse_principal, middleware, middleware_of, tenant_of, pass}
use soarcore.Auth.Callers.{context_of}
use soarcore.World.{Env, Uuid, World}
use soarcore.Incident.{Incident}
use soarcore.Incident.Service.Patched.{Patched}
use soarcore.Api.{Response}
use soarcore.Api.Incidents.{handle_patch}
use soarcore.Api.Outcomes.{handle_patch-PatchAnswer}
use soarcore.Api.Router.{
  Request, Chi, Server, router, follow, behind, run_route, find, to, patch, v1_routes,
}
use soarcore.ReferenceConnector
use soarcore.ReferenceConnector.{principal_header, patch_json}
use soarcore.ReferenceConnector.Client.{
  Http, HttpRequest, HttpReply, Client, patch_incident_tags, do_request, after_exchange,
}
use soarcore.ReferenceConnector.Wire.{decode_patch-patch_json}
use soarcore.ReferenceConnector.Core.{
  as_request, connector_principal, tags_input, core_http, PatchAnswer-ok,
}

module _ (env : Env) (chi : Chi) (s : Server) where
  find-patch :
      (path id : String)
      → chi.match "/v1/incidents/" path ≡ none
      → chi.match "/v1/incidents/{id}" path ≡ some id
      → find chi "PATCH" path v1_routes false ≡ to patch id
  unfolding find
  find-patch path id none_there there = ground arith

  -- Where the middleware lets a request through and the table has its route, the router runs the
  -- handler of a patch.
  router-patch :
      (r : Request) (p : Principal) (tenant : Uuid) (id : String) (w : World)
      → chi.match "/healthz" r.path ≡ none
      → chi.under_v1 r.path ≡ true
      → middleware env s.default_tenant r.header ≡ pass (context_of p tenant)
      → find chi r.method r.path v1_routes false ≡ to patch id
      → router env chi s r w ≡ handle_patch env s.service (context_of p tenant) id r.body w
  unfolding router behind follow run_route
  router-patch r p tenant id w off under passes found =
      rw (off, router) (rw (under, router) (rw (passes, router) (rw (found, router) refl)))

  pub connector_passes :
      (r : Request) (tenant : Uuid) (t : String)
      → r.header "X-Principal-Id" ≡ principal_header
      → r.header "X-Tenant-Id" ≡ t
      → str_eq t "" ≡ false
      → env.uuid_parse t ≡ some tenant
      → middleware env s.default_tenant r.header ≡ pass (context_of connector_principal tenant)
  unfolding middleware middleware_of tenant_of parse_principal
  connector_passes r tenant t hp ht named parsed =
      rw (hp, middleware)
        (rw (ht, middleware) (rw (named, middleware) (rw (parsed, middleware) refl)))

  -- An exchange without an error of the client was answered with the wanted status.
  after_exchange-ok :
      (http : Http World) (c : Client) (want : ℕ) (reply : HttpReply) (w w' : World)
      → after_exchange http c none want (ok reply, w) ≡ (none, w')
      → ((reply.status == want) ≡ true) × (w ≡ w')
  unfolding after_exchange
  after_exchange-ok http c want reply w w' h = ground arith

  -- The path of the request that `patchIncidentTags` makes.
  abbrev pub path_at : (String → String) → Client → ReferenceConnector.PatchRequest → String
  path_at path_of c r = path_of (c.base <> ("/v1/incidents/" <> env.uuid_string r.id))

  -- What `patchIncidentTags` leads to at the core, without an error: where chi routes the path to the
  -- patch of an incident, and UUIDs are read back as they are printed, the incident of the request
  -- has been patched for the connector and its tenant, by exactly the tags and with the correlation
  -- id of the request.
  pub patch_incident_tags-Patched :
      (path_of : String → String) (render : Response → String) (c : Client) (tenant : Uuid)
      (r : ReferenceConnector.PatchRequest) (w w' : World)
      → ((u : Uuid) → env.uuid_parse (env.uuid_string u) ≡ some u)
      → c.principal ≡ principal_header
      → str_eq c.tenant "" ≡ false
      → env.uuid_parse c.tenant ≡ some tenant
      → chi.match "/healthz" (path_at path_of c r) ≡ none
      → chi.under_v1 (path_at path_of c r) ≡ true
      → chi.match "/v1/incidents/" (path_at path_of c r) ≡ none
      → chi.match "/v1/incidents/{id}" (path_at path_of c r) ≡ some (env.uuid_string r.id)
      → patch_incident_tags (core_http env chi s path_of render) c env r w ≡ (none, w')
      → (inc : Incident) × Patched env s.service.registry r.correlation_id tenant
          connector_principal r.id
          (tags_input r.tags)
          inc
          w.db
          w'.db
  unfolding patch_incident_tags do_request
  patch_incident_tags-Patched path_of render c tenant r w w' read_back who named whose off under
        other there h =
      let q : HttpRequest = record {
        method = "PATCH";
        url = c.base <> ("/v1/incidents/" <> env.uuid_string r.id);
        content_type = some "application/json";
        principal = some c.principal;
        tenant = some c.tenant;
        body = some (patch_json env r);
      } in
      let here = as_request path_of q in
      let o =
        handle_patch env s.service (context_of connector_principal tenant) (env.uuid_string r.id)
          here.body w in
      let runs : router env chi s here w ≡ o =
        router-patch here connector_principal tenant (env.uuid_string r.id) w off under
          (connector_passes here tenant c.tenant who refl named whose)
          (find-patch here.path (env.uuid_string r.id) other there) in
      let (good, last) =
        after_exchange-ok (core_http env chi s path_of render) c 200
          (record {
            status = (router env chi s here w).0.status;
            body = render (router env chi s here w).0;
          })
          (router env chi s here w).1 w' h in
      let (inc, done) =
        PatchAnswer-ok env chi s connector_principal tenant r.id r.tags r.correlation_id here.body w
          o (decode_patch-patch_json env read_back r) (rw runs at good)
          (rw (read_back r.id) at (
            handle_patch-PatchAnswer env s.service (context_of connector_principal tenant)
              (env.uuid_string r.id) here.body w)) in
      let arrived : o.1 ≡ w' = ap (λ (x : Response × World). x.1) (sym runs) ∙ last in
      (
        inc,
        subst
            (λ (v : World).
              Patched env s.service.registry r.correlation_id tenant connector_principal r.id
                (tags_input r.tags) inc w.db v.db)
            arrived done,
      )
