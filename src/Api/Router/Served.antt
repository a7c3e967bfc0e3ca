-- ===== src/Api/Router/Served.antt =====
-- What the answer to an HTTP request says about its caller and the tables.
use soarcore.Common.{
  String, ◌≡◌, ◌⊎◌, inl, inr, refl, false, some, str_eq, Bool-cases, Option-cases,
}
use soarcore.Errors.{Result, ok, err}
use soarcore.Auth.{Principal, Gate, reject, pass, middleware}
use soarcore.Auth.Callers.{Caller, context_of, middleware_sound}
use soarcore.World.{Env, Uuid, World}
use soarcore.Persistence.Connectors.{heartbeat_rows}
use soarcore.ConnectorRuntime
use soarcore.ConnectorRuntime.{Registration, Capabilities}
use soarcore.ConnectorRuntime.Laws.{Registered, register-Registered, register_failed}
use soarcore.Api.{Response, respond, value, finish, with_principal_and_tenant}
use soarcore.Api.Connectors.{
  RegisterRequest, decode_register, handle_register, handle_heartbeat, registration_json,
}
use soarcore.Api.Outcomes.{
  CreateAnswer, PatchAnswer, handle_create-CreateAnswer, handle_patch-PatchAnswer,
}
use soarcore.Api.Router.{
  Request, Chi, Server, Route, create, list, get, patch, register, heartbeat, v1_routes, Found, to,
  wrong_method, nowhere, find, run_route, follow, behind, router, v1, healthz,
}
use soarcore.Api.Router.Table.{method_of, pattern_of, find_sound, rows_agree}
use soarcore.Api.Router.Reading.{
  handle_get-db, handle_list-db, handle_healthz-db, heartbeat-written,
}

module _ (env : Env) where
  module _ (chi : Chi) (s : Server) (r : Request) where
    abbrev pub CallerOf : Principal → Uuid → Type 0
    CallerOf = Caller env s.default_tenant r.header

    abbrev pub IsFor : Route → String → Type 0
    IsFor route id = (r.method ≡ method_of route) × (chi.match (pattern_of route) r.path ≡ some id)

    -- The ends of a request: the tables as before, or one of the four operations that write, for the
    -- caller that the headers name and on the route of the method and the path.
    pub data Served (w : World) : Response × World → Type 0 where
      quiet : (given : Response) (v : World) → v.db ≡ w.db → Served w (given, v)
      created :
          (p : Principal) (tenant : Uuid) (id : String) (o : Response × World)
          → CallerOf p tenant
          → IsFor create id
          → CreateAnswer env (some p) (some tenant) r.body w o
          → Served w o
      patched :
          (p : Principal) (tenant : Uuid) (id : String) (o : Response × World)
          → CallerOf p tenant
          → IsFor patch id
          → PatchAnswer env s.service.registry (some p) (some tenant) (env.uuid_parse id) r.body w o
          → Served w o
      registered :
          (p : Principal) (tenant : Uuid) (id : String) (q : RegisterRequest) (reg : Registration)
          (v : World)
          → CallerOf p tenant
          → IsFor register id
          → decode_register r.body ≡ some q
          → Registered s.connector_registry q.id tenant q.capabilities w v reg
          → Served w (respond 201 (value (registration_json env s.connector_registry reg)), v)
      beaten :
          (p : Principal) (tenant : Uuid) (id : String) (given : Response) (v : World)
          → CallerOf p tenant
          → IsFor heartbeat id
          → v.db ≡ record w.db { connectors = heartbeat_rows id (env.now w.reads) w.db.connectors }
          → Served w (given, v)

    registered_answer :
        (p : Principal) (tenant : Uuid) (id : String) (q : RegisterRequest) (w : World)
        (o : Result Registration × World)
        → CallerOf p tenant
        → IsFor register id
        → decode_register r.body ≡ some q
        → ConnectorRuntime.register env s.connector_registry q.id tenant q.capabilities w ≡ o
        → Served w
            (finish (λ reg. respond 201 (value (registration_json env s.connector_registry reg))) o)
    registered_answer p tenant id q w (ok reg, v) caller route body h =
        registered p tenant id q reg v caller route body
          (register-Registered env s.connector_registry q.id tenant q.capabilities w h)
    registered_answer p tenant id q w (err e, v) caller route body h =
        quiet _ v (register_failed env s.connector_registry q.id tenant q.capabilities w h)

    beaten_answer :
        (p : Principal) (tenant : Uuid) (id : String) (w : World) (o : Result (Unit {0}) × World)
        (f : Unit {0} → Response)
        → CallerOf p tenant
        → IsFor heartbeat id
        → (o.1.db ≡ w.db)
          ⊎ (o.1.db
              ≡ record w.db { connectors = heartbeat_rows id (env.now w.reads) w.db.connectors })
        → Served w (finish f o)
    beaten_answer p tenant id w (ok u, v) f caller route (inl same) = quiet _ v same
    beaten_answer p tenant id w (ok u, v) f caller route (inr set) =
        beaten p tenant id _ v caller route set
    beaten_answer p tenant id w (err e, v) f caller route (inl same) = quiet _ v same
    beaten_answer p tenant id w (err e, v) f caller route (inr set) =
        beaten p tenant id _ v caller route set

    run_route-Served :
        (p : Principal) (tenant : Uuid) (route : Route) (id : String) (w : World)
        → CallerOf p tenant
        → IsFor route id
        → Served w (run_route env chi s r (context_of p tenant) route id w)
    unfolding run_route handle_register handle_heartbeat with_principal_and_tenant
    run_route-Served p tenant create id w caller is_for =
        created p tenant id _ caller is_for
          (handle_create-CreateAnswer env s.service (context_of p tenant) r.body w)
    run_route-Served p tenant list id w caller is_for =
        quiet _ _ (handle_list-db env p tenant r.query w)
    run_route-Served p tenant get id w caller is_for = quiet _ _ (handle_get-db env p tenant id w)
    run_route-Served p tenant patch id w caller is_for =
        patched p tenant id _ caller is_for
          (handle_patch-PatchAnswer env s.service (context_of p tenant) id r.body w)
    run_route-Served p tenant register id w caller is_for =
        elim (Option-cases (decode_register r.body)) [
          | inl n ↦ rw (n, handle_register) (quiet _ w refl)
          | inr (q, y) ↦
              rw (y, handle_register) (registered_answer p tenant id q w _ caller is_for y refl)
        ]
    run_route-Served p tenant heartbeat id w caller is_for =
        beaten_answer p tenant id w (ConnectorRuntime.heartbeat env id w) _ caller is_for
          (heartbeat-written env id w)

    follow-Served :
        (p : Principal) (tenant : Uuid) (found : Found) (w : World)
        → CallerOf p tenant
        → find chi r.method r.path v1_routes false ≡ found
        → Served w (follow env chi s r (context_of p tenant) found w)
    unfolding follow
    follow-Served p tenant (to route id) w caller h =
        run_route-Served p tenant route id w caller
          (find_sound chi r.method r.path v1_routes false rows_agree h)
    follow-Served p tenant wrong_method w caller h = quiet _ w refl
    follow-Served p tenant nowhere w caller h = quiet _ w refl

    behind-Served :
        (gate : Gate) (w : World)
        → middleware env s.default_tenant r.header ≡ gate
        → Served w (behind env chi s r gate w)
    unfolding behind
    behind-Served (reject status text) w h = quiet _ w refl
    behind-Served (pass c) w h =
        let (p, tenant, caller, same) = middleware_sound env s.default_tenant r.header h in
        rw same (follow-Served p tenant _ w caller refl)

    v1-Served : (w : World) → Served w (v1 env chi s r w)
    v1-Served w = elim (Bool-cases (chi.under_v1 r.path)) [
      | inl y ↦ rw y (behind-Served (middleware env s.default_tenant r.header) w refl)
      | inr n ↦ rw n (quiet _ w refl)
    ]

    healthz-Served : (w : World) → Served w (healthz env chi s r w)
    healthz-Served w = elim (Bool-cases (str_eq r.method "GET")) [
      | inl y ↦ rw y (quiet _ _ (handle_healthz-db env w))
      | inr n ↦ rw n (quiet _ w refl)
    ]

    -- Whatever an HTTP request carries, it leaves the tables as they were, or it is a POST or PATCH
    -- on the path of a creation, a patch, a registration or a heartbeat, from a caller whose
    -- principal header parses and whose tenant is the header's or the default, and the tables have
    -- changed as that operation's specification says for that caller.
    pub router-Served : (w : World) → Served w (router env chi s r w)
    unfolding router
    router-Served w = elim (Option-cases (chi.match "/healthz" r.path)) [
      | inl n ↦ rw (n, router) (v1-Served w)
      | inr (id, y) ↦ rw (y, router) (healthz-Served w)
    ]
