-- ===== src/Api/Router/Reading.antt =====
-- The requests that write nothing, and what a heartbeat writes.
use soarcore.Common.{
  String, ◌≡◌, ◌⊎◌, inl, inr, refl, ap, ◌∙◌, Option, none, some, List, arith, Option-cases,
}
use soarcore.Common.Int.{ℤ}
use soarcore.Errors.{Result, ok, err}
use soarcore.Auth.{Principal}
use soarcore.World.{Env, Uuid, Time, World, IsReading, >>=-IsReading, query-db, exec, query}
use soarcore.Persistence.Incidents
use soarcore.Persistence.Connectors
use soarcore.Persistence.Connectors.{heartbeat_rows}
use soarcore.Incident.Service.{get as get_incident, list as list_incidents}
use soarcore.ConnectorRuntime
use soarcore.ConnectorRuntime.{Registration, Capabilities}
use soarcore.Api.{Response, finish, with_principal_and_tenant}
use soarcore.Api.Incidents.{handle_get}
use soarcore.Api.Listing.{handle_list, answer_list}
use soarcore.Api.Query.{parse_time}
use soarcore.Api.Router.{handle_healthz, health_answer}

finish-world {ℓ} : {A : Type ℓ} (f : A → Response) (x : Result A × World) → (finish f x).1 ≡ x.1
finish-world f (ok a, w) = refl
finish-world f (err e, w) = refl

module _ (env : Env) where
  pub get-IsReading : (tenant id : Uuid) → IsReading (get_incident env tenant id)
  unfolding get_incident Incidents.get_by_id
  get-IsReading tenant id =
      >>=-IsReading (Incidents.get_by_id env tenant id) _ (λ w. query-db env _ _ w) (λ row w. refl)

  pub list-IsReading :
      (tenant : Uuid) (statuses : List String) (since until : Time) (limit offset : ℤ)
      → IsReading (list_incidents env tenant statuses since until limit offset)
  unfolding list_incidents Incidents.list
  list-IsReading tenant statuses since until limit offset =
      >>=-IsReading (Incidents.list env _) _ (λ w. query-db env _ _ w) (λ rows w. refl)

  -- A heartbeat stamps the connector of its id, or leaves the tables.
  pub heartbeat-written :
      (id : String) (w : World)
      → ((ConnectorRuntime.heartbeat env id w).1.db ≡ w.db)
        ⊎ ((ConnectorRuntime.heartbeat env id w).1.db
            ≡ record w.db { connectors = heartbeat_rows id (env.now w.reads) w.db.connectors })
  unfolding ConnectorRuntime.heartbeat Connectors.heartbeat exec
  heartbeat-written id w = ground arith

  pub handle_get-db :
      (p : Principal) (tenant : Uuid) (id_text : String) (w : World)
      → (handle_get env (record { principal = some p; tenant = some tenant }) id_text w).1.db ≡ w.db
  unfolding handle_get with_principal_and_tenant
  handle_get-db p tenant id_text w = elim (Option-cases (env.uuid_parse id_text)) [
    | inl n ↦ rw (n, handle_get) refl
    | inr (id, y) ↦
        rw (y, handle_get)
          (ap (λ (v : World). v.db) (finish-world _ (get_incident env tenant id w))
            ∙ get-IsReading tenant id w)
  ]

  answer_list-db :
      (tenant : Uuid) (query : String → String) (since until : Option Time) (w : World)
      → (answer_list env tenant query since until w).1.db ≡ w.db
  unfolding answer_list
  answer_list-db tenant query none until w = refl
  answer_list-db tenant query (some since) none w = refl
  answer_list-db tenant query (some since) (some until) w =
      ap (λ (v : World). v.db) (finish-world _ _) ∙ list-IsReading tenant _ since until _ _ w

  pub handle_list-db :
      (p : Principal) (tenant : Uuid) (query : String → String) (w : World)
      → (handle_list env (record { principal = some p; tenant = some tenant }) query w).1.db ≡ w.db
  unfolding handle_list with_principal_and_tenant
  handle_list-db p tenant query w =
      answer_list-db tenant query (parse_time env (query "since")) (parse_time env (query "until"))
        w

  health_answer-db : (x : Result (Unit {0}) × World) → (health_answer env x).1 ≡ x.1
  health_answer-db (ok u, w) = refl
  health_answer-db (err e, w) = refl

  pub handle_healthz-db : (w : World) → (handle_healthz env w).1.db ≡ w.db
  unfolding handle_healthz
  handle_healthz-db w =
      ap (λ (v : World). v.db) (health_answer-db (query env "select" (λ db. ok tt) w))
      ∙ query-db env "select" (λ db. ok tt) w
