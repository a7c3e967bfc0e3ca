-- ===== src/Persistence/Connectors.antt =====
-- internal/persistence/connectors.go
use soarcore.Common.{
  String, ◌≡◌, inl, inr, sym, ap, ◌∙◌, true, Option, none, some, List, [], ◌∷◌, arith, str_eq,
  if◌then◌else◌, Bool-cases, is_some, contains,
}
use soarcore.Errors.{Error, sentinel, not_found, Result, ok, err}
use soarcore.World.{
  World, exec-eq-ok, exec-eq-err, >>=-eq-ok, Env, Time, ConnectorRow, Db, Exec, exec, query, ◌>>=◌,
  pure, fail,
}

abbrev pub connector_enum : List String
connector_enum = "active" ∷ "stale" ∷ "deregistered" ∷ []

unfoldable pub find_connector : String → List ConnectorRow → Option ConnectorRow
find_connector id [] = none
find_connector id (r ∷ rows) = if str_eq r.id id then some r else find_connector id rows

-- The cast to connector_status.
upsert_refuses : ConnectorRow → Db → Option String
upsert_refuses row db = if contains connector_enum row.status then none else some "connector_status"

-- The columns of the INSERT; the others are NULL.
abbrev pub inserted : ConnectorRow → ConnectorRow
inserted row = record row { last_heartbeat_at = none; deregistered_at = none }

-- DO UPDATE SET: the heartbeat stays.
abbrev pub reregistered : ConnectorRow → ConnectorRow → ConnectorRow
reregistered old row = record old {
  tenant_id = row.tenant_id;
  capabilities = row.capabilities;
  status = row.status;
  registered_at = row.registered_at;
  deregistered_at = none;
}

-- INSERT, or ON CONFLICT (id) DO UPDATE
unfoldable pub upsert_rows : ConnectorRow → List ConnectorRow → List ConnectorRow
upsert_rows row [] = inserted row ∷ []
upsert_rows row (r ∷ rows) =
    if str_eq r.id row.id then reregistered r row ∷ rows else r ∷ upsert_rows row rows

unfoldable pub heartbeat_rows : String → Time → List ConnectorRow → List ConnectorRow
heartbeat_rows id at [] = []
heartbeat_rows id at (r ∷ rows) =
    (if str_eq r.id id then record r { last_heartbeat_at = some at; status = "active" } else r)
    ∷ heartbeat_rows id at rows

module _ (env : Env) where
  unfoldable pub upsert : ConnectorRow → Exec (Unit {0})
  unfolding upsert_refuses
  upsert row =
      exec env "upsert connector" (upsert_refuses row)
        λ db. record db { connectors = upsert_rows row db.connectors }

  unfoldable pub heartbeat : String → Time → Exec (Unit {0})
  heartbeat id at w =
      let affected = is_some (find_connector id w.db.connectors) in
      (exec env "heartbeat connector" (λ db. none)
            (λ db. record db { connectors = heartbeat_rows id at db.connectors })
          >>= λ _. if affected then pure tt else fail (sentinel not_found))
        w

  abbrev found : Option ConnectorRow → Result ConnectorRow
  found none = err (sentinel not_found)
  found (some r) = ok r

  unfoldable pub get_by_id : String → Exec ConnectorRow
  get_by_id id = query env "get connector" λ db. found (find_connector id db.connectors)

  pub upsert-eq-ok :
      (row : ConnectorRow) (w : World) {u : Unit {0}} {w' : World}
      → upsert row w ≡ (ok u, w')
      → w'.db ≡ record w.db { connectors = upsert_rows row w.db.connectors }
  unfolding upsert
  upsert-eq-ok row w h = (exec-eq-ok env _ _ _ w h).1

  pub upsert-eq-err :
      (row : ConnectorRow) (w : World) {e : Error} {w' : World}
      → upsert row w ≡ (err e, w')
      → w'.db ≡ w.db
  unfolding upsert
  upsert-eq-err row w h = exec-eq-err env _ _ _ w h

  -- A heartbeat that succeeds has found the connector, and stamped it.
  pub heartbeat-eq-ok :
      (id : String) (at : Time) (w : World) {u : Unit {0}} {w' : World}
      → heartbeat id at w ≡ (ok u, w')
      → (is_some (find_connector id w.db.connectors) ≡ true)
        × (w'.db ≡ record w.db { connectors = heartbeat_rows id at w.db.connectors })
  unfolding heartbeat
  heartbeat-eq-ok id at w {u} {w'} h =
      let (a, v, first, second) = >>=-eq-ok (exec env _ (λ db. none) _) _ w h in
      let step = exec-eq-ok env _ _ _ w first in
      elim (Bool-cases (is_some (find_connector id w.db.connectors))) [
        | inl y ↦
            (y, sym (ap (λ (r : Result (Unit {0}) × World). r.1.db) (rw y at second)) ∙ step.1)
        | inr n ↦ absurd (ground (arith, rw n at second))
      ]
