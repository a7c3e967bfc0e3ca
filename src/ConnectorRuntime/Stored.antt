-- ===== src/ConnectorRuntime/Stored.antt =====
-- internal/connectorruntime/runtime.go: the row that a registration leaves, column by column.
use soarcore.Common.{
  String, ◌≡◌, ◌≢◌, inl, inr, refl, sym, ap, ◌∙◌, Option, none, some, List, [], ◌∷◌, eq_iff, str_eq,
  Bool-cases,
}
use soarcore.Schema.{Registry}
use soarcore.World.{Db, Uuid, Time, ConnectorRow}
use soarcore.Persistence.Connectors.{upsert_rows, find_connector}
use soarcore.ConnectorRuntime.{Capabilities, capabilities_json, connector_row}

abbrev pub heartbeat_of : Option ConnectorRow → Option Time
heartbeat_of none = none
heartbeat_of (some row) = row.last_heartbeat_at

-- The connector is stored in `after`: its row has the declared capabilities, is active, not
-- deregistered and registered at `at`, and keeps the heartbeat of the row under its id in `before`,
-- where there is one; the row of every other connector, and every other table, is as in `before`.
pub record IsStored (registry : Registry) (id : String) (tenant : Uuid) (caps : Capabilities)
    (at : Time) (before after : Db) : Type 0 where
  pub row : ConnectorRow
  pub found : find_connector id after.connectors ≡ some row
  pub id_is : row.id ≡ id
  pub tenant_is : row.tenant_id ≡ tenant
  pub capabilities_is : row.capabilities ≡ capabilities_json registry.decimal caps
  pub status_is : row.status ≡ "active"
  pub registered_is : row.registered_at ≡ at
  pub not_deregistered : row.deregistered_at ≡ none
  pub heartbeat_is : row.last_heartbeat_at ≡ heartbeat_of (find_connector id before.connectors)
  pub others :
      (other : String)
      → other ≢ id
      → find_connector other after.connectors ≡ find_connector other before.connectors
  pub rest_kept :
      (after.incidents ≡ before.incidents)
      × (after.audits ≡ before.audits)
      × (after.outbox ≡ before.outbox)
      × (after.next_outbox_id ≡ before.next_outbox_id)

module _ (registry : Registry) (id : String) (tenant : Uuid) (caps : Capabilities) (at : Time) where
  abbrev new : ConnectorRow
  new = connector_row registry id tenant caps at

  -- The row under the id once `new` is upserted into `rows`.
  record Upserted (rows : List ConnectorRow) : Type 0 where
    row : ConnectorRow
    found : find_connector id (upsert_rows new rows) ≡ some row
    id_is : row.id ≡ id
    tenant_is : row.tenant_id ≡ tenant
    capabilities_is : row.capabilities ≡ capabilities_json registry.decimal caps
    status_is : row.status ≡ "active"
    registered_is : row.registered_at ≡ at
    not_deregistered : row.deregistered_at ≡ none
    heartbeat_is : row.last_heartbeat_at ≡ heartbeat_of (find_connector id rows)

  upsert_rows-Upserted : (rows : List ConnectorRow) → Upserted rows
  unfolding find_connector upsert_rows
  upsert_rows-Upserted [] = record {
    row = new;
    found = rw ((eq_iff id id).1 refl) refl;
    id_is = refl;
    tenant_is = refl;
    capabilities_is = refl;
    status_is = refl;
    registered_is = refl;
    not_deregistered = refl;
    heartbeat_is = refl;
  }
  upsert_rows-Upserted (r ∷ rows) = elim (Bool-cases (str_eq r.id id)) [
    | inl y ↦ record {
      row = record new { id = r.id; last_heartbeat_at = r.last_heartbeat_at };
      found = rw (y, find_connector, upsert_rows) (rw y refl);
      id_is = (eq_iff r.id id).0 y;
      tenant_is = refl;
      capabilities_is = refl;
      status_is = refl;
      registered_is = refl;
      not_deregistered = refl;
      heartbeat_is = rw (y, find_connector) refl;
    }
    | inr n ↦
        let later = upsert_rows-Upserted rows in
        record {
          row = later.row;
          found = rw (n, find_connector, upsert_rows) (rw n later.found);
          id_is = later.id_is;
          tenant_is = later.tenant_is;
          capabilities_is = later.capabilities_is;
          status_is = later.status_is;
          registered_is = later.registered_is;
          not_deregistered = later.not_deregistered;
          heartbeat_is = rw (n, find_connector) later.heartbeat_is;
        }
  ]

  upsert_rows-others :
      (other : String) (rows : List ConnectorRow)
      → other ≢ id
      → find_connector other (upsert_rows new rows) ≡ find_connector other rows
  unfolding find_connector upsert_rows
  upsert_rows-others other [] ne = elim (Bool-cases (str_eq id other)) [
    | inl y ↦ absurd (ne (sym ((eq_iff id other).0 y)))
    | inr n ↦ rw n refl
  ]
  upsert_rows-others other (r ∷ rows) ne = elim (Bool-cases (str_eq r.id id)) [
    | inl y ↦
        rw (y, upsert_rows)
          (elim (Bool-cases (str_eq r.id other)) [
            | inl z ↦ absurd (ne (sym ((eq_iff r.id other).0 z) ∙ (eq_iff r.id id).0 y))
            | inr n ↦ rw (n, find_connector) refl
          ])
    | inr n ↦
        rw (n, upsert_rows)
          (elim (Bool-cases (str_eq r.id other)) [
            | inl z ↦ rw (z, find_connector) refl
            | inr m ↦ rw (m, find_connector) (upsert_rows-others other rows ne)
          ])
  ]

  pub upsert_rows-IsStored :
      (before after : Db)
      → after ≡ record before { connectors = upsert_rows new before.connectors }
      → IsStored registry id tenant caps at before after
  upsert_rows-IsStored before after set =
      let here = upsert_rows-Upserted before.connectors in
      record {
        row = here.row;
        found = ap (λ b. find_connector id b.connectors) set ∙ here.found;
        id_is = here.id_is;
        tenant_is = here.tenant_is;
        capabilities_is = here.capabilities_is;
        status_is = here.status_is;
        registered_is = here.registered_is;
        not_deregistered = here.not_deregistered;
        heartbeat_is = here.heartbeat_is;
        others = λ other ne.
            ap (λ b. find_connector other b.connectors) set
            ∙ upsert_rows-others other before.connectors ne;
        rest_kept = (
          ap (λ b. b.incidents) set,
          ap (λ b. b.audits) set,
          ap (λ b. b.outbox) set,
          ap (λ b. b.next_outbox_id) set,
        );
      }
