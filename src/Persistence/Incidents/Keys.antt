-- ===== src/Persistence/Incidents/Keys.antt =====
-- Rows found by tenant and id, before and after an update.
use soarcore.Common.{
  ◌≡◌, refl, false, ◌&&◌, none, some, List, [], ◌∷◌, ◌++◌, arith, ◌==◌, ==_refl, if◌then◌else◌, any,
}
use mathlib.Core.Option
use soarcore.World.{Db, Uuid, IncidentRow}
use soarcore.Persistence.Incidents.{
  IncidentUpdate, find_row, apply_update, update_rows, insert_refuses, push_incident,
}

-- A row that is found is the tenant's, under the id.
pub find_row-eq-some :
    (tenant id : Uuid) (rows : List IncidentRow) {r : IncidentRow}
    → find_row tenant id rows ≡ some r
    → (r.tenant_id ≡ tenant) × (r.id ≡ id)
unfolding find_row
find_row-eq-some tenant id [] h = absurd (ground arith)
find_row-eq-some tenant id (x ∷ rows) {r} h =
    ground (arith, find_row-eq-some tenant id rows {r = r})

-- An update changes the row at its key and no other.
pub find_row-update_rows :
    (tenant id t i : Uuid) (u : IncidentUpdate) (rows : List IncidentRow)
    → find_row t i (update_rows tenant id u rows) ≡ (
        if tenant == t && id == i
        then Option.map (apply_update u) (find_row t i rows)
        else find_row t i rows)
unfolding find_row update_rows apply_update
find_row-update_rows tenant id t i u [] = ground arith
find_row-update_rows tenant id t i u (x ∷ rows) =
    ground (arith, find_row-update_rows tenant id t i u rows)

-- A row with a new id is found under its key once it stands last.
find_row_absent :
    (tenant id : Uuid) (rows : List IncidentRow)
    → any (λ r. r.id == id) rows ≡ false
    → find_row tenant id rows ≡ none
unfolding find_row
find_row_absent tenant id [] h = refl
find_row_absent tenant id (x ∷ rows) h = ground (arith, find_row_absent tenant id rows)

find_row_last :
    (row : IncidentRow) (rows : List IncidentRow)
    → find_row row.tenant_id row.id rows ≡ none
    → find_row row.tenant_id row.id (rows ++ row ∷ []) ≡ some row
unfolding find_row
find_row_last row [] h = rw (==_refl row.tenant_id, ==_refl row.id) refl
find_row_last row (x ∷ rows) h = ground (arith, find_row_last row rows)

pub find_row-push_incident :
    (row : IncidentRow) (db : Db)
    → insert_refuses row db ≡ none
    → find_row row.tenant_id row.id (push_incident row db).incidents ≡ some row
unfolding insert_refuses
find_row-push_incident row db h =
    find_row_last row db.incidents
      (find_row_absent row.tenant_id row.id db.incidents (ground arith))
