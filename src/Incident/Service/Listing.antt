-- ===== src/Incident/Service/Listing.antt =====
-- What List returns.
use soarcore.Common.{◌≤◌, ◌<◌, String, ◌≡◌, refl, List, map}
use soarcore.Common.Int.{ℤ}
use soarcore.Errors.{ok}
use soarcore.World.{Env, Uuid, Time, World, IncidentRow, >>=-eq-ok, along_ok}
use soarcore.Persistence.Incidents
use soarcore.Persistence.Incidents.{ListFilter, effective_limit}
use soarcore.Persistence.Incidents.Selection.{IsSelection, list-eq-ok, effective_limit-bounds}
use soarcore.Incident.{Incident}
use soarcore.Incident.Rows.{from_row}
use soarcore.Incident.Service.{list}

abbrev pub filter_of : Uuid → List String → Time → Time → ℤ → ℤ → ListFilter
filter_of tenant statuses since until limit offset = record {
  tenant_id = tenant;
  statuses = statuses;
  since = since;
  until = until;
  limit = limit;
  offset = offset;
}

-- The incidents of List are rows of the table: the tenant's, with one of the statuses where any are
-- named, created within the bounds that are set, the newest first, and at most the effective limit
-- of them, which is between 1 and 500; no table changes.
pub list-IsSelection :
    (env : Env) (tenant : Uuid) (statuses : List String) (since until : Time) (limit offset : ℤ)
    (w : World) {incs : List Incident} {w' : World}
    → list env tenant statuses since until limit offset w ≡ (ok incs, w')
    → (rows : List IncidentRow) × (incs ≡ map from_row rows)
      × IsSelection (filter_of tenant statuses since until limit offset) w.db.incidents rows
      × (0 < effective_limit limit)
      × (effective_limit limit ≤ 500)
      × (w'.db ≡ w.db)
unfolding list
list-IsSelection env tenant statuses since until limit offset w {incs} {w'} h =
    let f = filter_of tenant statuses since until limit offset in
    let (rows, v, one, two) = >>=-eq-ok (Incidents.list env f) _ w h in
    let (selected, same) = list-eq-ok env f w one in
    let (low, high) = effective_limit-bounds limit in
    (
      rows,
      along_ok (λ x y. x ≡ map from_row rows) two refl,
      selected,
      low,
      high,
      along_ok (λ (x : List Incident) (y : World). y.db ≡ w.db) two same,
    )
