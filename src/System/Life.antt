-- ===== src/System/Life.antt =====
-- The life of an incident over every sequence of operations: its row stays, and its status moves
-- along the edges of `Incident.Machine`.
use soarcore.Common.{
  String, ◌≡◌, ◌⊎◌, inl, inr, refl, sym, ap, ◌∙◌, ◌&&◌, some, some_inj, List, [], ◌∷◌, ◌++◌, arith,
  ◌==◌, Bool-cases,
}
use mathlib.Core.Option
use mathlib.Core.Path.{subst, ap₂}
use soarcore.Events.Bus.{Publisher}
use soarcore.World.{Env, Uuid, IncidentRow}
use soarcore.Persistence.Incidents.{IncidentUpdate, find_row, apply_update, coalesce}
use soarcore.Persistence.Incidents.Keys.{find_row-update_rows}
use soarcore.Incident.Machine.{Edge, can_transition-Edge}
use soarcore.Relay.{State}
use soarcore.Relay.Incidents.{drain_once-incidents}
use soarcore.System.{Step, creates, patches, serves, drains}
use soarcore.System.Incidents.{
  Changes, kept, added, updated, StatusSet, create-Changes, patch-Changes, router-Changes,
}

-- What stays of a row, and how its status may have moved.
pub record Moved (r r' : IncidentRow) : Type 0 where
  pub status_is : (r.status ≡ r'.status) ⊎ Edge r.status r'.status
  pub same_key : (r'.tenant_id ≡ r.tenant_id) × (r'.id ≡ r.id)
  pub same_birth : r'.created_at ≡ r.created_at
  pub same_source :
      (r'.external_id ≡ r.external_id) × (r'.source_connector_id ≡ r.source_connector_id)

still : (r : IncidentRow) → Moved r r
still r = record {
  status_is = inl refl;
  same_key = (refl, refl);
  same_birth = refl;
  same_source = (refl, refl);
}

coalesce_status :
    (from : String) (u : IncidentUpdate)
    → StatusSet from u
    → (from ≡ coalesce u.status from) ⊎ Edge from (coalesce u.status from)
coalesce_status from u (inl (n, _)) = inl (rw n refl)
coalesce_status from u (inr (s, e, _, legal, _)) = rw e (can_transition-Edge from s legal)

apply_update-Moved :
    (u : IncidentUpdate) (r : IncidentRow) → StatusSet r.status u → Moved r (apply_update u r)
unfolding apply_update
apply_update-Moved u r h = record {
  status_is = coalesce_status r.status u h;
  same_key = (refl, refl);
  same_birth = refl;
  same_source = (refl, refl);
}

find_row-append_left :
    (t i : Uuid) (rows more : List IncidentRow) {r : IncidentRow}
    → find_row t i rows ≡ some r
    → find_row t i (rows ++ more) ≡ some r
unfolding find_row
find_row-append_left t i [] more h = absurd (ground arith)
find_row-append_left t i (x ∷ rows) more {r} h =
    ground (arith, find_row-append_left t i rows more {r = r})

-- The row at a key, after a change of the table.
Changes-Moved :
    (t i : Uuid) (before later : List IncidentRow) (r : IncidentRow)
    → Changes before later
    → find_row t i before ≡ some r
    → (r' : IncidentRow) × (find_row t i later ≡ some r') × Moved r r'
Changes-Moved t i before later r (kept same) h = (r, ap (find_row t i) same ∙ h, still r)
Changes-Moved t i before later r (added row _ set) h =
    (r, ap (find_row t i) set ∙ find_row-append_left t i before (row ∷ []) h, still r)
Changes-Moved t i before later r (updated tenant id u prior found _ moves set) h =
    let all = ap (find_row t i) set ∙ find_row-update_rows tenant id t i u before in
    elim (Bool-cases (tenant == t && id == i)) [
      | inr n ↦ (r, all ∙ (rw n refl ∙ h), still r)
      | inl y ↦
          let at_key : find_row tenant id before ≡ find_row t i before =
            ap₂ (λ x y. find_row x y before) (ground arith) (ground arith) in
          let same : prior ≡ r = some_inj (sym found ∙ (at_key ∙ h)) in
          (
            apply_update u r,
            all ∙ (rw y refl ∙ ap (Option.map (apply_update u)) h),
            apply_update-Moved u r (subst (λ (x : IncidentRow). StatusSet x.status u) same moves),
          )
    ]

module _ (env : Env) (publisher : Publisher) where
  pub Step-Changes :
      (s t : State publisher)
      → Step env publisher s t
      → Changes s.world.db.incidents t.world.db.incidents
  Step-Changes s _ (creates service p tenant i corr) =
      create-Changes env service p tenant i corr s.world
  Step-Changes s _ (patches service p tenant id i corr) =
      patch-Changes env service p tenant id i corr s.world
  Step-Changes s _ (serves chi server r) = router-Changes env chi server r s.world
  Step-Changes s _ drains = kept (drain_once-incidents env publisher s)

  -- One operation, whichever it is and however it ends, loses no incident: the row stays under its
  -- tenant and id with its time of creation, its external id and its source connector, and its status
  -- is the same or has moved along one edge of the machine: one that the documentation draws, or the one
  -- from in_progress to resolved, which only the code has.
  pub Step-Moved :
      (s t : State publisher) (tenant id : Uuid) (r : IncidentRow)
      → Step env publisher s t
      → find_row tenant id s.world.db.incidents ≡ some r
      → (r' : IncidentRow) × (find_row tenant id t.world.db.incidents ≡ some r') × Moved r r'
  Step-Moved s t tenant id r step found =
      Changes-Moved tenant id s.world.db.incidents t.world.db.incidents r (Step-Changes s t step)
        found
