-- ===== src/Incident/Service/Isolation.antt =====
-- What a patch leaves alone, and what Get finds after a Create.

use mathlib.Core.Option
use mathlib.Core.Path.{subst}
use soarcore.Persistence.Incidents.{push_incident, insert_refuses, in_columns, set_columns}
use soarcore.Audit.{Target}
use soarcore.Common.{
  String, Option, some_inj, ◌≡◌, inl, inr, refl, sym, ap, ◌∙◌, false, ◌&&◌, some, List, ◌==◌,
}
use soarcore.Errors.{Result, ok, err}
use soarcore.Auth.{Principal}
use soarcore.Schema.{Registry}
use soarcore.World.{Env, Uuid, World, IncidentRow, Db}
use soarcore.Persistence.Incidents.{IncidentUpdate, find_row, update_rows}
use soarcore.Persistence.Incidents.Keys.{find_row-update_rows}
use soarcore.Incident.{Incident}
use soarcore.Incident.Input.{PatchInput}
use soarcore.Persistence.Incidents
use soarcore.Persistence.Incidents.Keys.{find_row-push_incident}
use soarcore.Incident.Rows.{to_row, from_row, marshal_attributes}
use soarcore.Incident.Rows.Laws.{stored_attributes, from_row-to_row}
use soarcore.Incident.Input.{CreateInput}
use soarcore.World.{>>=-eq-ok, along_ok}
use soarcore.Incident.Service.CreateLaws.{create-Created}
use soarcore.Incident.Service.{create, get, Service, patch}
use soarcore.Incident.Service.Steps.{IsRefusal}
use soarcore.Incident.Service.PatchLaws.{incidents-push_events}
use soarcore.Incident.Service.Patched.{Patched, patch-Patched, patch_failed}

module _ (env : Env) where
  pub incidents-IsRefusal :
      (tenant : Uuid) (p : Principal) (corr : Uuid) (action : String) (target : Option Target)
      (before after : Db)
      → IsRefusal env tenant p corr action target before after
      → after.incidents ≡ before.incidents
  incidents-IsRefusal tenant p corr action target before after (inl same) =
      ap (λ b. b.incidents) same
  incidents-IsRefusal tenant p corr action target before after (inr (a, _, set)) =
      ap (λ b. b.incidents) set

  -- The row at another key.
  other_row :
      (tenant id t i : Uuid) (u : IncidentUpdate) (rows : List IncidentRow)
      → (tenant == t && id == i) ≡ false
      → find_row t i (update_rows tenant id u rows) ≡ find_row t i rows
  other_row tenant id t i u rows n = find_row-update_rows tenant id t i u rows ∙ rw n refl

  -- The incidents after a patch that returns, at any other key.
  pub Patched-isolated :
      (registry : Registry) (p : Principal) (given tenant id t i : Uuid) (input : PatchInput)
      (inc : Incident) (before after : Db)
      → (tenant == t && id == i) ≡ false
      → Patched env registry given tenant p id input inc before after
      → find_row t i after.incidents ≡ find_row t i before.incidents
  Patched-isolated registry p given tenant id t i input inc before after n h = elim h.outcome [
    | inl (_, _, same) ↦ ap (λ b. find_row t i b.incidents) same
    | inr (_, _, written) ↦
        ap (λ b. find_row t i b.incidents) written.rows
        ∙ (ap (find_row t i) (incidents-push_events env tenant p h.corr written.events _)
            ∙ other_row tenant id t i (set_columns env h.draft.upd) before.incidents n)
  ]

  patch_isolated_result :
      (s : Service) (p : Principal) (tenant id t i : Uuid) (input : PatchInput) (corr : Uuid)
      (w : World) (r : Result Incident × World)
      → (tenant == t && id == i) ≡ false
      → patch env s p tenant id input corr w ≡ r
      → find_row t i r.1.db.incidents ≡ find_row t i w.db.incidents
  patch_isolated_result s p tenant id t i input corr w (ok inc, v) n h =
      Patched-isolated s.registry p corr tenant id t i input inc w.db v.db n
        (patch-Patched env s p tenant id input corr w h).1
  patch_isolated_result s p tenant id t i input corr w (err e, v) n h =
      elim (patch_failed env s p tenant id input corr w h) [
        | inl (_, inl same) ↦ ap (λ b. find_row t i b.incidents) same
        | inl (_, inr (inc, done)) ↦
            Patched-isolated s.registry p corr tenant id t i input inc w.db v.db n done
        | inr (_, left) ↦ ap (find_row t i) (incidents-IsRefusal tenant p corr _ _ w.db v.db left)
      ]

  -- A patch of one tenant's incident, whatever it returns, leaves every incident under another
  -- tenant or id as it was.
  patch_isolated :
      (s : Service) (p : Principal) (tenant id t i : Uuid) (input : PatchInput) (corr : Uuid)
      (w : World)
      → (tenant == t && id == i) ≡ false
      → find_row t i (patch env s p tenant id input corr w).1.db.incidents
        ≡ find_row t i w.db.incidents
  patch_isolated s p tenant id t i input corr w n =
      patch_isolated_result s p tenant id t i input corr w _ n refl

  get_row :
      (tenant id : Uuid) (w : World) {inc : Incident} {w' : World}
      → get env tenant id w ≡ (ok inc, w')
      → (row : IncidentRow) × (find_row tenant id w.db.incidents ≡ some row) × (inc ≡ from_row row)
  unfolding get
  get_row tenant id w {inc} h =
      let (row, v, one, two) = >>=-eq-ok (Incidents.get_by_id env tenant id) _ w h in
      let (found, same) = Incidents.get_by_id-eq-ok env tenant id w one in
      (row, found, along_ok (λ x y. x ≡ from_row row) two refl)

  -- What Get returns after a Create of the same tenant, before anything else has been written, is
  -- the incident that Create returned, but that its times are as the columns keep them and a nil map of
  -- attributes has become an empty one.
  pub get-create :
      (s : Service) (p : Principal) (tenant : Uuid) (i : CreateInput) (corr : Uuid) (w v : World)
      {inc got : Incident} {w' v' : World}
      → create env s p tenant i corr w ≡ (ok inc, w')
      → v.db ≡ w'.db
      → get env tenant inc.id v ≡ (ok got, v')
      → got ≡ record inc {
        attributes = some (stored_attributes inc.attributes);
        created_at = env.stored inc.created_at;
        updated_at = env.stored inc.updated_at;
        closed_at = Option.map env.stored inc.closed_at;
      }
  unfolding to_row insert_refuses
  get-create s p tenant i corr w v {inc} {got} {w' = x} made same read =
      let made_is = (create-Created env s p tenant i corr w made).3 in
      let row = in_columns env (to_row inc (some (marshal_attributes i.attributes))) in
      let (r, found, got_is) = get_row tenant inc.id v read in
      let of_tenant : inc.tenant_id ≡ tenant =
        ap (λ (j : Incident). j.tenant_id) made_is.incident_is in
      let of_attributes : inc.attributes ≡ i.attributes =
        ap (λ (j : Incident). j.attributes) made_is.incident_is in
      let stored : find_row tenant inc.id v.db.incidents ≡ some row =
        ap (λ b. find_row tenant inc.id b.incidents) (same ∙ made_is.rows)
        ∙ subst (λ t. find_row t inc.id (push_incident row w.db).incidents ≡ some row) of_tenant
            (find_row-push_incident row w.db made_is.fits) in
      let is_row : r ≡ row = some_inj (sym found ∙ stored) in
      got_is
      ∙ (ap from_row is_row
          ∙ (ap (λ a. from_row (in_columns env (to_row inc (some (marshal_attributes a)))))
                (sym of_attributes)
              ∙ from_row-to_row env inc))
