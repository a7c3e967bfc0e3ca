-- ===== src/Incident/Service/Patched.antt =====
-- Patch as a whole: what it returns and leaves behind on success and on failure.
use mathlib.Core.Option
use mathlib.Core.Path.{subst}
use soarcore.Common.{
  String, ◌≡◌, ◌≢◌, ◌⊎◌, inl, inr, refl, sym, ap, ◌∙◌, false, none, Option, some, List, [], ◌∷◌,
  arith, ◌==◌, Bool-cases, Option-cases,
}
use soarcore.Errors.{Error, Result, ok, err}
use soarcore.Auth.{Principal}
use soarcore.Schema.{Registry}
use soarcore.World.{Env, Uuid, World, IncidentRow, Db, tick, >>=-eq-ok, along_ok}
use soarcore.Persistence.Pool.{with_tx, with_tx-eq-ok, with_tx-eq-err}
use soarcore.Persistence.Incidents
use soarcore.Persistence.Incidents.{
  IncidentUpdate, find_row, apply_update, update_rows, set_columns,
}
use soarcore.Persistence.Incidents.Keys.{find_row-update_rows}
use soarcore.Incident.{Incident}
use soarcore.Incident.Rows.{from_row}
use soarcore.Incident.Input.{PatchInput, Plan, plan}
use soarcore.Incident.Planned.{draft_of, asked}
use soarcore.Incident.Planned.Whole.{plan-asked}
use soarcore.Incident.Service.Asked.{IsAsAsked, apply_update-IsAsAsked, unchanged-IsAsAsked}
use soarcore.Incident.Transitions.{StatusPart, Follows, status_part, plan-Follows, plan-IsReading}
use soarcore.Incident.Service.{Service, incident_target, write_plan, patch_body, patch, deny}
use soarcore.Incident.Service.Steps.{IsRefusal, deny-IsRefusal}
use soarcore.Incident.Service.PatchLaws.{incidents-push_events, Written, patch_rows-Written}

module _ (env : Env) where
  -- What Patch leaves behind when it returns an incident: the row that it read, the plan that it
  -- made from it, and either nothing, or the writes of that plan.
  pub record Patched (registry : Registry) (given tenant : Uuid) (p : Principal) (id : Uuid)
      (input : PatchInput) (inc : Incident) (before after : Db) : Type 0 where
    pub corr : Uuid
    pub corr_is : (given == 0) ≡ false → corr ≡ given
    pub prior : IncidentRow
    pub draft : Plan
    pub prior_is : find_row tenant id before.incidents ≡ some prior
    pub draft_is :
        (v : World) × (v' : World) × (plan env registry (from_row prior) input v ≡ (ok draft, v'))
    pub status_is : Follows prior.status input.status (status_part draft)
    pub outcome :
        ((draft.changed_fields ≡ []) × (inc ≡ from_row prior) × (after ≡ before))
        ⊎ ((draft.changed_fields ≢ [])
            × (inc ≡ from_row (apply_update (set_columns env draft.upd) prior))
            × Written env tenant p corr id draft inc before after)
    pub stored :
        (row : IncidentRow) × (find_row tenant id after.incidents ≡ some row)
        × IsAsAsked input (Option.map env.stored draft.upd.closed_at) prior row

  module _ (tenant : Uuid) (p : Principal) (id : Uuid) (corr : Uuid) where
    abbrev Outcome : Plan → IncidentRow → Incident → Db → Db → Type 0
    Outcome d prior inc before after =
        ((d.changed_fields ≡ []) × (inc ≡ from_row prior) × (after ≡ before))
        ⊎ ((d.changed_fields ≢ [])
            × (inc ≡ from_row (apply_update (set_columns env d.upd) prior))
            × Written env tenant p corr id d inc before after)

    updated_row :
        (u : IncidentUpdate) (db : Db) {prior row : IncidentRow}
        → find_row tenant id db.incidents ≡ some prior
        → find_row tenant id (update_rows tenant id u db.incidents) ≡ some row
        → apply_update u prior ≡ row
    updated_row u db found later =
        ground (arith, find_row-update_rows tenant id tenant id u db.incidents)

    write_plan-Outcome :
        (prior : IncidentRow) (d : Plan) (names : List String) (w : World) {inc : Incident}
        {w' : World}
        → d.changed_fields ≡ names
        → find_row tenant id w.db.incidents ≡ some prior
        → write_plan env tenant p id (from_row prior) d names corr w ≡ (ok inc, w')
        → Outcome d prior inc w.db w'.db
    write_plan-Outcome prior d [] w e found h =
        along_ok (λ x y. Outcome d prior x w.db y.db) h (inl (e, refl, refl))
    write_plan-Outcome prior d (n ∷ ns) w e found h =
        let written = patch_rows-Written env tenant p corr id d w h in
        inr (
          (λ empty. cc (sym e ∙ empty)),
          written.incident_is
              ∙ ap from_row (sym (updated_row (set_columns env d.upd) w.db found written.row_is)),
          written,
        )

  no_closing :
      (status : String) (o : Option String) (part : StatusPart)
      → Follows status o part
      → o ≡ none
      → part.closed_at ≡ none
  no_closing status none part f e = ap (λ (x : StatusPart). x.closed_at) f
  no_closing status (some s) part f e = absurd (ground (arith, e))

  -- The row that is found after a patch.
  Outcome-stored :
      (tenant : Uuid) (p : Principal) (id corr : Uuid) (input : PatchInput) (d : Plan)
      (prior : IncidentRow) (inc : Incident) (before after : Db)
      → find_row tenant id before.incidents ≡ some prior
      → draft_of d ≡ asked (from_row prior) input
      → Follows prior.status input.status (status_part d)
      → Outcome tenant p id corr d prior inc before after
      → (row : IncidentRow) × (find_row tenant id after.incidents ≡ some row)
        × IsAsAsked input (Option.map env.stored d.upd.closed_at) prior row
  Outcome-stored tenant p id corr input d prior inc before after found as_asked follows
        (inl (empty, _, same)) =
      (
        prior,
        ap (λ (db : Db). find_row tenant id db.incidents) same ∙ found,
        unchanged-IsAsAsked env input d prior as_asked empty
            (no_closing prior.status input.status (status_part d) follows),
      )
  Outcome-stored tenant p id corr input d prior inc before after found as_asked follows
        (inr (_, _, written)) =
      (
        written.row,
        ap (λ (db : Db). find_row tenant id db.incidents) written.rows
            ∙ (ap (find_row tenant id) (incidents-push_events env tenant p corr written.events _)
                ∙ written.row_is),
        subst (IsAsAsked input (Option.map env.stored d.upd.closed_at) prior)
            (updated_row tenant p id corr (set_columns env d.upd) before found written.row_is)
            (apply_update-IsAsAsked env input d prior as_asked),
      )

  patch_body-Patched :
      (s : Service) (p : Principal) (given tenant id : Uuid) (input : PatchInput) (corr : Uuid)
      (w : World) {inc : Incident} {w' : World}
      → ((given == 0) ≡ false → corr ≡ given)
      → patch_body env s p tenant id input corr w ≡ (ok inc, w')
      → Patched s.registry given tenant p id input inc w.db w'.db
  unfolding patch_body
  patch_body-Patched s p given tenant id input corr w {inc} {w' = x} g h =
      let (prior, v, one, rest) = >>=-eq-ok (Incidents.get_by_id env tenant id) _ w h in
      let (d, v', two, rest') = >>=-eq-ok (plan env s.registry (from_row prior) input) _ v rest in
      let (found, same) = Incidents.get_by_id-eq-ok env tenant id w one in
      let still : v'.db ≡ w.db =
        ap (λ (r : Result Plan × World). r.1.db) (sym two)
        ∙ (plan-IsReading env s.registry (from_row prior) input v ∙ same) in
      let follows : Follows prior.status input.status (status_part d) =
        unfold from_row in plan-Follows env s.registry (from_row prior) input v two in
      let outcome =
        subst (λ (db : Db). Outcome tenant p id corr d prior inc db x.db) still
          (write_plan-Outcome tenant p id corr prior d d.changed_fields v' refl
            (subst (λ (db : Db). find_row tenant id db.incidents ≡ some prior) (sym still) found)
            rest') in
      record {
        corr = corr;
        corr_is = g;
        prior = prior;
        draft = d;
        draft_is = (v, v', two);
        prior_is = found;
        status_is = follows;
        outcome = outcome;
        stored =
            Outcome-stored tenant p id corr input d prior inc w.db x.db found
              (plan-asked env s.registry (from_row prior) input v two) follows outcome;
      }

  patch_known :
      (s : Service) (p : Principal) (given tenant id : Uuid) (input : PatchInput) (corr : Uuid)
      (w : World) {inc : Incident} {w' : World}
      → ((given == 0) ≡ false → corr ≡ given)
      → with_tx env (patch_body env s p tenant id input corr) w ≡ (ok inc, w')
      → Patched s.registry given tenant p id input inc w.db w'.db
  patch_known s p given tenant id input corr w {inc} g h =
      let (v, done, same) = with_tx-eq-ok env (patch_body env s p tenant id input corr) w h in
      subst (λ (db : Db). Patched s.registry given tenant p id input inc w.db db) (sym same)
        (patch_body-Patched s p given tenant id input corr (tick w) g done)

  pub patch-Patched :
      (s : Service) (p : Principal) (tenant id : Uuid) (input : PatchInput) (corr : Uuid)
      (w : World) {inc : Incident} {w' : World}
      → patch env s p tenant id input corr w ≡ (ok inc, w')
      → (s.allow p "incident.update" "incident" ≡ none)
        × Patched s.registry corr tenant p id input inc w.db w'.db
  unfolding patch deny
  patch-Patched s p tenant id input corr w h =
      elim (Option-cases (s.allow p "incident.update" "incident")) [
        | inr (e, refused) ↦ absurd (ground arith)
        | inl allowed ↦ elim (Bool-cases (corr == 0)) [
          | inl e ↦ (
            allowed,
            patch_known s p corr tenant id input (env.uuid w.reads) (tick w)
                (λ n. absurd (ground arith)) (rw (allowed, e, patch) at h),
          )
          | inr e ↦ (
            allowed,
            patch_known s p corr tenant id input corr w (λ n. refl) (rw (allowed, e, patch) at h),
          )
        ]
      ]

  -- The transaction of a patch fails, and leaves nothing or the whole patch.
  patch_lost :
      (s : Service) (p : Principal) (given tenant id : Uuid) (input : PatchInput) (corr : Uuid)
      (w : World) {e : Error} {w' : World}
      → ((given == 0) ≡ false → corr ≡ given)
      → with_tx env (patch_body env s p tenant id input corr) w ≡ (err e, w')
      → (w'.db ≡ w.db)
        ⊎ ((inc : Incident) × Patched s.registry given tenant p id input inc w.db w'.db)
  patch_lost s p given tenant id input corr w g h =
      elim (with_tx-eq-err env (patch_body env s p tenant id input corr) w h) [
        | inl same ↦ inl same
        | inr (inc, v, done, same) ↦ inr (
          inc,
          subst (λ (db : Db). Patched s.registry given tenant p id input inc w.db db) (sym same)
              (patch_body-Patched s p given tenant id input corr (tick w) g done),
        )
      ]

  patch_failed_known :
      (s : Service) (p : Principal) (tenant id : Uuid) (input : PatchInput) (corr : Uuid)
      (w : World) {e : Error} {w' : World}
      → s.allow p "incident.update" "incident" ≡ none
      → patch env s p tenant id input corr w ≡ (err e, w')
      → (w'.db ≡ w.db)
        ⊎ ((inc : Incident) × Patched s.registry corr tenant p id input inc w.db w'.db)
  unfolding patch
  patch_failed_known s p tenant id input corr w allowed h = elim (Bool-cases (corr == 0)) [
    | inl e ↦
        patch_lost s p corr tenant id input (env.uuid w.reads) (tick w) (λ n. absurd (ground arith))
          (rw (allowed, e, patch) at h)
    | inr e ↦ patch_lost s p corr tenant id input corr w (λ n. refl) (rw (allowed, e, patch) at h)
  ]

  pub patch_failed :
      (s : Service) (p : Principal) (tenant id : Uuid) (input : PatchInput) (corr : Uuid)
      (w : World) {e : Error} {w' : World}
      → patch env s p tenant id input corr w ≡ (err e, w')
      → ((s.allow p "incident.update" "incident" ≡ none)
          × ((w'.db ≡ w.db)
              ⊎ ((inc : Incident) × Patched s.registry corr tenant p id input inc w.db w'.db)))
        ⊎ ((s.allow p "incident.update" "incident" ≡ some e)
            × IsRefusal env tenant p corr "incident.update" (incident_target id) w.db w'.db)
  unfolding patch
  patch_failed s p tenant id input corr w {e} {w' = x} h =
      elim (Option-cases (s.allow p "incident.update" "incident")) [
        | inl allowed ↦ inl (allowed, patch_failed_known s p tenant id input corr w allowed h)
        | inr (e', refused) ↦
            let (same, left) =
              deny-IsRefusal env tenant p corr "incident.update" (incident_target id) e' w
                (rw (refused, patch) at h) in
            inr (refused ∙ ap some same, left)
      ]
