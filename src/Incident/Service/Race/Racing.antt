-- ===== src/Incident/Service/Race/Racing.antt =====
-- Two patches of one incident whose transactions overlap.
use soarcore.Common.{
  contains-append_right, some_inj, String, ◌≡◌, ◌≢◌, refl, sym, ap, ◌∙◌, true, none, some, List, [],
  ◌∷◌, ◌++◌, arith, contains, ==_refl, ◌==◌, ◌&&◌,
}
use mathlib.Core.Option
use mathlib.Core.Path.{subst}
use soarcore.Errors.{Result, ok}
use soarcore.Auth.{Principal}
use soarcore.World.{Env, Uuid, World, IncidentRow, Db, tick, >>=-eq-ok, along_ok}
use soarcore.Persistence.Pool.{with_tx-eq-ok}
use soarcore.Persistence.Incidents
use soarcore.Persistence.Incidents.{find_row, update_rows, apply_update, coalesce, IncidentUpdate}
use soarcore.Persistence.Incidents.Keys.{find_row-update_rows}
use soarcore.Incident.{Incident, can_transition}
use soarcore.Incident.Rows.{from_row}
use soarcore.Incident.Input.{PatchInput, Plan, plan}
use soarcore.Incident.Transitions.{plan-Follows, plan-IsReading}
use soarcore.Incident.Planned.{Draft, asked, named, new_title}
use soarcore.Incident.Planned.Whole.{plan-asked}
use soarcore.Incident.Service.{Service, write_plan}
use soarcore.Incident.Service.PatchLaws.{patch_rows-Written}
use soarcore.Incident.Service.PatchLaws.{incidents-push_events}
use soarcore.Incident.Service.Race.{patch_reads, patch_writes}

module _ (env : Env) where
  -- What the first part has found out, where the input asks for the status `s`.
  record HasRead (tenant id : Uuid) (s : String) (db : Db) (d : Plan) : Type 0 where
    row : IncidentRow
    found : find_row tenant id db.incidents ≡ some row
    legal : can_transition row.status s ≡ none
    set : d.upd.status ≡ some s
    changes : d.changed_fields ≢ []

  fourth :
      (xs ys zs more : List String)
      → contains (xs ++ (ys ++ (zs ++ "status" ∷ more))) "status" ≡ true
  fourth xs ys zs more = contains-append_right xs (ys ++ (zs ++ "status" ∷ more)) "status" (
      contains-append_right ys (zs ++ "status" ∷ more) "status"
        (contains-append_right zs ("status" ∷ more) "status" refl))

  names-status :
      (prior : Incident) (input : PatchInput) (s : String)
      → input.status ≡ some s
      → contains (asked prior input).names "status" ≡ true
  names-status prior input s h = rw h (
      fourth (named "title" (new_title prior.title input.title))
        (named "description" input.description) (named "severity" input.severity) _)

  plan-HasRead :
      (s : Service) (tenant id : Uuid) (row : IncidentRow) (input : PatchInput) (to : String)
      (db : Db) (w : World) {d : Plan} {w' : World}
      → input.status ≡ some to
      → find_row tenant id db.incidents ≡ some row
      → plan env s.registry (from_row row) input w ≡ (ok d, w')
      → HasRead tenant id to db d
  unfolding from_row
  plan-HasRead s tenant id row input to db w {d} {w'} asks found h =
      let follows = rw asks at (plan-Follows env s.registry (from_row row) input w h) in
      let names : d.changed_fields ≡ (asked (from_row row) input).names =
        ap (λ (x : Draft). x.names) (plan-asked env s.registry (from_row row) input w h) in
      record {
        row = row;
        found = found;
        legal = follows.legal;
        set = follows.set;
        changes = λ empty. absurd (
            ground (
              arith,
              ap (λ l. contains l "status") (sym names ∙ empty),
              names-status (from_row row) input to asks,
            ));
      }

  patch_reads-HasRead :
      (s : Service) (tenant id : Uuid) (input : PatchInput) (to : String) (w : World)
      {x : Incident × Plan} {w' : World}
      → input.status ≡ some to
      → patch_reads env s tenant id input w ≡ (ok x, w')
      → HasRead tenant id to w.db x.1 × (w'.db ≡ w.db)
  unfolding patch_reads
  patch_reads-HasRead s tenant id input to w asks h =
      let (row, v, one, rest) = >>=-eq-ok (Incidents.get_by_id env tenant id) _ w h in
      let (d, v', two, rest') = >>=-eq-ok (plan env s.registry (from_row row) input) _ v rest in
      let (found, same) = Incidents.get_by_id-eq-ok env tenant id w one in
      let still : v'.db ≡ w.db =
        ap (λ (r : Result Plan × World). r.1.db) (sym two)
        ∙ (plan-IsReading env s.registry (from_row row) input v ∙ same) in
      along_ok (λ (x : Incident × Plan) (y : World). HasRead tenant id to w.db x.1 × (y.db ≡ w.db))
        rest' (plan-HasRead s tenant id row input to w.db v asks found two, still)

  write_plan-row :
      (p : Principal) (tenant id corr : Uuid) (prior : Incident) (d : Plan) (names : List String)
      (w : World) (r : IncidentRow) {inc : Incident} {w' : World}
      → d.changed_fields ≡ names
      → d.changed_fields ≢ []
      → find_row tenant id w.db.incidents ≡ some r
      → write_plan env tenant p id prior d names corr w ≡ (ok inc, w')
      → find_row tenant id w'.db.incidents ≡ some (apply_update (Incidents.set_columns env d.upd) r)
  write_plan-row p tenant id corr prior d [] w r same changes found h = absurd (changes same)
  write_plan-row p tenant id corr prior d (n ∷ ns) w r same changes found h =
      let written = patch_rows-Written env tenant p corr id d w h in
      let here : (tenant == tenant && id == id) ≡ true =
        rw (==_refl tenant) (rw (==_refl id) refl) in
      ap (λ b. find_row tenant id b.incidents) written.rows
      ∙ (ap (find_row tenant id) (incidents-push_events env tenant p corr written.events _)
          ∙ (find_row-update_rows tenant id tenant id (Incidents.set_columns env d.upd)
                w.db.incidents
              ∙ (rw here refl
                  ∙ ap (Option.map (apply_update (Incidents.set_columns env d.upd))) found)))

  patch_writes-row :
      (p : Principal) (tenant id corr : Uuid) (x : Incident × Plan) (w : World) (r : IncidentRow)
      (to : String) {inc : Incident} {w' : World}
      → x.1.upd.status ≡ some to
      → x.1.changed_fields ≢ []
      → find_row tenant id w.db.incidents ≡ some r
      → patch_writes env p tenant id corr x w ≡ (ok inc, w')
      → (r' : IncidentRow) × (find_row tenant id w'.db.incidents ≡ some r') × (r'.status ≡ to)
  unfolding patch_writes apply_update
  patch_writes-row p tenant id corr (prior, d) w r to set changes found h =
      let (v, done, same) =
        with_tx-eq-ok env (write_plan env tenant p id prior d d.changed_fields corr) w h in
      (
        apply_update (Incidents.set_columns env d.upd) r,
        ap (λ b. find_row tenant id b.incidents) same
            ∙ write_plan-row p tenant id corr prior d d.changed_fields (tick w) r refl changes found
                done,
        ap (λ o. coalesce o r.status) set,
      )

  -- Two overlapping patches of one incident, to the statuses `a` and `b`, that both read before
  -- either writes and that both succeed: each move was checked against the status that the incident
  -- had at first, and the stored status goes from `a` to `b`, whether the machine has that edge or
  -- not.
  pub racing_patches :
      (s : Service) (p q : Principal) (tenant id corr corr' : Uuid) (first second : PatchInput)
      (a b : String) (w : World) (r : IncidentRow) {x y : Incident × Plan} {w₁ w₂ : World}
      {inc inc' : Incident} {v v' : World}
      → first.status ≡ some a
      → second.status ≡ some b
      → find_row tenant id w.db.incidents ≡ some r
      → patch_reads env s tenant id first w ≡ (ok x, w₁)
      → patch_reads env s tenant id second w₁ ≡ (ok y, w₂)
      → patch_writes env p tenant id corr x w₂ ≡ (ok inc, v)
      → patch_writes env q tenant id corr' y v ≡ (ok inc', v')
      → (can_transition r.status a ≡ none)
        × (can_transition r.status b ≡ none)
        × ((r₁ : IncidentRow) × (r₂ : IncidentRow) × (find_row tenant id v.db.incidents ≡ some r₁)
            × (find_row tenant id v'.db.incidents ≡ some r₂)
            × (r₁.status ≡ a)
            × (r₂.status ≡ b))
  racing_patches s p q tenant id corr corr' first second a b w r {x} {y} {w₁} {w₂} asks_a asks_b
        found read_a read_b write_a write_b =
      let (has_a, same_a) = patch_reads-HasRead s tenant id first a w asks_a read_a in
      let (has_b, same_b) = patch_reads-HasRead s tenant id second b w₁ asks_b read_b in
      let is_a : has_a.row ≡ r = some_inj (sym has_a.found ∙ found) in
      let found₁ : find_row tenant id w₁.db.incidents ≡ some r =
        ap (λ d. find_row tenant id d.incidents) same_a ∙ found in
      let is_b : has_b.row ≡ r = some_inj (sym has_b.found ∙ found₁) in
      let found₂ = ap (λ d. find_row tenant id d.incidents) same_b ∙ found₁ in
      let (r₁, at₁, status₁) =
        patch_writes-row p tenant id corr x w₂ r a has_a.set has_a.changes found₂ write_a in
      let (r₂, at₂, status₂) =
        patch_writes-row q tenant id corr' y _ r₁ b has_b.set has_b.changes at₁ write_b in
      (
        subst (λ (z : IncidentRow). can_transition z.status a ≡ none) is_a has_a.legal,
        subst (λ (z : IncidentRow). can_transition z.status b ≡ none) is_b has_b.legal,
        (r₁, r₂, at₁, at₂, status₁, status₂),
      )
