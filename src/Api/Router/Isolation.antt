-- ===== src/Api/Router/Isolation.antt =====
-- What an HTTP request leaves of the incidents of a tenant that it does not speak for.
use soarcore.Common.{
  ◌≡◌, inl, inr, refl, ap, ◌∙◌, false, ◌&&◌, Option, some, some_inj, List, [], ◌∷◌, ◌++◌, ◌==◌,
  ==_iff, Bool-cases,
}
use mathlib.Core.Path.{subst}
use soarcore.Json.{Json}
use soarcore.Auth.{Principal}
use soarcore.Auth.Callers.{Caller}
use soarcore.World.{Env, Uuid, World, IncidentRow, Db}
use soarcore.Schema.{Registry}
use soarcore.Persistence.Incidents.{find_row, is_at, in_columns}
use soarcore.Incident.{Incident}
use soarcore.Incident.Rows.{to_row, marshal_attributes}
use soarcore.Incident.Input.{CreateInput}
use soarcore.Incident.Service.CreateLaws.{Created}
use soarcore.Incident.Service.Isolation.{incidents-IsRefusal, Patched-isolated}
use soarcore.Api.{Response}
use soarcore.Api.Outcomes.{CreateAnswer, PatchAnswer}
use soarcore.Api.Router.{Request, Chi, Server, router}
use soarcore.Api.Router.Served.{Served, quiet, created, patched, registered, beaten, router-Served}

find_row-append_other :
    (t i : Uuid) (x : IncidentRow) (rows : List IncidentRow)
    → is_at t i x ≡ false
    → find_row t i (rows ++ x ∷ []) ≡ find_row t i rows
unfolding find_row
find_row-append_other t i x [] n = rw n refl
find_row-append_other t i x (r ∷ rows) n = elim (Bool-cases (is_at t i r)) [
  | inl y ↦ rw (y, find_row) refl
  | inr m ↦ rw (m, find_row) (find_row-append_other t i x rows n)
]

module _ (env : Env) (t i : Uuid) where
  Created-isolated :
      (given tenant : Uuid) (p : Principal) (input : CreateInput) (inc : Incident)
      (before after : Db)
      → (tenant == t) ≡ false
      → Created env given tenant p input inc before after
      → find_row t i after.incidents ≡ find_row t i before.incidents
  unfolding to_row
  Created-isolated given tenant p input inc before after other h =
      let of_tenant : inc.tenant_id ≡ tenant = ap (λ (j : Incident). j.tenant_id) h.incident_is in
      let apart : (inc.tenant_id == t) ≡ false = rw of_tenant other in
      ap (λ b. find_row t i b.incidents) h.rows
      ∙ find_row-append_other t i
          (in_columns env (to_row inc (some (marshal_attributes input.attributes))))
          before.incidents (rw apart refl)

  CreateAnswer-isolated :
      (p : Principal) (tenant : Uuid) (body : Option Json) (w : World) (o : Response × World)
      → (tenant == t) ≡ false
      → CreateAnswer env (some p) (some tenant) body w o
      → find_row t i o.1.db.incidents ≡ find_row t i w.db.incidents
  CreateAnswer-isolated p tenant body w _ other
        (CreateAnswer.created p' tenant' r inc v _ whose _ made) =
      let same : tenant ≡ tenant' = some_inj whose in
      Created-isolated _ tenant' p' r.input inc w.db v.db (rw same at other) made
  CreateAnswer-isolated p tenant body w _ other
        (CreateAnswer.unknown p' tenant' r inc a v _ whose _ _ made) =
      let same : tenant ≡ tenant' = some_inj whose in
      Created-isolated _ tenant' p' r.input inc w.db v.db (rw same at other) made
  CreateAnswer-isolated p tenant body w _ other
        (CreateAnswer.refused p' tenant' corr a v _ _ _ left) =
      ap (find_row t i) (incidents-IsRefusal env tenant' p' corr _ _ w.db v.db left)
  CreateAnswer-isolated p tenant body w _ other (CreateAnswer.failed a v _ same) =
      ap (λ b. find_row t i b.incidents) same

  PatchAnswer-isolated :
      (registry : Registry) (p : Principal) (tenant : Uuid) (named : Option Uuid)
      (body : Option Json) (w : World) (o : Response × World)
      → (tenant == t) ≡ false
      → PatchAnswer env registry (some p) (some tenant) named body w o
      → find_row t i o.1.db.incidents ≡ find_row t i w.db.incidents
  PatchAnswer-isolated registry p tenant named body w _ other
        (PatchAnswer.patched p' tenant' id r a inc v _ whose _ _ _ done) =
      let same : tenant ≡ tenant' = some_inj whose in
      let apart : (tenant' == t && id == i) ≡ false = rw (rw same at other) refl in
      Patched-isolated env registry p' _ tenant' id t i _ inc w.db v.db apart done
  PatchAnswer-isolated registry p tenant named body w _ other
        (PatchAnswer.unknown p' tenant' id r a inc answer v _ whose _ _ _ _ done) =
      let same : tenant ≡ tenant' = some_inj whose in
      let apart : (tenant' == t && id == i) ≡ false = rw (rw same at other) refl in
      Patched-isolated env registry p' _ tenant' id t i _ inc w.db v.db apart done
  PatchAnswer-isolated registry p tenant named body w _ other
        (PatchAnswer.refused p' tenant' id corr a v _ _ _ left) =
      ap (find_row t i) (incidents-IsRefusal env tenant' p' corr _ _ w.db v.db left)
  PatchAnswer-isolated registry p tenant named body w _ other (PatchAnswer.failed a v _ same) =
      ap (λ b. find_row t i b.incidents) same

  module _ (chi : Chi) (s : Server) (r : Request) where
    -- The tenant of a caller is another one, where nobody calls for `t`.
    apart :
        (p : Principal) (tenant : Uuid)
        → ((q : Principal) → Caller env s.default_tenant r.header q t → ⊥)
        → Caller env s.default_tenant r.header p tenant
        → (tenant == t) ≡ false
    apart p tenant nobody caller = elim (Bool-cases (tenant == t)) [
      | inl y ↦
          absurd (
            nobody p
              (subst (Caller env s.default_tenant r.header p) ((==_iff tenant t).0 y) caller))
      | inr n ↦ n
    ]

    Served-isolated :
        (w : World) (o : Response × World)
        → ((q : Principal) → Caller env s.default_tenant r.header q t → ⊥)
        → Served env chi s r w o
        → find_row t i o.1.db.incidents ≡ find_row t i w.db.incidents
    Served-isolated w _ nobody (quiet given v same) = ap (λ b. find_row t i b.incidents) same
    Served-isolated w _ nobody (created p tenant id o caller _ given) =
        CreateAnswer-isolated p tenant r.body w o (apart p tenant nobody caller) given
    Served-isolated w _ nobody (patched p tenant id o caller _ given) =
        PatchAnswer-isolated s.service.registry p tenant _ r.body w o (apart p tenant nobody caller)
          given
    Served-isolated w _ nobody (registered p tenant id q reg v caller _ _ done) =
        ap (find_row t i) done.stored.rest_kept.0
    Served-isolated w _ nobody (beaten p tenant id given v caller _ set) =
        ap (λ b. find_row t i b.incidents) set

    -- An HTTP request whose headers name no caller of the tenant `t` leaves every incident of `t` as
    -- it was, whatever its method, path and body are and whatever it answers.
    pub router-isolated :
        (w : World)
        → ((q : Principal) → Caller env s.default_tenant r.header q t → ⊥)
        → find_row t i (router env chi s r w).1.db.incidents ≡ find_row t i w.db.incidents
    router-isolated w nobody = Served-isolated w _ nobody (router-Served env chi s r w)
