-- ===== src/System/Incidents.antt =====
-- What each operation does to the table of incidents: a row is added, one is updated, or none.
use mathlib.Core.Option
use soarcore.Common.{
  String, ◌≡◌, ◌⊎◌, inl, inr, refl, sym, ap, ◌∙◌, true, false, Option, none, some, List, [], ◌∷◌,
  ◌++◌, arith, ◌==◌, any, contains, is_some, str_eq,
}
use soarcore.Json.{Json}
use soarcore.Errors.{Result, ok, err}
use soarcore.Auth.{Principal}
use soarcore.Schema.{Registry}
use soarcore.World.{Env, Uuid, World, Db, IncidentRow}
use soarcore.Persistence.Incidents.{
  set_columns, in_columns, IncidentUpdate, find_row, update_rows, insert_refuses, update_refuses,
  severity_enum, in_enum,
}
use soarcore.Incident.{Incident, is_valid_status, can_transition}
use soarcore.Incident.Rows.{to_row, marshal_attributes}
use soarcore.Incident.Input.{CreateInput, PatchInput}
use soarcore.Incident.Transitions.{Follows, StatusPart}
use soarcore.Incident.Service.{Service, create, patch}
use soarcore.Incident.Service.CreateLaws.{Created, create-Created, create_failed}
use soarcore.Incident.Service.Patched.{Patched, patch-Patched, patch_failed}
use soarcore.Incident.Service.Isolation.{incidents-IsRefusal}
use soarcore.Incident.Service.PatchLaws.{incidents-push_events}
use soarcore.Api.{Response}
use soarcore.Api.Outcomes.{CreateAnswer, PatchAnswer}
use soarcore.Api.Router.{Request, Chi, Server, router}
use soarcore.Api.Router.Served.{Served, quiet, created, patched, registered, beaten, router-Served}

-- A row as Create inserts it.
pub record IsNew (row : IncidentRow) (before : List IncidentRow) : Type 0 where
  pub severity_is : contains severity_enum row.severity ≡ true
  pub status_is : row.status ≡ "new"
  pub open_is : row.closed_at ≡ none
  pub id_is : any (λ r. r.id == row.id) before ≡ false

-- What an update does to the status of a row that has `from`: nothing, or a move that the machine
-- allows, with a closing time exactly for closed.
abbrev pub StatusSet : String → IncidentUpdate → Type 0
StatusSet from u =
    ((u.status ≡ none) × (u.closed_at ≡ none))
    ⊎ ((s : String) × (u.status ≡ some s)
        × (is_valid_status s ≡ true)
        × (can_transition from s ≡ none)
        × (is_some u.closed_at ≡ str_eq s "closed"))

pub data Changes (before after : List IncidentRow) : Type 0 where
  kept : after ≡ before → Changes before after
  added : (row : IncidentRow) → IsNew row before → after ≡ before ++ row ∷ [] → Changes before after
  updated :
      (tenant id : Uuid) (u : IncidentUpdate) (prior : IncidentRow)
      → find_row tenant id before ≡ some prior
      → in_enum severity_enum u.severity ≡ true
      → StatusSet prior.status u
      → after ≡ update_rows tenant id u before
      → Changes before after

insert-IsNew :
    (row : IncidentRow) (db : Db)
    → insert_refuses row db ≡ none
    → row.status ≡ "new"
    → row.closed_at ≡ none
    → IsNew row db.incidents
unfolding insert_refuses
insert-IsNew row db fits status open_is = record {
  severity_is = ground arith;
  status_is = status;
  open_is = open_is;
  id_is = ground arith;
}

update_fits :
    (u : IncidentUpdate) (db : Db)
    → update_refuses u db ≡ none
    → in_enum severity_enum u.severity ≡ true
unfolding update_refuses
update_fits u db h = ground arith

Follows-StatusSet :
    (from : String) (asked : Option String) (u : IncidentUpdate) (part : StatusPart)
    → part.status ≡ u.status
    → part.closed_at ≡ u.closed_at
    → Follows from asked part
    → StatusSet from u
Follows-StatusSet from none u part status closing h = inl (
  sym status ∙ ap (λ (p : StatusPart). p.status) h,
  sym closing ∙ ap (λ (p : StatusPart). p.closed_at) h,
)
Follows-StatusSet from (some s) u part status closing h =
    inr (s, sym status ∙ h.set, h.valid, h.legal, ap is_some (sym closing) ∙ h.closing)

is_some-map {ℓ} : {A : Type ℓ} (f : A → A) (o : Option A) → is_some (Option.map f o) ≡ is_some o
is_some-map f none = refl
is_some-map f (some a) = refl

module _ (env : Env) where
  set_columns-StatusSet :
      (from : String) (u : IncidentUpdate) → StatusSet from u → StatusSet from (set_columns env u)
  set_columns-StatusSet from u (inl (status, unclosed)) =
      inl (status, ap (Option.map env.stored) unclosed)
  set_columns-StatusSet from u (inr (s, set, valid, legal, closing)) =
      inr (s, set, valid, legal, is_some-map env.stored u.closed_at ∙ closing)

  Created-Changes :
      (given tenant : Uuid) (p : Principal) (i : CreateInput) (inc : Incident) (before after : Db)
      → Created env given tenant p i inc before after
      → Changes before.incidents after.incidents
  unfolding to_row insert_refuses
  Created-Changes given tenant p i inc before after made =
      let row = in_columns env (to_row inc (some (marshal_attributes i.attributes))) in
      added row
        (insert-IsNew row before made.fits (ap (λ (j : Incident). j.status) made.incident_is)
          (ap (λ (j : Incident). Option.map env.stored j.closed_at) made.incident_is))
        (ap (λ b. b.incidents) made.rows)

  Patched-Changes :
      (registry : Registry) (given tenant : Uuid) (p : Principal) (id : Uuid) (input : PatchInput)
      (inc : Incident) (before after : Db)
      → Patched env registry given tenant p id input inc before after
      → Changes before.incidents after.incidents
  Patched-Changes registry given tenant p id input inc before after h = elim h.outcome [
    | inl (_, _, same) ↦ kept (ap (λ b. b.incidents) same)
    | inr (_, _, written) ↦
        updated tenant id (set_columns env h.draft.upd) h.prior h.prior_is
          (update_fits h.draft.upd before written.fits)
          (set_columns-StatusSet h.prior.status h.draft.upd
            (Follows-StatusSet h.prior.status input.status h.draft.upd _ refl refl h.status_is))
          (ap (λ b. b.incidents) written.rows
            ∙ incidents-push_events env tenant p h.corr written.events _)
  ]

  create_result-Changes :
      (s : Service) (p : Principal) (tenant : Uuid) (i : CreateInput) (corr : Uuid) (w : World)
      (r : Result Incident × World)
      → create env s p tenant i corr w ≡ r
      → Changes w.db.incidents r.1.db.incidents
  create_result-Changes s p tenant i corr w (ok inc, v) h =
      Created-Changes corr tenant p i inc w.db v.db (create-Created env s p tenant i corr w h).3
  create_result-Changes s p tenant i corr w (err e, v) h =
      elim (create_failed env s p tenant i corr w h) [
        | inl (_, inl same) ↦ kept (ap (λ b. b.incidents) same)
        | inl (_, inr (inc, made)) ↦ Created-Changes corr tenant p i inc w.db v.db made
        | inr (_, left) ↦ kept (incidents-IsRefusal env tenant p corr _ _ w.db v.db left)
      ]

  pub create-Changes :
      (s : Service) (p : Principal) (tenant : Uuid) (i : CreateInput) (corr : Uuid) (w : World)
      → Changes w.db.incidents (create env s p tenant i corr w).1.db.incidents
  create-Changes s p tenant i corr w = create_result-Changes s p tenant i corr w _ refl

  patch_result-Changes :
      (s : Service) (p : Principal) (tenant id : Uuid) (input : PatchInput) (corr : Uuid)
      (w : World) (r : Result Incident × World)
      → patch env s p tenant id input corr w ≡ r
      → Changes w.db.incidents r.1.db.incidents
  patch_result-Changes s p tenant id input corr w (ok inc, v) h =
      Patched-Changes s.registry corr tenant p id input inc w.db v.db
        (patch-Patched env s p tenant id input corr w h).1
  patch_result-Changes s p tenant id input corr w (err e, v) h =
      elim (patch_failed env s p tenant id input corr w h) [
        | inl (_, inl same) ↦ kept (ap (λ b. b.incidents) same)
        | inl (_, inr (inc, done)) ↦
            Patched-Changes s.registry corr tenant p id input inc w.db v.db done
        | inr (_, left) ↦ kept (incidents-IsRefusal env tenant p corr _ _ w.db v.db left)
      ]

  pub patch-Changes :
      (s : Service) (p : Principal) (tenant id : Uuid) (input : PatchInput) (corr : Uuid)
      (w : World)
      → Changes w.db.incidents (patch env s p tenant id input corr w).1.db.incidents
  patch-Changes s p tenant id input corr w = patch_result-Changes s p tenant id input corr w _ refl

  CreateAnswer-Changes :
      (who : Option Principal) (whose : Option Uuid) (body : Option Json) (w : World)
      (o : Response × World)
      → CreateAnswer env who whose body w o
      → Changes w.db.incidents o.1.db.incidents
  CreateAnswer-Changes who whose body w _ (CreateAnswer.created p tenant r inc v _ _ _ made) =
      Created-Changes _ tenant p r.input inc w.db v.db made
  CreateAnswer-Changes who whose body w _ (CreateAnswer.unknown p tenant r inc a v _ _ _ _ made) =
      Created-Changes _ tenant p r.input inc w.db v.db made
  CreateAnswer-Changes who whose body w _ (CreateAnswer.refused p tenant corr a v _ _ _ left) =
      kept (incidents-IsRefusal env tenant p corr _ _ w.db v.db left)
  CreateAnswer-Changes who whose body w _ (CreateAnswer.failed a v _ same) =
      kept (ap (λ b. b.incidents) same)

  PatchAnswer-Changes :
      (registry : Registry) (who : Option Principal) (whose named : Option Uuid)
      (body : Option Json) (w : World) (o : Response × World)
      → PatchAnswer env registry who whose named body w o
      → Changes w.db.incidents o.1.db.incidents
  PatchAnswer-Changes registry who whose named body w _
        (PatchAnswer.patched p tenant id r a inc v _ _ _ _ _ done) =
      Patched-Changes registry _ tenant p id _ inc w.db v.db done
  PatchAnswer-Changes registry who whose named body w _
        (PatchAnswer.unknown p tenant id r a inc answer v _ _ _ _ _ _ done) =
      Patched-Changes registry _ tenant p id _ inc w.db v.db done
  PatchAnswer-Changes registry who whose named body w _
        (PatchAnswer.refused p tenant id corr a v _ _ _ left) =
      kept (incidents-IsRefusal env tenant p corr _ _ w.db v.db left)
  PatchAnswer-Changes registry who whose named body w _ (PatchAnswer.failed a v _ same) =
      kept (ap (λ b. b.incidents) same)

  module _ (chi : Chi) (s : Server) (r : Request) where
    Served-Changes :
        (w : World) (o : Response × World)
        → Served env chi s r w o
        → Changes w.db.incidents o.1.db.incidents
    Served-Changes w _ (quiet given v same) = kept (ap (λ b. b.incidents) same)
    Served-Changes w _ (created p tenant id o _ _ given) = CreateAnswer-Changes _ _ r.body w o given
    Served-Changes w _ (patched p tenant id o _ _ given) =
        PatchAnswer-Changes s.service.registry _ _ _ r.body w o given
    Served-Changes w _ (registered p tenant id q reg v _ _ _ done) = kept done.stored.rest_kept.0
    Served-Changes w _ (beaten p tenant id given v _ _ set) = kept (ap (λ b. b.incidents) set)

    pub router-Changes : (w : World) → Changes w.db.incidents (router env chi s r w).1.db.incidents
    router-Changes w = Served-Changes w _ (router-Served env chi s r w)
