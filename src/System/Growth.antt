-- ===== src/System/Growth.antt =====
-- What the service's operations do to the outbox: they add rows, and touch no other.
use mathlib.Core.Path.{ap₂}
use soarcore.Audit.{Target}
use soarcore.Common.{
  ◌+◌, String, ◌≡◌, inl, inr, refl, ap, ◌∙◌, Option, none, List, [], ◌∷◌, ◌++◌, map, All,
}
use soarcore.Errors.{Result, ok, err}
use soarcore.Auth.{Principal}
use soarcore.Schema.{Registry}
use soarcore.World.{Env, Uuid, World, Db}
use soarcore.Persistence.Outbox.{NewOutboxRow, stored, push_outbox}
use soarcore.Events.Envelope.{Envelope, encode}
use soarcore.Incident.{Incident}
use soarcore.Incident.Input.{CreateInput, PatchInput}
use soarcore.Incident.Service.{Service, create, patch, outbox_row, incident_target}
use soarcore.Incident.Service.Steps.{IsRefusal}
use soarcore.Incident.Service.CreateLaws.{Created, create-Created, create_failed}
use soarcore.Incident.Service.PatchLaws.{push_events}
use soarcore.Incident.Service.Patched.{Patched, patch-Patched, patch_failed}

abbrev pub push_all : List NewOutboxRow → Db → Db
push_all [] db = db
push_all (r ∷ rows) db = push_all rows (push_outbox r db)

-- The payload of the row is the form of an envelope.
abbrev pub IsEncoded : Env → NewOutboxRow → Type 0
IsEncoded env r = (e : Envelope) × (r.payload ≡ encode env e)

-- The outbox after: the rows of before, and new ones with envelopes, under ids from the sequence.
abbrev pub Grows : Env → Db → Db → Type 0
Grows env before after =
    (rows : List NewOutboxRow) × All (IsEncoded env) rows
    × (after.outbox ≡ (push_all rows before).outbox)
    × (after.next_outbox_id ≡ (push_all rows before).next_outbox_id)

pub same-Grows : (env : Env) (before after : Db) → after ≡ before → Grows env before after
same-Grows env before after same =
    ([], tt, ap (λ b. b.outbox) same, ap (λ b. b.next_outbox_id) same)

-- Pushing looks at the outbox and its sequence only.
push_all-parts :
    (rows : List NewOutboxRow) (a b : Db)
    → a.outbox ≡ b.outbox
    → a.next_outbox_id ≡ b.next_outbox_id
    → ((push_all rows a).outbox ≡ (push_all rows b).outbox)
      × ((push_all rows a).next_outbox_id ≡ (push_all rows b).next_outbox_id)
push_all-parts [] a b h k = (h, k)
push_all-parts (r ∷ rows) a b h k =
    push_all-parts rows (push_outbox r a) (push_outbox r b) (ap₂ (λ o n. o ++ stored n r ∷ []) h k)
      (ap (λ n. n + 1) k)

module _ (env : Env) where
  push_events-push_all :
      (tenant : Uuid) (p : Principal) (corr : Uuid) (es : List Envelope) (db : Db)
      → push_events env tenant p corr es db
        ≡ push_all (map (λ e. outbox_row env tenant e e.occurred_at) es) db
  push_events-push_all tenant p corr [] db = refl
  push_events-push_all tenant p corr (e ∷ es) db = push_events-push_all tenant p corr es _

  outbox_row-IsEncoded :
      (tenant : Uuid) (es : List Envelope)
      → All (IsEncoded env) (map (λ e. outbox_row env tenant e e.occurred_at) es)
  outbox_row-IsEncoded tenant [] = tt
  outbox_row-IsEncoded tenant (e ∷ es) = ((e, refl), outbox_row-IsEncoded tenant es)

  pub IsRefusal-Grows :
      (tenant : Uuid) (p : Principal) (corr : Uuid) (action : String) (target : Option Target)
      (before after : Db)
      → IsRefusal env tenant p corr action target before after
      → Grows env before after
  IsRefusal-Grows tenant p corr action target before after (inl same) =
      same-Grows env before after same
  IsRefusal-Grows tenant p corr action target before after (inr (a, _, set)) =
      ([], tt, ap (λ b. b.outbox) set, ap (λ b. b.next_outbox_id) set)

  pub Created-Grows :
      (given tenant : Uuid) (p : Principal) (i : CreateInput) (inc : Incident) (before after : Db)
      → Created env given tenant p i inc before after
      → Grows env before after
  Created-Grows given tenant p i inc before after made = (
    outbox_row env tenant made.event inc.created_at ∷ [],
    ((made.event, refl), tt),
    ap (λ b. b.outbox) made.rows,
    ap (λ b. b.next_outbox_id) made.rows,
  )

  create_result-Grows :
      (s : Service) (p : Principal) (tenant : Uuid) (i : CreateInput) (corr : Uuid) (w : World)
      (r : Result Incident × World)
      → create env s p tenant i corr w ≡ r
      → Grows env w.db r.1.db
  create_result-Grows s p tenant i corr w (ok inc, v) h =
      Created-Grows corr tenant p i inc w.db v.db (create-Created env s p tenant i corr w h).3
  create_result-Grows s p tenant i corr w (err e, v) h =
      elim (create_failed env s p tenant i corr w h) [
        | inl (_, inl same) ↦ same-Grows env w.db v.db same
        | inl (_, inr (inc, made)) ↦ Created-Grows corr tenant p i inc w.db v.db made
        | inr (_, left) ↦ IsRefusal-Grows tenant p corr "incident.create" none w.db v.db left
      ]

  pub create-Grows :
      (s : Service) (p : Principal) (tenant : Uuid) (i : CreateInput) (corr : Uuid) (w : World)
      → Grows env w.db (create env s p tenant i corr w).1.db
  create-Grows s p tenant i corr w = create_result-Grows s p tenant i corr w _ refl

  pub Patched-Grows :
      (registry : Registry) (p : Principal) (given tenant id : Uuid) (input : PatchInput)
      (inc : Incident) (before after : Db)
      → Patched env registry given tenant p id input inc before after
      → Grows env before after
  Patched-Grows registry p given tenant id input inc before after h = elim h.outcome [
    | inl (_, _, same) ↦ same-Grows env before after same
    | inr (_, _, written) ↦
        let rows = map (λ e. outbox_row env tenant e e.occurred_at) written.events in
        let all = written.rows ∙ push_events-push_all tenant p h.corr written.events _ in
        let (o, n) = push_all-parts rows _ before refl refl in
        (
          rows,
          outbox_row-IsEncoded tenant written.events,
          ap (λ b. b.outbox) all ∙ o,
          ap (λ b. b.next_outbox_id) all ∙ n,
        )
  ]

  patch_result-Grows :
      (s : Service) (p : Principal) (tenant id : Uuid) (input : PatchInput) (corr : Uuid)
      (w : World) (r : Result Incident × World)
      → patch env s p tenant id input corr w ≡ r
      → Grows env w.db r.1.db
  patch_result-Grows s p tenant id input corr w (ok inc, v) h =
      Patched-Grows s.registry p corr tenant id input inc w.db v.db
        (patch-Patched env s p tenant id input corr w h).1
  patch_result-Grows s p tenant id input corr w (err e, v) h =
      elim (patch_failed env s p tenant id input corr w h) [
        | inl (_, inl same) ↦ same-Grows env w.db v.db same
        | inl (_, inr (inc, done)) ↦
            Patched-Grows s.registry p corr tenant id input inc w.db v.db done
        | inr (_, left) ↦
            IsRefusal-Grows tenant p corr "incident.update" (incident_target id) w.db v.db left
      ]

  pub patch-Grows :
      (s : Service) (p : Principal) (tenant id : Uuid) (input : PatchInput) (corr : Uuid)
      (w : World)
      → Grows env w.db (patch env s p tenant id input corr w).1.db
  patch-Grows s p tenant id input corr w = patch_result-Grows s p tenant id input corr w _ refl
