-- ===== src/Incident/Service/Live/Planning.antt =====
-- A patch whose values are valid and whose status the machine allows has a plan.
use soarcore.Common.{
  ◌≤◌, String, ◌≡◌, inl, inr, refl, sym, ap, ◌∙◌, true, Option, none, some, arith, Bool-cases,
  str_eq,
}
use soarcore.Json.{Fields}
use soarcore.Errors.{Result, ok}
use soarcore.Schema.{Registry}
use soarcore.World.{Env, World, Db, tick}
use soarcore.Persistence.Incidents.{update_refuses, in_enum, severity_enum, status_enum}
use soarcore.Incident.{Incident, is_valid_severity, is_valid_status, can_transition}
use soarcore.Incident.Rows.{marshal_attributes}
use soarcore.Incident.Input.{
  PatchInput, Plan, start, title_step, description_step, severity_step, close_step, status_step,
  assignee_step, attributes_step, tags_step, plan, attributes_error, set_status, set_closed, change,
}
use soarcore.Incident.Planned.{Draft}
use soarcore.Incident.Planned.Whole.{plan-asked}
use soarcore.Incident.Transitions.{plan-IsReading}

-- What Patch asks of an input: a valid severity, a valid status that the machine allows from the
-- one before, and attributes that the registry accepts, each where it is given.
pub record Fits (registry : Registry) (from : String) (p : PatchInput) : Type 0 where
  pub severity : (s : String) → p.severity ≡ some s → is_valid_severity s ≡ true
  pub status :
      (s : String) → p.status ≡ some s → (is_valid_status s ≡ true) × (can_transition from s ≡ none)
  pub attributes :
      (fs : Fields)
      → p.attributes ≡ some fs
      → attributes_error registry (marshal_attributes (some fs)) ≡ none

severity_step_done :
    (o : Option String) (d : Plan) (w : World)
    → ((s : String) → o ≡ some s → is_valid_severity s ≡ true)
    → (d' : Plan) × (severity_step o d w ≡ (ok d', w))
unfolding severity_step
severity_step_done none d w h = (d, refl)
severity_step_done (some s) d w h =
    (change d "severity" (record d.upd { severity = some s }), rw (h s refl, severity_step) refl)

module _ (env : Env) where
  close_step_done :
      (s : String) (d : Plan) (w : World)
      → (d' : Plan) × (v : World) × (close_step env s d w ≡ (ok d', v)) × (w.reads ≤ v.reads)
  unfolding close_step
  close_step_done s d w = elim (Bool-cases (str_eq s "closed")) [
    | inl y ↦ (set_closed d (env.now w.reads), tick w, rw (y, close_step) refl, omega arith)
    | inr n ↦ (d, w, rw (n, close_step) refl, omega arith)
  ]

  status_step_done :
      (prior : Incident) (o : Option String) (d : Plan) (w : World)
      → ((s : String)
          → o ≡ some s
          → (is_valid_status s ≡ true) × (can_transition prior.status s ≡ none))
      → (d' : Plan) × (v : World) × (status_step env prior o d w ≡ (ok d', v)) × (w.reads ≤ v.reads)
  unfolding status_step
  status_step_done prior none d w h = (d, w, refl, omega arith)
  status_step_done prior (some s) d w h =
      let (valid, legal) = h s refl in
      let (d', v, done, later) = close_step_done s (set_status prior s d) w in
      (d', v, rw (valid, legal, status_step) done, later)

  attributes_step_done :
      (registry : Registry) (o : Option Fields) (d : Plan) (w : World)
      → ((fs : Fields)
          → o ≡ some fs
          → attributes_error registry (marshal_attributes (some fs)) ≡ none)
      → (d' : Plan) × (attributes_step registry o d w ≡ (ok d', w))
  unfolding attributes_step marshal_attributes
  attributes_step_done registry none d w h = (d, refl)
  attributes_step_done registry (some fs) d w h = (
    change d "attributes" (record d.upd { attributes = some (marshal_attributes (some fs)) }),
    rw (h fs refl, attributes_step) refl,
  )

  plan_runs :
      (registry : Registry) (prior : Incident) (p : PatchInput) (w : World)
      → Fits registry prior.status p
      → (d : Plan) × (v : World) × (plan env registry prior p w ≡ (ok d, v)) × (w.reads ≤ v.reads)
  unfolding plan
  plan_runs registry prior p w h =
      let (d₁, one) =
        severity_step_done p.severity
          (description_step p.description (title_step prior p.title (start (env.now w.reads))))
          (tick w) h.severity in
      let (d₂, v, two, later) = status_step_done prior p.status d₁ (tick w) h.status in
      let (d₃, three) =
        attributes_step_done registry p.attributes (assignee_step p.assignee_id d₂) v
          h.attributes in
      (tags_step prior p.tags d₃, v, rw (one, two, three) refl, omega (arith, later))

  in_enum-valid_severity :
      (o : Option String)
      → ((s : String) → o ≡ some s → is_valid_severity s ≡ true)
      → in_enum severity_enum o ≡ true
  in_enum-valid_severity none h = refl
  in_enum-valid_severity (some s) h = h s refl

  in_enum-valid_status :
      (from : String) (o : Option String)
      → ((s : String) → o ≡ some s → (is_valid_status s ≡ true) × (can_transition from s ≡ none))
      → in_enum status_enum o ≡ true
  in_enum-valid_status from none h = refl
  in_enum-valid_status from (some s) h = (h s refl).0

  update_taken :
      (registry : Registry) (prior : Incident) (p : PatchInput) (d : Plan) (w v : World) (db : Db)
      → Fits registry prior.status p
      → plan env registry prior p w ≡ (ok d, v)
      → update_refuses d.upd db ≡ none
  unfolding update_refuses
  update_taken registry prior p d w v db h done =
      let drawn = plan-asked env registry prior p w done in
      let severe : in_enum severity_enum d.upd.severity ≡ true =
        ap (λ (c : Draft). in_enum severity_enum c.severity) drawn
        ∙ in_enum-valid_severity p.severity h.severity in
      let state : in_enum status_enum d.upd.status ≡ true =
        ap (λ (c : Draft). in_enum status_enum c.status) drawn
        ∙ in_enum-valid_status prior.status p.status h.status in
      rw (severe, state) refl

  -- The plan is made without a write, and the table takes its update.
  pub plan_done :
      (registry : Registry) (prior : Incident) (p : PatchInput) (w : World)
      → Fits registry prior.status p
      → (d : Plan) × (v : World) × (plan env registry prior p w ≡ (ok d, v))
        × (w.reads ≤ v.reads)
        × (v.db ≡ w.db)
        × (update_refuses d.upd v.db ≡ none)
  plan_done registry prior p w h =
      let (d, v, done, later) = plan_runs registry prior p w h in
      (
        d,
        v,
        done,
        later,
        ap (λ (x : Result Plan × World). x.1.db) (sym done) ∙ plan-IsReading env registry prior p w,
        update_taken registry prior p d w v v.db h done,
      )
