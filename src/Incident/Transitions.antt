-- ===== src/Incident/Transitions.antt =====
-- What a patch's plan does to the status: the check of the machine, the flags and the closing time.
use soarcore.Common.{
  refl, inl, inr, Bool-cases, Option-cases, sym, ap, ℕ, String, Bool, true, false, not, ◌≡◌, ◌∙◌,
  Option, none, some, List, arith, str_eq, is_some,
}
use soarcore.Json.{Fields}
use soarcore.Errors.{Error, Result, err, ok}
use soarcore.Schema.{Registry}
use soarcore.World.{IsReading, >>=-IsReading, along_ok, Env, Time, World, tick, >>=-eq-ok}
use soarcore.Incident.{Incident, is_valid_status, can_transition}
use soarcore.Incident.Input.{
  PatchInput, Plan, start, title_step, description_step, severity_step, status_step, assignee_step,
  attributes_step, tags_step, plan,
}

-- What of a plan concerns the status.
pub record StatusPart : Type 0 where
  pub status : Option String
  pub closed_at : Option Time
  pub changed : Bool
  pub from : String
  pub to : String

abbrev pub status_part : Plan → StatusPart
status_part d = record {
  status = d.upd.status;
  closed_at = d.upd.closed_at;
  changed = d.status_changed;
  from = d.from_status;
  to = d.to_status;
}

title_step-status :
    (prior : Incident) (o : Option String) (d : Plan)
    → status_part (title_step prior o d) ≡ status_part d
unfolding title_step
title_step-status prior o d = ground arith

description_step-status :
    (o : Option String) (d : Plan) → status_part (description_step o d) ≡ status_part d
unfolding description_step
description_step-status o d = ground arith

assignee_step-status : (o : Option ℕ) (d : Plan) → status_part (assignee_step o d) ≡ status_part d
unfolding assignee_step
assignee_step-status o d = ground arith

tags_step-status :
    (prior : Incident) (o : Option (List String)) (d : Plan)
    → status_part (tags_step prior o d) ≡ status_part d
unfolding tags_step
tags_step-status prior o d = ground arith

severity_step-status :
    (o : Option String) (d : Plan) (w : World) {d' : Plan} {w' : World}
    → severity_step o d w ≡ (ok d', w')
    → status_part d' ≡ status_part d
unfolding severity_step
severity_step-status o d w h = ground arith

attributes_step-status :
    (registry : Registry) (o : Option Fields) (d : Plan) (w : World) {d' : Plan} {w' : World}
    → attributes_step registry o d w ≡ (ok d', w')
    → status_part d' ≡ status_part d
unfolding attributes_step
attributes_step-status registry none d w h = ground arith
attributes_step-status registry (some fs) d w h = ground arith

-- The plan's status part against the request: none asked, or a legal change noted in full.
pub record IsLegal (prior s : String) (part : StatusPart) : Type 0 where
  pub valid : is_valid_status s ≡ true
  pub legal : can_transition prior s ≡ none
  pub set : part.status ≡ some s
  pub flag : part.changed ≡ not (str_eq prior s)
  pub of_from : part.from ≡ prior
  pub of_to : part.to ≡ s
  pub closing : is_some part.closed_at ≡ str_eq s "closed"

abbrev no_status : StatusPart
no_status = record { status = none; closed_at = none; changed = false; from = ""; to = "" }

abbrev pub Follows : String → Option String → StatusPart → Type 0
Follows prior none part = part ≡ no_status
Follows prior (some s) part = IsLegal prior s part

pub refuse :
    {e : Error} {d : Plan} {w w' : World} → ◌≡◌ {A = Result Plan × World} (err e, w) (ok d, w') → ⊥
refuse h = cc

status_step-Follows :
    (env : Env) (prior : Incident) (o : Option String) (d : Plan) (w : World) {d' : Plan}
    {w' : World}
    → status_part d ≡ no_status
    → status_step env prior o d w ≡ (ok d', w')
    → Follows prior.status o (status_part d')
unfolding status_step
status_step-Follows env prior none d w b h = ground arith
status_step-Follows env prior (some s) d w b h = elim (Bool-cases (is_valid_status s)) [
  | inr bad ↦ absurd (refuse (rw (bad, status_step) at h))
  | inl v ↦ elim (Option-cases (can_transition prior.status s)) [
    | inr (e, bad) ↦ absurd (refuse (rw (v, bad, status_step) at h))
    | inl l ↦ elim (Bool-cases (str_eq s "closed")) [
      | inl c ↦
          along_ok (λ x y. IsLegal prior.status s (status_part x)) (rw (v, l, c, status_step) at h)
            (record {
              valid = v;
              legal = l;
              set = refl;
              flag = refl;
              of_from = refl;
              of_to = refl;
              closing = sym c;
            })
      | inr n ↦
          along_ok (λ x y. IsLegal prior.status s (status_part x)) (rw (v, l, n, status_step) at h)
            (record {
              valid = v;
              legal = l;
              set = refl;
              flag = refl;
              of_from = refl;
              of_to = refl;
              closing = ap (λ (part : StatusPart). is_some part.closed_at) b ∙ sym n;
            })
    ]
  ]
]

follow :
    (prior : String) (o : Option String) {a b : StatusPart}
    → b ≡ a
    → Follows prior o a
    → Follows prior o b
follow prior none e f = e ∙ f
follow prior (some s) e f = ground arith

-- A plan that Patch makes asks for no change of status, or for a valid one that the machine allows
-- from the row's status, noted with its two ends, with the flag exactly where it moves and a closing
-- time exactly for closed.
pub plan-Follows :
    (env : Env) (registry : Registry) (prior : Incident) (p : PatchInput) (w : World) {d : Plan}
    {w' : World}
    → plan env registry prior p w ≡ (ok d, w')
    → Follows prior.status p.status (status_part d)
unfolding plan
plan-Follows env registry prior p w h =
    let d₁ = description_step p.description (title_step prior p.title (start (env.now w.reads))) in
    let (d₂, v₂, two, rest₂) = >>=-eq-ok (severity_step p.severity d₁) _ (tick w) h in
    let (d₃, v₃, three, rest₃) = >>=-eq-ok (status_step env prior p.status d₂) _ v₂ rest₂ in
    let (d₄, v₄, four, rest₄) =
      >>=-eq-ok (attributes_step registry p.attributes (assignee_step p.assignee_id d₃)) _ v₃
        rest₃ in
    let before =
      severity_step-status p.severity d₁ (tick w) two
      ∙ (description_step-status p.description _ ∙ title_step-status prior p.title _) in
    let after =
      tags_step-status prior p.tags d₄
      ∙ (attributes_step-status registry p.attributes _ v₃ four
          ∙ assignee_step-status p.assignee_id d₃) in
    along_ok (λ x y. Follows prior.status p.status (status_part x)) rest₄
      (follow prior.status p.status after
        (status_step-Follows env prior p.status d₂ v₂ before three))

severity_step-IsReading : (o : Option String) (d : Plan) → IsReading (severity_step o d)
unfolding severity_step
severity_step-IsReading none d w = refl
severity_step-IsReading (some s) d w = ground arith

status_step-IsReading :
    (env : Env) (prior : Incident) (o : Option String) (d : Plan)
    → IsReading (status_step env prior o d)
unfolding status_step
status_step-IsReading env prior none d w = refl
status_step-IsReading env prior (some s) d w = elim (Bool-cases (is_valid_status s)) [
  | inr bad ↦ rw (bad, status_step)
  | inl v ↦ elim (Option-cases (can_transition prior.status s)) [
    | inr (e, bad) ↦ rw (v, bad, status_step)
    | inl l ↦ elim (Bool-cases (str_eq s "closed")) [
      | inl c ↦ rw (v, l, c, status_step)
      | inr n ↦ rw (v, l, n, status_step)
    ]
  ]
]

attributes_step-IsReading :
    (registry : Registry) (o : Option Fields) (d : Plan) → IsReading (attributes_step registry o d)
unfolding attributes_step
attributes_step-IsReading registry none d w = refl
attributes_step-IsReading registry (some fs) d w = ground arith

-- Planning writes nothing.
pub plan-IsReading :
    (env : Env) (registry : Registry) (prior : Incident) (p : PatchInput)
    → IsReading (plan env registry prior p)
unfolding plan
plan-IsReading env registry prior p w =
    >>=-IsReading (severity_step p.severity _) _ (severity_step-IsReading p.severity _)
      (λ d.
        >>=-IsReading (status_step env prior p.status d) _
          (status_step-IsReading env prior p.status d)
          λ d'.
            >>=-IsReading (attributes_step registry p.attributes (assignee_step p.assignee_id d')) _
              (attributes_step-IsReading registry p.attributes (assignee_step p.assignee_id d'))
              λ d'' v. refl)
      (tick w)
