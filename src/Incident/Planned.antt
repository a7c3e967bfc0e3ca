-- ===== src/Incident/Planned.antt =====
-- The plan of a patch, field by field: what it sets, and the names that it notes.
pub mod Whole
use mathlib.Core.Option
use mathlib.Core.Path.{ap₂}
use mathlib.Core.List.{append-nil}
use soarcore.Common.{
  String, ◌≡◌, inl, inr, refl, sym, Option, none, some, List, [], ◌∷◌, ◌++◌, str_eq, if◌then◌else◌,
  Bool-cases, Option-cases,
}
use soarcore.Json.{Json, obj, Fields}
use soarcore.Errors.{ok}
use soarcore.Schema.{Registry}
use soarcore.World.{Env, World, Uuid, along_ok}
use soarcore.Incident.{Incident, is_valid_severity, is_valid_status, can_transition}
use soarcore.Incident.Rows.{marshal_attributes}
use soarcore.Incident.Input.{
  PatchInput, Plan, elements, string_slice_equal, title_step, description_step, severity_step,
  status_step, assignee_step, attributes_step, tags_step, attributes_error,
}
use soarcore.Incident.Transitions.{refuse}

-- What a plan sets, but for the times, and the names of the changed fields.
pub record Draft : Type 0 where
  pub title : Option String
  pub description : Option String
  pub severity : Option String
  pub status : Option String
  pub assignee_id : Option Uuid
  pub attributes : Option Json
  pub tags : Option (List String)
  pub names : List String

abbrev pub draft_of : Plan → Draft
draft_of d = record {
  title = d.upd.title;
  description = d.upd.description;
  severity = d.upd.severity;
  status = d.upd.status;
  assignee_id = d.upd.assignee_id;
  attributes = d.upd.attributes;
  tags = d.upd.tags;
  names = d.changed_fields;
}

-- A title and tags count as changed only where they differ from the incident's.
abbrev pub new_title : String → Option String → Option String
new_title old none = none
new_title old (some t) = if str_eq t old then none else some t

abbrev pub new_tags : List String → Option (List String) → Option (List String)
new_tags old none = none
new_tags old (some tags) = if string_slice_equal tags old then none else some tags

abbrev pub named {ℓ} : {A : Type ℓ} → String → Option A → List String
named n none = []
named n (some a) = n ∷ []

-- What a patch asks of an incident.
abbrev pub asked : Incident → PatchInput → Draft
asked prior p =
    let title = new_title prior.title p.title in
    let tags = new_tags (elements prior.tags) p.tags in
    record {
      title = title;
      description = p.description;
      severity = p.severity;
      status = p.status;
      assignee_id = p.assignee_id;
      attributes = Option.map obj p.attributes;
      tags = tags;
      names =
          named "title" title
          ++ (named "description" p.description
              ++ (named "severity" p.severity
                  ++ (named "status" p.status
                      ++ (named "assignee_id" p.assignee_id
                          ++ (named "attributes" p.attributes ++ named "tags" tags)))));
    }

-- Nothing set in one field: the name list is as it was.
unnamed : (l : List String) → l ≡ l ++ []
unnamed l = sym (append-nil l)

title_step-draft_of :
    (prior : Incident) (o : Option String) (d : Plan)
    → d.upd.title ≡ none
    → draft_of (title_step prior o d) ≡ record (draft_of d) {
      title = new_title prior.title o;
      names = d.changed_fields ++ named "title" (new_title prior.title o);
    }
unfolding title_step
title_step-draft_of prior none d h =
    ap₂ (λ x n. record (draft_of d) { title = x; names = n }) h (unnamed d.changed_fields)
title_step-draft_of prior (some t) d h = elim (Bool-cases (str_eq t prior.title)) [
  | inl y ↦
      rw (y, title_step)
        (ap₂ (λ x n. record (draft_of d) { title = x; names = n }) h (unnamed d.changed_fields))
  | inr n ↦ rw (n, title_step) refl
]

description_step-draft_of :
    (o : Option String) (d : Plan)
    → d.upd.description ≡ none
    → draft_of (description_step o d)
      ≡ record (draft_of d) { description = o; names = d.changed_fields ++ named "description" o }
unfolding description_step
description_step-draft_of none d h =
    ap₂ (λ x n. record (draft_of d) { description = x; names = n }) h (unnamed d.changed_fields)
description_step-draft_of (some t) d h = refl

severity_step-draft_of :
    (o : Option String) (d : Plan) (w : World) {d' : Plan} {w' : World}
    → d.upd.severity ≡ none
    → severity_step o d w ≡ (ok d', w')
    → draft_of d'
      ≡ record (draft_of d) { severity = o; names = d.changed_fields ++ named "severity" o }
unfolding severity_step
severity_step-draft_of none d w {d'} h eq =
    along_ok
      (λ x _. draft_of x ≡ record (draft_of d) { severity = none; names = d.changed_fields ++ [] })
      eq (ap₂ (λ x n. record (draft_of d) { severity = x; names = n }) h (unnamed d.changed_fields))
severity_step-draft_of (some s) d w h eq = elim (Bool-cases (is_valid_severity s)) [
  | inl y ↦
      along_ok
        (λ x _.
          draft_of x
          ≡ record (draft_of d) { severity = some s; names = d.changed_fields ++ "severity" ∷ [] })
        (rw (y, severity_step) at eq) refl
  | inr n ↦ absurd (refuse (rw (n, severity_step) at eq))
]

status_step-draft_of :
    (env : Env) (prior : Incident) (o : Option String) (d : Plan) (w : World) {d' : Plan}
    {w' : World}
    → d.upd.status ≡ none
    → status_step env prior o d w ≡ (ok d', w')
    → draft_of d' ≡ record (draft_of d) { status = o; names = d.changed_fields ++ named "status" o }
unfolding status_step
status_step-draft_of env prior none d w h eq =
    along_ok
      (λ x _. draft_of x ≡ record (draft_of d) { status = none; names = d.changed_fields ++ [] }) eq
      (ap₂ (λ x n. record (draft_of d) { status = x; names = n }) h (unnamed d.changed_fields))
status_step-draft_of env prior (some s) d w h eq =
    let P : Plan → World → Type 0 = λ x _.
      draft_of x
      ≡ record (draft_of d) { status = some s; names = d.changed_fields ++ "status" ∷ [] } in
    elim (Bool-cases (is_valid_status s)) [
      | inr n ↦ absurd (refuse (rw (n, status_step) at eq))
      | inl y ↦ elim (Option-cases (can_transition prior.status s)) [
        | inr (e, bad) ↦ absurd (refuse (rw (y, bad, status_step) at eq))
        | inl l ↦ elim (Bool-cases (str_eq s "closed")) [
          | inl c ↦ along_ok P (rw (y, l, c, status_step) at eq) refl
          | inr n ↦ along_ok P (rw (y, l, n, status_step) at eq) refl
        ]
      ]
    ]

assignee_step-draft_of :
    (o : Option Uuid) (d : Plan)
    → d.upd.assignee_id ≡ none
    → draft_of (assignee_step o d)
      ≡ record (draft_of d) { assignee_id = o; names = d.changed_fields ++ named "assignee_id" o }
unfolding assignee_step
assignee_step-draft_of none d h =
    ap₂ (λ x n. record (draft_of d) { assignee_id = x; names = n }) h (unnamed d.changed_fields)
assignee_step-draft_of (some u) d h = refl

attributes_step-draft_of :
    (registry : Registry) (o : Option Fields) (d : Plan) (w : World) {d' : Plan} {w' : World}
    → d.upd.attributes ≡ none
    → attributes_step registry o d w ≡ (ok d', w')
    → draft_of d' ≡ record (draft_of d) {
      attributes = Option.map obj o;
      names = d.changed_fields ++ named "attributes" o;
    }
unfolding attributes_step marshal_attributes
attributes_step-draft_of registry none d w h eq =
    along_ok
      (λ x _.
        draft_of x ≡ record (draft_of d) { attributes = none; names = d.changed_fields ++ [] })
      eq
      (ap₂ (λ x n. record (draft_of d) { attributes = x; names = n }) h (unnamed d.changed_fields))
attributes_step-draft_of registry (some fs) d w h eq =
    elim (Option-cases (attributes_error registry (marshal_attributes (some fs)))) [
      | inr (e, bad) ↦ absurd (refuse (rw (bad, attributes_step) at eq))
      | inl y ↦
          along_ok
            (λ x _. draft_of x ≡ record (draft_of d) {
              attributes = some (obj fs);
              names = d.changed_fields ++ "attributes" ∷ [];
            })
            (rw (y, attributes_step) at eq) refl
    ]

tags_step-draft_of :
    (prior : Incident) (o : Option (List String)) (d : Plan)
    → d.upd.tags ≡ none
    → draft_of (tags_step prior o d) ≡ record (draft_of d) {
      tags = new_tags (elements prior.tags) o;
      names = d.changed_fields ++ named "tags" (new_tags (elements prior.tags) o);
    }
unfolding tags_step
tags_step-draft_of prior none d h =
    ap₂ (λ x n. record (draft_of d) { tags = x; names = n }) h (unnamed d.changed_fields)
tags_step-draft_of prior (some t) d h =
    elim (Bool-cases (string_slice_equal t (elements prior.tags))) [
      | inl y ↦
          rw (y, tags_step)
            (ap₂ (λ x n. record (draft_of d) { tags = x; names = n }) h (unnamed d.changed_fields))
      | inr n ↦ rw (n, tags_step) refl
    ]
