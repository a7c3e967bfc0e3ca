-- ===== src/Incident/Planned/Whole.antt =====
-- The whole plan of a patch is what the patch asks.
use soarcore.Common.{String, ◌≡◌, refl, ap, ◌∙◌, Option, List, [], ◌++◌}
use mathlib.Core.List.{append_assoc}
use mathlib.Core.Option
use soarcore.Json.{obj, Fields}
use soarcore.World.{Uuid}
use soarcore.Errors.{ok}
use soarcore.Schema.{Registry}
use soarcore.World.{Env, World, >>=-eq-ok, along_ok, tick}
use soarcore.Incident.{Incident}
use soarcore.Incident.Input.{
  PatchInput, Plan, start, elements, title_step, description_step, severity_step, status_step,
  assignee_step, attributes_step, plan,
}
use soarcore.Incident.Planned.{
  Draft, draft_of, asked, title_step-draft_of, description_step-draft_of, severity_step-draft_of,
  status_step-draft_of, assignee_step-draft_of, attributes_step-draft_of, tags_step-draft_of,
  new_title, new_tags, named,
}

-- Seven lists of names, added one after the other.
flat :
    (a b c d e f g : List String)
    → (((((([] ++ a) ++ b) ++ c) ++ d) ++ e) ++ f) ++ g ≡ a ++ (b ++ (c ++ (d ++ (e ++ (f ++ g)))))
flat a b c d e f g = simp (append_assoc)

-- One field of a draft set, and its name noted.
abbrev put_description : Option String → Draft → Draft
put_description x c = record c { description = x; names = c.names ++ named "description" x }

abbrev put_severity : Option String → Draft → Draft
put_severity x c = record c { severity = x; names = c.names ++ named "severity" x }

abbrev put_status : Option String → Draft → Draft
put_status x c = record c { status = x; names = c.names ++ named "status" x }

abbrev put_assignee : Option Uuid → Draft → Draft
put_assignee x c = record c { assignee_id = x; names = c.names ++ named "assignee_id" x }

abbrev put_attributes : Option Fields → Draft → Draft
put_attributes x c = record c {
  attributes = Option.map obj x;
  names = c.names ++ named "attributes" x;
}

abbrev put_tags : Option (List String) → Draft → Draft
put_tags x c = record c { tags = x; names = c.names ++ named "tags" x }

-- The plan that a patch makes of an incident sets exactly what the patch asks: each field that is
-- given, but a title or tags only where they differ from the incident's; and the changed fields are
-- named in the order title, description, severity, status, assignee_id, attributes, tags.
pub plan-asked :
    (env : Env) (registry : Registry) (prior : Incident) (p : PatchInput) (w : World) {d : Plan}
    {w' : World}
    → plan env registry prior p w ≡ (ok d, w')
    → draft_of d ≡ asked prior p
unfolding plan
plan-asked env registry prior p w h =
    let d₀ = title_step prior p.title (start (env.now w.reads)) in
    let d₁ = description_step p.description d₀ in
    let (d₂, v₂, two, rest₂) = >>=-eq-ok (severity_step p.severity d₁) _ (tick w) h in
    let (d₃, v₃, three, rest₃) = >>=-eq-ok (status_step env prior p.status d₂) _ v₂ rest₂ in
    let (d₄, v₄, four, rest₄) =
      >>=-eq-ok (attributes_step registry p.attributes (assignee_step p.assignee_id d₃)) _ v₃
        rest₃ in
    let e₀ = title_step-draft_of prior p.title (start (env.now w.reads)) refl in
    let e₁ = description_step-draft_of p.description d₀ (ap (λ c. c.description) e₀) in
    let f₁ = e₁ ∙ ap (put_description p.description) e₀ in
    let f₂ =
      severity_step-draft_of p.severity d₁ (tick w) (ap (λ c. c.severity) f₁) two
      ∙ ap (put_severity p.severity) f₁ in
    let f₃ =
      status_step-draft_of env prior p.status d₂ v₂ (ap (λ c. c.status) f₂) three
      ∙ ap (put_status p.status) f₂ in
    let f₃' =
      assignee_step-draft_of p.assignee_id d₃ (ap (λ c. c.assignee_id) f₃)
      ∙ ap (put_assignee p.assignee_id) f₃ in
    let f₄ =
      attributes_step-draft_of registry p.attributes (assignee_step p.assignee_id d₃) v₃
        (ap (λ c. c.attributes) f₃') four
      ∙ ap (put_attributes p.attributes) f₃' in
    let f₅ =
      tags_step-draft_of prior p.tags d₄ (ap (λ c. c.tags) f₄)
      ∙ ap (put_tags (new_tags (elements prior.tags) p.tags)) f₄ in
    along_ok (λ x y. draft_of x ≡ asked prior p) rest₄
      (f₅
        ∙ ap (λ n. record (asked prior p) { names = n })
            (flat (named "title" (new_title prior.title p.title))
              (named "description" p.description) (named "severity" p.severity)
              (named "status" p.status) (named "assignee_id" p.assignee_id)
              (named "attributes" p.attributes)
              (named "tags" (new_tags (elements prior.tags) p.tags))))
