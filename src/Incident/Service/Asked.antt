-- ===== src/Incident/Service/Asked.antt =====
-- The row that a patch leaves, column by column, against the request.
use mathlib.Core.Option
use mathlib.Core.Path.{subst}
use soarcore.Common.{
  String, ◌≡◌, inl, inr, refl, sym, ap, ◌∙◌, true, Option, none, some, List, [], ◌∷◌, ◌++◌, arith,
  eq_iff, str_eq, is_some, if◌then◌else◌, Bool-cases,
}
use soarcore.Json.{obj}
use soarcore.World.{Env, Time, IncidentRow}
use soarcore.Persistence.Incidents.{apply_update, set_columns, coalesce, coalesce?}
use soarcore.Incident.Rows.{from_row}
use soarcore.Incident.Input.{PatchInput, Plan, elements, string_slice_equal}
use soarcore.Incident.Planned.{Draft, draft_of, asked, new_title, new_tags, named}

-- What is asked, or else what there was.
abbrev pub asked_or {ℓ} : {A : Type ℓ} → Option A → A → A
asked_or none old = old
asked_or (some new) old = new

abbrev pub asked_or? {ℓ} : {A : Type ℓ} → Option A → Option A → Option A
asked_or? none old = old
asked_or? (some new) old = some new

-- The tags are those that are asked, or else as they were.
abbrev pub AreTags : Option (List String) → Option (List String) → Option (List String) → Type 0
AreTags none old now = now ≡ old
AreTags (some tags) old now = elements now ≡ tags

-- A row that has what the patch asks, and else what the row `prior` had.
pub record IsAsAsked (input : PatchInput) (closing : Option Time) (prior row : IncidentRow)
    : Type 0 where
  pub title_is : row.title ≡ asked_or input.title prior.title
  pub description_is : row.description ≡ asked_or? input.description prior.description
  pub severity_is : row.severity ≡ asked_or input.severity prior.severity
  pub status_is : row.status ≡ asked_or input.status prior.status
  pub assignee_is : row.assignee_id ≡ asked_or? input.assignee_id prior.assignee_id
  pub attributes_is : row.attributes ≡ asked_or? (Option.map obj input.attributes) prior.attributes
  pub tags_are : AreTags input.tags prior.tags row.tags
  pub closed_is : row.closed_at ≡ asked_or? closing prior.closed_at
  pub kept :
      (row.id ≡ prior.id)
      × (row.tenant_id ≡ prior.tenant_id)
      × (row.schema_version ≡ prior.schema_version)
      × (row.external_id ≡ prior.external_id)
      × (row.source_connector_id ≡ prior.source_connector_id)
      × (row.created_at ≡ prior.created_at)

string_slice_equal-eq : (xs ys : List String) → string_slice_equal xs ys ≡ true → xs ≡ ys
unfolding string_slice_equal
string_slice_equal-eq [] [] h = refl
string_slice_equal-eq (x ∷ xs) (y ∷ ys) h =
    let same = (eq_iff x y).0 (ground arith) in
    let rest = string_slice_equal-eq xs ys (ground arith) in cc
string_slice_equal-eq [] (y ∷ ys) h = absurd (ground arith)
string_slice_equal-eq (x ∷ xs) [] h = absurd (ground arith)

title_asked : (old : String) (o : Option String) → asked_or (new_title old o) old ≡ asked_or o old
title_asked old none = refl
title_asked old (some t) = elim (Bool-cases (str_eq t old)) [
  | inl y ↦ rw y (sym ((eq_iff t old).0 y))
  | inr n ↦ rw n refl
]

tags_asked :
    (old : Option (List String)) (o : Option (List String))
    → AreTags o old (asked_or? (new_tags (elements old) o) old)
tags_asked old none = refl
tags_asked old (some tags) = elim (Bool-cases (string_slice_equal tags (elements old))) [
  | inl y ↦ rw y (sym (string_slice_equal-eq tags (elements old) y))
  | inr n ↦ rw n refl
]

module _ {ℓ} {A : Type ℓ} where
  coalesce_asked : (o : Option A) (old : A) → coalesce o old ≡ asked_or o old
  coalesce_asked none old = refl
  coalesce_asked (some new) old = refl

  coalesce?_asked : (o old : Option A) → coalesce? o old ≡ asked_or? o old
  coalesce?_asked none old = refl
  coalesce?_asked (some new) old = refl

  flagged_asked : (o old : Option A) → (if is_some o then o else old) ≡ asked_or? o old
  flagged_asked none old = refl
  flagged_asked (some new) old = refl

  named-nil : (name : String) (o : Option A) → named name o ≡ [] → o ≡ none
  named-nil name none h = refl
  named-nil name (some a) h = absurd (ground arith)

  append-nil_iff : (xs ys : List A) → xs ++ ys ≡ [] → (xs ≡ []) × (ys ≡ [])
  append-nil_iff [] ys h = (refl, h)
  append-nil_iff (x ∷ xs) ys h = absurd (ground arith)

-- The row under the plan's SET clause.
pub apply_update-IsAsAsked :
    (env : Env) (input : PatchInput) (d : Plan) (prior : IncidentRow)
    → draft_of d ≡ asked (from_row prior) input
    → IsAsAsked input
        (Option.map env.stored d.upd.closed_at)
        prior
        (apply_update (set_columns env d.upd) prior)
unfolding apply_update from_row
apply_update-IsAsAsked env input d prior h = record {
  title_is =
      ap (λ (c : Draft). coalesce c.title prior.title) h
      ∙ (coalesce_asked (new_title prior.title input.title) prior.title
          ∙ title_asked prior.title input.title);
  description_is =
      ap (λ (c : Draft). coalesce? c.description prior.description) h
      ∙ coalesce?_asked input.description prior.description;
  severity_is =
      ap (λ (c : Draft). coalesce c.severity prior.severity) h
      ∙ coalesce_asked input.severity prior.severity;
  status_is =
      ap (λ (c : Draft). coalesce c.status prior.status) h
      ∙ coalesce_asked input.status prior.status;
  assignee_is =
      ap (λ (c : Draft). coalesce? c.assignee_id prior.assignee_id) h
      ∙ coalesce?_asked input.assignee_id prior.assignee_id;
  attributes_is =
      ap (λ (c : Draft). if is_some c.attributes then c.attributes else prior.attributes) h
      ∙ flagged_asked (Option.map obj input.attributes) prior.attributes;
  tags_are =
      subst (AreTags input.tags prior.tags)
        (sym (
          ap (λ (c : Draft). if is_some c.tags then c.tags else prior.tags) h
          ∙ flagged_asked (new_tags (elements prior.tags) input.tags) prior.tags))
        (tags_asked prior.tags input.tags);
  closed_is = coalesce?_asked (Option.map env.stored d.upd.closed_at) prior.closed_at;
  kept = (refl, refl, refl, refl, refl, refl);
}

-- The row where no field has changed.
pub unchanged-IsAsAsked :
    (env : Env) (input : PatchInput) (d : Plan) (prior : IncidentRow)
    → draft_of d ≡ asked (from_row prior) input
    → d.changed_fields ≡ []
    → (input.status ≡ none → d.upd.closed_at ≡ none)
    → IsAsAsked input (Option.map env.stored d.upd.closed_at) prior prior
unfolding from_row
unchanged-IsAsAsked env input d prior h empty unclosed =
    let all = sym (ap (λ (c : Draft). c.names) h) ∙ empty in
    let (title, r₁) = append-nil_iff _ _ all in
    let (description, r₂) = append-nil_iff _ _ r₁ in
    let (severity, r₃) = append-nil_iff _ _ r₂ in
    let (status, r₄) = append-nil_iff _ _ r₃ in
    let (assignee, r₅) = append-nil_iff _ _ r₄ in
    let (attributes, tags) = append-nil_iff _ _ r₅ in
    let no_title = named-nil "title" (new_title prior.title input.title) title in
    let no_tags = named-nil "tags" (new_tags (elements prior.tags) input.tags) tags in
    let no_status = named-nil "status" input.status status in
    let no_attributes = named-nil "attributes" input.attributes attributes in
    record {
      title_is =
          ap (λ o. asked_or o prior.title) (sym no_title) ∙ title_asked prior.title input.title;
      description_is =
          ap (λ o. asked_or? o prior.description)
            (sym (named-nil "description" input.description description));
      severity_is =
          ap (λ o. asked_or o prior.severity) (sym (named-nil "severity" input.severity severity));
      status_is = ap (λ o. asked_or o prior.status) (sym no_status);
      assignee_is =
          ap (λ o. asked_or? o prior.assignee_id)
            (sym (named-nil "assignee_id" input.assignee_id assignee));
      attributes_is = ap (λ o. asked_or? (Option.map obj o) prior.attributes) (sym no_attributes);
      tags_are =
          subst (λ o. AreTags input.tags prior.tags (asked_or? o prior.tags)) no_tags
            (tags_asked prior.tags input.tags);
      closed_is =
          ap (λ o. asked_or? (Option.map env.stored o) prior.closed_at) (sym (unclosed no_status));
      kept = (refl, refl, refl, refl, refl, refl);
    }
