-- ===== src/Incident/Input.antt =====
-- internal/domain/incident/service.go: the inputs of Create and Patch, and the patch's plan.
use soarcore.Common.{
  String, Bool, true, false, not, ◌&&◌, Option, none, some, List, [], ◌∷◌, ◌++◌, str_eq,
  if◌then◌else◌,
}
use soarcore.Json.{Json, Fields}
use soarcore.Errors.{Error, sentinel, invalid_input, wrapped}
use soarcore.Schema.{Registry, validate, entity_incident}
use soarcore.World.{Env, Uuid, Time, Exec, ◌>>=◌, pure, fail, check, time_now}
use soarcore.Persistence.Incidents.{IncidentUpdate}
use soarcore.Incident.{Incident, schema_version, is_valid_severity, is_valid_status, can_transition}
use soarcore.Incident.Rows.{marshal_attributes}

pub record CreateInput : Type 0 where
  pub external_id : Option String
  pub title : String
  pub description : Option String
  pub severity : String
  pub assignee_id : Option Uuid
  pub source_connector_id : Option String
  pub attributes : Option Fields
  pub tags : Option (List String)

-- `fmt.Errorf("%w: …", ErrInvalidInput)`
abbrev pub invalid : String → Error
invalid text = wrapped text (sentinel invalid_input)

unfoldable pub validate_create_input : CreateInput → Option Error
validate_create_input i =
    if str_eq i.title ""
    then some (invalid "title is required")
    else if is_valid_severity i.severity
    then none
    else some (invalid "invalid severity")

abbrev under_invalid : Option Error → Option Error
under_invalid none = none
under_invalid (some e) = some (invalid "attributes")

-- The registry's verdict on the attributes, as Create and Patch return it. (Marshalling a map that
-- came from JSON does not fail.)
unfoldable pub attributes_error : Registry → Json → Option Error
attributes_error registry bytes =
    under_invalid (validate registry entity_incident schema_version (some bytes))

-- nil = do not touch.
pub record PatchInput : Type 0 where
  pub title : Option String
  pub description : Option String
  pub severity : Option String
  pub status : Option String
  pub assignee_id : Option Uuid
  pub attributes : Option Fields
  pub tags : Option (List String)

-- `stringSliceEqual`, where a nil slice has no elements.
unfoldable pub string_slice_equal : List String → List String → Bool
string_slice_equal [] [] = true
string_slice_equal (a ∷ as') (b ∷ bs) = str_eq a b && string_slice_equal as' bs
string_slice_equal _ _ = false

abbrev pub elements : Option (List String) → List String
elements none = []
elements (some xs) = xs

-- The variables that the body of Patch fills in.
pub record Plan : Type 0 where
  pub upd : IncidentUpdate
  pub changed_fields : List String
  pub status_changed : Bool
  pub from_status : String
  pub to_status : String

abbrev pub start : Time → Plan
start now = record {
  upd = record {
    title = none;
    description = none;
    severity = none;
    status = none;
    assignee_id = none;
    attributes = none;
    tags = none;
    closed_at = none;
    updated_at = now;
  };
  changed_fields = [];
  status_changed = false;
  from_status = "";
  to_status = "";
}

-- One field set, and its name noted.
abbrev pub change : Plan → String → IncidentUpdate → Plan
change d name upd = record d { upd = upd; changed_fields = d.changed_fields ++ name ∷ [] }

unfoldable pub title_step : Incident → Option String → Plan → Plan
title_step prior none d = d
title_step prior (some t) d =
    if str_eq t prior.title then d else change d "title" (record d.upd { title = some t })

unfoldable pub description_step : Option String → Plan → Plan
description_step none d = d
description_step (some t) d = change d "description" (record d.upd { description = some t })

unfoldable pub severity_step : Option String → Plan → Exec Plan
severity_step none d = pure d
severity_step (some s) d =
    if is_valid_severity s
    then pure (change d "severity" (record d.upd { severity = some s }))
    else fail (invalid "invalid severity")

-- A change of status, once it is allowed: the flags, and the closing time for `closed`.
abbrev pub set_status : Incident → String → Plan → Plan
set_status prior s d = record (change d "status" (record d.upd { status = some s })) {
  status_changed = not (str_eq prior.status s);
  from_status = prior.status;
  to_status = s;
}

abbrev pub set_closed : Plan → Time → Plan
set_closed d t = record d { upd = record d.upd { closed_at = some t } }

unfoldable pub close_step : Env → String → Plan → Exec Plan
close_step env s d =
    if str_eq s "closed" then (time_now env >>= λ t. pure (set_closed d t)) else pure d

unfoldable pub status_step : Env → Incident → Option String → Plan → Exec Plan
unfolding close_step
status_step env prior none d = pure d
status_step env prior (some s) d =
    if is_valid_status s
    then check (can_transition prior.status s) (close_step env s (set_status prior s d))
    else fail (invalid "invalid status")

unfoldable pub assignee_step : Option Uuid → Plan → Plan
assignee_step none d = d
assignee_step (some u) d = change d "assignee_id" (record d.upd { assignee_id = some u })

unfoldable pub attributes_step : Registry → Option Fields → Plan → Exec Plan
unfolding marshal_attributes
attributes_step registry none d = pure d
attributes_step registry (some fs) d =
    let bytes = marshal_attributes (some fs) in
    check (attributes_error registry bytes)
      (pure (change d "attributes" (record d.upd { attributes = some bytes })))

unfoldable pub tags_step : Incident → Option (List String) → Plan → Plan
unfolding string_slice_equal
tags_step prior none d = d
tags_step prior (some tags) d =
    if string_slice_equal tags (elements prior.tags)
    then d
    else change d "tags" (record d.upd { tags = some tags })

-- The part of Patch that computes the update.
unfoldable pub plan : Env → Registry → Incident → PatchInput → Exec Plan
plan env registry prior p = do
  now ← time_now env
  d ←
      severity_step p.severity
        (description_step p.description (title_step prior p.title (start now)))
  d' ← status_step env prior p.status d
  d'' ← attributes_step registry p.attributes (assignee_step p.assignee_id d')
  pure (tags_step prior p.tags d'')
