-- ===== src/Api/Incidents.antt =====
-- internal/api/incidents.go: the requests on incidents.

use soarcore.Common
use soarcore.Common.{ℕ, String, Option, none, some, List, if◌then◌else◌}
use soarcore.Json.{Json, null, int, str, arr, obj, Items, Fields, end, field, get, strings, nil}
use soarcore.Json.Decode.{
  ◌>>=?◌, as_string, as_string_pointer, as_pointer, as_map, as_strings, known_fields,
}
use soarcore.Auth.{Principal, Context}
use soarcore.World.{World, Env, Uuid}
use soarcore.Incident.{Incident}
use soarcore.Incident.Rows.{optional}
use soarcore.Incident.Input.{CreateInput, PatchInput}
use soarcore.Incident.Input.{CreateInput, PatchInput}
use soarcore.Incident.Service.{Service, create, patch, get as get_incident}
use soarcore.Api.{Response, respond, value, message, Handler, finish, with_principal_and_tenant}

-- `createIncidentRequest`, by what the handler makes of it.
pub record CreateRequest : Type 0 where
  pub input : CreateInput
  pub correlation_id : Option Uuid

-- `patchIncidentRequest`; `attributes` is the raw message, none where the key is missing.
pub record PatchRequest : Type 0 where
  pub title : Option String
  pub description : Option String
  pub severity : Option String
  pub status : Option String
  pub assignee_id : Option Uuid
  pub attributes : Option Json
  pub tags : Option (List String)
  pub correlation_id : Option Uuid

abbrev create_fields : List String
create_fields = Common.◌∷◌ "external_id" (
    Common.◌∷◌ "title" (
      Common.◌∷◌ "description" (
        Common.◌∷◌ "severity" (
          Common.◌∷◌ "assignee_id" (
            Common.◌∷◌ "source_connector_id" (
              Common.◌∷◌ "attributes"
                (Common.◌∷◌ "tags" (Common.◌∷◌ "correlation_id" Common.[]))))))))

abbrev patch_fields : List String
patch_fields = Common.◌∷◌ "title" (
    Common.◌∷◌ "description" (
      Common.◌∷◌ "severity" (
        Common.◌∷◌ "status" (
          Common.◌∷◌ "assignee_id" (
            Common.◌∷◌ "attributes" (Common.◌∷◌ "tags" (Common.◌∷◌ "correlation_id" Common.[])))))))

-- The object of a body, where its keys are known.
abbrev strict : List String → Option Json → Option Fields
strict names (some (obj fs)) = if known_fields names fs then some fs else none
strict names (some null) = some end
strict names _ = none

module _ (env : Env) where
  create_of_fields : Fields → Option CreateRequest
  unfolding get
  create_of_fields fs = as_string_pointer (get "external_id" fs) >>=? λ external_id.
      as_string (get "title" fs) >>=? λ title.
      as_string_pointer (get "description" fs) >>=? λ description.
      as_string (get "severity" fs) >>=? λ severity.
      as_pointer env.uuid_parse (get "assignee_id" fs) >>=? λ assignee_id.
      as_string_pointer (get "source_connector_id" fs) >>=? λ source_connector_id.
      as_map (get "attributes" fs) >>=? λ attributes. as_strings (get "tags" fs) >>=? λ tags.
      as_pointer env.uuid_parse (get "correlation_id" fs) >>=? λ corr. some (record {
        input = record {
          external_id = external_id;
          title = title;
          description = description;
          severity = severity;
          assignee_id = assignee_id;
          source_connector_id = source_connector_id;
          attributes = attributes;
          tags = tags;
        };
        correlation_id = corr;
      })

  patch_of_fields : Fields → Option PatchRequest
  unfolding get
  patch_of_fields fs = as_string_pointer (get "title" fs) >>=? λ title.
      as_string_pointer (get "description" fs) >>=? λ description.
      as_string_pointer (get "severity" fs) >>=? λ severity.
      as_string_pointer (get "status" fs) >>=? λ status.
      as_pointer env.uuid_parse (get "assignee_id" fs) >>=? λ assignee_id.
      as_strings (get "tags" fs) >>=? λ tags.
      as_pointer env.uuid_parse (get "correlation_id" fs) >>=? λ corr. some (record {
        title = title;
        description = description;
        severity = severity;
        status = status;
        assignee_id = assignee_id;
        attributes = get "attributes" fs;
        tags = tags;
        correlation_id = corr;
      })

  -- The decoding of a body; an empty body and a text that is no JSON are `none`.
  unfoldable pub decode_create : Option Json → Option CreateRequest
  unfolding create_of_fields
  decode_create body = strict create_fields body >>=? create_of_fields

  unfoldable pub decode_patch : Option Json → Option PatchRequest
  unfolding patch_of_fields
  decode_patch body = strict patch_fields body >>=? patch_of_fields

  -- `toResponse`, as JSON: a nil slice of tags is written as [].
  abbrev tags_or_empty : Option (List String) → Items
  tags_or_empty none = nil
  tags_or_empty (some tags) = strings tags

  -- `omitempty` on a map leaves out an empty one as well.
  abbrev attributes_field : Option Fields → Fields → Fields
  attributes_field none rest = rest
  attributes_field (some end) rest = rest
  attributes_field (some (field k v fs)) rest = field "attributes" (obj (field k v fs)) rest

  unfoldable pub to_response : Incident → Json
  to_response inc =
      let uuid = λ (u : ℕ). str (env.uuid_string u) in
      let time = λ (t : ℕ). str (env.time_string t) in
      obj (
        field "id" (uuid inc.id) (
          field "tenant_id" (uuid inc.tenant_id) (
            field "schema_version" (int inc.schema_version) (
              optional "external_id" str inc.external_id (
                field "title" (str inc.title) (
                  optional "description" str inc.description (
                    field "severity" (str inc.severity) (
                      field "status" (str inc.status) (
                        optional "assignee_id" uuid inc.assignee_id (
                          optional "source_connector_id" str inc.source_connector_id (
                            attributes_field inc.attributes (
                              field "tags" (arr (tags_or_empty inc.tags)) (
                                field "created_at" (time inc.created_at) (
                                  field "updated_at" (time inc.updated_at)
                                    (optional "closed_at" time inc.closed_at end)))))))))))))))

  -- `corrID := uuid.Nil`, or the request's.
  abbrev pub correlation_or_nil : Option Uuid → Uuid
  correlation_or_nil none = 0
  correlation_or_nil (some c) = c

  -- `handleCreateIncident`
  unfoldable pub handle_create : Service → Context → Option Json → Handler
  handle_create s c body = with_principal_and_tenant c λ p tenant w. elim (decode_create body) [
    | none ↦ (respond 400 (message "invalid JSON"), w)
    | some r ↦
        finish (λ inc. respond 201 (value (to_response inc)))
          (create env s p tenant r.input (correlation_or_nil r.correlation_id) w)
  ]

  -- The parsed id of a path, and the handler under it.
  abbrev pub with_id : Option Uuid → (Uuid → Handler) → Handler
  with_id none f w = (respond 400 (message "invalid id"), w)
  with_id (some id) f w = f id w

  -- `handleGetIncident`
  unfoldable pub handle_get : Context → String → Handler
  handle_get c id_text = with_principal_and_tenant c λ p tenant.
      with_id (env.uuid_parse id_text)
        λ id w. finish (λ inc. respond 200 (value (to_response inc))) (get_incident env tenant id w)

  -- The attributes of a patch: no change where they are missing or null; else an object.
  abbrev pub patch_attributes : Option Json → Option (Option Fields)
  patch_attributes none = some none
  patch_attributes (some null) = some none
  patch_attributes (some (obj fs)) = some (some fs)
  patch_attributes _ = none

  abbrev pub patch_input : PatchRequest → Option Fields → PatchInput
  patch_input r attributes = record {
    title = r.title;
    description = r.description;
    severity = r.severity;
    status = r.status;
    assignee_id = r.assignee_id;
    attributes = attributes;
    tags = r.tags;
  }

  -- The handler of a patch, from the decoded body.
  unfoldable pub answer_patch :
      Service → Principal → Uuid → Uuid → World → Option PatchRequest → Response × World
  answer_patch s p tenant id w none = (respond 400 (message "invalid JSON"), w)
  answer_patch s p tenant id w (some r) = elim (patch_attributes r.attributes) [
    | none ↦ (respond 400 (message "invalid attributes"), w)
    | some attributes ↦
        finish (λ inc. respond 200 (value (to_response inc)))
          (patch env s p tenant id (patch_input r attributes) (correlation_or_nil r.correlation_id)
            w)
  ]

  -- `handlePatchIncident`
  unfoldable pub handle_patch : Service → Context → String → Option Json → Handler
  unfolding answer_patch
  handle_patch s c id_text body = with_principal_and_tenant c λ p tenant.
      with_id (env.uuid_parse id_text) λ id w. answer_patch s p tenant id w (decode_patch body)
