-- ===== src/ReferenceConnector.antt =====
-- cmd/reference-connector/main.go: the connector that tags new incidents. The HTTP call is a
-- parameter; what the connector asks for is the request.
pub mod Laws
pub mod Client
pub mod Wire
pub mod Core
pub mod EndToEnd
pub mod Enriching
pub mod Registering
pub mod Main
use soarcore.Common.{
  String, ◌&&◌, Option, none, some, List, [], ◌∷◌, ◌++◌, ◌==◌, str_eq, if◌then◌else◌, contains,
}
use soarcore.Json.{Json, str, arr, obj, Items, nil, item, Fields, end, field, get, strings}
use soarcore.Errors.{Error}
use soarcore.World.{Env, Uuid}
use soarcore.Events.Envelope.{Envelope, incident_created}

abbrev pub principal_header : String
principal_header = "connector:reference-connector"

abbrev pub enrich_tag : String
enrich_tag = "enriched-by-reference-connector"

-- The strings of an array; what is no string is left out.
unfoldable pub only_strings : Items → List String
only_strings nil = []
only_strings (item (str s) rest) = s ∷ only_strings rest
only_strings (item _ rest) = only_strings rest

-- A type assertion to a map, and one to a slice.
abbrev as_map : Option Json → Option Fields
as_map (some (obj fs)) = some fs
as_map _ = none

abbrev pub strings_of : Option Json → List String
strings_of (some (arr items)) = only_strings items
strings_of _ = []

tags_of_incident : Option Fields → List String
unfolding only_strings get
tags_of_incident none = []
tags_of_incident (some inc) = strings_of (get "tags" inc)

tags_of_payload : Option Fields → List String
unfolding tags_of_incident get
tags_of_payload none = []
tags_of_payload (some m) = tags_of_incident (as_map (get "incident" m))

-- `priorTags`
unfoldable pub prior_tags : Json → List String
unfolding tags_of_payload
prior_tags payload = tags_of_payload (as_map (some payload))

-- The tags that the incident gets: the ones it had, and the connector's.
unfoldable pub next_tags : List String → List String
next_tags prior = if contains prior enrich_tag then prior else prior ++ enrich_tag ∷ []

-- What `patchIncidentTags` sends.
pub record PatchRequest : Type 0 where
  pub id : Uuid
  pub tags : List String
  pub correlation_id : Uuid

-- Whether an envelope is acted on, and with which request.
unfoldable pub request_of : Envelope → Option PatchRequest
request_of e =
    if str_eq e.event_type incident_created
    then if str_eq e.actor.type "connector" && str_eq e.actor.id "reference-connector"
      then none
      else some (record {
        id = e.entity.id;
        tags = next_tags (prior_tags e.payload);
        correlation_id = e.correlation_id;
      })
    else none

module _ (env : Env) where
  abbrev correlation_field : Uuid → Fields
  correlation_field c = if c == 0 then end else field "correlation_id" (str (env.uuid_string c)) end

  abbrev pub patch_json : PatchRequest → Json
  patch_json r = obj (field "tags" (arr (strings r.tags)) (correlation_field r.correlation_id))

  -- `handleEnvelope`, with `call` for the HTTP call of a request.
  unfoldable pub handle_envelope {ℓ} :
      {S : Type ℓ} → (PatchRequest → S → Option Error × S) → Envelope → S → Option Error × S
  handle_envelope call e s = elim (request_of e) [ none ↦ (none, s) | some r ↦ call r s ]
