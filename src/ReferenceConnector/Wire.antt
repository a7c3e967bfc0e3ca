-- ===== src/ReferenceConnector/Wire.antt =====
-- What the core's handlers decode of what the client of the connector sends.
use soarcore.Common.{
  String, ◌≡◌, inl, inr, refl, Option, none, some, List, [], ◌∷◌, ◌==◌, Bool-cases, if◌then◌else◌,
}
use soarcore.Common.Int.{pos}
use soarcore.Json.{strings}
use soarcore.Json.Decode.{string_items}
use soarcore.World.{Env, Uuid}
use soarcore.Api.Incidents.{decode_patch, PatchRequest}
use soarcore.Api.Connectors.{decode_register}
use soarcore.ReferenceConnector
use soarcore.ReferenceConnector.{patch_json}
use soarcore.ReferenceConnector.Client.{register_json}

-- The request that the core reads: tags and correlation id, and nothing else.
abbrev pub only_tags : List String → Option Uuid → PatchRequest
only_tags tags corr = record {
  title = none;
  description = none;
  severity = none;
  status = none;
  assignee_id = none;
  attributes = none;
  tags = some tags;
  correlation_id = corr;
}

abbrev pub correlation_of : Uuid → Option Uuid
correlation_of c = if c == 0 then none else some c

string_items-strings : (tags : List String) → string_items (strings tags) ≡ some tags
string_items-strings [] = refl
string_items-strings (t ∷ tags) = rw (string_items-strings tags) refl

module _ (env : Env) (read_back : (u : Uuid) → env.uuid_parse (env.uuid_string u) ≡ some u) where
  pub decode_patch-patch_json :
      (r : ReferenceConnector.PatchRequest)
      → decode_patch env (some (patch_json env r))
        ≡ some (only_tags r.tags (correlation_of r.correlation_id))
  unfolding decode_patch
  decode_patch-patch_json r = elim (Bool-cases (r.correlation_id == 0)) [
    | inl y ↦ rw y (rw (string_items-strings r.tags) refl)
    | inr n ↦ rw n (rw (string_items-strings r.tags) (rw (read_back r.correlation_id) refl))
  ]

pub decode_register-register_json :
    (id : String)
    → decode_register (some (register_json id))
      ≡ some (record {
        id = id;
        capabilities = record {
          produces = some [];
          consumes = some ("incident" ∷ []);
          event_schema_versions = some (pos 1 ∷ []);
        };
      })
unfolding decode_register
decode_register-register_json id = refl
