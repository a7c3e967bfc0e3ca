-- ===== src/Schema.antt =====
-- internal/schemaregistry/registry.go: the compiled validator of each (entity, version). The
-- compiler and the validator are santhosh-tekuri/jsonschema, a parameter; the embedded files are
-- read by name.
pub mod Laws
use Prim.Native.String.{◌++◌ as ◌<>◌}
use soarcore.Common.{
  ℕ, String, Bool, true, false, Option, none, some, List, [], ◌∷◌, str_eq, if◌then◌else◌, is_some,
}
use soarcore.Json.{Json, obj, end}
use soarcore.Errors.{Error, sentinel, schema_not_found, plain, wrapped, Result, ok, err}

-- A compiled schema: whether it accepts a document.
abbrev pub Validator : Type 0
Validator = Json → Bool

-- `embed.FS` and the schema compiler. `read_file` gives a file's document where it is JSON;
-- `decimal` is `%d`.
pub record Compiler : Type 0 where
  pub read_file : String → Option Json
  pub compile : Json → Option Validator
  pub decimal : ℕ → String

abbrev pub entity_incident : String
entity_incident = "incident"

pub record Registry : Type 0 where
  pub decimal : ℕ → String
  pub validators : List (String × Validator)

-- `fmt.Sprintf("%s:v%d", entity, version)`
abbrev pub key : (ℕ → String) → String → ℕ → String
key decimal entity version = entity <> (":v" <> decimal version)

unfoldable pub find_validator : String → List (String × Validator) → Option Validator
find_validator k [] = none
find_validator k ((j, v) ∷ rest) = if str_eq j k then some v else find_validator k rest

-- A write to the map; the newest entry is found first.
abbrev put : String → Validator → Registry → Registry
put k v r = record r { validators = (k, v) ∷ r.validators }

abbrev compiled : Compiler → String → Registry → Option Validator → Result Registry
compiled c k r none = err (plain "compile")
compiled c k r (some v) = ok (put k v r)

abbrev load_document : Compiler → String → Registry → Option Json → Result Registry
load_document c k r none = err (plain "read embedded")
load_document c k r (some doc) = compiled c k r (c.compile doc)

load : Compiler → Registry → String → ℕ → String → Result Registry
load c r entity version filename =
    load_document c (key r.decimal entity version) r (c.read_file filename)

pub record Entry : Type 0 where
  pub entity : String
  pub version : ℕ
  pub filename : String

-- The loop over `entries`.
load_all : Compiler → List Entry → Registry → Result Registry
load_all c [] r = ok r
load_all c (e ∷ rest) r = elim (load c r e.entity e.version e.filename) [
  | ok r' ↦ load_all c rest r'
  | err x ↦ err (wrapped "schemaregistry: load" x)
]

abbrev pub entries : List Entry
entries =
    record { entity = entity_incident; version = 1; filename = "schemas/incident_v1.json" } ∷ []

-- `New`
unfoldable pub new_registry : Compiler → Result Registry
unfolding load_all load
new_registry c = load_all c entries (record { decimal = c.decimal; validators = [] })

-- `len(payload) == 0` stands for {}; a text that is no JSON does not come from the callers.
abbrev document : Option Json → Json
document none = obj end
document (some j) = j

abbrev judged : Bool → Option Error
judged true = none
judged false = some (plain "schema validation failed")

abbrev judge : Option Validator → Json → Option Error
judge none doc = some (wrapped "no schema" (sentinel schema_not_found))
judge (some v) doc = judged (v doc)

-- `Validate`; nil is `none`.
unfoldable pub validate : Registry → String → ℕ → Option Json → Option Error
unfolding find_validator
validate r entity version payload =
    judge (find_validator (key r.decimal entity version) r.validators) (document payload)

-- `Has`
unfoldable pub has : Registry → String → ℕ → Bool
unfolding find_validator
has r entity version = is_some (find_validator (key r.decimal entity version) r.validators)
