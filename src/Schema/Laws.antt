-- ===== src/Schema/Laws.antt =====
-- What the registry knows after start-up, and what `Validate` answers.
use soarcore.Common.{ℕ, String, true, false, ◌≡◌, ◌↔◌, Option, some, str_eq, arith}
use soarcore.Json.{Json}
use soarcore.Errors.{Error, is, schema_not_found, ok}
use soarcore.Schema.{Compiler, Registry, entity_incident, key, new_registry, validate, has}

-- A registry that starts knows the incident schema of version 1 as compiled from its file, and no
-- other key: `Has` answers true for exactly the pairs whose key is that one's.
pub has-new_registry :
    (c : Compiler) (r : Registry)
    → new_registry c ≡ ok r
    → (entity : String) (version : ℕ)
    → has r entity version ≡ str_eq (key c.decimal entity_incident 1) (key c.decimal entity version)
unfolding new_registry has
has-new_registry c r h entity version = ground arith

-- `Validate` names an unknown pair by ErrSchemaNotFound, and for a known pair fails by any other
-- error: the sentinel says exactly whether `Has` knows the pair.
pub validate-not_found_iff :
    (r : Registry) (entity : String) (version : ℕ) (payload : Option Json) (e : Error)
    → validate r entity version payload ≡ some e
    → (is e schema_not_found ≡ true) ↔ (has r entity version ≡ false)
unfolding validate has is
validate-not_found_iff r entity version payload e h = ground arith
