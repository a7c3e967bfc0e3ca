-- ===== src/Tests/Edges.antt =====
-- Runs at the edges of the system: the caller, the schema registry, the connectors, the API.
use soarcore.Common.{
  ◌≤◌, ℕ, ◌<◌, String, ◌≡◌, ◌↔◌, ◌⊎◌, refl, true, false, Option, none, some, [], ◌∷◌, ltb, str_eq,
  if◌then◌else◌, contains, ◌*◌,
}
use soarcore.Common.Int.{pos}
use soarcore.Json.{Json, str, obj, end, field}
use soarcore.Errors.{Result, Error, sentinel, wrapped, unsupported_event_schema, ok, err}
use soarcore.Auth.{Context, principal_types, render, parse_principal}
use soarcore.Auth.Principals.{parse_principal_iff}
use soarcore.Schema.{Compiler, Registry, key, entity_incident, has}
use soarcore.World.{World, exec}
use soarcore.Persistence.Connectors
use soarcore.ConnectorRuntime.{
  Capabilities, registration, register, store, check_types, check_versions,
}
use soarcore.ConnectorRuntime.Laws.{Registered, register-Registered}
use soarcore.Incident.{can_transition}
use soarcore.Incident.Machine.{Edge, can_transition_iff}
use soarcore.Events.Envelope.{Envelope, incident_created}
use soarcore.ReferenceConnector.Laws.{created_payload}
use soarcore.Persistence.Connectors.{find_connector}
use soarcore.Config.{milliseconds, milliseconds_exact_iff}
use soarcore.Startup.{wait_for}
use soarcore.Startup.Attempts.{Fail, wait_for_iff}
use soarcore.Tests.Fixtures.{env, world, alice, created, show}

can_transition_iff_example :
    (can_transition "closed" "in_progress" ≡ none)
    ↔ (◌≡◌ {A = String} "closed" "in_progress" ⊎ Edge "closed" "in_progress")
can_transition_iff_example = can_transition_iff "closed" "in_progress"

abbrev compiler : Compiler
compiler = record {
  read_file = λ name. some (obj end);
  compile = λ doc. some (λ j. true);
  decimal = λ n. show n;
}

abbrev started : Registry
started = record {
  decimal = compiler.decimal;
  validators = (key compiler.decimal entity_incident 1, λ j. true) ∷ [];
}

abbrev capabilities : Capabilities
capabilities = record {
  produces = some [];
  consumes = some ("incident" ∷ []);
  event_schema_versions = some (pos 1 ∷ []);
}

abbrev after_register : World
after_register = (register env started "ref" 7 capabilities world).1

register_runs :
    register env started "ref" 7 capabilities world
    ≡ (ok (registration "ref" 7 capabilities 1), after_register)
unfolding register store check_types check_versions has exec Connectors.upsert
register_runs = refl

register-Registered_example :
    Registered started "ref" 7 capabilities world after_register
      (registration "ref" 7 capabilities 1)
register-Registered_example =
    register-Registered env started "ref" 7 capabilities world
      {r = registration "ref" 7 capabilities 1} {w' = after_register} register_runs

abbrev version_error : Error
version_error = wrapped "v" (sentinel unsupported_event_schema)

abbrev created_event : Envelope
created_event = record {
  event_id = 3;
  event_type = incident_created;
  event_schema_version = 1;
  occurred_at = 4;
  tenant_id = 7;
  actor = record { type = "user"; id = "alice" };
  entity = record { type = "incident"; id = 2; schema_version = 1 };
  payload = created_payload env created;
  correlation_id = 5;
  prior_event_id = none;
}

abbrev context : Context
context = record { principal = some alice; tenant = some 7 }

abbrev create_body : Option Json
create_body = some (obj (field "title" (str "phish") (field "severity" (str "high") end)))

abbrev patch_body : Option Json
patch_body = some (obj (field "status" (str "triaged") end))

milliseconds_exact_iff_example :
    (milliseconds (pos 1000) ≡ pos (1000 * 1000000)) ↔ (1000 ≤ 9223372036854)
milliseconds_exact_iff_example = milliseconds_exact_iff 1000

-- A broker that is up from the third attempt on.
abbrev up_from_two : ℕ → Result ℕ
up_from_two i = if ltb i 2 then err version_error else ok i

wait_for_iff_example :
    (wait_for "amqp broker unreachable" up_from_two 30 ≡ ok 2)
    ↔ ((k : ℕ) × (k < 30) × (up_from_two k ≡ ok 2) × Fail "amqp broker unreachable" up_from_two 0 k)
wait_for_iff_example = wait_for_iff "amqp broker unreachable" up_from_two 30 2

parse_principal_iff_example : (parse_principal "user:alice" ≡ ok alice) ↔ (
    (render alice ≡ "user:alice")
    × (contains principal_types "user" ≡ true)
    × (str_eq "alice" "" ≡ false))
parse_principal_iff_example = parse_principal_iff "user:alice" alice
