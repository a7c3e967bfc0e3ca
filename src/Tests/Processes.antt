-- ===== src/Tests/Processes.antt =====
-- Runs of the core and of the smoke consumer, and of what the processes start with.
use soarcore.Common.{
  ℕ, ◌+◌, ◌≡◌, ◌↔◌, refl, true, Option, none, some, List, [], ◌∷◌, if◌then◌else◌, ltb,
}
use soarcore.Json.{null, obj, end}
use soarcore.Errors.{plain, ok, err}
use soarcore.Events.Envelope.{Envelope, encode, decode, incident_created}
use soarcore.Events.Subscriber.{
  Signal, delivery, cancelled, Broker, received, subscribe_with, subscribe_ephemeral, deliveries,
}
use soarcore.Startup.{attempt, wait_for}
use soarcore.Persistence.Connect.{
  Pgx, new_pool, wait_for_pool, open_after, released, wait_for_pool-open_after,
}
use soarcore.Persistence.Migrate.{
  applied, run_migrations, migrate_scheme, Rescheme, migrate_scheme-Rescheme, strip_prefix,
}
use soarcore.SmokeConsumer.{
  Flags, smoke_main, IsFirst, Ends, Takes, wanted, handler, smoke_main-IsFirst,
}
use soarcore.Config.{Getenv, load_core}
use soarcore.Schema.{Compiler, Registry, key, entity_incident, new_registry}
use soarcore.CoreMain.{Outside, signalled, served, core_main, Serves, core_main_iff}
use soarcore.Api.Router.{Server}
use soarcore.Config.{env_int, milliseconds}
use soarcore.Numbers.{parse_int}
use soarcore.Auth.{stub_authorizer}
use soarcore.Tests.Fixtures.{env, show}

migrate_scheme-Rescheme_example :
    Rescheme "postgres://soar@db/soar" (migrate_scheme "postgres://soar@db/soar")
migrate_scheme-Rescheme_example = migrate_scheme-Rescheme "postgres://soar@db/soar"

-- A database that answers from the third attempt on, with a ping that fails before.
abbrev late : Pgx
late = record {
  parse_config = λ dsn. none;
  new_pool = λ i. none;
  ping = λ i. if ltb i 2 then some (plain "refused") else none;
}

wait_for_pool-open_after_example :
    ((wait_for_pool late "postgres://db" 0 5 none 0).0
      ≡ attempt "postgres unreachable" (λ j. (new_pool late "postgres://db" j 0).0) 0 5 none)
    × ((wait_for_pool late "postgres://db" 0 5 none 0).1
        ≡ open_after late "postgres://db" (wait_for_pool late "postgres://db" 0 5 none 0).0 0)
    × (released late "postgres://db" (wait_for_pool late "postgres://db" 0 5 none 0) ≡ 0)
wait_for_pool-open_after_example = wait_for_pool-open_after late "postgres://db" 0 5 0 none

abbrev pub made : Envelope
made = record {
  event_id = 3;
  event_type = incident_created;
  event_schema_version = 1;
  occurred_at = 4;
  tenant_id = 7;
  actor = record { type = "user"; id = "alice" };
  entity = record { type = "incident"; id = 2; schema_version = 1 };
  payload = null;
  correlation_id = 5;
  prior_event_id = none;
}

abbrev heard : List Signal
heard = delivery none ∷ delivery (some (encode env made)) ∷ cancelled ∷ []

-- A broker that takes everything, and counts its calls.
abbrev pub willing : Broker ℕ
willing = record {
  declare_queue = λ queue durable auto_delete n. ok (n + 1);
  bind_queue = λ queue pattern n. ok (n + 1);
  consume = λ queue n. ok (n + 1);
}

abbrev flags : Flags
flags = record {
  pattern = "incident.*";
  event_type = incident_created;
  entity_id = "";
  queue = "smoke";
}

willing-Takes : Takes env willing "incident.*"
willing-Takes = record {
  declares = λ queue n. (n + 1, refl);
  binds = λ queue n. (n + 1, refl);
  consumes = λ queue n. (n + 1, refl);
}

smoke_main-IsFirst_example :
    (o : Option Envelope) × IsFirst incident_created 0
      (received env (handler incident_created 0) heard)
      o
    × Ends env willing o (smoke_main env willing flags "20260426" (ok 0) heard)
smoke_main-IsFirst_example =
    smoke_main-IsFirst env willing flags "20260426" 0 0 heard refl refl willing-Takes

-- The run prints the envelope that was delivered, and exits with 0.
smoke_prints :
    smoke_main env willing flags "20260426" (ok 0) heard
    ≡ record { code = 0; printed = some (encode env made) }
unfolding smoke_main handler wanted subscribe_ephemeral subscribe_with deliveries decode encode
smoke_prints = refl

abbrev pub no_variables : Getenv
no_variables = λ name. ""

abbrev compiler : Compiler
compiler = record {
  read_file = λ name. some (obj end);
  compile = λ doc. some (λ j. true);
  decimal = λ n. show n;
}

-- A database that is up before its one migration, and a broker that is reached only after it.
abbrev outside : Outside ℕ
outside = record {
  dial_postgres = λ n i. ok tt;
  migrator = record { source = none; open_at = λ url. none; up = λ n. (applied, n + 1) };
  dial_broker = λ n i. if ltb 0 n then ok tt else err (plain "refused");
  compiler = compiler;
  ends = signalled;
}

abbrev loaded : Registry
loaded = record {
  decimal = compiler.decimal;
  validators = (key compiler.decimal entity_incident 1, λ j. true) ∷ [];
}

-- The parser of the fixtures reads the default tenant's 36 characters as 36.
abbrev wired_server : Server
wired_server = record {
  service = record { registry = loaded; allow = stub_authorizer };
  connector_registry = loaded;
  default_tenant = 36;
}

core_runs : core_main outside env no_variables 0 ≡ served wired_server 0 1
unfolding core_main load_core env_int parse_int milliseconds wait_for attempt run_migrations
    migrate_scheme strip_prefix new_registry
core_runs = refl

core_main_iff_example :
    (core_main outside env no_variables 0 ≡ served wired_server 0 1)
    ↔ Serves outside env no_variables 0 wired_server 0 1
core_main_iff_example = core_main_iff outside env no_variables 0 wired_server 0 1

core_starts : Serves outside env no_variables 0 wired_server 0 1
core_starts = (core_main_iff outside env no_variables 0 wired_server 0 1).0 core_runs
