-- ===== src/Tests/Http.antt =====
-- Runs of the router, the system and the overlapping patches.
use soarcore.Common.{
  String, ◌≡◌, inl, inr, refl, true, false, none, some, [], str_eq, if◌then◌else◌, arith,
}
use soarcore.Json.{Json, str, obj, field, end}
use soarcore.Auth.{Principal}
use soarcore.Auth.Callers.{Caller}
use soarcore.World.{IncidentRow}
use soarcore.Persistence.Incidents.{find_row}
use soarcore.Api.{respond, message}
use soarcore.Api.Router.{Request, Chi, Server, router}
use soarcore.Api.Router.Served.{Served, router-Served}
use soarcore.Api.Router.Isolation.{router-isolated}
use soarcore.Relay.{State}
use soarcore.System.{here, after, serves, in_world, initial}
use soarcore.System.Life.{Moved, Step-Moved}
use soarcore.System.Sound.{IsSoundTable, Reach-IsSoundTable}
use soarcore.Tests.Fixtures.{recorder, env, service, registry, row, world_with_row}

-- Paths that are the patterns, but for the id of the fixtures' incident.
abbrev pub chi : Chi
chi = record {
  match = λ pattern path.
      if str_eq pattern path
      then some ""
      else if str_eq pattern "/v1/incidents/{id}"
      then (if str_eq path "/v1/incidents/11" then some "11" else none)
      else none;
  under_v1 = λ path. if str_eq path "/healthz" then false else true;
  not_found = respond 404 (message "404 page not found");
  not_allowed = respond 405 (message "");
}

abbrev pub server : Server
server = record { service = service; connector_registry = registry; default_tenant = 7 }

-- Alice asks for the default tenant.
abbrev request : String → String → Json → Request
request method path body = record {
  method = method;
  path = path;
  header = λ name. if str_eq name "X-Principal-Id" then "user:alice" else "";
  query = λ key. "";
  body = some body;
}

abbrev triage : Request
triage = request "PATCH" "/v1/incidents/11" (obj (field "status" (str "triaged") end))

router-Served_example :
    Served env chi server triage world_with_row (router env chi server triage world_with_row)
router-Served_example = router-Served env chi server triage world_with_row

-- Nobody speaks for tenant 8: no tenant header, and the default is 7.
nobody : (q : Principal) → Caller env 7 triage.header q 8 → ⊥
nobody q c = elim c.tenant_is [ inl (_, e) ↦ absurd (ground arith) | inr e ↦ absurd (ground arith) ]

router-isolated_example :
    find_row 8 2 (router env chi server triage world_with_row).1.db.incidents
    ≡ find_row 8 2 world_with_row.db.incidents
router-isolated_example = router-isolated env 8 2 chi server triage world_with_row nobody

abbrev stored : State recorder
stored = record { world = world_with_row; bus = [] }

Step-Moved_example :
    (r' : IncidentRow) × (find_row 7 2 (router env chi server triage world_with_row).1.db.incidents
      ≡ some r')
    × Moved row r'
unfolding find_row
Step-Moved_example =
    Step-Moved env recorder stored
      (in_world env recorder (router env chi server triage world_with_row).1 stored) 7 2 row
      (serves chi server triage) refl

abbrev posted : Request
posted =
    request "POST" "/v1/incidents/"
      (obj (field "title" (str "phish") (field "severity" (str "high") end)))

abbrev start : State recorder
start = initial env recorder 0 []

abbrev one : State recorder
one = in_world env recorder (router env chi server posted start.world).1 start

Reach-IsSoundTable_example : IsSoundTable one.world.db.incidents
Reach-IsSoundTable_example =
    Reach-IsSoundTable env recorder 0 [] one (after start one here (serves chi server posted))
