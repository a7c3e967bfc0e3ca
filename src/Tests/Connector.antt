-- ===== src/Tests/Connector.antt =====
-- Runs of the reference connector.
use soarcore.Common.{
  ◌↔◌, ◌<◌, ltb, ℕ, ◌+◌, String, ◌≡◌, refl, false, none, some, List, [], ◌∷◌, if◌then◌else◌, str_eq,
  arith,
}
use soarcore.Errors.{is, ok}
use soarcore.World.{World, exec, query}
use soarcore.Events.Envelope.{Envelope, encode}
use soarcore.Events.Subscriber.{delivery, cancelled}
use soarcore.Startup.{attempt, wait_for}
use soarcore.Config.{load_connector}
use soarcore.Api.{Response}
use soarcore.Incident.{Incident}
use soarcore.Incident.Service.Patched.{Patched}
use soarcore.ReferenceConnector.{
  principal_header, handle_envelope, request_of, next_tags, prior_tags, only_strings,
}
use soarcore.ReferenceConnector.Client.Waiting.{NotYet, FindsCore, probed, wait_for_core_iff}
use soarcore.ReferenceConnector.Client.{probe, Client, Http, patch_incident_tags}
use soarcore.ReferenceConnector.Core.{core_http, connector_principal, tags_input}
use soarcore.ReferenceConnector.Enriching.{handle_envelope-Patched}
use soarcore.ReferenceConnector.Laws.{Enriched, created_payload}
use soarcore.ReferenceConnector.Main.{
  Turn, bus, tick, run_turns, connector_main, with_heartbeat, subscribed,
}
use soarcore.Schema.{has}
use soarcore.Api.Router.{Chi}
use soarcore.ConnectorRuntime.Stored.{IsStored}
use soarcore.ReferenceConnector.Registering.{offered, register_succeeds}
use soarcore.ReferenceConnector.Main.Started.{Started, connector_main-Started}
use soarcore.ReferenceConnector.Client.{wait_for_core, register}
use soarcore.Incident.Rows.{incident_json}
use soarcore.Incident.Input.{elements}
use soarcore.Events.Subscriber.{deliveries}
use soarcore.Events.Envelope.{decode}
use soarcore.Config.{env_int, milliseconds}
use soarcore.Numbers.{parse_int}
use soarcore.Auth.{middleware, middleware_of, tenant_of, parse_principal}
use soarcore.Audit.{record_audit}
use soarcore.Persistence.Pool.{with_tx}
use soarcore.Persistence.Incidents
use soarcore.Persistence.Audit
use soarcore.Persistence.Outbox.{enqueue}
use soarcore.Events.Envelope.{new_envelope}
use soarcore.Incident.Rows.{from_row}
use soarcore.Incident.Input.{
  plan, title_step, description_step, severity_step, status_step, assignee_step, attributes_step,
  tags_step, string_slice_equal,
}
use soarcore.Incident.Service.{patch, patch_body, patch_rows, enqueue_event, status_events}
use soarcore.Api.{with_principal_and_tenant}
use soarcore.Api.Incidents.{handle_patch, answer_patch, decode_patch}
use soarcore.Api.Router.{router, behind, follow, run_route, find}
use soarcore.ReferenceConnector.Client.{do_request, after_exchange}
use soarcore.Tests.Fixtures.{created, env, world_with_row, registry, show, read-show}
use soarcore.Tests.Http.{chi, server}
use soarcore.Tests.Processes.{made, willing, no_variables}

-- A core that answers every request as its client wants, and counts them.
abbrev counting : Http ℕ
counting = record {
  malformed = λ method url. none;
  exchange = λ q n. (
    ok (record {
      status = if str_eq q.url "http://localhost:8080/v1/connectors" then 201 else 200;
      body = "";
    }),
    n + 1,
  );
}

abbrev client : Client
client = record { base = "http://core"; tenant = show 7; principal = principal_header }

abbrev turns : List Turn
turns = tick ∷ bus (delivery (some (encode env made))) ∷ tick ∷ bus cancelled ∷ tick ∷ []

abbrev asked : ℕ
asked = (connector_main env counting no_variables (λ i. false) (λ s i. ok 0) willing turns 0).1

connector_runs :
    connector_main env counting no_variables (λ i. false) (λ s i. ok 0) willing turns 0
    ≡ (some 0, asked)
unfolding connector_main with_heartbeat subscribed run_turns load_connector env_int milliseconds
    parse_int wait_for_core register do_request after_exchange wait_for attempt deliveries decode is
    handle_envelope
connector_runs = refl

connector_main-Started_example :
    Started env counting
      (λ s i. ok 0)
      willing
      turns
      (some 0)
      asked
      (λ h. ground arith, λ h. ground arith)
      no_variables
      (λ i. false)
      0
connector_main-Started_example =
    connector_main-Started env counting (λ s i. ok 0) willing turns (some 0) asked
      (λ h. ground arith, λ h. ground arith) no_variables (λ i. false) 0 connector_runs

-- The event of a Create, by alice.
abbrev born : Envelope
born = record made { payload = created_payload env created }

-- The path of a URL of this client.
abbrev path_of : String → String
path_of url = "/v1/incidents/11"

abbrev render : Response → String
render r = ""

abbrev after_born : World
after_born =
    (handle_envelope env (patch_incident_tags (core_http env chi server path_of render) client env)
      born world_with_row).1

born_runs :
    handle_envelope env
      (patch_incident_tags (core_http env chi server path_of render) client env)
      born
      world_with_row
    ≡ (none, after_born)
unfolding handle_envelope request_of next_tags prior_tags only_strings patch_incident_tags
    do_request after_exchange router behind follow run_route find middleware middleware_of tenant_of
    parse_principal handle_patch with_principal_and_tenant answer_patch decode_patch patch
    patch_body patch_rows enqueue_event status_events with_tx exec query Incidents.update
    Incidents.get_by_id Audit.insert enqueue record_audit new_envelope plan title_step
    description_step severity_step status_step assignee_step attributes_step tags_step
    string_slice_equal from_row Incidents.find_row Incidents.update_rows Incidents.apply_update
    incident_json
born_runs = refl

handle_envelope-Patched_example :
    (tags : List String) × Enriched (elements created.tags) tags
    × ((after : Incident) × Patched env registry 5 7 connector_principal 2
          (tags_input tags)
          after
          world_with_row.db
          after_born.db)
handle_envelope-Patched_example =
    handle_envelope-Patched env chi server path_of render client 7 created born world_with_row
      after_born read-show refl refl refl
      (record { no_health = refl; under_v1 = refl; no_list = refl; with_id = refl }) refl refl refl
      born_runs

-- A core whose second probe is answered.
abbrev slow : Http ℕ
slow = record counting {
  exchange = λ q n. (ok (record { status = if ltb n 1 then 503 else 200; body = "" }), n + 1);
}

wait_for_core_iff_example : (wait_for_core slow client (λ i. false) 0 5 0 ≡ (none, 2)) ↔ (
    (k : ℕ) × (k < 5)
    × NotYet slow client (λ i. false) refl k 0 0
    × FindsCore slow client (λ i. false) refl (probed slow client (λ i. false) refl k 0)
    × (2 ≡ (slow.exchange (probe slow client) (probed slow client (λ i. false) refl k 0)).1))
wait_for_core_iff_example = wait_for_core_iff slow client (λ i. false) refl 5 0 2

-- Every path is that of a registration.
abbrev to_connectors : Chi
to_connectors = record chi {
  match = λ pattern path. if str_eq pattern "/v1/connectors/" then some "" else none;
}

register_succeeds_example :
    (v : World) × (register
        (core_http env to_connectors server path_of render)
        client
        "ref"
        world_with_row
      ≡ (none, v))
    × IsStored registry "ref" 7 offered (env.now world_with_row.reads) world_with_row.db v.db
unfolding has
register_succeeds_example =
    register_succeeds env to_connectors server path_of render client 7 "ref" "" world_with_row refl
      refl refl
      (record {
        no_health = refl;
        under_v1 = refl;
        no_list = refl;
        no_incident = refl;
        connectors = refl;
      })
      refl refl refl
