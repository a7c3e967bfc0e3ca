-- ===== src/Tests/Bus.antt =====
-- Runs of the relay, the publisher and the subscriber.
use soarcore.Common.{
  length, keep, ◌*◌, ℕ, ◌+◌, ◌≤◌, ◌<◌, ◌≡◌, ◌≢◌, inl, refl, true, false, not, Option, none, some,
  List, [], ◌∷◌, ◌++◌, arith, ◌==◌, All, OneOf,
}
use soarcore.Common.Int.{pos}
use soarcore.Common.Sort.{sort_by, insert_by}
use soarcore.Json.{Json, null, str}
use soarcore.Errors.{Error, plain}
use soarcore.World.{OutboxRow, empty_db, exec, query}
use soarcore.Persistence.Outbox.{enqueue, is_unpublished, select_unpublished, effective_batch}
use soarcore.Persistence.Outbox.Batch.{IsBatch, select_unpublished-IsBatch}
use soarcore.Events.Envelope.{new_envelope, Envelope, encode, decode, incident_created}
use soarcore.Events.Envelope.RoundTrip.{decode-encode}
use soarcore.Events.Bus.{copies}
use soarcore.Events.Publisher.{Amqp, State as Link, publish}
use soarcore.Events.Publisher.Delivery.{publish-Sends}
use soarcore.Events.Publisher.Reconnect.{publish-leaks_connection}
use soarcore.Events.Subscriber.{
  Signal, delivery, cancelled, deliveries, received, handle_all, deliveries-handle_all,
}
use soarcore.Relay.{State, batch, drain_once, run}
use soarcore.Relay.Order.{IsRun, expand, decoded, drain_once-Runs}
use soarcore.Relay.Honesty.{IsHonest}
use soarcore.Relay.Table.{payload_at}
use soarcore.Relay.Progress.{run_starved}
use soarcore.Relay.Draining.{payloads, IsSent}
use soarcore.System.Delivery.{Reach-delivers}
use soarcore.Incident.Service.{create, create_checked, create_from, create_rows}
use soarcore.Incident.Rows.{to_row, marshal_attributes}
use soarcore.Incident.Input.{validate_create_input, attributes_error}
use soarcore.Audit.{record_audit}
use soarcore.Schema.{validate}
use soarcore.Persistence.Pool.{with_tx}
use soarcore.Persistence.Incidents
use soarcore.Persistence.Audit
use soarcore.System.{Reach, here, after, creates, drains, in_world, initial}
use soarcore.System.Honesty.{Reach-IsHonest}
use soarcore.Tests.Fixtures.{recorder, world, alice, service, phish, env, read-show}

abbrev event : Envelope
event = record {
  event_id = 3;
  event_type = incident_created;
  event_schema_version = 1;
  occurred_at = 4;
  tenant_id = 7;
  actor = record { type = "user"; id = "alice" };
  entity = record { type = "incident"; id = 2; schema_version = 1 };
  payload = null;
  correlation_id = 5;
  prior_event_id = none;
}

decode-encode_example : decode env (encode env event) ≡ some event
decode-encode_example = decode-encode env (read-show, read-show) event

abbrev waiting : ℕ → Json → OutboxRow
waiting id payload = record {
  id = id;
  event_id = id + 2;
  event_type = incident_created;
  tenant_id = 7;
  payload = payload;
  created_at = id;
  published_at = none;
}

abbrev with_rows : List OutboxRow → State recorder
with_rows rows = record {
  world = record { db = record empty_db { outbox = rows; next_outbox_id = 2 }; reads = 0 };
  bus = [];
}

abbrev one_event : State recorder
one_event = with_rows (waiting 1 (encode env event) ∷ [])

abbrev one_malformed : State recorder
one_malformed = with_rows (waiting 1 (str "garbage") ∷ [])

one_event-IsHonest : IsHonest env recorder one_event
unfolding payload_at
one_event-IsHonest = record {
  fresh = (omega arith, tt);
  keyed = (refl, tt);
  honest = (inl refl, tt);
}

drain_once-Runs_example :
    (ks : List ℕ) × IsRun env recorder ks
    × (recorder.sent (drain_once env recorder one_event).1.bus
        ≡ recorder.sent one_event.bus
          ++ expand env recorder ks
              (decoded env recorder (select_unpublished (pos batch) one_event.world.db.outbox)))
drain_once-Runs_example = drain_once-Runs env recorder one_event

malformed_rows :
    All
      (λ r. decode env r.payload ≡ none)
      (select_unpublished (pos batch) one_malformed.world.db.outbox)
unfolding select_unpublished effective_batch decode sort_by insert_by
malformed_rows = (refl, tt)

run_starved_example :
    ((run env recorder 2 one_malformed).world.db ≡ one_malformed.world.db)
    × ((run env recorder 2 one_malformed).bus ≡ one_malformed.bus)
run_starved_example = run_starved env recorder 2 one_malformed malformed_rows

-- A broker that takes everything, one that is gone, and one that drops the call with number 3.
abbrev broker : Amqp
broker = record {
  dials = λ n. true;
  opens = λ n. true;
  declares = λ n. true;
  publishes = λ n. true;
  writes = λ n. true;
}

abbrev gone : Amqp
gone = record broker { dials = λ n. false; publishes = λ n. false }

abbrev dropping : Amqp
dropping = record broker { publishes = λ n. not (n == 3) }

abbrev linked : Link
linked = record { conn = some 0; channel = some 0; open_conns = 0 ∷ []; calls = 3; sent = [] }

publish-Sends_example :
    (k : ℕ) × ((publish broker event linked).1.sent ≡ linked.sent ++ copies k event)
    × ((publish broker event linked).0 ≡ none → 0 < k)
publish-Sends_example = publish-Sends broker event linked

publish-leaks_connection_example :
    OneOf (λ d. d ≡ 0) (publish dropping event linked).1.open_conns
    × ((publish dropping event linked).1.conn ≢ some 0)
publish-leaks_connection_example =
    publish-leaks_connection dropping event linked 0 refl refl (inl refl) (omega arith) refl refl
      refl refl

-- A handler that keeps what it gets, and fails.
abbrev keeping : Envelope → List Envelope → Option Error × List Envelope
keeping e s = (some (plain "handler"), e ∷ s)

abbrev signals : List Signal
signals =
    delivery (some (encode env event))
    ∷ delivery none
    ∷ delivery (some (encode env event))
    ∷ cancelled
    ∷ delivery (some (encode env event))
    ∷ []

deliveries-handle_all_example :
    (deliveries env keeping signals []).1 ≡ handle_all env keeping (received env keeping signals) []
deliveries-handle_all_example = deliveries-handle_all env keeping signals []

select_unpublished-IsBatch_example :
    IsBatch
      (effective_batch (pos 1))
      one_event.world.db.outbox
      (select_unpublished (pos 1) one_event.world.db.outbox)
    × (0 < effective_batch (pos 1))
    × (effective_batch (pos 1) ≤ 1000)
select_unpublished-IsBatch_example = select_unpublished-IsBatch (pos 1) one_event.world.db.outbox

abbrev empty : State recorder
empty = initial env recorder 0 []

abbrev created_state : State recorder
created_state = in_world env recorder (create env service alice 7 phish 5 world).1 empty

reached : Reach env recorder empty (drain_once env recorder created_state).1
reached = after created_state _ (after empty _ here (creates service alice 7 phish 5)) drains

Reach-IsHonest_example : IsHonest env recorder (drain_once env recorder created_state).1
Reach-IsHonest_example =
    Reach-IsHonest env recorder 0 [] (drain_once env recorder created_state).1 reached

one_waits : length (keep is_unpublished created_state.world.db.outbox) ≤ 1 * batch
unfolding create create_checked create_from create_rows with_tx exec query Incidents.insert
    Audit.insert enqueue record_audit new_envelope validate_create_input attributes_error to_row
    marshal_attributes validate
one_waits = omega arith

Reach-delivers_example :
    (length (keep is_unpublished (run env recorder 1 created_state).world.db.outbox) ≡ 0)
    × (payloads (run env recorder 1 created_state).world.db.outbox
        ≡ payloads created_state.world.db.outbox)
    × All
        (IsSent env recorder (run env recorder 1 created_state))
        (run env recorder 1 created_state).world.db.outbox
Reach-delivers_example =
    Reach-delivers env recorder (read-show, read-show) 0 [] created_state 1
      (after empty _ here (creates service alice 7 phish 5)) (λ n le. refl) (λ e s. refl) one_waits
