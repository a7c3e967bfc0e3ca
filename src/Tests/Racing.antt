-- ===== src/Tests/Racing.antt =====
-- Two overlapping patches of one incident: one takes it up again, the other closes it.
use soarcore.Common.{◌≡◌, refl, true, none, some, [], ◌∷◌}
use soarcore.Json.{end}
use soarcore.Errors.{ok}
use soarcore.World.{World, IncidentRow, empty_db, exec, query}
use soarcore.Persistence.Pool.{with_tx}
use soarcore.Persistence.Incidents
use soarcore.Persistence.Audit
use soarcore.Persistence.Outbox.{enqueue}
use soarcore.Audit.{record_audit}
use soarcore.Events.Envelope.{new_envelope}
use soarcore.Incident.{Incident, can_transition}
use soarcore.Incident.Rows.{from_row}
use soarcore.Incident.Input.{
  Plan, plan, title_step, description_step, severity_step, status_step, assignee_step,
  attributes_step, tags_step,
}
use soarcore.Incident.Service.{patch_rows, enqueue_event, status_events}
use soarcore.Incident.Service.Race.{patch_reads, patch_writes}
use soarcore.Incident.Service.Race.Racing.{racing_patches}
use soarcore.Persistence.Incidents.{find_row}
use soarcore.Tests.Fixtures.{env, alice, service, to_status, row}

-- An incident that is resolved, one patch that takes it up again and one that closes it.
abbrev resolved : IncidentRow
resolved = record row { status = "resolved" }

abbrev w0 : World
w0 = record { db = record empty_db { incidents = resolved ∷ [] }; reads = 0 }

abbrev again : Plan
again = record {
  upd = record {
    title = none;
    description = none;
    severity = none;
    status = some "in_progress";
    assignee_id = none;
    attributes = none;
    tags = none;
    closed_at = none;
    updated_at = 2;
  };
  changed_fields = "status" ∷ [];
  status_changed = true;
  from_status = "resolved";
  to_status = "in_progress";
}

abbrev was : Incident
was = record {
  id = 2;
  tenant_id = 7;
  schema_version = 1;
  external_id = none;
  title = "phish";
  description = none;
  severity = "high";
  status = "resolved";
  assignee_id = none;
  source_connector_id = none;
  attributes = some end;
  tags = some ("mail" ∷ []);
  created_at = 1;
  updated_at = 1;
  closed_at = none;
}

abbrev x : Incident × Plan
x = (was, again)

abbrev closing : Plan
closing = record again {
  upd = record again.upd { status = some "closed"; closed_at = some 5; updated_at = 4 };
  to_status = "closed";
}

abbrev y : Incident × Plan
y = (was, closing)

abbrev w1 : World
w1 = (patch_reads env service 7 2 (to_status "in_progress") w0).1

read_runs : patch_reads env service 7 2 (to_status "in_progress") w0 ≡ (ok x, w1)
unfolding patch_reads Incidents.get_by_id query find_row from_row plan title_step description_step
    severity_step status_step assignee_step attributes_step tags_step can_transition
read_runs = refl

abbrev w2 : World
w2 = (patch_reads env service 7 2 (to_status "closed") w1).1

read_too_runs : patch_reads env service 7 2 (to_status "closed") w1 ≡ (ok y, w2)
unfolding patch_reads Incidents.get_by_id query find_row from_row plan title_step description_step
    severity_step status_step assignee_step attributes_step tags_step can_transition
read_too_runs = refl

abbrev v : World
v = (patch_writes env alice 7 2 5 x w2).1

abbrev taken_up : Incident
taken_up = record was { status = "in_progress"; updated_at = 2 }

write_runs : patch_writes env alice 7 2 5 x w2 ≡ (ok taken_up, v)
unfolding patch_writes patch_reads patch_rows enqueue_event status_events with_tx exec query
    Incidents.update Incidents.get_by_id Audit.insert enqueue record_audit new_envelope from_row
    Incidents.find_row Incidents.update_rows Incidents.apply_update plan title_step description_step
    severity_step status_step assignee_step attributes_step tags_step can_transition
write_runs = refl

abbrev v' : World
v' = (patch_writes env alice 7 2 6 y v).1

abbrev shut : Incident
shut = record was { status = "closed"; updated_at = 4; closed_at = some 5 }

write_too_runs : patch_writes env alice 7 2 6 y v ≡ (ok shut, v')
unfolding patch_writes patch_reads patch_rows enqueue_event status_events with_tx exec query
    Incidents.update Incidents.get_by_id Audit.insert enqueue record_audit new_envelope from_row
    Incidents.find_row Incidents.update_rows Incidents.apply_update plan title_step description_step
    severity_step status_step assignee_step attributes_step tags_step can_transition
write_too_runs = refl

-- The machine has no edge from in_progress to closed.
racing_patches_example :
    (can_transition "resolved" "in_progress" ≡ none)
    × (can_transition "resolved" "closed" ≡ none)
    × ((r₁ : IncidentRow) × (r₂ : IncidentRow) × (find_row 7 2 v.db.incidents ≡ some r₁)
        × (find_row 7 2 v'.db.incidents ≡ some r₂)
        × (r₁.status ≡ "in_progress")
        × (r₂.status ≡ "closed"))
unfolding find_row
racing_patches_example =
    racing_patches env service alice alice 7 2 5 6 (to_status "in_progress") (to_status "closed")
      "in_progress" "closed" w0 resolved {x = x} {y = y} {w₁ = w1} {w₂ = w2} {inc = taken_up}
      {inc' = shut} {v = v} {v' = v'} refl refl refl read_runs read_too_runs write_runs
      write_too_runs
