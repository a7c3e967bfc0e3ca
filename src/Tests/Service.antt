-- ===== src/Tests/Service.antt =====
-- Runs of Create and Patch.
use mathlib.Core.Path.{subst}
use soarcore.Common.{
  ℕ, All, List, true, arith, some_inj, ◌≤◌, ◌<◌, ◌≡◌, refl, none, some, List, [], ◌∷◌, map,
}
use soarcore.Errors.{Error, ok}
use soarcore.World.{Uuid, Db, World, exec, query, tick}
use soarcore.Persistence.Pool.{with_tx}
use soarcore.Persistence.Incidents
use soarcore.Persistence.Audit
use soarcore.Persistence.Outbox.{enqueue}
use soarcore.Audit.{record_audit}
use soarcore.Schema.{validate}
use soarcore.Events.Envelope.{Envelope, new_envelope}
use soarcore.Incident.Service.PatchLaws.{push_events}
use soarcore.ReferenceConnector.Laws.{IsIgnored, patch_unanswered}
use soarcore.Incident.{can_transition, is_valid_severity, is_valid_status}
use soarcore.Incident.Input.{
  PatchInput, Plan, start, set_status, plan, attributes_error, validate_create_input, title_step,
  description_step, severity_step, status_step, assignee_step, attributes_step, tags_step, invalid,
}
use soarcore.Incident.Rows.{to_row, from_row, marshal_attributes}
use soarcore.Incident.Transitions.{Follows, status_part, plan-Follows}
use soarcore.Incident.Service.{
  create, create_checked, create_from, create_rows, patch, patch_body, patch_rows, enqueue_event,
  status_events,
}
use soarcore.Json.{end}
use soarcore.Persistence.Incidents.{find_row}
use soarcore.Incident.Rows.Laws.{stored_attributes}
use soarcore.Incident.Planned.{draft_of, asked}
use soarcore.Incident.Planned.Whole.{plan-asked}
use soarcore.Incident.Service.Isolation.{get-create}
use soarcore.Incident.{Incident}
use soarcore.Incident.Service.{get}
use soarcore.Common.Int.{pos}
use soarcore.Common.Sort.{sort_by, insert_by}
use soarcore.World.{IncidentRow}
use soarcore.Persistence.Incidents.{effective_limit}
use soarcore.Persistence.Incidents.Selection.{IsSelection}
use soarcore.Incident.Service.{list}
use soarcore.Incident.Service.Listing.{filter_of, list-IsSelection}
use soarcore.Incident.Service.Live.Planning.{Fits}
use soarcore.Incident.Service.Live.Patching.{patch_succeeds}
use soarcore.Incident.Service.Live.{Room, create_succeeds}
use soarcore.Incident.Service.CreateLaws.{Created, create-Created}
use soarcore.Incident.Service.Patched.{Patched}
use soarcore.Tests.Fixtures.{
  row, env, world, alice, service, registry, phish, untitled, to_status, world_with_row, created,
  triaged,
}

abbrev after_create : World
after_create = (create env service alice 7 phish 5 world).1

create_runs : create env service alice 7 phish 5 world ≡ (ok created, after_create)
unfolding create create_checked create_from create_rows with_tx exec Incidents.insert Audit.insert
    enqueue record_audit new_envelope validate_create_input attributes_error validate to_row
    marshal_attributes
create_runs = refl

create-Created_example :
    (service.allow alice "incident.create" "incident" ≡ none)
    × (validate_create_input phish ≡ none)
    × (attributes_error registry (marshal_attributes none) ≡ none)
    × Created env 5 7 alice phish created world.db after_create.db
create-Created_example =
    create-Created env service alice 7 phish 5 world {inc = created} {w' = after_create} create_runs

abbrev after_untitled : World
after_untitled = (create env service alice 7 untitled 5 world).1

abbrev untitled_error : Error
untitled_error = invalid "title is required"

abbrev after_patch : World
after_patch = (patch env service alice 7 2 (to_status "triaged") 5 world_with_row).1

patch_runs :
    patch env service alice 7 2 (to_status "triaged") 5 world_with_row ≡ (ok triaged, after_patch)
unfolding patch patch_body patch_rows enqueue_event status_events with_tx exec query
    Incidents.update Incidents.get_by_id Audit.insert enqueue record_audit new_envelope plan
    title_step description_step severity_step status_step assignee_step attributes_step tags_step
    can_transition from_row Incidents.find_row Incidents.update_rows Incidents.apply_update
patch_runs = refl

abbrev after_illegal : World
after_illegal = (patch env service alice 7 2 (to_status "closed") 5 world_with_row).1

patch_unanswered_example :
    (given : Uuid) × (db : Db) × (es : List Envelope) × (db.outbox ≡ world_with_row.db.outbox)
    × (after_patch.db ≡ push_events env 7 alice given es db)
    × All (IsIgnored ℕ env) es
patch_unanswered_example =
    patch_unanswered ℕ env service alice 7 2 (to_status "triaged") 5 world_with_row {inc = triaged}
      {w' = after_patch} patch_runs

abbrev planned : Plan
planned = set_status created "triaged" (start 1)

plan_runs : plan env registry created (to_status "triaged") world ≡ (ok planned, tick world)
unfolding plan title_step description_step severity_step status_step assignee_step attributes_step
    tags_step can_transition
plan_runs = refl

plan-Follows_example : Follows "new" (some "triaged") (status_part planned)
plan-Follows_example =
    plan-Follows env registry created (to_status "triaged") world {d = planned} {w' = tick world}
      plan_runs

plan-asked_example : draft_of planned ≡ asked created (to_status "triaged")
plan-asked_example =
    plan-asked env registry created (to_status "triaged") world {d = planned} {w' = tick world}
      plan_runs

abbrev got : Incident
got = record created { attributes = some end }

abbrev after_get : World
after_get = (get env 7 2 after_create).1

get_runs : get env 7 2 after_create ≡ (ok got, after_get)
unfolding get create create_checked create_from create_rows with_tx exec query Incidents.insert
    Incidents.get_by_id Incidents.find_row Audit.insert enqueue record_audit new_envelope
    validate_create_input attributes_error validate to_row from_row marshal_attributes
get_runs = refl

get-create_example :
    got ≡ record created { attributes = some (stored_attributes created.attributes) }
get-create_example =
    get-create env service alice 7 phish 5 world after_create {inc = created} {got = got}
      {w' = after_create} {v' = after_get} create_runs refl get_runs

abbrev after_list : World
after_list = (list env 7 ("new" ∷ []) 0 0 (pos 0) (pos 0) world_with_row).1

list_runs : list env 7 ("new" ∷ []) 0 0 (pos 0) (pos 0) world_with_row ≡ (ok (got ∷ []), after_list)
unfolding list query Incidents.list Incidents.select_incidents Incidents.matches
    Incidents.effective_limit sort_by insert_by from_row
list_runs = refl

list-IsSelection_example :
    (rows : List IncidentRow) × ((got ∷ []) ≡ map from_row rows)
    × IsSelection (filter_of 7 ("new" ∷ []) 0 0 (pos 0) (pos 0)) world_with_row.db.incidents rows
    × (0 < effective_limit (pos 0))
    × (effective_limit (pos 0) ≤ 500)
    × (after_list.db ≡ world_with_row.db)
list-IsSelection_example =
    list-IsSelection env 7 ("new" ∷ []) 0 0 (pos 0) (pos 0) world_with_row {incs = got ∷ []}
      {w' = after_list} list_runs

phish_valid : validate_create_input phish ≡ none
unfolding validate_create_input
phish_valid = refl

phish_fits : attributes_error service.registry (marshal_attributes phish.attributes) ≡ none
unfolding attributes_error validate
phish_fits = refl

phish-Room : Room env (λ n. refl) 7 phish world.reads world.db
phish-Room = record {
  incident_ids = λ n later. refl;
  audit_ids = λ n later. refl;
  event_ids = λ n later. refl;
  external = refl;
}

create_succeeds_example :
    (inc : Incident) × (v : World) × (create env service alice 7 phish 5 world ≡ (ok inc, v))
create_succeeds_example =
    create_succeeds env (λ n. refl) service alice 7 phish 5 world refl phish_valid phish_fits
      phish-Room

abbrev raised : PatchInput
raised = record (to_status "triaged") { severity = some "critical" }

raised-Fits : Fits registry "new" raised
unfolding can_transition
raised-Fits = record {
  severity = λ s h. subst (λ x. is_valid_severity x ≡ true) (some_inj h) refl;
  status = λ s h.
      subst (λ x. (is_valid_status x ≡ true) × (can_transition "new" x ≡ none)) (some_inj h)
        (refl, refl);
  attributes = λ fs h. absurd (ground arith);
}

patch_succeeds_example :
    (inc : Incident) × (v : World) × (patch env service alice 7 2 raised 5 world_with_row
      ≡ (ok inc, v))
unfolding Incidents.find_row
patch_succeeds_example =
    patch_succeeds env (λ n. refl) (λ m n h. ground arith) service alice 7 2 raised 5 world_with_row
      row refl refl raised-Fits (record { audit_ids = λ n le. refl; event_ids = λ n le. refl })
