-- ===== src/ReferenceConnector/Laws.antt =====
-- What the reference connector asks for, and that it does not answer its own work.
use soarcore.Common.{
  String, ◌≡◌, ◌⊎◌, inl, inr, refl, ap, ◌∙◌, true, false, ◌&&◌, Option, none, some, List, [], ◌∷◌,
  ◌++◌, str_eq, Bool-cases, OneOf, All, All-map, contains, contains-append_right,
}
use soarcore.Json.{Json, obj, field, end, strings}
use soarcore.World.{Env, Uuid, World, Db}
use soarcore.Incident.Input.{Plan, PatchInput}
use soarcore.Incident.Service.PatchLaws.{event_specs, AreEvents, push_events}
use soarcore.Incident.Service.Patched.{patch-Patched}
use soarcore.Incident.Service.{Service, patch}
use soarcore.Persistence.Audit.{push_audit}
use soarcore.Persistence.Incidents.{set_incident, set_columns}
use soarcore.Errors.{Error, ok}
use soarcore.Auth.{Principal}
use soarcore.Events.Envelope.{Envelope, incident_created}
use soarcore.Incident.{Incident}
use soarcore.Incident.Rows.{incident_json, tags_json}
use soarcore.Incident.Input.{elements}
use soarcore.ReferenceConnector.{
  strings_of, handle_envelope, PatchRequest, request_of, next_tags, prior_tags, only_strings,
  tags_of_payload, tags_of_incident, enrich_tag,
}

-- The payload that Create gives its event.
abbrev pub created_payload : Env → Incident → Json
created_payload env inc = obj (field "incident" (incident_json env inc) end)

only_strings-strings : (tags : List String) → only_strings (strings tags) ≡ tags
unfolding only_strings
only_strings-strings [] = refl
only_strings-strings (t ∷ tags) = ap (◌∷◌ t) (only_strings-strings tags)

-- The tags that are asked for: all that there were, in their order, then the connector's where it
-- was missing.
pub record Enriched (prior next : List String) : Type 0 where
  pub exactly :
      ((contains prior enrich_tag ≡ true) × (next ≡ prior))
      ⊎ ((contains prior enrich_tag ≡ false)
          × (next ≡ prior ++ "enriched-by-reference-connector" ∷ []))
  pub tagged : contains next enrich_tag ≡ true
  pub stable : next_tags next ≡ next

next_tags-tagged : (prior : List String) → contains (next_tags prior) enrich_tag ≡ true
unfolding next_tags
next_tags-tagged prior = elim (Bool-cases (contains prior enrich_tag)) [
  | inl y ↦ rw y y
  | inr n ↦ rw n (contains-append_right prior (enrich_tag ∷ []) enrich_tag refl)
]

next_tags-tagged_lem :
    (tags : List String) → contains tags enrich_tag ≡ true → next_tags tags ≡ tags
unfolding next_tags
next_tags-tagged_lem tags h = rw h refl

next_tags-Enriched : (prior : List String) → Enriched prior (next_tags prior)
unfolding next_tags
next_tags-Enriched prior = elim (Bool-cases (contains prior enrich_tag)) [
  | inl y ↦ record {
    exactly = inl (y, rw y refl);
    tagged = next_tags-tagged prior;
    stable = next_tags-tagged_lem _ (next_tags-tagged prior);
  }
  | inr n ↦ record {
    exactly = inr (n, rw n refl);
    tagged = next_tags-tagged prior;
    stable = next_tags-tagged_lem _ (next_tags-tagged prior);
  }
]

strings_of-tags_json :
    (tags : Option (List String)) → strings_of (some (tags_json tags)) ≡ elements tags
strings_of-tags_json none = refl
strings_of-tags_json (some tags) = only_strings-strings tags

prior_tags-created_payload :
    (env : Env) (inc : Incident) → prior_tags (created_payload env inc) ≡ elements inc.tags
unfolding prior_tags tags_of_payload tags_of_incident incident_json
prior_tags-created_payload env inc = strings_of-tags_json inc.tags

-- On the event of a Create by another principal, the connector asks once, for the incident of the
-- event and with the event's correlation id, for all the tags that the incident has, in their order,
-- and its own tag; asking again would change nothing.
pub request_of-Enriched :
    (env : Env) (inc : Incident) (e : Envelope)
    → e.event_type ≡ incident_created
    → e.payload ≡ created_payload env inc
    → (str_eq e.actor.type "connector" && str_eq e.actor.id "reference-connector") ≡ false
    → (r : PatchRequest) × (request_of e ≡ some r)
      × (r.id ≡ e.entity.id)
      × (r.correlation_id ≡ e.correlation_id)
      × Enriched (elements inc.tags) r.tags
unfolding request_of
request_of-Enriched env inc e kind payload other =
    let tags = ap prior_tags payload ∙ prior_tags-created_payload env inc in
    (
      record {
        id = e.entity.id;
        tags = next_tags (prior_tags e.payload);
        correlation_id = e.correlation_id;
      },
      rw (kind, other) refl,
      refl,
      refl,
      rw tags (next_tags-Enriched (elements inc.tags)),
    )

-- An event of a patch, whatever its plan, asks for nothing.
request_of-event_specs :
    (env : Env) (d : Plan) (inc : Incident) (e : Envelope)
    → OneOf (λ (spec : String × Json). e.event_type ≡ spec.0) (event_specs env d inc)
    → request_of e ≡ none
unfolding request_of
request_of-event_specs env d inc e (inl updated) = rw updated refl
request_of-event_specs env d inc e (inr h) = elim (Bool-cases d.status_changed) [
  | inl y ↦ elim (rw y at h) [
    | inl changed ↦ rw changed refl
    | inr k ↦ elim (Bool-cases (str_eq d.to_status "closed")) [
      | inl y' ↦ elim (rw y' at k) [ inl closed ↦ rw closed refl | inr n ↦ absurd n ]
      | inr n' ↦ absurd (rw n' at k)
    ]
  ]
  | inr n ↦ absurd (rw n at h)
]

module _ (env : Env) (tenant : Uuid) (p : Principal) (corr id : Uuid) where
  -- An envelope made for one of the specifications has the type of one.
  AreEvents-All :
      (specs : List (String × Json)) (es : List Envelope)
      → AreEvents env tenant p corr id specs es
      → All (λ e. OneOf (λ (spec : String × Json). e.event_type ≡ spec.0) specs) es
  AreEvents-All [] [] h = tt
  AreEvents-All [] (e ∷ es) h = absurd h
  AreEvents-All ((type, payload) ∷ specs) [] h = absurd h
  AreEvents-All ((type, payload) ∷ specs) (e ∷ es) (one, rest) = (
    inl one.of_type,
    All-map (λ x. OneOf (λ (spec : String × Json). x.event_type ≡ spec.0) specs)
        (λ x. OneOf (λ (spec : String × Json). x.event_type ≡ spec.0) ((type, payload) ∷ specs))
        (λ x k. inr k) es (AreEvents-All specs es rest),
  )

module _ (S : Type 0) (env : Env) where
  -- The handler lets an envelope pass: it makes no call, whatever the call would do.
  abbrev pub IsIgnored : Envelope → Type 0
  IsIgnored e =
      (call : PatchRequest → S → Option Error × S) (st : S)
      → handle_envelope env call e st ≡ (none, st)

  ignored : (e : Envelope) → request_of e ≡ none → IsIgnored e
  unfolding handle_envelope
  ignored e h call st = rw (h, handle_envelope) refl

  -- A patch that returns has added to the outbox the events of a list, and the connector's handler
  -- makes no call on any of them, whoever made the patch: so the patch that the connector makes never
  -- makes it act again.
  pub patch_unanswered :
      (s : Service) (p : Principal) (tenant id : Uuid) (input : PatchInput) (corr : Uuid)
      (w : World) {inc : Incident} {w' : World}
      → patch env s p tenant id input corr w ≡ (ok inc, w')
      → (given : Uuid) × (db : Db) × (es : List Envelope) × (db.outbox ≡ w.db.outbox)
        × (w'.db ≡ push_events env tenant p given es db)
        × All IsIgnored es
  patch_unanswered s p tenant id input corr w {inc} h =
      let done = (patch-Patched env s p tenant id input corr w h).1 in
      elim done.outcome [
        | inl (_, _, same) ↦ (done.corr, w.db, [], refl, same, tt)
        | inr (_, _, written) ↦ (
          done.corr,
          push_audit written.audit (set_incident tenant id (set_columns env done.draft.upd) w.db),
          written.events,
          refl,
          written.rows,
          All-map
              (λ e.
                OneOf (λ (spec : String × Json). e.event_type ≡ spec.0)
                  (event_specs env done.draft inc))
              IsIgnored (λ e k. ignored e (request_of-event_specs env done.draft inc e k))
              written.events
              (AreEvents-All env tenant p done.corr inc.id (event_specs env done.draft inc)
                written.events written.events_are),
        )
      ]
