-- ===== src/ReferenceConnector/Enriching.antt =====
-- From the event of a Create to the tags of the incident.
use Prim.Native.String.{◌++◌ as ◌<>◌}
use mathlib.Core.Path.{subst, subst₂}
use soarcore.Common.{String, ◌≡◌, sym, true, false, ◌&&◌, none, some, List, str_eq}
use soarcore.World.{Env, Uuid, World}
use soarcore.Events.Envelope.{Envelope, incident_created}
use soarcore.Incident.{Incident}
use soarcore.Incident.Input.{elements}
use soarcore.Incident.Service.Patched.{Patched}
use soarcore.Api.{Response}
use soarcore.Api.Router.{Chi, Server}
use soarcore.ReferenceConnector.{principal_header, handle_envelope}
use soarcore.ReferenceConnector.Client.{Client, patch_incident_tags}
use soarcore.ReferenceConnector.Core.{connector_principal, tags_input, core_http}
use soarcore.ReferenceConnector.EndToEnd.{patch_incident_tags-Patched}
use soarcore.ReferenceConnector.Laws.{Enriched, created_payload, request_of-Enriched}

module _ (env : Env) (chi : Chi) (s : Server) where
  -- The path of the request about the incident `id`.
  abbrev pub path_for : (String → String) → Client → Uuid → String
  path_for path_of c id = path_of (c.base <> ("/v1/incidents/" <> env.uuid_string id))

  -- How chi routes a path to the patch of an incident.
  pub record RoutesToPatch (path id : String) : Type 0 where
    pub no_health : chi.match "/healthz" path ≡ none
    pub under_v1 : chi.under_v1 path ≡ true
    pub no_list : chi.match "/v1/incidents/" path ≡ none
    pub with_id : chi.match "/v1/incidents/{id}" path ≡ some id

  -- The connector's handler of an incident.created event by another principal, with the payload of a
  -- Create, and the core that it calls: where the handler reports no error, chi routes the path to
  -- the patch of an incident, and UUIDs are read back as they are printed, the incident of the event
  -- has been patched for the connector and its tenant, with the correlation id of the event, by
  -- exactly its tags and the connector's own: all the tags that it had, in their order, and the own
  -- tag where it was not among them.
  pub handle_envelope-Patched :
      (path_of : String → String) (render : Response → String) (c : Client) (tenant : Uuid)
      (inc : Incident) (e : Envelope) (w w' : World)
      → ((u : Uuid) → env.uuid_parse (env.uuid_string u) ≡ some u)
      → c.principal ≡ principal_header
      → str_eq c.tenant "" ≡ false
      → env.uuid_parse c.tenant ≡ some tenant
      → RoutesToPatch (path_for path_of c e.entity.id) (env.uuid_string e.entity.id)
      → e.event_type ≡ incident_created
      → e.payload ≡ created_payload env inc
      → (str_eq e.actor.type "connector" && str_eq e.actor.id "reference-connector") ≡ false
      → handle_envelope env (patch_incident_tags (core_http env chi s path_of render) c env) e w
        ≡ (none, w')
      → (tags : List String) × Enriched (elements inc.tags) tags
        × ((after : Incident) × Patched env s.service.registry e.correlation_id tenant
              connector_principal e.entity.id
              (tags_input tags)
              after
              w.db
              w'.db)
  unfolding handle_envelope
  handle_envelope-Patched path_of render c tenant inc e w w' read_back who named whose routes kind
        payload other h =
      let (r, asked, same_id, same_corr, tagged) =
        request_of-Enriched env inc e kind payload other in
      let there : RoutesToPatch (path_for path_of c r.id) (env.uuid_string r.id) =
        subst (λ (u : Uuid). RoutesToPatch (path_for path_of c u) (env.uuid_string u)) (sym same_id)
          routes in
      let (after, done) =
        patch_incident_tags-Patched env chi s path_of render c tenant r w w' read_back who named
          whose there.no_health there.under_v1 there.no_list there.with_id
          (rw (asked, handle_envelope) at h) in
      (
        r.tags,
        tagged,
        (
          after,
          subst₂
              (λ (corr u : Uuid).
                Patched env s.service.registry corr tenant connector_principal u (tags_input r.tags)
                  after w.db w'.db)
              same_corr same_id done,
        ),
      )
