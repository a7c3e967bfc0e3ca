-- ===== src/Incident/Service/Steps.antt =====
-- What each step of a transaction has written, once it has succeeded.
use soarcore.Persistence.Pool.{with_tx, with_tx-eq-ok, with_tx-eq-err}
use mathlib.Core.Path.{subst}
use native.Mathlib.Omega.{arith}
use soarcore.Common.{inl, inr, ◌⊎◌, ◌∙◌, none, String, ◌≡◌, refl, Option, none}
use soarcore.Json.{Json}
use soarcore.Errors.{Error, Result, err, ok}
use soarcore.Auth.{Principal}
use soarcore.Audit.{
  AuditResult, denied, Target, record_audit, result_text, correlation, actor_json, map_target,
}
use soarcore.Events.Envelope.{Envelope, new_envelope}
use soarcore.World.{tick, Db, Env, Uuid, World, AuditRow}
use soarcore.Persistence.Audit
use soarcore.Persistence.Audit.{push_audit}
use soarcore.Persistence.Outbox.{push_outbox, enqueue-eq-ok}
use soarcore.Incident.{Incident}
use soarcore.Incident.Rows.{actor_of}
use soarcore.Incident.Service.{entity_of, outbox_row, enqueue_event, deny}

module _ (env : Env) (tenant : Uuid) (p : Principal) (corr : Uuid) where
  -- The audit row of an action.
  pub record IsAudit (action : String) (target : Option Target) (result : AuditResult)
      (a : AuditRow) : Type 0 where
    pub of_tenant : a.tenant_id ≡ tenant
    pub of_actor : a.actor ≡ actor_json p
    pub of_action : a.action ≡ action
    pub of_target : a.target ≡ map_target env target
    pub of_result : a.result ≡ result_text result
    pub of_correlation : a.correlation_id ≡ correlation corr

  pub record_audit-eq-ok :
      (action : String) (target : Option Target) (result : AuditResult) (w : World) {u : Unit {0}}
      {w' : World}
      → record_audit env tenant p action target result corr none w ≡ (ok u, w')
      → (a : AuditRow) × IsAudit action target result a × (w'.db ≡ push_audit a w.db)
  unfolding record_audit
  record_audit-eq-ok action target result w h =
      let (_, written) = Audit.insert-eq-ok env _ _ h in
      (
        _,
        record {
          of_tenant = refl;
          of_actor = refl;
          of_action = refl;
          of_target = refl;
          of_result = refl;
          of_correlation = refl;
        },
        written,
      )

  -- The envelope of an event about the incident `id`.
  pub record IsEvent (event_type : String) (id : Uuid) (payload : Json) (e : Envelope)
      : Type 0 where
    pub of_type : e.event_type ≡ event_type
    pub of_tenant : e.tenant_id ≡ tenant
    pub of_actor : e.actor ≡ actor_of p
    pub of_entity : e.entity ≡ entity_of id
    pub of_payload : e.payload ≡ payload
    pub of_correlation : e.correlation_id ≡ corr

  pub enqueue_event-eq-ok :
      (event_type : String) (inc : Incident) (payload : Json) (w : World) {u : Unit {0}}
      {w' : World}
      → enqueue_event env event_type tenant p inc corr payload w ≡ (ok u, w')
      → (e : Envelope) × IsEvent event_type inc.id payload e
        × (w'.db ≡ push_outbox (outbox_row env tenant e e.occurred_at) w.db)
  unfolding enqueue_event new_envelope
  enqueue_event-eq-ok event_type inc payload w h =
      let (_, written) = enqueue-eq-ok env _ _ h in
      (
        _,
        record {
          of_type = refl;
          of_tenant = refl;
          of_actor = refl;
          of_entity = refl;
          of_payload = refl;
          of_correlation = refl;
        },
        written,
      )

  -- A refusal returns its error, and leaves at most its own audit row.
  abbrev pub IsRefusal : String → Option Target → Db → Db → Type 0
  IsRefusal action target before after =
      (after ≡ before)
      ⊎ ((a : AuditRow) × IsAudit action target denied a × (after ≡ push_audit a before))

  with_tx-IsRefusal :
      (action : String) (target : Option Target) (w : World) (r : Result (Unit {0}) × World)
      → with_tx env (record_audit env tenant p action target denied corr none) w ≡ r
      → IsRefusal action target w.db r.1.db
  with_tx-IsRefusal action target w (err e, v) h =
      elim (with_tx-eq-err env (record_audit env tenant p action target denied corr none) w h) [
        | inl same ↦ inl same
        | inr (x, u, done, same) ↦
            let (a, is_audit, written) = record_audit-eq-ok action target denied (tick w) done in
            inr (a, is_audit, same ∙ written)
      ]
  with_tx-IsRefusal action target w (ok u, v) h =
      let (x, done, same) =
        with_tx-eq-ok env (record_audit env tenant p action target denied corr none) w h in
      let (a, is_audit, written) = record_audit-eq-ok action target denied (tick w) done in
      inr (a, is_audit, same ∙ written)

  -- What a refused call returns and leaves behind.
  pub deny-IsRefusal {ℓ} :
      {A : Type ℓ} (action : String) (target : Option Target) (e : Error) (w : World) {e' : Error}
      {w' : World}
      → ◌≡◌ {A = Result A × World} (deny env tenant p action target corr e w) (err e', w')
      → (e ≡ e') × IsRefusal action target w.db w'.db
  unfolding deny
  deny-IsRefusal action target e w {w' = x} h =
      let same : (with_tx env (record_audit env tenant p action target denied corr none) w).1 ≡ x =
        ground arith in
      (
        ground arith,
        subst (λ (v : World). IsRefusal action target w.db v.db) same
            (with_tx-IsRefusal action target w _ refl),
      )
