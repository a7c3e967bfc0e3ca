-- ===== src/Incident/Service/Live/Patching.antt =====
-- A patch that nothing stands in the way of succeeds.
use soarcore.Common.{
  ℕ, ◌≤◌, ◌<◌, String, ◌≡◌, inl, inr, refl, ap, ◌∙◌, false, none, some, List, [], ◌∷◌, arith, ◌==◌,
  Bool-cases, any,
}
use soarcore.Errors.{ok}
use soarcore.Auth.{Principal}
use soarcore.World.{Env, Uuid, World, Db, IncidentRow, tick}
use soarcore.Persistence.Pool.{with_tx}
use soarcore.Persistence.Incidents.{find_row}
use soarcore.Incident.{Incident}
use soarcore.Incident.Rows.{from_row}
use soarcore.Incident.Input.{PatchInput, Plan}
use soarcore.Incident.Service.{Service, patch, patch_body, write_plan}
use soarcore.Incident.Service.Live.Planning.{Fits, plan_done}
use soarcore.Incident.Service.Live.{with_tx_done}
use soarcore.Incident.Service.Live.Writes.{Ready, read_done, patch_rows_done}

module _ (env : Env) (works : (n : ℕ) → env.fails n ≡ false)
    (distinct : (m n : ℕ) → m < n → (env.uuid m == env.uuid n) ≡ false) where
  write_plan_done :
      (tenant : Uuid) (p : Principal) (id : Uuid) (prior : Incident) (d : Plan)
      (names : List String) (corr : Uuid) (w : World)
      → Ready env works distinct tenant id d w
      → (inc : Incident) × (v : World) × (write_plan env tenant p id prior d names corr w
          ≡ (ok inc, v))
  write_plan_done tenant p id prior d [] corr w r = (prior, w, refl)
  write_plan_done tenant p id prior d (n ∷ ns) corr w r =
      patch_rows_done env works distinct tenant p id d corr w r

  -- The UUIDs that are still to be drawn are in no audit row and in no event.
  pub record HasNewIds (w : World) : Type 0 where
    pub audit_ids : (n : ℕ) → w.reads ≤ n → any (λ r. r.id == env.uuid n) w.db.audits ≡ false
    pub event_ids : (n : ℕ) → w.reads ≤ n → any (λ r. r.event_id == env.uuid n) w.db.outbox ≡ false

  HasNewIds-later : (w v : World) → v.db ≡ w.db → w.reads ≤ v.reads → HasNewIds w → HasNewIds v
  HasNewIds-later w v same later h = record {
    audit_ids = λ n le.
        ap (λ (db : Db). any (λ r. r.id == env.uuid n) db.audits) same
        ∙ h.audit_ids n (omega (arith, later, le));
    event_ids = λ n le.
        ap (λ (db : Db). any (λ r. r.event_id == env.uuid n) db.outbox) same
        ∙ h.event_ids n (omega (arith, later, le));
  }

  patch_body_done :
      (s : Service) (p : Principal) (tenant id : Uuid) (input : PatchInput) (corr : Uuid)
      (w : World) (row : IncidentRow)
      → find_row tenant id w.db.incidents ≡ some row
      → Fits s.registry row.status input
      → HasNewIds w
      → (inc : Incident) × (v : World) × (patch_body env s p tenant id input corr w ≡ (ok inc, v))
  unfolding patch_body from_row
  patch_body_done s p tenant id input corr w row found fits ids =
      let (d, v, planned, later, same, taken) =
        plan_done env s.registry (from_row row) input (tick w) fits in
      let ids' = HasNewIds-later w v same (omega (arith, later)) ids in
      let (inc, u, done) =
        write_plan_done tenant p id (from_row row) d d.changed_fields corr v (record {
          row = row;
          found = ap (λ (db : Db). find_row tenant id db.incidents) same ∙ found;
          fits = taken;
          audit_ids = ids'.audit_ids;
          new = ids'.event_ids;
        }) in
      (inc, u, rw (read_done env works distinct tenant id w row found) (rw planned done))

  transaction_done :
      (s : Service) (p : Principal) (tenant id : Uuid) (input : PatchInput) (corr : Uuid)
      (w : World) (row : IncidentRow)
      → find_row tenant id w.db.incidents ≡ some row
      → Fits s.registry row.status input
      → HasNewIds w
      → (inc : Incident) × (v : World) × (with_tx env (patch_body env s p tenant id input corr) w
          ≡ (ok inc, v))
  transaction_done s p tenant id input corr w row found fits ids =
      let (inc, v, done) =
        patch_body_done s p tenant id input corr (tick w) row found fits
          (HasNewIds-later w (tick w) refl (omega arith) ids) in
      (inc, tick v, with_tx_done env works (patch_body env s p tenant id input corr) w v inc done)

  -- When no database call fails, no UUID is drawn twice and none that is drawn is in an audit row or
  -- an event, the caller is allowed, the incident is there, and the patch has a valid severity, a
  -- valid status that the machine allows, and attributes that the registry accepts, each where it is
  -- given, Patch returns an incident.
  pub patch_succeeds :
      (s : Service) (p : Principal) (tenant id : Uuid) (input : PatchInput) (corr : Uuid)
      (w : World) (row : IncidentRow)
      → s.allow p "incident.update" "incident" ≡ none
      → find_row tenant id w.db.incidents ≡ some row
      → Fits s.registry row.status input
      → HasNewIds w
      → (inc : Incident) × (v : World) × (patch env s p tenant id input corr w ≡ (ok inc, v))
  unfolding patch
  patch_succeeds s p tenant id input corr w row allowed found fits ids =
      elim (Bool-cases (corr == 0)) [
        | inl y ↦
            let (inc, v, done) =
              transaction_done s p tenant id input (env.uuid w.reads) (tick w) row found fits
                (HasNewIds-later w (tick w) refl (omega arith) ids) in
            (inc, v, rw (allowed, patch) (rw y done))
        | inr n ↦
            let (inc, v, done) = transaction_done s p tenant id input corr w row found fits ids in
            (inc, v, rw (allowed, patch) (rw n done))
      ]
