-- ===== src/Incident/Service/Race.antt =====
-- internal/domain/incident/service.go: two patches of one incident whose transactions overlap. At
-- the default isolation of Postgres a plain SELECT takes no row lock, so a transaction may read
-- before and write after another one's commit; its UPDATE applies to the row that was committed.
pub mod Racing
use soarcore.Common.{◌≡◌, refl}
use soarcore.Errors.{Result, ok, err}
use soarcore.Auth.{Principal}
use soarcore.World.{Env, Uuid, World, IncidentRow, Exec, ◌>>=◌, pure, next}
use soarcore.Persistence.Pool.{with_tx}
use soarcore.Persistence.Incidents
use soarcore.Incident.{Incident}
use soarcore.Incident.Rows.{from_row}
use soarcore.Incident.Input.{PatchInput, Plan, plan}
use soarcore.Incident.Service.{Service, write_plan, patch_body}

module _ (env : Env) where
  -- A transaction of Patch up to its first write: what it has read, and its plan.
  unfoldable pub patch_reads : Service → Uuid → Uuid → PatchInput → Exec (Incident × Plan)
  patch_reads s tenant id input = do
    prior ← Incidents.get_by_id env tenant id
    d ← plan env s.registry (from_row prior) input
    pure (from_row prior, d)

  -- The rest of the transaction, up to the commit.
  unfoldable pub patch_writes : Principal → Uuid → Uuid → Uuid → Incident × Plan → Exec Incident
  patch_writes p tenant id corr (prior, d) =
      with_tx env (write_plan env tenant p id prior d d.changed_fields corr)

  next_assoc :
      (x : Result Plan × World) (prior : Incident) (f : Incident × Plan → Exec Incident)
      → next x (λ d. f (prior, d)) ≡ next (next x (λ d. pure (prior, d))) f
  next_assoc (ok d, w) prior f = refl
  next_assoc (err e, w) prior f = refl

  row_assoc :
      (x : Result IncidentRow × World) (g : IncidentRow → Exec Plan)
      (f : Incident × Plan → Exec Incident)
      → next x (λ r. g r >>= λ d. f (from_row r, d))
        ≡ next (next x (λ r. g r >>= λ d. pure (from_row r, d))) f
  row_assoc (ok r, w) g f = next_assoc (g r w) (from_row r) f
  row_assoc (err e, w) g f = refl

  -- With nothing in between, the two parts are the body of Patch's transaction.
  pub patch_body-parts :
      (s : Service) (p : Principal) (tenant id : Uuid) (input : PatchInput) (corr : Uuid)
      (w : World)
      → patch_body env s p tenant id input corr w
        ≡ (patch_reads s tenant id input >>= λ (x : Incident × Plan).
              write_plan env tenant p id x.0 x.1 x.1.changed_fields corr)
            w
  unfolding patch_body patch_reads
  patch_body-parts s p tenant id input corr w =
      row_assoc (Incidents.get_by_id env tenant id w) (λ r. plan env s.registry (from_row r) input)
        (λ (x : Incident × Plan). write_plan env tenant p id x.0 x.1 x.1.changed_fields corr)
