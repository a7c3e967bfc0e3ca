-- ===== src/Persistence/Audit.antt =====
-- internal/persistence/audit.go
use soarcore.Common.{
  ◌≡◌, ℕ, String, Option, none, some, List, [], ◌∷◌, ◌++◌, ◌==◌, if◌then◌else◌, any, keep, length,
  contains, not,
}
use soarcore.Errors.{ok}
use soarcore.World.{World, exec-eq-ok, Env, Uuid, AuditRow, Db, Exec, exec, query}

abbrev pub result_enum : List String
result_enum = "success" ∷ "denied" ∷ "error" ∷ []

-- The cast to audit_result, and the primary key.
pub audit_refuses : AuditRow → Db → Option String
audit_refuses row db =
    if not (contains result_enum row.result)
    then some "audit_result"
    else if any (λ r. r.id == row.id) db.audits
    then some "audit_pkey"
    else none

abbrev pub push_audit : AuditRow → Db → Db
push_audit row db = record db { audits = db.audits ++ row ∷ [] }

module _ (env : Env) where
  unfoldable pub insert : AuditRow → Exec (Unit {0})
  unfolding audit_refuses
  insert row = exec env "insert audit" (audit_refuses row) (push_audit row)

  pub count_for_tenant : Uuid → Exec ℕ
  count_for_tenant tenant =
      query env "count audit" λ db. ok (length (keep (λ r. r.tenant_id == tenant) db.audits))

  pub insert-eq-ok :
      (row : AuditRow) (w : World) {u : Unit {0}} {w' : World}
      → insert row w ≡ (ok u, w')
      → (audit_refuses row w.db ≡ none) × (w'.db ≡ push_audit row w.db)
  unfolding insert
  insert-eq-ok row w h = exec-eq-ok env _ _ _ w h
