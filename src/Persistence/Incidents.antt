-- ===== src/Persistence/Incidents.antt =====
-- internal/persistence/incidents.go
pub mod Keys
pub mod Selection
use mathlib.Core.Option
use soarcore.Common.{
  ◌≡◌, arith, ℕ, String, Bool, true, false, not, ◌&&◌, ◌||◌, Option, none, some, List, [], ◌∷◌,
  ◌++◌, ◌==◌, str_eq, leb, ltb, if◌then◌else◌, any, keep, take, drop, contains, is_some,
}
use soarcore.Common.Int.{ℤ, pos, negsuc}
use soarcore.Common.Sort.{sort_by}
use soarcore.Json.{Json}
use soarcore.Errors.{sentinel, not_found, plain, wrapped, Result, ok, err}
use soarcore.World.{
  World, exec-eq-ok, query-eq-ok, >>=-eq-ok, Env, Uuid, Time, IncidentRow, Db, Exec, exec, query,
  ◌>>=◌, pure, fail,
}

-- The enums of migration 0001.
abbrev pub severity_enum : List String
severity_enum = "low" ∷ "medium" ∷ "high" ∷ "critical" ∷ []

abbrev pub status_enum : List String
status_enum = "new" ∷ "triaged" ∷ "in_progress" ∷ "contained" ∷ "resolved" ∷ "closed" ∷ []

abbrev pub opt_str_eq : Option String → Option String → Bool
opt_str_eq (some s) (some t) = str_eq s t
opt_str_eq _ _ = false

-- incident_tenant_connector_external_uq, where NULL differs from NULL.
abbrev pub same_external : IncidentRow → IncidentRow → Bool
same_external row r =
    r.tenant_id == row.tenant_id
    && opt_str_eq r.source_connector_id row.source_connector_id
    && opt_str_eq r.external_id row.external_id

-- The casts to the enums, the primary key and the unique index.
unfoldable pub insert_refuses : IncidentRow → Db → Option String
insert_refuses row db =
    if not (contains severity_enum row.severity)
    then some "incident_severity"
    else if not (contains status_enum row.status)
    then some "incident_status"
    else if any (λ r. r.id == row.id) db.incidents
    then some "incident_pkey"
    else if any (same_external row) db.incidents
    then some "incident_tenant_connector_external_uq"
    else none

-- `WHERE tenant_id = $1 AND id = $2`
abbrev pub is_at : Uuid → Uuid → IncidentRow → Bool
is_at tenant id r = r.tenant_id == tenant && r.id == id

unfoldable pub find_row : Uuid → Uuid → List IncidentRow → Option IncidentRow
find_row tenant id [] = none
find_row tenant id (r ∷ rows) = if is_at tenant id r then some r else find_row tenant id rows

-- nil = no change.
pub record IncidentUpdate : Type 0 where
  pub title : Option String
  pub description : Option String
  pub severity : Option String
  pub status : Option String
  pub assignee_id : Option Uuid
  pub attributes : Option Json
  pub tags : Option (List String)
  pub closed_at : Option Time
  pub updated_at : Time

-- COALESCE($n, column) for a column that is not null, and for one that may be.
abbrev pub coalesce {ℓ} : {A : Type ℓ} → Option A → A → A
coalesce none old = old
coalesce (some a) old = a

abbrev pub coalesce? {ℓ} : {A : Type ℓ} → Option A → Option A → Option A
coalesce? none old = old
coalesce? (some a) old = some a

-- The SET clause. `tags` and `attributes` go by their flag, which is set when they are not nil.
unfoldable pub apply_update : IncidentUpdate → IncidentRow → IncidentRow
apply_update u r = record r {
  title = coalesce u.title r.title;
  description = coalesce? u.description r.description;
  severity = coalesce u.severity r.severity;
  status = coalesce u.status r.status;
  assignee_id = coalesce? u.assignee_id r.assignee_id;
  tags = if is_some u.tags then u.tags else r.tags;
  attributes = if is_some u.attributes then u.attributes else r.attributes;
  closed_at = coalesce? u.closed_at r.closed_at;
  updated_at = u.updated_at;
}

unfoldable pub update_rows : Uuid → Uuid → IncidentUpdate → List IncidentRow → List IncidentRow
update_rows tenant id u [] = []
update_rows tenant id u (r ∷ rows) =
    (if is_at tenant id r then apply_update u r else r) ∷ update_rows tenant id u rows

-- A value outside its enum is refused by the cast.
abbrev pub in_enum : List String → Option String → Bool
in_enum names none = true
in_enum names (some s) = contains names s

unfoldable pub update_refuses : IncidentUpdate → Db → Option String
update_refuses u db =
    if not (in_enum severity_enum u.severity)
    then some "incident_severity"
    else if not (in_enum status_enum u.status)
    then some "incident_status"
    else none

pub record ListFilter : Type 0 where
  pub tenant_id : Uuid
  pub statuses : List String
  pub since : Time
  pub until : Time
  pub limit : ℤ
  pub offset : ℤ

-- `len(f.Statuses) > 0`: no statuses means any.
abbrev pub any_or_among : List String → String → Bool
any_or_among [] status = true
any_or_among (s ∷ statuses) status = contains (s ∷ statuses) status

-- The WHERE clause: the bounds that are set, and no others.
unfoldable pub matches : ListFilter → IncidentRow → Bool
matches f r =
    r.tenant_id == f.tenant_id
    && any_or_among f.statuses r.status
    && (if f.since == 0 then true else leb f.since r.created_at)
    && (if f.until == 0 then true else ltb r.created_at f.until)

-- `if f.Limit <= 0 || f.Limit > 500 { f.Limit = 100 }`
unfoldable pub effective_limit : ℤ → ℕ
effective_limit (negsuc n) = 100
effective_limit (pos n) = if n == 0 || ltb 500 n then 100 else n

-- ORDER BY created_at DESC
abbrev pub newer : IncidentRow → IncidentRow → Bool
newer a b = leb b.created_at a.created_at

-- The rows that `f` asks for, from the offset on; OFFSET must not be negative.
select_from : ListFilter → List IncidentRow → ℤ → Result (List IncidentRow)
select_from f rows (negsuc n) = err (wrapped "list incidents" (plain "OFFSET must not be negative"))
select_from f rows (pos n) =
    ok (take (effective_limit f.limit) (drop n (sort_by newer (keep (matches f) rows))))

-- The SELECT of `List`.
unfoldable pub select_incidents : ListFilter → Db → Result (List IncidentRow)
unfolding select_from
select_incidents f db = select_from f db.incidents f.offset

abbrev pub push_incident : IncidentRow → Db → Db
push_incident row db = record db { incidents = db.incidents ++ row ∷ [] }

abbrev pub set_incident : Uuid → Uuid → IncidentUpdate → Db → Db
set_incident tenant id u db = record db { incidents = update_rows tenant id u db.incidents }

-- The times of a row as its columns keep them.
abbrev pub in_columns : Env → IncidentRow → IncidentRow
in_columns env row = record row {
  created_at = env.stored row.created_at;
  updated_at = env.stored row.updated_at;
  closed_at = Option.map env.stored row.closed_at;
}

abbrev pub set_columns : Env → IncidentUpdate → IncidentUpdate
set_columns env u = record u {
  closed_at = Option.map env.stored u.closed_at;
  updated_at = env.stored u.updated_at;
}

module _ (env : Env) where
  unfoldable pub insert : IncidentRow → Exec (Unit {0})
  unfolding insert_refuses
  insert row = exec env "insert incident" (insert_refuses row) (push_incident (in_columns env row))

  abbrev pub found : Option IncidentRow → Result IncidentRow
  found none = err (sentinel not_found)
  found (some r) = ok r

  unfoldable pub get_by_id : Uuid → Uuid → Exec IncidentRow
  get_by_id tenant id = query env "get incident" λ db. found (find_row tenant id db.incidents)

  -- RowsAffected is zero when no row is at the key.
  unfoldable pub update : Uuid → Uuid → IncidentUpdate → Exec (Unit {0})
  unfolding update_refuses
  update tenant id u w =
      let affected = is_some (find_row tenant id w.db.incidents) in
      (exec env "update incident" (update_refuses u) (set_incident tenant id (set_columns env u))
          >>= λ _. if affected then pure tt else fail (sentinel not_found))
        w

  unfoldable pub list : ListFilter → Exec (List IncidentRow)
  list f = query env "list incidents" (select_incidents f)

  -- A row that was inserted stands last, and met the constraints.
  pub insert-eq-ok :
      (row : IncidentRow) (w : World) {u : Unit {0}} {w' : World}
      → insert row w ≡ (ok u, w')
      → (insert_refuses row w.db ≡ none) × (w'.db ≡ push_incident (in_columns env row) w.db)
  unfolding insert
  insert-eq-ok row w h = exec-eq-ok env _ _ _ w h

  found-eq-ok : (o : Option IncidentRow) {r : IncidentRow} → found o ≡ ok r → o ≡ some r
  found-eq-ok none h = ground arith
  found-eq-ok (some x) h = ground arith

  -- A row that was read is the row at its key.
  pub get_by_id-eq-ok :
      (tenant id : Uuid) (w : World) {r : IncidentRow} {w' : World}
      → get_by_id tenant id w ≡ (ok r, w')
      → (find_row tenant id w.db.incidents ≡ some r) × (w'.db ≡ w.db)
  unfolding get_by_id
  get_by_id-eq-ok tenant id w h =
      let (read, same) = query-eq-ok env "get incident" _ w h in
      (found-eq-ok (find_row tenant id w.db.incidents) read, same)

  -- An update that was done found its row, and wrote every column that it names.
  pub update-eq-ok :
      (tenant id : Uuid) (u : IncidentUpdate) (w : World) {x : Unit {0}} {w' : World}
      → update tenant id u w ≡ (ok x, w')
      → (update_refuses u w.db ≡ none) × (w'.db ≡ set_incident tenant id (set_columns env u) w.db)
  unfolding update
  update-eq-ok tenant id u w h =
      let (_, v, done, rest) =
        >>=-eq-ok
          (exec env "update incident" (update_refuses u)
            (set_incident tenant id (set_columns env u)))
          _ w h in
      let (fits, written) =
        exec-eq-ok env "update incident" (update_refuses u)
          (set_incident tenant id (set_columns env u)) w done in
      (fits, ground arith)
