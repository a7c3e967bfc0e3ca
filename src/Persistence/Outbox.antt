-- ===== src/Persistence/Outbox.antt =====
-- internal/persistence/outbox.go
pub mod Batch
use soarcore.Common.{
  ℕ, ◌+◌, String, ◌≡◌, ◌⊎◌, Bool, false, not, ◌||◌, Option, none, some, List, [], ◌∷◌, ◌++◌, ltb,
  leb, ◌==◌, if◌then◌else◌, is_some, take, keep, any, arith,
}
use soarcore.Common.Int.{ℤ, pos, negsuc}
use soarcore.Common.Sort.{sort_by}
use soarcore.Json.{Json}
use soarcore.Errors.{Error, err, ok}
use soarcore.World.{
  tick, query-cases, exec-cases, query-works, exec-works, World, exec-eq-ok, Env, Uuid, Time,
  OutboxRow, Db, Exec, exec, query,
}

-- event_id is UNIQUE.
unfoldable pub enqueue_refuses : Uuid → Db → Option String
enqueue_refuses event_id db =
    if any (λ r. r.event_id == event_id) db.outbox then some "outbox_event_id_key" else none

-- What the caller fills in of a row; the statement takes these five.
pub record NewOutboxRow : Type 0 where
  pub event_id : Uuid
  pub event_type : String
  pub tenant_id : Uuid
  pub payload : Json
  pub created_at : Time

-- The row as the table stores it: the id comes from the sequence, published_at is NULL.
abbrev pub stored : ℕ → NewOutboxRow → OutboxRow
stored id r = record {
  id = id;
  event_id = r.event_id;
  event_type = r.event_type;
  tenant_id = r.tenant_id;
  payload = r.payload;
  created_at = r.created_at;
  published_at = none;
}

abbrev pub push_outbox : NewOutboxRow → Db → Db
push_outbox r db = record db {
  outbox = db.outbox ++ stored db.next_outbox_id r ∷ [];
  next_outbox_id = db.next_outbox_id + 1;
}

-- `if limit <= 0 || limit > 1000 { limit = 100 }`
unfoldable pub effective_batch : ℤ → ℕ
effective_batch (negsuc n) = 100
effective_batch (pos n) = if n == 0 || ltb 1000 n then 100 else n

-- `published_at IS NULL`
abbrev pub is_unpublished : OutboxRow → Bool
is_unpublished r = not (is_some r.published_at)

-- ORDER BY created_at ASC
abbrev pub older : OutboxRow → OutboxRow → Bool
older a b = leb a.created_at b.created_at

unfoldable pub select_unpublished : ℤ → List OutboxRow → List OutboxRow
select_unpublished limit rows =
    take (effective_batch limit) (sort_by older (keep is_unpublished rows))

unfoldable pub mark_rows : ℕ → Time → List OutboxRow → List OutboxRow
mark_rows id at [] = []
mark_rows id at (r ∷ rows) =
    (if r.id == id then record r { published_at = some at } else r) ∷ mark_rows id at rows

module _ (env : Env) where
  unfoldable pub enqueue : NewOutboxRow → Exec (Unit {0})
  unfolding enqueue_refuses
  enqueue row = exec env "enqueue outbox" (enqueue_refuses row.event_id) (push_outbox row)

  unfoldable pub fetch_unpublished : ℤ → Exec (List OutboxRow)
  fetch_unpublished limit =
      query env "fetch unpublished outbox" λ db. ok (select_unpublished limit db.outbox)

  unfoldable pub mark_published : ℕ → Time → Exec (Unit {0})
  mark_published id at =
      exec env "mark outbox published" (λ db. none)
        λ db. record db { outbox = mark_rows id at db.outbox }

  pub enqueue-eq-ok :
      (row : NewOutboxRow) (w : World) {u : Unit {0}} {w' : World}
      → enqueue row w ≡ (ok u, w')
      → (enqueue_refuses row.event_id w.db ≡ none) × (w'.db ≡ push_outbox row w.db)
  unfolding enqueue
  enqueue-eq-ok row w h = exec-eq-ok env _ _ _ w h

  -- A fetch fails, or gives the batch; it writes nothing.
  pub fetch_unpublished-cases :
      (limit : ℤ) (w : World)
      → ((e : Error) × (fetch_unpublished limit w ≡ (err e, tick w)))
        ⊎ (fetch_unpublished limit w ≡ (ok (select_unpublished limit w.db.outbox), tick w))
  unfolding fetch_unpublished
  fetch_unpublished-cases limit w = query-cases env "fetch unpublished outbox" _ w

  -- A mark fails and writes nothing, or sets the time on the rows with the id.
  pub mark_published-cases :
      (id : ℕ) (at : Time) (w : World)
      → ((mark_published id at w).1.db ≡ w.db)
        ⊎ ((mark_published id at w).1.db ≡ record w.db { outbox = mark_rows id at w.db.outbox })
  unfolding mark_published
  mark_published-cases id at w = exec-cases env "mark outbox published" _ _ w

  pub fetch_unpublished-works :
      (limit : ℤ) (w : World)
      → env.fails w.reads ≡ false
      → fetch_unpublished limit w ≡ (ok (select_unpublished limit w.db.outbox), tick w)
  unfolding fetch_unpublished
  fetch_unpublished-works limit w h = query-works env _ _ w h

  -- A statement takes one reading.
  pub mark_published-reads :
      (id : ℕ) (at : Time) (w : World) → (mark_published id at w).1.reads ≡ w.reads + 1
  unfolding mark_published exec
  mark_published-reads id at w = ground arith

  pub mark_published-works :
      (id : ℕ) (at : Time) (w : World)
      → env.fails w.reads ≡ false
      → (mark_published id at w).1.db ≡ record w.db { outbox = mark_rows id at w.db.outbox }
  unfolding mark_published
  mark_published-works id at w h = exec-works env _ _ w h
