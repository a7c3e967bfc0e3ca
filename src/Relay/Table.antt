-- ===== src/Relay/Table.antt =====
-- The ids of the outbox: what they find, and that they come from the sequence.
use soarcore.Common.{
  ℕ, ◌<◌, ◌≡◌, inl, inr, refl, ◌∙◌, Option, none, some, List, [], ◌∷◌, arith, ◌==◌, if◌then◌else◌,
  Bool-cases, keep, All, All-take, All-keep,
}
use soarcore.Common.Sort.{sort_by-All}
use soarcore.Common.Int.{ℤ}
use soarcore.Json.{Json}
use soarcore.World.{Time, OutboxRow, Db}
use soarcore.Persistence.Outbox.{select_unpublished, is_unpublished, older, mark_rows}

-- The payload of the first row with an id.
unfoldable pub payload_at : ℕ → List OutboxRow → Option Json
payload_at id [] = none
payload_at id (r ∷ rows) = if r.id == id then some r.payload else payload_at id rows

-- The payload of the row is what its id finds in the table.
abbrev pub IsAt : List OutboxRow → OutboxRow → Type 0
IsAt table r = payload_at r.id table ≡ some r.payload

pub payload_at-mark_rows :
    (j i : ℕ) (at : Time) (rows : List OutboxRow)
    → payload_at j (mark_rows i at rows) ≡ payload_at j rows
unfolding payload_at mark_rows
payload_at-mark_rows j i at [] = refl
payload_at-mark_rows j i at (r ∷ rows) = ground (arith, payload_at-mark_rows j i at rows)

pub mark_rows-IsAt :
    (table : List OutboxRow) (i : ℕ) (at : Time) (rows : List OutboxRow)
    → All (IsAt table) rows
    → All (IsAt (mark_rows i at table)) (mark_rows i at rows)
unfolding mark_rows
mark_rows-IsAt table i at [] h = tt
mark_rows-IsAt table i at (r ∷ rows) (p, h) = (
  elim (Bool-cases (r.id == i)) [
    | inl y ↦ rw y (payload_at-mark_rows r.id i at table ∙ p)
    | inr n ↦ rw n (payload_at-mark_rows r.id i at table ∙ p)
  ],
  mark_rows-IsAt table i at rows h,
)

-- Every id has been drawn from the sequence.
abbrev pub IsFresh : Db → Type 0
IsFresh db = All (λ r. r.id < db.next_outbox_id) db.outbox

pub mark_rows-fresh :
    (next i : ℕ) (at : Time) (rows : List OutboxRow)
    → All (λ r. r.id < next) rows
    → All (λ r. r.id < next) (mark_rows i at rows)
unfolding mark_rows
mark_rows-fresh next i at [] h = tt
mark_rows-fresh next i at (r ∷ rows) (p, h) = (
  elim (Bool-cases (r.id == i)) [ inl y ↦ rw y p | inr n ↦ rw n p ],
  mark_rows-fresh next i at rows h,
)

pub select-All :
    (P : OutboxRow → Type 0) (limit : ℤ) (rows : List OutboxRow)
    → All P rows
    → All P (select_unpublished limit rows)
unfolding select_unpublished
select-All P limit rows h =
    All-take P _ _
      (sort_by-All older P (keep is_unpublished rows) (All-keep P is_unpublished rows h))
