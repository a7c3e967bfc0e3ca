-- ===== src/Persistence/Outbox/Batch.antt =====
-- What FetchUnpublished selects.
use mathlib.Core.List.{Perm}
use mathlib.Core.Path.{subst}
use soarcore.Common.{ℕ, ◌≤◌, ◌<◌, ◌≡◌, sym, true, false, List, ◌++◌, arith, length, drop, keep, All}
use soarcore.Common.Int.{ℤ, pos, negsuc}
use soarcore.Common.Sort.{Sorted, sort_by, sort_by-perm, sort_by-Sorted}
use soarcore.Common.Sort.Prefix.{take-drop, length-take, Sorted-take, Sorted-take-drop}
use soarcore.World.{OutboxRow}
use soarcore.Persistence.Outbox.{select_unpublished, effective_batch, is_unpublished, older}

older_total : (a b : OutboxRow) → older a b ≡ false → older b a ≡ true
older_total a b h = ground arith

older_trans : (a b c : OutboxRow) → older a b ≡ true → older b c ≡ true → older a c ≡ true
older_trans a b c h k = ground arith

-- A batch of at most `limit` waiting rows of a table, in the order of creation, and the waiting
-- rows that it leaves: together they are the waiting rows of the table, and none that is left was
-- created before one of the batch.
pub record IsBatch (limit : ℕ) (table batch : List OutboxRow) : Type 0 where
  pub left : List OutboxRow
  pub whole : Perm (batch ++ left) (keep is_unpublished table)
  pub ordered : Sorted older batch
  pub first : All (λ r. All (λ b. older b r ≡ true) batch) left
  pub few : length batch ≤ limit

-- The bound of a batch: what the caller asks, or 100 where that is not between 1 and 1000.
effective_batch-bounds : (limit : ℤ) → (0 < effective_batch limit) × (effective_batch limit ≤ 1000)
unfolding effective_batch
effective_batch-bounds (negsuc n) = (omega arith, omega arith)
effective_batch-bounds (pos n) = ground arith

-- For any limit, the unpublished rows that are fetched are the oldest ones of the table, in the
-- order of creation, and at most the effective limit of them, which is between 1 and 1000.
pub select_unpublished-IsBatch :
    (limit : ℤ) (table : List OutboxRow)
    → IsBatch (effective_batch limit) table (select_unpublished limit table)
      × (0 < effective_batch limit)
      × (effective_batch limit ≤ 1000)
unfolding select_unpublished
select_unpublished-IsBatch limit table =
    let sorted = sort_by older (keep is_unpublished table) in
    let n = effective_batch limit in
    let order = sort_by-Sorted older older_total (keep is_unpublished table) in
    let (low, high) = effective_batch-bounds limit in
    (
      record {
        left = drop n sorted;
        whole =
            subst (λ l. Perm l (keep is_unpublished table)) (sym (take-drop n sorted))
              (sort_by-perm older (keep is_unpublished table));
        ordered = Sorted-take older older_trans n sorted order;
        first = Sorted-take-drop older older_trans n sorted order;
        few = length-take n sorted;
      },
      low,
      high,
    )
