-- ===== src/Relay/Waiting.antt =====
-- The waiting rows of the outbox, and how many of them a batch leaves.
use soarcore.Common.{
  ℕ, zero, suc, ◌-◌, ◌≤◌, ◌≡◌, refl, sym, ap, ◌∙◌, Bool, true, false, not, ◌&&◌, List, [], ◌∷◌,
  ◌++◌, arith, ◌==◌, ==_refl, All, All-map, length, length-append, keep, take, drop,
}
use soarcore.Common.Int.{pos}
use soarcore.Common.Sort.{sort_by, keep-sort_by, length-sort_by}
use soarcore.Common.Sort.Prefix.{take-drop}
use soarcore.World.{Time, OutboxRow}
use soarcore.Relay.{batch}
use soarcore.Persistence.Outbox.{
  is_unpublished, mark_rows, select_unpublished, effective_batch, older,
}

-- Not one of the rows of a batch, by its id.
abbrev pub unmarked : List OutboxRow → OutboxRow → Bool
unmarked [] r = true
unmarked (b ∷ bs) r = not (r.id == b.id) && unmarked bs r

pub keep-mark_rows :
    (i : ℕ) (at : Time) (rows : List OutboxRow)
    → keep is_unpublished (mark_rows i at rows)
      ≡ keep (λ r. not (r.id == i)) (keep is_unpublished rows)
unfolding mark_rows
keep-mark_rows i at [] = refl
keep-mark_rows i at (r ∷ rows) = ground (arith, keep-mark_rows i at rows)

pub keep-keep :
    (p q : OutboxRow → Bool) (rows : List OutboxRow)
    → keep p (keep q rows) ≡ keep (λ r. q r && p r) rows
keep-keep p q [] = refl
keep-keep p q (r ∷ rows) = ground (arith, keep-keep p q rows)

keep_nothing :
    (p : OutboxRow → Bool) (rows : List OutboxRow)
    → All (λ r. p r ≡ false) rows
    → length (keep p rows) ≡ 0
keep_nothing p [] h = omega arith
keep_nothing p (r ∷ rows) (n, h) = rw n (keep_nothing p rows h)

pub keep_all : (rows : List OutboxRow) → keep (λ r. true) rows ≡ rows
keep_all [] = refl
keep_all (r ∷ rows) = ap (◌∷◌ r) (keep_all rows)

keep-append :
    (p : OutboxRow → Bool) (xs ys : List OutboxRow) → keep p (xs ++ ys) ≡ keep p xs ++ keep p ys
keep-append p [] ys = refl
keep-append p (x ∷ xs) ys = ground (arith, keep-append p xs ys)

length-keep : (p : OutboxRow → Bool) (rows : List OutboxRow) → length (keep p rows) ≤ length rows
length-keep p [] = omega arith
length-keep p (r ∷ rows) = ground (arith, length-keep p rows)

length-drop : (n : ℕ) (rows : List OutboxRow) → length (drop n rows) ≡ length rows - n
length-drop zero rows = omega arith
length-drop (suc n) [] = omega arith
length-drop (suc n) (r ∷ rows) = omega (arith, length-drop n rows)

marked : (rows : List OutboxRow) → All (λ r. unmarked rows r ≡ false) rows
marked [] = tt
marked (b ∷ bs) = (
  rw (==_refl b.id) refl,
  All-map (λ r. unmarked bs r ≡ false) (λ r. unmarked (b ∷ bs) r ≡ false) (λ r h. ground arith) bs
      (marked bs),
)

-- What a batch leaves waiting, where all its rows are marked.
pub length-unmarked :
    (table : List OutboxRow)
    → length (keep (unmarked (select_unpublished (pos batch) table)) (keep is_unpublished table))
      ≤ length (keep is_unpublished table) - batch
unfolding select_unpublished effective_batch
length-unmarked table =
    let waiting = keep is_unpublished table in
    let sorted = sort_by older waiting in
    let first = take batch sorted in
    let p = unmarked first in
    let both : length (keep p waiting) ≡ length (keep p first ++ keep p (drop batch sorted)) =
      sym (keep-sort_by older p waiting)
      ∙ ap (λ l. length (keep p l)) (sym (take-drop batch sorted))
      ∙ ap length (keep-append p first (drop batch sorted)) in
    let apart = length-append (keep p first) (keep p (drop batch sorted)) in
    let none_left = keep_nothing p first (marked first) in
    let few = length-keep p (drop batch sorted) in
    let rest = length-drop batch sorted in
    let whole = length-sort_by older waiting in
    omega (arith, both, apart, none_left, few, rest, whole)
