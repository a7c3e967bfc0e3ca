-- ===== src/Persistence/Incidents/Selection.antt =====
-- What the SELECT of List finds.
use mathlib.Core.Path.{subst}
use soarcore.Common.{
  ℕ, ◌≤◌, ◌<◌, String, ◌≡◌, ◌⊎◌, inl, inr, refl, Bool, true, false, ◌&&◌, List, [], ◌∷◌, arith, ltb,
  leb, ◌==◌, ==_iff, if◌then◌else◌, Bool-cases, length, take, drop, keep, All, OneOf, contains,
  All-take, All-map,
}
use soarcore.Common.Int.{ℤ, pos, negsuc}
use soarcore.Common.Sort.{Sorted, sort_by, sort_by-All, sort_by-Sorted}
use soarcore.Common.Sort.Prefix.{length-take, All-drop, Sorted-take, Sorted-drop}
use soarcore.Errors.{ok}
use soarcore.World.{Env, World, IncidentRow, query-eq-ok}
use soarcore.Persistence.Incidents.{
  ListFilter, matches, any_or_among, select_from, select_incidents, effective_limit, newer, list,
}

-- A row that a filter asks for: the tenant's, with one of the statuses where any are named, and
-- created within the bounds that are set.
abbrev pub Wanted : ListFilter → IncidentRow → Type 0
Wanted f r =
    (r.tenant_id ≡ f.tenant_id)
    × ((f.statuses ≡ []) ⊎ (contains f.statuses r.status ≡ true))
    × ((f.since ≡ 0) ⊎ (f.since ≤ r.created_at))
    × ((f.until ≡ 0) ⊎ (r.created_at < f.until))

among :
    (statuses : List String) (s : String)
    → any_or_among statuses s ≡ true
    → (statuses ≡ []) ⊎ (contains statuses s ≡ true)
among [] s h = inl refl
among (x ∷ xs) s h = inr h

since_bound :
    (since at : ℕ) → (if since == 0 then true else leb since at) ≡ true → (since ≡ 0) ⊎ (since ≤ at)
since_bound since at h = elim (Bool-cases (since == 0)) [
  | inl y ↦ inl ((==_iff since 0).0 y)
  | inr n ↦ inr (ground (arith, rw n at h))
]

until_bound :
    (until at : ℕ) → (if until == 0 then true else ltb at until) ≡ true → (until ≡ 0) ⊎ (at < until)
until_bound until at h = elim (Bool-cases (until == 0)) [
  | inl y ↦ inl ((==_iff until 0).0 y)
  | inr n ↦ inr (ground (arith, rw n at h))
]

and_true : (a b : Bool) → (a && b) ≡ true → (a ≡ true) × (b ≡ true)
and_true true b h = (refl, h)
and_true false b h = absurd (ground arith)

matches-Wanted : (f : ListFilter) (r : IncidentRow) → matches f r ≡ true → Wanted f r
unfolding matches
matches-Wanted f r h =
    let (h₁, high) = and_true _ (if f.until == 0 then true else ltb r.created_at f.until) h in
    let (h₂, low) = and_true _ (if f.since == 0 then true else leb f.since r.created_at) h₁ in
    let (mine, status) = and_true (r.tenant_id == f.tenant_id) _ h₂ in
    (
      (==_iff r.tenant_id f.tenant_id).0 mine,
      among f.statuses r.status status,
      since_bound f.since r.created_at low,
      until_bound f.until r.created_at high,
    )

keep-Wanted :
    (f : ListFilter) (table : List IncidentRow)
    → All (λ r. Wanted f r × OneOf (λ x. x ≡ r) table) (keep (matches f) table)
keep-Wanted f [] = tt
keep-Wanted f (r ∷ table) =
    let rest =
      All-map (λ x. Wanted f x × OneOf (λ y. y ≡ x) table)
        (λ x. Wanted f x × OneOf (λ y. y ≡ x) (r ∷ table)) (λ x h. (h.0, inr h.1)) _
        (keep-Wanted f table) in
    elim (Bool-cases (matches f r)) [
      | inl y ↦ rw (y, keep) ((matches-Wanted f r y, inl refl), rest)
      | inr n ↦ rw (n, keep) rest
    ]

newer_total : (a b : IncidentRow) → newer a b ≡ false → newer b a ≡ true
newer_total a b h = ground arith

newer_trans : (a b c : IncidentRow) → newer a b ≡ true → newer b c ≡ true → newer a c ≡ true
newer_trans a b c h k = ground arith

-- Rows that are wanted and stand in the table, the newest first, and no more than the limit.
pub record IsSelection (f : ListFilter) (table rows : List IncidentRow) : Type 0 where
  pub wanted : All (λ r. Wanted f r × OneOf (λ x. x ≡ r) table) rows
  pub ordered : Sorted newer rows
  pub few : length rows ≤ effective_limit f.limit

select_from-IsSelection :
    (f : ListFilter) (table rows : List IncidentRow) (offset : ℤ)
    → select_from f table offset ≡ ok rows
    → IsSelection f table rows
unfolding select_from
select_from-IsSelection f table rows (negsuc n) h = absurd (ground arith)
select_from-IsSelection f table rows (pos n) h =
    let sorted = sort_by newer (keep (matches f) table) in
    let k = effective_limit f.limit in
    let same : take k (drop n sorted) ≡ rows = ground arith in
    subst (IsSelection f table) same (record {
      wanted = All-take _ k (drop n sorted) (
          All-drop _ n sorted (sort_by-All newer _ (keep (matches f) table) (keep-Wanted f table)));
      ordered = Sorted-take newer newer_trans k (drop n sorted) (
          Sorted-drop newer newer_trans n sorted
            (sort_by-Sorted newer newer_total (keep (matches f) table)));
      few = length-take k (drop n sorted);
    })

pub list-eq-ok :
    (env : Env) (f : ListFilter) (w : World) {rows : List IncidentRow} {w' : World}
    → list env f w ≡ (ok rows, w')
    → IsSelection f w.db.incidents rows × (w'.db ≡ w.db)
unfolding list select_incidents
list-eq-ok env f w {rows} h =
    let (read, same) = query-eq-ok env "list incidents" (select_incidents f) w h in
    (select_from-IsSelection f w.db.incidents rows f.offset read, same)

pub effective_limit-bounds :
    (limit : ℤ) → (0 < effective_limit limit) × (effective_limit limit ≤ 500)
unfolding effective_limit
effective_limit-bounds (negsuc n) = (omega arith, omega arith)
effective_limit-bounds (pos n) = ground arith
