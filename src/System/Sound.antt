-- ===== src/System/Sound.antt =====
-- What holds of the table of incidents in every reachable state.
use soarcore.Common.{
  ℕ, String, ◌≡◌, inl, inr, refl, ◌∙◌, true, false, Option, none, some, List, [], ◌∷◌, ◌++◌, arith,
  ◌==◌, any, contains, is_some, Bool-cases, str_eq, All, All-append,
}
use soarcore.Events.Bus.{Publisher}
use soarcore.World.{Time, Env, Uuid, IncidentRow}
use soarcore.Persistence.Incidents.{
  IncidentUpdate, update_rows, apply_update, severity_enum, status_enum, in_enum, coalesce,
  coalesce?, is_at,
}
use soarcore.Relay.{State}
use soarcore.System.{Reach, here, after, initial}
use soarcore.System.Incidents.{Changes, kept, added, updated, IsNew, StatusSet}
use soarcore.System.Life.{Step-Changes}

-- What holds of each row, and what of the table.
pub record IsSound (r : IncidentRow) : Type 0 where
  pub severity_is : contains severity_enum r.severity ≡ true
  pub status_is : contains status_enum r.status ≡ true
  pub closed_is : str_eq r.status "closed" ≡ true → is_some r.closed_at ≡ true

abbrev pub AreDistinct : List IncidentRow → Type 0
AreDistinct [] = Unit
AreDistinct (r ∷ rows) = (any (λ x. x.id == r.id) rows ≡ false) × AreDistinct rows

pub record IsSoundTable (rows : List IncidentRow) : Type 0 where
  pub each : All IsSound rows
  pub distinct : AreDistinct rows

IsNew-IsSound : (row : IncidentRow) (before : List IncidentRow) → IsNew row before → IsSound row
IsNew-IsSound row before h = record {
  severity_is = h.severity_is;
  status_is = rw h.status_is refl;
  closed_is = λ c. absurd (ground (arith, rw h.status_is at c));
}

any-append :
    (id : Uuid) (rows : List IncidentRow) (row : IncidentRow)
    → any (λ x. x.id == id) rows ≡ false
    → (row.id == id) ≡ false
    → any (λ x. x.id == id) (rows ++ row ∷ []) ≡ false
any-append id [] row h n = rw n refl
any-append id (x ∷ rows) row h n = ground (arith, any-append id rows row)

AreDistinct-append :
    (rows : List IncidentRow) (row : IncidentRow)
    → AreDistinct rows
    → any (λ r. r.id == row.id) rows ≡ false
    → AreDistinct (rows ++ row ∷ [])
AreDistinct-append [] row h n = (refl, tt)
AreDistinct-append (x ∷ rows) row (d, h) n =
    let other : (x.id == row.id) ≡ false = ground arith in
    (any-append x.id rows row d (ground arith), AreDistinct-append rows row h (ground arith))

any-update_rows :
    (j tenant id : Uuid) (u : IncidentUpdate) (rows : List IncidentRow)
    → any (λ x. x.id == j) (update_rows tenant id u rows) ≡ any (λ x. x.id == j) rows
unfolding update_rows apply_update
any-update_rows j tenant id u [] = refl
any-update_rows j tenant id u (x ∷ rows) = ground (arith, any-update_rows j tenant id u rows)

update_rows-AreDistinct :
    (tenant id : Uuid) (u : IncidentUpdate) (rows : List IncidentRow)
    → AreDistinct rows
    → AreDistinct (update_rows tenant id u rows)
unfolding update_rows apply_update
update_rows-AreDistinct tenant id u [] h = tt
update_rows-AreDistinct tenant id u (x ∷ rows) (d, h) = (
  elim (Bool-cases (is_at tenant id x)) [
    | inl y ↦ rw y (any-update_rows x.id tenant id u rows ∙ d)
    | inr n ↦ rw n (any-update_rows x.id tenant id u rows ∙ d)
  ],
  update_rows-AreDistinct tenant id u rows h,
)

coalesce-in_enum :
    (names : List String) (o : Option String) (old : String)
    → in_enum names o ≡ true
    → contains names old ≡ true
    → contains names (coalesce o old) ≡ true
coalesce-in_enum names none old h k = k
coalesce-in_enum names (some s) old h k = h

coalesce?-is_some : (o old : Option Time) → is_some o ≡ true → is_some (coalesce? o old) ≡ true
coalesce?-is_some none old h = absurd (ground arith)
coalesce?-is_some (some t) old h = refl

apply_update-IsSound :
    (u : IncidentUpdate) (from : String) (r : IncidentRow)
    → in_enum severity_enum u.severity ≡ true
    → StatusSet from u
    → IsSound r
    → IsSound (apply_update u r)
unfolding apply_update
apply_update-IsSound u from r fits (inl (n, m)) h = record {
  severity_is = coalesce-in_enum severity_enum u.severity r.severity fits h.severity_is;
  status_is = rw n h.status_is;
  closed_is = rw (n, m) h.closed_is;
}
apply_update-IsSound u from r fits (inr (s, e, valid, _, closing)) h = record {
  severity_is = coalesce-in_enum severity_enum u.severity r.severity fits h.severity_is;
  status_is = rw e valid;
  closed_is = rw e (λ c. coalesce?-is_some u.closed_at r.closed_at (closing ∙ c));
}

update_rows-IsSound :
    (tenant id : Uuid) (u : IncidentUpdate) (from : String) (rows : List IncidentRow)
    → in_enum severity_enum u.severity ≡ true
    → StatusSet from u
    → All IsSound rows
    → All IsSound (update_rows tenant id u rows)
unfolding update_rows
update_rows-IsSound tenant id u from [] fits moves h = tt
update_rows-IsSound tenant id u from (r ∷ rows) fits moves (p, h) = (
  elim (Bool-cases (is_at tenant id r)) [
    | inl y ↦ rw y (apply_update-IsSound u from r fits moves p)
    | inr n ↦ rw n p
  ],
  update_rows-IsSound tenant id u from rows fits moves h,
)

Changes-IsSoundTable :
    (before later : List IncidentRow)
    → Changes before later
    → IsSoundTable before
    → IsSoundTable later
Changes-IsSoundTable before later (kept same) h = rw same h
Changes-IsSoundTable before later (added row new set) h = rw set (record {
  each = All-append IsSound before (row ∷ []) h.each (IsNew-IsSound row before new, tt);
  distinct = AreDistinct-append before row h.distinct new.id_is;
})
Changes-IsSoundTable before later (updated tenant id u prior found fits moves set) h =
    rw set (record {
      each = update_rows-IsSound tenant id u prior.status before fits moves h.each;
      distinct = update_rows-AreDistinct tenant id u before h.distinct;
    })

module _ (env : Env) (publisher : Publisher) where
  -- From empty tables, after any sequence of operations, no two incidents have the same id, and every
  -- incident has a severity and a status of the enums and, where it is closed, a closing time.
  pub Reach-IsSoundTable :
      (reads : ℕ) (bus : publisher.State) (t : State publisher)
      → Reach env publisher (initial env publisher reads bus) t
      → IsSoundTable t.world.db.incidents
  Reach-IsSoundTable reads bus _ here = record { each = tt; distinct = tt }
  Reach-IsSoundTable reads bus _ (after t u r step) =
      Changes-IsSoundTable t.world.db.incidents u.world.db.incidents
        (Step-Changes env publisher t u step) (Reach-IsSoundTable reads bus t r)
