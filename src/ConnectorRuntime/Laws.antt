-- ===== src/ConnectorRuntime/Laws.antt =====
-- What a registration leaves in the table, and what a failed one does not.
use soarcore.Common.{
  String, ◌≡◌, ◌≢◌, ◌⊎◌, inl, inr, refl, sym, ap, true, Option, none, some, List, [], ◌∷◌, arith,
  ==_iff, Bool-cases, All,
}
use soarcore.Common.Int.{ℤ, pos, negsuc}
use soarcore.Errors.{Error, Result, ok, err}
use soarcore.ConnectorRuntime.Stored.{IsStored, upsert_rows-IsStored}
use soarcore.Schema.{Registry, has}
use soarcore.World.{along_ok, Env, World, Uuid, Exec, check, tick, >>=-eq-ok, >>=-eq-err}
use soarcore.Persistence.Connectors.{upsert, upsert_rows, upsert-eq-ok, upsert-eq-err}
use soarcore.ConnectorRuntime.{
  Capabilities, Registration, register, store, check_types, check_versions, declared_types, each,
  is_one, connector_row, id_error,
}

module _ {ℓ} {A : Type ℓ} where
  check-eq-ok :
      (o : Option Error) (m : Exec A) (w : World) {a : A} {w' : World}
      → check o m w ≡ (ok a, w')
      → (o ≡ none) × (m w ≡ (ok a, w'))
  check-eq-ok none m w h = (refl, h)
  check-eq-ok (some e) m w h = ground arith

  check-eq-err :
      (o : Option Error) (m : Exec A) (w : World) {e : Error} {w' : World}
      → check o m w ≡ (err e, w')
      → (w'.db ≡ w.db) ⊎ (m w ≡ (err e, w'))
  check-eq-err none m w h = inr h
  check-eq-err (some e) m w h = inl (sym (ap (λ (r : Result A × World). r.1.db) h))

check_types-All :
    (registry : Registry) (ts : List String)
    → check_types registry ts ≡ none
    → All (λ t. has registry t 1 ≡ true) ts
unfolding check_types
check_types-All registry [] h = tt
check_types-All registry (t ∷ ts) h = elim (Bool-cases (has registry t 1)) [
  | inl y ↦ (y, check_types-All registry ts (rw y at h))
  | inr n ↦ absurd (ground (arith, rw n at h))
]

is_one-pos : (v : ℤ) → is_one v ≡ true → v ≡ pos 1
is_one-pos (pos n) h = ap pos ((==_iff n 1).0 h)
is_one-pos (negsuc n) h = absurd (ground arith)

check_versions-All : (vs : List ℤ) → check_versions vs ≡ none → All (λ v. v ≡ pos 1) vs
unfolding check_versions
check_versions-All [] h = tt
check_versions-All (v ∷ vs) h = elim (Bool-cases (is_one v)) [
  | inl y ↦ (is_one-pos v y, check_versions-All vs (rw y at h))
  | inr n ↦ absurd (ground (arith, rw n at h))
]

-- A registration that has succeeded.
pub record Registered (registry : Registry) (id : String) (tenant : Uuid) (caps : Capabilities)
    (w w' : World) (r : Registration) : Type 0 where
  pub named : id ≢ ""
  pub known : All (λ t. has registry t 1 ≡ true) (declared_types caps)
  pub version_one : All (λ v. v ≡ pos 1) (each caps.event_schema_versions)
  pub stored : IsStored registry id tenant caps r.registered_at w.db w'.db

module _ (env : Env) where
  stored_row :
      (registry : Registry) (id : String) (tenant : Uuid) (caps : Capabilities) (w : World)
      {r : Registration} {w' : World}
      → store env registry id tenant caps w ≡ (ok r, w')
      → w'.db ≡ record w.db {
        connectors =
            upsert_rows (connector_row registry id tenant caps r.registered_at) w.db.connectors;
      }
  unfolding store
  stored_row registry id tenant caps w {r} {w'} h =
      let row = connector_row registry id tenant caps (env.now w.reads) in
      let (u, v, first, second) = >>=-eq-ok (upsert env row) _ (tick w) h in
      along_ok
        (λ (reg : Registration) (v' : World). v'.db ≡ record w.db {
          connectors =
              upsert_rows (connector_row registry id tenant caps reg.registered_at) w.db.connectors;
        })
        second (upsert-eq-ok env row (tick w) first)

  -- A registration that succeeds has an id, declares only entity types that the registry knows and
  -- only event schema 1, and leaves under the id the row with the declared capabilities, which is
  -- active, not deregistered, and keeps the heartbeat of the row before it; the row of no other
  -- connector and no other table changes.
  pub register-Registered :
      (registry : Registry) (id : String) (tenant : Uuid) (caps : Capabilities) (w : World)
      {r : Registration} {w' : World}
      → register env registry id tenant caps w ≡ (ok r, w')
      → Registered registry id tenant caps w w' r
  unfolding register
  register-Registered registry id tenant caps w {r} {w'} h =
      let (named, h1) = check-eq-ok (id_error id) _ w h in
      let (known, h2) = check-eq-ok (check_types registry (declared_types caps)) _ w h1 in
      let (ones, h3) = check-eq-ok (check_versions (each caps.event_schema_versions)) _ w h2 in
      let set = stored_row registry id tenant caps w h3 in
      record {
        named = λ e. absurd (ground (arith, rw e at named));
        known = check_types-All registry _ known;
        version_one = check_versions-All _ ones;
        stored = upsert_rows-IsStored registry id tenant caps r.registered_at w.db w'.db set;
      }

  stored_failed :
      (registry : Registry) (id : String) (tenant : Uuid) (caps : Capabilities) (w : World)
      {e : Error} {w' : World}
      → store env registry id tenant caps w ≡ (err e, w')
      → w'.db ≡ w.db
  unfolding store
  stored_failed registry id tenant caps w {e} {w'} h =
      let row = connector_row registry id tenant caps (env.now w.reads) in
      elim (>>=-eq-err (upsert env row) _ (tick w) h) [
        | inl first ↦ upsert-eq-err env row (tick w) first
        | inr (u, v, first, second) ↦ absurd (ground (arith, second))
      ]

  -- A registration that fails changes no table.
  pub register_failed :
      (registry : Registry) (id : String) (tenant : Uuid) (caps : Capabilities) (w : World)
      {e : Error} {w' : World}
      → register env registry id tenant caps w ≡ (err e, w')
      → w'.db ≡ w.db
  unfolding register
  register_failed registry id tenant caps w {e} {w'} h = elim (check-eq-err (id_error id) _ w h) [
    | inl same ↦ same
    | inr h1 ↦ elim (check-eq-err (check_types registry (declared_types caps)) _ w h1) [
      | inl same ↦ same
      | inr h2 ↦ elim (check-eq-err (check_versions (each caps.event_schema_versions)) _ w h2) [
        | inl same ↦ same
        | inr h3 ↦ stored_failed registry id tenant caps w h3
      ]
    ]
  ]
