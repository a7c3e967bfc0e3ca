-- ===== src/World.antt =====
-- What an operation runs in: the database, and what the process reads from outside. An operation
-- is an action on the world; what it wrote before an error stays written, and only a transaction
-- takes it back.
mod Rows
pub use Rows.*
use mathlib.Core.Path.{subst₂}
use soarcore.Common.{
  ◌∙◌, ℕ, ◌+◌, String, Bool, false, Option, none, some, ◌≡◌, refl, arith, if◌then◌else◌, ◌⊎◌, inl,
  inr, Bool-cases,
}
use soarcore.Errors.{Error, plain, wrapped, Result, ok, err}

-- The outside, by the number of the reading: `uuid.New()`, `time.Now().UTC()`, and whether the
-- database call fails (a lost connection, a cancelled context); `lands` is whether a COMMIT whose call
-- fails has taken effect at the server all the same; `stored` is a time as a TIMESTAMPTZ column keeps it,
-- in microseconds. `uuid_string` and `uuid_parse` are
-- `String` and `Parse` of google/uuid; `time_string` and `time_parse` are RFC 3339 as
-- `time.Time` writes it in JSON and `time.Parse` reads it.
pub record Env : Type 0 where
  pub uuid : ℕ → Uuid
  pub now : ℕ → Time
  pub fails : ℕ → Bool
  pub lands : ℕ → Bool
  pub stored : Time → Time
  pub uuid_string : Uuid → String
  pub uuid_parse : String → Option Uuid
  pub time_string : Time → String
  pub time_parse : String → Option Time

pub record World : Type 0 where
  pub db : Db
  pub reads : ℕ

-- One more reading has been taken.
abbrev pub tick : World → World
tick w = record w { reads = w.reads + 1 }

abbrev pub Exec {ℓ} : Type ℓ → Type ℓ
Exec A = World → Result A × World

module _ {ℓ κ} {A : Type ℓ} {B : Type κ} where
  abbrev pub next : Result A × World → (A → Exec B) → Result B × World
  next (ok a, w) f = f a w
  next (err e, w) f = (err e, w)

  infixl 5 ◌>>=◌
  abbrev pub ◌>>=◌ : Exec A → (A → Exec B) → Exec B
  ◌>>=◌ m f w = next (m w) f

  next-eq-ok :
      (p : Result A × World) (f : A → Exec B) {b : B} {w' : World}
      → next p f ≡ (ok b, w')
      → (a : A) × (v : World) × (p ≡ (ok a, v)) × (f a v ≡ (ok b, w'))
  next-eq-ok (ok a, w) f h = (a, w, refl, h)
  next-eq-ok (err e, w) f h = ground arith

  -- A sequence that succeeds has succeeded in both parts.
  pub >>=-eq-ok :
      (m : Exec A) (f : A → Exec B) (w : World) {b : B} {w' : World}
      → (m >>= f) w ≡ (ok b, w')
      → (a : A) × (v : World) × (m w ≡ (ok a, v)) × (f a v ≡ (ok b, w'))
  >>=-eq-ok m f w h = next-eq-ok (m w) f h

module _ {ℓ κ} {A : Type ℓ} {B : Type κ} where
  next-eq-err :
      (p : Result A × World) (f : A → Exec B) {e : Error} {w' : World}
      → next p f ≡ (err e, w')
      → (p ≡ (err e, w')) ⊎ ((a : A) × (v : World) × (p ≡ (ok a, v)) × (f a v ≡ (err e, w')))
  next-eq-err (ok a, w) f h = inr (a, w, refl, h)
  next-eq-err (err e, w) f h = inl (ground arith)

  -- A sequence that fails has failed in the first part, or in the second after the first.
  pub >>=-eq-err :
      (m : Exec A) (f : A → Exec B) (w : World) {e : Error} {w' : World}
      → (m >>= f) w ≡ (err e, w')
      → (m w ≡ (err e, w')) ⊎ ((a : A) × (v : World) × (m w ≡ (ok a, v)) × (f a v ≡ (err e, w')))
  >>=-eq-err m f w h = next-eq-err (m w) f h

infixl 5 ◌>>◌
abbrev pub ◌>>◌ {ℓ κ} : {A : Type ℓ} {B : Type κ} → Exec A → Exec B → Exec B
m >> k = m >>= λ _. k

module _ {ℓ} {A : Type ℓ} where
  abbrev pub pure : A → Exec A
  pure a w = (ok a, w)

  abbrev pub fail : Error → Exec A
  fail e w = (err e, w)

  -- `if err != nil { return err }` on a check that reads no state.
  abbrev pub check : Option Error → Exec A → Exec A
  check none m = m
  check (some e) m = fail e

-- An action that writes nothing.
abbrev pub IsReading {ℓ} : {A : Type ℓ} → Exec A → Type 0
IsReading m = (w : World) → (m w).1.db ≡ w.db

module _ {ℓ κ} {A : Type ℓ} {B : Type κ} where
  next-db :
      (p : Result A × World) (f : A → Exec B)
      → ((a : A) → IsReading (f a))
      → (next p f).1.db ≡ p.1.db
  next-db (ok a, w) f h = h a w
  next-db (err e, w) f h = refl

  pub >>=-IsReading :
      (m : Exec A) (f : A → Exec B)
      → IsReading m
      → ((a : A) → IsReading (f a))
      → IsReading (m >>= f)
  >>=-IsReading m f h k w = next-db (m w) f k ∙ h w

module _ {ℓ κ} {A : Type ℓ} where
  -- What holds of the result of `pure` holds of the result that it is equal to.
  pub along_ok :
      (P : A → World → Type κ) {a b : A} {v w : World}
      → ◌≡◌ {A = Result A × World} (ok a, v) (ok b, w)
      → P a v
      → P b w
  along_ok P {a} {b} {v} {w} h x =
      let ea : a ≡ b = ground arith in let ew : v ≡ w = ground arith in subst₂ P ea ew x

module _ (env : Env) where
  abbrev pub new_uuid : Exec Uuid
  new_uuid w = (ok (env.uuid w.reads), tick w)

  abbrev pub time_now : Exec Time
  time_now w = (ok (env.now w.reads), tick w)

  -- A database call that fails gives the driver's error under `what`.
  abbrev pub broken : String → Error
  broken what = wrapped what (plain "driver")

  abbrev settle : String → Option String → Db → World → Result (Unit {0}) × World
  settle what none after w = (ok tt, record w { db = after })
  settle what (some constraint) after w = (err (wrapped what (plain constraint)), w)

  -- `Exec` of a statement: the call may fail, a constraint may refuse it, else it takes effect.
  unfoldable pub exec : String → (Db → Option String) → (Db → Db) → Exec (Unit {0})
  exec what refuses effect w =
      if env.fails w.reads
      then (err (broken what), tick w)
      else settle what (refuses w.db) (effect w.db) (tick w)

  -- `Query` and `QueryRow`: the call may fail, else it reads the database.
  unfoldable pub query {ℓ} : {A : Type ℓ} → String → (Db → Result A) → Exec A
  query what read w = if env.fails w.reads then (err (broken what), tick w) else (read w.db, tick w)

  pub exec-eq-ok :
      (what : String) (refuses : Db → Option String) (effect : Db → Db) (w : World) {u : Unit {0}}
      {w' : World}
      → exec what refuses effect w ≡ (ok u, w')
      → (refuses w.db ≡ none) × (w'.db ≡ effect w.db)
  unfolding exec
  exec-eq-ok what refuses effect w h = ground arith

  -- A statement that is not done leaves the tables alone.
  pub exec-eq-err :
      (what : String) (refuses : Db → Option String) (effect : Db → Db) (w : World) {e : Error}
      {w' : World}
      → exec what refuses effect w ≡ (err e, w')
      → w'.db ≡ w.db
  unfolding exec
  exec-eq-err what refuses effect w h = ground arith

  pub query-eq-ok {ℓ} :
      {A : Type ℓ} (what : String) (read : Db → Result A) (w : World) {a : A} {w' : World}
      → query what read w ≡ (ok a, w')
      → (read w.db ≡ ok a) × (w'.db ≡ w.db)
  unfolding query
  query-eq-ok what read w h = ground arith

  pub query-db {ℓ} :
      {A : Type ℓ} (what : String) (read : Db → Result A) (w : World)
      → (query what read w).1.db ≡ w.db
  unfolding query
  query-db what read w = ground arith

  pub query-cases {ℓ} :
      {A : Type ℓ} (what : String) (read : Db → Result A) (w : World)
      → ((e : Error) × (query what read w ≡ (err e, tick w)))
        ⊎ (query what read w ≡ (read w.db, tick w))
  unfolding query
  query-cases what read w = elim (Bool-cases (env.fails w.reads)) [
    | inl y ↦ inl (broken what, rw y)
    | inr n ↦ inr (rw n)
  ]

  -- A statement writes nothing, or takes effect.
  pub exec-cases :
      (what : String) (refuses : Db → Option String) (effect : Db → Db) (w : World)
      → ((exec what refuses effect w).1.db ≡ w.db)
        ⊎ ((exec what refuses effect w).1.db ≡ effect w.db)
  unfolding exec
  exec-cases what refuses effect w = ground arith

  -- A call that does not fail.
  pub query-works {ℓ} :
      {A : Type ℓ} (what : String) (read : Db → Result A) (w : World)
      → env.fails w.reads ≡ false
      → query what read w ≡ (read w.db, tick w)
  unfolding query
  query-works what read w h = rw h

  pub exec-works :
      (what : String) (effect : Db → Db) (w : World)
      → env.fails w.reads ≡ false
      → (exec what (λ db. none) effect w).1.db ≡ effect w.db
  unfolding exec
  exec-works what effect w h = rw h
