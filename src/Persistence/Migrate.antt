-- ===== src/Persistence/Migrate.antt =====
-- internal/persistence/migrate.go: the migration runner. golang-migrate is a parameter.
use Prim.Native.String.{[] as ε, ◌∷◌ as ◌∷ˢ◌, ◌++◌}
use Prim.Native.Char.{code}
use text.Mathlib.TextEquality.{Char-path}
use text.Mathlib.TextLemmas.{nil-append, cons-append}
use soarcore.Common.{
  sym, ap, ◌∙◌, ◌≢◌, Bool-cases, ==_refl, String, ◌≡◌, inl, inr, Option, none, some, ◌==◌,
  if◌then◌else◌, arith, Option-cases,
}
use soarcore.Errors.{Error, wrapped}

-- `strings.HasPrefix` and `strings.TrimPrefix`: what follows the prefix, where it is there.
unfoldable pub strip_prefix : String → String → Option String
strip_prefix ε s = some s
strip_prefix (p ∷ˢ ps) ε = none
strip_prefix (p ∷ˢ ps) (c ∷ˢ s) = if code p == code c then strip_prefix ps s else none

-- `migrateSchemeFromDSN`
unfoldable pub migrate_scheme : String → String
migrate_scheme dsn = elim (strip_prefix "postgres://" dsn) [
  | some rest ↦ "pgx5://" ++ rest
  | none ↦ elim (strip_prefix "postgresql://" dsn) [ some rest ↦ "pgx5://" ++ rest | none ↦ dsn ]
]

-- What `Up` answers.
pub data Up : Type 0 where
  applied : Up
  no_change : Up
  failed : Error → Up

-- The calls of golang-migrate: the source, the connection by its URL, and `Up` on a state.
pub record Migrator {ℓ} (S : Type ℓ) : Type ℓ where
  pub source : Option Error
  pub open_at : String → Option Error
  pub up : S → Up × S

module _ {ℓ} {S : Type ℓ} (m : Migrator S) where
  after_up : Up × S → Option Error × S
  after_up (applied, s) = (none, s)
  after_up (no_change, s) = (none, s)
  after_up (failed e, s) = (some (wrapped "migrate up" e), s)

  -- `RunMigrations`; the errors of the deferred Close are only logged.
  unfoldable pub run_migrations : String → S → Option Error × S
  unfolding after_up
  run_migrations dsn s = elim m.source [
    | some e ↦ (some (wrapped "iofs source" e), s)
    | none ↦ elim (m.open_at (migrate_scheme dsn)) [
      | some e ↦ (some (wrapped "new migrate" e), s)
      | none ↦ after_up (m.up s)
    ]
  ]

-- What is left after a prefix is what follows it.
strip_prefix_sound : (p s : String) {rest : String} → strip_prefix p s ≡ some rest → s ≡ p ++ rest
unfolding strip_prefix
strip_prefix_sound ε s {rest} h = let same : s ≡ rest = cc in same ∙ sym (nil-append rest)
strip_prefix_sound (p ∷ˢ ps) ε h = absurd (ground arith)
strip_prefix_sound (p ∷ˢ ps) (c ∷ˢ s) {rest} h = elim (Bool-cases (code p == code c)) [
  | inl y ↦
      let same : c ≡ p = Char-path c p (ground arith) in
      let tail : s ≡ ps ++ rest = strip_prefix_sound ps s (rw (y, strip_prefix) at h) in
      ap (λ x. x ∷ˢ s) same ∙ (ap (λ x. p ∷ˢ x) tail ∙ sym (cons-append p ps rest))
  | inr n ↦ absurd (ground (arith, rw (n, strip_prefix) at h))
]

strip_prefix-append : (p rest : String) → strip_prefix p (p ++ rest) ≡ some rest
unfolding strip_prefix
strip_prefix-append ε rest = ap some (nil-append rest)
strip_prefix-append (p ∷ˢ ps) rest =
    rw (cons-append p ps rest) (rw (==_refl (code p), strip_prefix) (strip_prefix-append ps rest))

strip_prefix-none : (p s : String) → strip_prefix p s ≡ none → (rest : String) → s ≢ p ++ rest
strip_prefix-none p s h rest e =
    absurd (ground (arith, sym h ∙ (ap (strip_prefix p) e ∙ strip_prefix-append p rest)))

-- The migration URL: the scheme of a postgres:// or a postgresql:// DSN is replaced by pgx5:// and
-- all after it is kept; any other DSN stays as it is.
pub data Rescheme (dsn : String) : String → Type 0 where
  postgres : (rest : String) → dsn ≡ "postgres://" ++ rest → Rescheme dsn ("pgx5://" ++ rest)
  postgresql : (rest : String) → dsn ≡ "postgresql://" ++ rest → Rescheme dsn ("pgx5://" ++ rest)
  other :
      ((rest : String) → dsn ≢ "postgres://" ++ rest)
      → ((rest : String) → dsn ≢ "postgresql://" ++ rest)
      → Rescheme dsn dsn

-- For any DSN, the URL that the migrations run at is that of `Rescheme`.
pub migrate_scheme-Rescheme : (dsn : String) → Rescheme dsn (migrate_scheme dsn)
unfolding migrate_scheme
migrate_scheme-Rescheme dsn = elim (Option-cases (strip_prefix "postgres://" dsn)) [
  | inr (rest, y) ↦ rw (y, migrate_scheme) (postgres rest (strip_prefix_sound "postgres://" dsn y))
  | inl n ↦ elim (Option-cases (strip_prefix "postgresql://" dsn)) [
    | inr (rest, y) ↦
        rw (n, migrate_scheme)
          (rw (y, migrate_scheme) (postgresql rest (strip_prefix_sound "postgresql://" dsn y)))
    | inl m ↦
        rw (n, migrate_scheme)
          (rw (m, migrate_scheme)
            (other (strip_prefix-none "postgres://" dsn n)
              (strip_prefix-none "postgresql://" dsn m)))
  ]
]
