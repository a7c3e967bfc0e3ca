-- ===== src/Persistence/Pool.antt =====
-- internal/persistence/pool.go: transactions. A body that fails is rolled back; a COMMIT whose call
-- fails may have taken effect or not, as a lost connection leaves open.
use soarcore.Common.{◌+◌, ◌≡◌, ◌⊎◌, inl, inr, refl, Bool-cases, arith, if◌then◌else◌}
use soarcore.Errors.{Error, Result, ok, err}
use soarcore.World.{Env, World, Db, Exec, tick, broken}

module _ {ℓ} {A : Type ℓ} (env : Env) where
  -- The end of `WithTx`: commit what succeeded, roll back what failed.
  close : Db → Result A × World → Result A × World
  close before (err e, w) = (err e, record w { db = before })
  close before (ok a, w) =
      if env.fails w.reads
      then (
        err (broken env "commit tx"),
        record w { db = if env.lands w.reads then w.db else before; reads = w.reads + 1 },
      )
      else (ok a, tick w)

  unfoldable pub with_tx : Exec A → Exec A
  unfolding close
  with_tx fn w =
      if env.fails w.reads then (err (broken env "begin tx"), tick w) else close w.db (fn (tick w))

  close-eq-ok :
      (before : Db) (p : Result A × World) {a : A} {w' : World}
      → close before p ≡ (ok a, w')
      → (v : World) × (p ≡ (ok a, v)) × (w'.db ≡ v.db)
  unfolding close
  close-eq-ok before (err e, w) h = ground arith
  close-eq-ok before (ok a, w) h = (w, ground arith, ground arith)

  close-eq-err :
      (before : Db) (p : Result A × World) {e : Error} {w' : World}
      → close before p ≡ (err e, w')
      → (w'.db ≡ before) ⊎ ((a : A) × (v : World) × (p ≡ (ok a, v)) × (w'.db ≡ v.db))
  unfolding close
  close-eq-err before (err e, w) h = inl (ground arith)
  close-eq-err before (ok a, w) h = elim (Bool-cases (env.lands w.reads)) [
    | inl y ↦ inr (a, w, refl, ground arith)
    | inr n ↦ inl (ground arith)
  ]

  -- What a transaction that succeeds has written is what its body wrote.
  pub with_tx-eq-ok :
      (fn : Exec A) (w : World) {a : A} {w' : World}
      → with_tx fn w ≡ (ok a, w')
      → (v : World) × (fn (tick w) ≡ (ok a, v)) × (w'.db ≡ v.db)
  unfolding with_tx
  with_tx-eq-ok fn w {w' = x} h = close-eq-ok w.db (fn (tick w)) {w' = x} (ground arith)

  -- A transaction that fails has written nothing, or what its body wrote, where the body succeeded and
  -- the commit took effect though its call failed.
  pub with_tx-eq-err :
      (fn : Exec A) (w : World) {e : Error} {w' : World}
      → with_tx fn w ≡ (err e, w')
      → (w'.db ≡ w.db) ⊎ ((a : A) × (v : World) × (fn (tick w) ≡ (ok a, v)) × (w'.db ≡ v.db))
  unfolding with_tx
  with_tx-eq-err fn w {w' = x} h = elim (Bool-cases (env.fails w.reads)) [
    | inl y ↦ inl (ground arith)
    | inr n ↦ close-eq-err w.db (fn (tick w)) {w' = x} (rw (n, with_tx) at h)
  ]
