-- ===== src/Startup/Attempts.antt =====
-- What a wait returns: the first connection that is made within the attempts.
use soarcore.Common.{
  ℕ, zero, suc, ◌+◌, ◌<◌, String, ◌≡◌, ◌↔◌, inl, inr, ap, ◌∙◌, Option, none, some, arith,
}
use soarcore.Errors.{Error, Result, ok, err, Result-cases}
use soarcore.Startup.{attempt, wait_for}

add_zero : (i : ℕ) → i + 0 ≡ i
add_zero i = omega arith

zero_add : (i : ℕ) → 0 + i ≡ i
zero_add i = omega arith

add_suc : (i k : ℕ) → i + suc k ≡ suc i + k
add_suc i k = omega arith

module _ {ℓ} {A : Type ℓ} (what : String) (connect : ℕ → Result A) where
  -- All attempts of a stretch of numbers fail.
  abbrev pub Fail : ℕ → ℕ → Type ℓ
  Fail i zero = Unit
  Fail i (suc k) = ((e : Error) × (connect i ≡ err e)) × Fail (suc i) k

  ok_inj : {p q : A} → ◌≡◌ {A = Result A} (ok p) (ok q) → p ≡ q
  ok_inj h = cc

  attempt_sound :
      (i n : ℕ) (last : Option Error) (p : A)
      → attempt what connect i n last ≡ ok p
      → (k : ℕ) × (k < n) × (connect (i + k) ≡ ok p) × Fail i k
  unfolding attempt
  attempt_sound i zero last p h = absurd (ground arith)
  attempt_sound i (suc n) last p h = elim (Result-cases (connect i)) [
    | inl (q, y) ↦ (0, omega arith, rw (add_zero i) (y ∙ ap ok (ok_inj (rw (y, attempt) at h))), tt)
    | inr (e, y) ↦
        let (k, lt, made, fails) = attempt_sound (suc i) n (some e) p (rw (y, attempt) at h) in
        (suc k, omega arith, rw (add_suc i k) made, ((e, y), fails))
  ]

  attempt_complete :
      (i n k : ℕ) (last : Option Error) (p : A)
      → k < n
      → connect (i + k) ≡ ok p
      → Fail i k
      → attempt what connect i n last ≡ ok p
  unfolding attempt
  attempt_complete i zero k last p lt made fails = absurd (omega arith)
  attempt_complete i (suc n) zero last p lt made fails =
      let here : connect i ≡ ok p = rw (add_zero i) at made in rw (here, attempt)
  attempt_complete i (suc n) (suc k) last p lt made ((e, y), fails) =
      let there : connect (suc i + k) ≡ ok p = rw (add_suc i k) at made in
      rw (y, attempt) (attempt_complete (suc i) n k (some e) p (omega arith) there fails)

  -- A wait returns a connection exactly when an attempt within the bound makes it and all attempts
  -- before that one fail.
  pub wait_for_iff :
      (attempts : ℕ) (p : A)
      → (wait_for what connect attempts ≡ ok p)
        ↔ ((k : ℕ) × (k < attempts) × (connect k ≡ ok p) × Fail 0 k)
  unfolding wait_for
  wait_for_iff attempts p = (
    λ h.
        let (k, lt, made, fails) = attempt_sound 0 attempts none p h in
        (k, lt, rw⁻¹ (zero_add k) made, fails),
    λ h.
        let (k, lt, made, fails) = h in
        attempt_complete 0 attempts k none p lt (rw (zero_add k) made) fails,
  )
