-- ===== src/ReferenceConnector/Client/Waiting.antt =====
-- When the wait for the core ends well.
use Prim.Native.String.{◌++◌}
use soarcore.Common.{
  ℕ, zero, suc, ◌<◌, ◌≡◌, ◌↔◌, inl, inr, sym, ap, Bool, true, false, Option, none, some, arith,
  Bool-cases,
}
use soarcore.Errors.{Error}
use soarcore.ReferenceConnector.Client.{Http, Client, ready, probe, wait_for_core}

module _ {ℓ} {S : Type ℓ} (http : Http S) (c : Client) (cancelled : ℕ → Bool)
    (formed : http.malformed "GET" (c.base ++ "/healthz") ≡ none) where
  -- What is outside after `k` probes.
  abbrev pub probed : ℕ → S → S
  probed zero s = s
  probed (suc k) s = probed k (http.exchange (probe http c) s).1

  -- A probe that finds the core ready.
  abbrev pub FindsCore : S → Type 0
  FindsCore s = ready http c (http.exchange (probe http c) s) ≡ true

  -- `k` probes do not find it, and the context does not end in the waits after them.
  abbrev pub NotYet : ℕ → ℕ → S → Type 0
  NotYet zero i s = Unit
  NotYet (suc k) i s =
      (ready http c (http.exchange (probe http c) s) ≡ false)
      × (cancelled i ≡ false)
      × NotYet k (suc i) (http.exchange (probe http c) s).1

  stopped : {e : Error} {s t : S} → ◌≡◌ {A = Option Error × S} (some e, s) (none, t) → ⊥
  stopped h = absurd (ground (arith, ap (λ (x : Option Error × S). x.0) h))

  wait_sound :
      (i n : ℕ) (s t : S)
      → wait_for_core http c cancelled i n s ≡ (none, t)
      → (k : ℕ) × (k < n)
        × NotYet k i s
        × FindsCore (probed k s)
        × (t ≡ (http.exchange (probe http c) (probed k s)).1)
  unfolding wait_for_core
  wait_sound i zero s t h = absurd (stopped h)
  wait_sound i (suc n) s t h =
      let answered = http.exchange (probe http c) s in
      elim (Bool-cases (ready http c answered)) [
        | inl y ↦
            let ends = rw (formed, y, wait_for_core) at h in
            (0, omega arith, tt, y, sym (ap (λ (x : Option Error × S). x.1) ends))
        | inr off ↦ elim (Bool-cases (cancelled i)) [
          | inl y ↦ absurd (stopped (rw (formed, off, y, wait_for_core) at h))
          | inr on ↦
              let (k, lt, not_yet, found, last) =
                wait_sound (suc i) n answered.1 t (rw (formed, off, on, wait_for_core) at h) in
              (suc k, omega (arith, lt), (off, on, not_yet), found, last)
        ]
      ]

  wait_complete :
      (i n k : ℕ) (s t : S)
      → k < n
      → NotYet k i s
      → FindsCore (probed k s)
      → t ≡ (http.exchange (probe http c) (probed k s)).1
      → wait_for_core http c cancelled i n s ≡ (none, t)
  unfolding wait_for_core
  wait_complete i zero k s t lt not_yet found last = absurd (omega (arith, lt))
  wait_complete i (suc n) zero s t lt not_yet found last =
      rw (formed, found, wait_for_core) (ap (λ x. (none, x)) (sym last))
  wait_complete i (suc n) (suc k) s t lt (off, on, not_yet) found last =
      rw (formed, off, on, wait_for_core)
        (wait_complete (suc i) n k _ t (omega (arith, lt)) not_yet found last)

  -- Where the address of the core makes a request, the wait for the core ends without an error
  -- exactly when a probe within the attempts is answered with 200, all probes before that one are
  -- not, and the context does not end in the waits between them; no further probe is made.
  pub wait_for_core_iff :
      (attempts : ℕ) (s t : S)
      → (wait_for_core http c cancelled 0 attempts s ≡ (none, t)) ↔ (
          (k : ℕ) × (k < attempts)
          × NotYet k 0 s
          × FindsCore (probed k s)
          × (t ≡ (http.exchange (probe http c) (probed k s)).1))
  wait_for_core_iff attempts s t = (
    wait_sound 0 attempts s t,
    λ h.
        let (k, lt, not_yet, found, last) = h in
        wait_complete 0 attempts k s t lt not_yet found last,
  )
