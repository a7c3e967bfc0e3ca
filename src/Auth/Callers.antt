-- ===== src/Auth/Callers.antt =====
-- internal/auth/auth.go: what Middleware has established of the requests that it lets through.
use soarcore.Common.{
  String, ◌≡◌, ◌⊎◌, inl, inr, refl, some, arith, str_eq, eq_iff, Bool-cases, Option-cases,
}
use soarcore.Errors.{Result, ok, err}
use soarcore.World.{Env, Uuid}
use soarcore.Auth.{Principal, Context, pass, parse_principal, middleware, tenant_of, middleware_of}

-- What the middleware puts into the context of a request.
abbrev pub context_of : Principal → Uuid → Context
context_of p tenant = record { principal = some p; tenant = some tenant }

module _ (env : Env) (default_tenant : Uuid) (header : String → String) where
  -- The caller of a request: its header's principal, and the tenant that it names, or the default.
  pub record Caller (p : Principal) (tenant : Uuid) : Type 0 where
    pub principal_is : parse_principal (header "X-Principal-Id") ≡ ok p
    pub tenant_is :
        ((header "X-Tenant-Id" ≡ "") × (tenant ≡ default_tenant))
        ⊎ (env.uuid_parse (header "X-Tenant-Id") ≡ some tenant)

  tenant_of_sound :
      (p : Principal) {c : Context}
      → parse_principal (header "X-Principal-Id") ≡ ok p
      → tenant_of env default_tenant p (header "X-Tenant-Id") ≡ pass c
      → (tenant : Uuid) × Caller p tenant × (c ≡ context_of p tenant)
  unfolding tenant_of
  tenant_of_sound p {c} parsed h = elim (Bool-cases (str_eq (header "X-Tenant-Id") "")) [
    | inl y ↦
        let e : pass (context_of p default_tenant) ≡ pass c = rw (y, tenant_of) at h in
        (
          default_tenant,
          record {
            principal_is = parsed;
            tenant_is = inl ((eq_iff (header "X-Tenant-Id") "").0 y, refl);
          },
          cc,
        )
    | inr n ↦ elim (Option-cases (env.uuid_parse (header "X-Tenant-Id"))) [
      | inl none_there ↦ absurd (ground (arith, rw (n, none_there, tenant_of) at h))
      | inr (tenant, t) ↦
          let e : pass (context_of p tenant) ≡ pass c = rw (n, t, tenant_of) at h in
          (tenant, record { principal_is = parsed; tenant_is = inr t }, cc)
    ]
  ]

  gate_sound :
      (x : Result Principal) {c : Context}
      → parse_principal (header "X-Principal-Id") ≡ x
      → middleware_of env default_tenant header x ≡ pass c
      → (p : Principal) × (tenant : Uuid) × Caller p tenant × (c ≡ context_of p tenant)
  unfolding middleware_of
  gate_sound (err e) parsed h = absurd (ground arith)
  gate_sound (ok p) parsed h =
      let (tenant, caller, same) = tenant_of_sound p parsed h in (p, tenant, caller, same)

  -- A request that the middleware lets through has a caller, whose principal and tenant are what the
  -- handlers find in its context.
  pub middleware_sound :
      {c : Context}
      → middleware env default_tenant header ≡ pass c
      → (p : Principal) × (tenant : Uuid) × Caller p tenant × (c ≡ context_of p tenant)
  unfolding middleware
  middleware_sound h = elim (Bool-cases (str_eq (header "X-Principal-Id") "")) [
    | inl y ↦ absurd (ground (arith, rw (y, middleware) at h))
    | inr n ↦ gate_sound (parse_principal (header "X-Principal-Id")) refl (rw (n, middleware) at h)
  ]
