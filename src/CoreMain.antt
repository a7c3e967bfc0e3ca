-- ===== src/CoreMain.antt =====
-- cmd/core/main.go: the start-up of the core, what it waits for and in which order, and its exit
-- code. The relay's goroutine and the HTTP server are started, and then run as Relay and Api model
-- them; logging is left out.
use soarcore.Common.{ℕ, String, ◌↔◌, ◌≡◌, refl, sym, ap, ◌∙◌, Option, none, some, arith}
use soarcore.Common.Int.{ℤ, pos, negsuc}
use soarcore.Errors.{Error, Result, ok, err}
use soarcore.World.{Env}
use soarcore.Config.{Core, Getenv, load_core}
use soarcore.Auth.{Principal, stub_authorizer}
use soarcore.Schema.{Compiler, Registry, new_registry}
use soarcore.Startup.{wait_for_db, wait_for_broker}
use soarcore.Persistence.Migrate.{Migrator, run_migrations}
use soarcore.Api.Router.{Server}

-- What ends the running core: a signal, or the crash of the HTTP server.
pub data End : Type 0 where
  signalled : End
  crashed : Error → End

-- The outside of the process. `S` is the state of the world outside, which the migrations change; a
-- dial answers by that state and by the number of the attempt.
pub record Outside {ℓ} (S : Type ℓ) : Type ℓ where
  pub dial_postgres : S → ℕ → Result (Unit {0})
  pub migrator : Migrator S
  pub dial_broker : S → ℕ → Result (Unit {0})
  pub compiler : Compiler
  pub ends : End

-- How far a run of main has come, and its exit code; `served` is one that has started the relay and
-- the server.
pub data Ran {ℓ} (S : Type ℓ) : Type ℓ where
  failed_start : ℕ → S → Ran S
  served : Server → ℕ → S → Ran S

-- The dependency graph: one registry, and the authorizer that always allows.
abbrev pub server_of : Core → Registry → Server
server_of cfg registry = record {
  service = record { registry = registry; allow = stub_authorizer };
  connector_registry = registry;
  default_tenant = cfg.default_tenant_id;
}

abbrev pub attempts_of : ℤ → ℕ
attempts_of (pos n) = n
attempts_of (negsuc n) = 0

abbrev pub end_code : End → ℕ
end_code signalled = 0
end_code (crashed e) = 1

module _ {ℓ} {S : Type ℓ} (o : Outside S) where
  wired : Core → Result Registry → S → Ran S
  wired cfg (err e) s = failed_start 1 s
  wired cfg (ok registry) s = served (server_of cfg registry) (end_code o.ends) s

  with_broker : Core → Result (Unit {0}) → S → Ran S
  unfolding wired
  with_broker cfg (err e) s = failed_start 1 s
  with_broker cfg (ok u) s = wired cfg (new_registry o.compiler) s

  migrated : Core → Option Error × S → Ran S
  unfolding with_broker
  migrated cfg (some e, s) = failed_start 1 s
  migrated cfg (none, s) =
      with_broker cfg (wait_for_broker (o.dial_broker s) (attempts_of cfg.startup_attempts)) s

  with_pool : Core → Result (Unit {0}) → S → Ran S
  unfolding migrated
  with_pool cfg (err e) s = failed_start 1 s
  with_pool cfg (ok u) s = migrated cfg (run_migrations o.migrator cfg.postgres_dsn s)

  configured : Result Core → S → Ran S
  unfolding with_pool
  configured (err e) s = failed_start 1 s
  configured (ok cfg) s =
      with_pool cfg (wait_for_db (o.dial_postgres s) (attempts_of cfg.startup_attempts)) s

  -- `main`
  unfoldable pub core_main : Env → Getenv → S → Ran S
  unfolding configured
  core_main env getenv s = configured (load_core env getenv) s

  -- A core that serves, and what it has done before: Postgres is dialled in the state `s`, before the
  -- migrations, and the broker in the state `t` that they leave.
  pub record Serves (env : Env) (getenv : Getenv) (s : S) (server : Server) (code : ℕ) (t : S)
      : Type ℓ where
    pub cfg : Core
    pub cfg_is : load_core env getenv ≡ ok cfg
    pub pool_is : wait_for_db (o.dial_postgres s) (attempts_of cfg.startup_attempts) ≡ ok tt
    pub migrated_is : run_migrations o.migrator cfg.postgres_dsn s ≡ (none, t)
    pub broker_is : wait_for_broker (o.dial_broker t) (attempts_of cfg.startup_attempts) ≡ ok tt
    pub registry_is : new_registry o.compiler ≡ ok server.service.registry
    pub one_registry : server.connector_registry ≡ server.service.registry
    pub tenant_is : server.default_tenant ≡ cfg.default_tenant_id
    pub allows_all :
        (p : Principal) (action resource : String) → server.service.allow p action resource ≡ none
    pub stopped_is : (code ≡ 0) ↔ (o.ends ≡ signalled)
    pub crashed_is : (code ≡ 1) ↔ ((e : Error) × (o.ends ≡ crashed e))

  server_of-eq :
      (cfg : Core) (server : Server)
      → server.connector_registry ≡ server.service.registry
      → server.default_tenant ≡ cfg.default_tenant_id
      → ((p : Principal) (action resource : String) → server.service.allow p action resource ≡ none)
      → server_of cfg server.service.registry ≡ server
  server_of-eq cfg server one tenant allows i = record {
    service = record {
      registry = server.service.registry;
      allow = λ p action resource. sym (allows p action resource) i;
    };
    connector_registry = sym one i;
    default_tenant = sym tenant i;
  }

  end_code-cases :
      (e : End) (code : ℕ)
      → (end_code e ≡ code)
        ↔ (((code ≡ 0) ↔ (e ≡ signalled)) × ((code ≡ 1) ↔ ((x : Error) × (e ≡ crashed x))))
  end_code-cases signalled code = (
    λ h. (
      (λ k. refl, λ k. sym h),
      (λ k. absurd (omega (arith, h, k)), λ k. absurd (let (x, q) = k in ground (arith, q))),
    ),
    λ h. sym (h.0.1 refl),
  )
  end_code-cases (crashed x) code = (
    λ h. (
      (λ k. absurd (omega (arith, h, k)), λ k. absurd (ground (arith, k))),
      (λ k. (x, refl), λ k. sym h),
    ),
    λ h. sym (h.1.1 (x, refl)),
  )

  served_inj :
      {a b : Server} {m n : ℕ} {v t : S}
      → ◌≡◌ {A = Ran S} (served a m v) (served b n t)
      → (a ≡ b) × (m ≡ n) × (v ≡ t)
  served_inj h = (cc, cc, cc)

  module _ (env : Env) (getenv : Getenv) (s : S) (cfg : Core) {server : Server} {code : ℕ} {t : S}
      (loaded : load_core env getenv ≡ ok cfg)
      (pool : wait_for_db (o.dial_postgres s) (attempts_of cfg.startup_attempts) ≡ ok tt) where
    wired-Serves :
        (x : Result Registry) (v : S)
        → new_registry o.compiler ≡ x
        → run_migrations o.migrator cfg.postgres_dsn s ≡ (none, v)
        → wait_for_broker (o.dial_broker v) (attempts_of cfg.startup_attempts) ≡ ok tt
        → wired cfg x v ≡ served server code t
        → Serves env getenv s server code t
    unfolding wired
    wired-Serves (err e) v r m b h = absurd (ground arith)
    wired-Serves (ok registry) v r m b h =
        let (same, coded, left) = served_inj h in
        let (stops, crashes) = (end_code-cases o.ends code).0 coded in
        record {
          cfg = cfg;
          cfg_is = loaded;
          pool_is = pool;
          migrated_is = m ∙ ap (λ x. (none, x)) left;
          broker_is =
              ap (λ (x : S). wait_for_broker (o.dial_broker x) (attempts_of cfg.startup_attempts))
                (sym left)
              ∙ b;
          registry_is = r ∙ ap (λ (x : Server). ok x.service.registry) same;
          one_registry =
              let q = same in
              sym (ap (λ (x : Server). x.connector_registry) q)
              ∙ ap (λ (x : Server). x.service.registry) q;
          tenant_is = sym (ap (λ (x : Server). x.default_tenant) same);
          allows_all = λ p action resource.
              sym (ap (λ (x : Server). x.service.allow p action resource) same);
          stopped_is = stops;
          crashed_is = crashes;
        }

    with_broker-Serves :
        (x : Result (Unit {0})) (v : S)
        → wait_for_broker (o.dial_broker v) (attempts_of cfg.startup_attempts) ≡ x
        → run_migrations o.migrator cfg.postgres_dsn s ≡ (none, v)
        → with_broker cfg x v ≡ served server code t
        → Serves env getenv s server code t
    unfolding with_broker
    with_broker-Serves (err e) v b m h = absurd (ground arith)
    with_broker-Serves (ok u) v b m h = wired-Serves (new_registry o.compiler) v refl m b h

    migrated-Serves :
        (x : Option Error × S)
        → run_migrations o.migrator cfg.postgres_dsn s ≡ x
        → migrated cfg x ≡ served server code t
        → Serves env getenv s server code t
    unfolding migrated
    migrated-Serves (some e, v) m h = absurd (ground arith)
    migrated-Serves (none, v) m h = with_broker-Serves _ v refl m h

  with_pool-Serves :
      (env : Env) (getenv : Getenv) (s : S) (cfg : Core) (x : Result (Unit {0})) {server : Server}
      {code : ℕ} {t : S}
      → load_core env getenv ≡ ok cfg
      → wait_for_db (o.dial_postgres s) (attempts_of cfg.startup_attempts) ≡ x
      → with_pool cfg x s ≡ served server code t
      → Serves env getenv s server code t
  unfolding with_pool
  with_pool-Serves env getenv s cfg (err e) loaded p h = absurd (ground arith)
  with_pool-Serves env getenv s cfg (ok u) loaded p h =
      migrated-Serves env getenv s cfg loaded p _ refl h

  configured-Serves :
      (env : Env) (getenv : Getenv) (s : S) (x : Result Core) {server : Server} {code : ℕ} {t : S}
      → load_core env getenv ≡ x
      → configured x s ≡ served server code t
      → Serves env getenv s server code t
  unfolding configured
  configured-Serves env getenv s (err e) loaded h = absurd (ground arith)
  configured-Serves env getenv s (ok cfg) loaded h =
      with_pool-Serves env getenv s cfg _ loaded refl h

  Serves-core_main :
      (env : Env) (getenv : Getenv) (s : S) {server : Server} {code : ℕ} {t : S}
      → Serves env getenv s server code t
      → core_main env getenv s ≡ served server code t
  unfolding core_main configured with_pool migrated with_broker wired
  Serves-core_main env getenv s {server} {code} {t} h =
      let coded = (end_code-cases o.ends code).1 (h.stopped_is, h.crashed_is) in
      let same = server_of-eq h.cfg server h.one_registry h.tenant_is h.allows_all in
      rw (h.cfg_is, core_main)
        (rw (h.pool_is, with_pool)
          (rw (h.migrated_is, migrated)
            (rw (h.broker_is, with_broker)
              (rw (h.registry_is, wired)
                (ap (λ x. served x (end_code o.ends) t) same
                  ∙ ap (λ n. served server n t) coded)))))

  -- The core starts its relay and its server exactly when it has read its configuration, has reached
  -- Postgres and then, in the state that the migrations have left, the broker within the configured
  -- attempts, and its schemas compile; it then serves with the registry that was loaded, the
  -- configured tenant and an authorizer that denies nobody, and exits with 0 exactly when a signal
  -- ends it and with 1 exactly when the server crashes.
  pub core_main_iff :
      (env : Env) (getenv : Getenv) (s : S) (server : Server) (code : ℕ) (t : S)
      → (core_main env getenv s ≡ served server code t) ↔ Serves env getenv s server code t
  unfolding core_main
  core_main_iff env getenv s server code t =
      (configured-Serves env getenv s _ refl, Serves-core_main env getenv s)
