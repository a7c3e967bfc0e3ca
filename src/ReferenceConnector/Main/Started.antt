-- ===== src/ReferenceConnector/Main/Started.antt =====
-- What a connector that runs, or has stopped without an error, has done before.
use Prim.Native.String.{◌++◌ as ◌<>◌}
use soarcore.Common.{
  ℕ, String, ◌≡◌, ◌≢◌, inl, inr, refl, sym, ap, ◌∙◌, Bool, true, false, Option, none, some, List,
  Bool-cases,
}
use soarcore.Errors.{Error, Result, ok, err, Result-cases}
use soarcore.World.{Env}
use soarcore.Config
use soarcore.Config.{Getenv, load_connector}
use soarcore.Startup.{wait_for_subscriber}
use soarcore.Events.Subscriber.{Broker}
use soarcore.ReferenceConnector.Client.{Http, register, wait_for_core}
use soarcore.ReferenceConnector.Main.{
  Turn, rounds, ticks, subscribed, with_heartbeat, dialled, registered, reached, client_of,
  connector_main, ending, effects, run_turns-ending,
}

module _ {ℓ} {S : Type ℓ} (env : Env) (http : Http S) {C : Type 0} (dial : S → ℕ → Result C)
    (broker : Broker C) (turns : List Turn) (code : Option ℕ) (t : S)
    (fine : (code ≢ some 1) × (code ≢ some 2)) where
  abbrev pub queue_of : Config.Connector → String
  queue_of cfg = "ref-connector." <> cfg.connector_id

  -- From the channel `opened`, the queue is declared, then bound, then consumed, each on the channel
  -- as the call before has left it, and the turns have run from `s` to `t`.
  pub record Subscribed (cfg : Config.Connector) (opened : C) (s : S) : Type ℓ where
    pub beats : ticks cfg.heartbeat_period ≡ true
    pub declared : C
    pub bound : C
    pub consumed : C
    pub declares : broker.declare_queue (queue_of cfg) true false opened ≡ ok declared
    pub binds : broker.bind_queue (queue_of cfg) "incident.*" declared ≡ ok bound
    pub consumes : broker.consume (queue_of cfg) bound ≡ ok consumed
    pub ends_by : code ≡ ending env http turns
    pub leaves : t ≡ effects env http (client_of env http cfg) cfg.connector_id turns s

  stopped : {s : S} → ◌≡◌ {A = Option ℕ × S} (some 1, s) (code, t) → ⊥
  stopped h = fine.0 (sym (ap (λ (x : Option ℕ × S). x.0) h))

  crashed : {s : S} → ◌≡◌ {A = Option ℕ × S} (some 2, s) (code, t) → ⊥
  crashed h = fine.1 (sym (ap (λ (x : Option ℕ × S). x.0) h))

  subscribed-Subscribed :
      (cfg : Config.Connector) (opened : C) (s : S)
      → ticks cfg.heartbeat_period ≡ true
      → subscribed env http (client_of env http cfg) cfg.connector_id broker opened turns s
        ≡ (code, t)
      → Subscribed cfg opened s
  unfolding subscribed
  subscribed-Subscribed cfg opened s beats h =
      elim (Result-cases (broker.declare_queue (queue_of cfg) true false opened)) [
        | inr (e, y) ↦ absurd (stopped (rw (y, subscribed) at h))
        | inl (declared, d) ↦
            elim (Result-cases (broker.bind_queue (queue_of cfg) "incident.*" declared)) [
              | inr (e, y) ↦ absurd (stopped (rw (d, y, subscribed) at h))
              | inl (bound, b) ↦ elim (Result-cases (broker.consume (queue_of cfg) bound)) [
                | inr (e, y) ↦ absurd (stopped (rw (d, b, y, subscribed) at h))
                | inl (consumed, c) ↦
                    let ran =
                      sym (
                        run_turns-ending env http (client_of env http cfg) cfg.connector_id turns s)
                      ∙ rw (d, b, c, subscribed) at h in
                    record {
                      beats = beats;
                      declared = declared;
                      bound = bound;
                      consumed = consumed;
                      declares = d;
                      binds = b;
                      consumes = c;
                      ends_by = sym (ap (λ (x : Option ℕ × S). x.0) ran);
                      leaves = sym (ap (λ (x : Option ℕ × S). x.1) ran);
                    }
              ]
            ]
      ]

  dialled-Subscribed :
      (cfg : Config.Connector) (x : Result C) (s : S)
      → dialled env http (client_of env http cfg) cfg broker turns x s ≡ (code, t)
      → (opened : C) × (x ≡ ok opened) × Subscribed cfg opened s
  unfolding dialled with_heartbeat
  dialled-Subscribed cfg (err e) s h = absurd (stopped h)
  dialled-Subscribed cfg (ok opened) s h = elim (Bool-cases (ticks cfg.heartbeat_period)) [
    | inl y ↦ (opened, refl, subscribed-Subscribed cfg opened s y (rw (y, with_heartbeat) at h))
    | inr n ↦ absurd (crashed (rw (n, with_heartbeat) at h))
  ]

  registered-Subscribed :
      (cfg : Config.Connector) (x : Option Error × S)
      → registered env http (client_of env http cfg) cfg dial broker turns x ≡ (code, t)
      → (x.0 ≡ none)
        × ((opened : C) × (wait_for_subscriber (dial x.1) (rounds cfg.startup_attempts) ≡ ok opened)
            × Subscribed cfg opened x.1)
  unfolding registered
  registered-Subscribed cfg (some e, s) h = absurd (stopped h)
  registered-Subscribed cfg (none, s) h = (refl, dialled-Subscribed cfg _ s h)

  -- A connector with its configuration, from the first probe of the core on.
  pub record Started (getenv : Getenv) (ends : ℕ → Bool) (s : S) : Type ℓ where
    pub cfg : Config.Connector
    pub ready : S
    pub known : S
    pub cfg_is : load_connector env getenv ≡ ok cfg
    pub waits :
        wait_for_core http (client_of env http cfg) ends 0 (rounds cfg.startup_attempts) s
        ≡ (none, ready)
    pub registers : register http (client_of env http cfg) cfg.connector_id ready ≡ (none, known)
    pub opened : C
    pub dials : wait_for_subscriber (dial known) (rounds cfg.startup_attempts) ≡ ok opened
    pub subscribes : Subscribed cfg opened known

  reached-Started :
      (getenv : Getenv) (ends : ℕ → Bool) (cfg : Config.Connector) (s : S) (x : Option Error × S)
      → load_connector env getenv ≡ ok cfg
      → wait_for_core http (client_of env http cfg) ends 0 (rounds cfg.startup_attempts) s ≡ x
      → reached env http (client_of env http cfg) cfg dial broker turns x ≡ (code, t)
      → Started getenv ends s
  unfolding reached
  reached-Started getenv ends cfg s (some e, v) loaded w h = absurd (stopped h)
  reached-Started getenv ends cfg s (none, v) loaded w h =
      let answered = register http (client_of env http cfg) cfg.connector_id v in
      let (good, (opened, dials, subscribes)) = registered-Subscribed cfg answered h in
      record {
        cfg = cfg;
        ready = v;
        known = answered.1;
        cfg_is = loaded;
        waits = w;
        registers = ap (λ (e : Option Error). (e, answered.1)) good;
        opened = opened;
        dials = dials;
        subscribes = subscribes;
      }

  -- A reference connector that has exited neither with 1 nor with 2, so that it runs or has stopped
  -- with 0, has read its configuration, found the core ready within the configured attempts, then
  -- registered, reached the broker, started a heartbeat of a positive period, and declared, bound and
  -- consumed its queue, in this order; since then it has sent a heartbeat for every tick and handled
  -- every delivery, in the order of the turns, and it ends by its first cancelled context or closed
  -- channel and by nothing else.
  pub connector_main-Started :
      (getenv : Getenv) (ends : ℕ → Bool) (s : S)
      → connector_main env http getenv ends dial broker turns s ≡ (code, t)
      → Started getenv ends s
  unfolding connector_main
  connector_main-Started getenv ends s h = elim (Result-cases (load_connector env getenv)) [
    | inl (cfg, y) ↦ reached-Started getenv ends cfg s _ y refl (rw (y, connector_main) at h)
    | inr (e, n) ↦ absurd (stopped (rw (n, connector_main) at h))
  ]
