-- ===== src/ReferenceConnector/Main.antt =====
-- cmd/reference-connector/main.go: main, the heartbeat loop beside the subscription, and the exit
-- codes. What happens to the running process is a list of turns, in the order in which they happen.
pub mod Started
use Prim.Native.String.{◌++◌ as ◌<>◌}
use soarcore.Common.{
  ℕ, String, ◌≡◌, refl, Bool, true, false, Option, none, some, List, [], ◌∷◌, ◌==◌, str_eq,
  if◌then◌else◌,
}
use soarcore.Common.Int.{ℤ, pos, negsuc}
use soarcore.Errors.{Error, is, canceled, Result, ok, err}
use soarcore.World.{Env}
use soarcore.Config
use soarcore.Config.{Getenv, load_connector}
use soarcore.Startup.{wait_for_subscriber}
use soarcore.Events.Envelope.{Envelope}
use soarcore.Events.Subscriber.{Signal, delivery, cancelled, closed, Broker, deliveries}
use soarcore.ReferenceConnector.{principal_header, handle_envelope}
use soarcore.ReferenceConnector.Client.{
  Http, Client, register, heartbeat, patch_incident_tags, wait_for_core,
}

-- A signal of the subscription, or a tick of the heartbeat's ticker.
pub data Turn : Type 0 where
  bus : Signal → Turn
  tick : Turn

-- `errors.Is(err, context.Canceled)` on an error of Subscribe.
abbrev pub is_cancelled : Error → Bool
is_cancelled e = is e canceled

abbrev pub exit_code : Error → ℕ
exit_code e = if is_cancelled e then 0 else 1

-- The rounds of a loop `for i := 0; i < attempts; i++`.
abbrev pub rounds : ℤ → ℕ
rounds (pos n) = n
rounds (negsuc n) = 0

-- `time.NewTicker` panics on a period that is not positive.
abbrev pub ticks : ℤ → Bool
ticks (pos n) = if n == 0 then false else true
ticks (negsuc n) = false

module _ {ℓ} {S : Type ℓ} (env : Env) (http : Http S) where
  abbrev pub on_envelope : Client → Envelope → S → Option Error × S
  on_envelope c = handle_envelope env (patch_incident_tags http c env)

  -- The running connector; `none` is one that still runs. The error of a heartbeat is only logged.
  unfoldable pub run_turns : Client → String → List Turn → S → Option ℕ × S
  run_turns c id [] s = (none, s)
  run_turns c id (tick ∷ rest) s = run_turns c id rest (heartbeat http c id s).1
  run_turns c id (bus signal ∷ rest) s =
      let heard = deliveries env (on_envelope c) (signal ∷ []) s in
      elim heard.0 [ none ↦ run_turns c id rest heard.1 | some e ↦ (some (exit_code e), heard.1) ]

  -- `Subscribe` on the connector's queue, beside the heartbeat.
  unfoldable pub subscribed :
      {C : Type 0} → Client → String → Broker C → C → List Turn → S → Option ℕ × S
  subscribed c id broker channel turns s =
      let queue = "ref-connector." <> id in
      elim (broker.declare_queue queue true false channel) [
        | err e ↦ (some 1, s)
        | ok declared ↦ elim (broker.bind_queue queue "incident.*" declared) [
          | err e ↦ (some 1, s)
          | ok bound ↦ elim (broker.consume queue bound) [
            | err e ↦ (some 1, s)
            | ok consumed ↦ run_turns c id turns s
          ]
        ]
      ]

  -- The heartbeat goroutine starts first; its panic ends the process with 2.
  unfoldable pub with_heartbeat :
      {C : Type 0} → Client → Config.Connector → Broker C → C → List Turn → S → Option ℕ × S
  unfolding subscribed
  with_heartbeat c cfg broker channel turns s =
      if ticks cfg.heartbeat_period
      then subscribed c cfg.connector_id broker channel turns s
      else (some 2, s)

  dialled :
      {C : Type 0} → Client → Config.Connector → Broker C → List Turn → Result C → S → Option ℕ × S
  dialled c cfg broker turns (err e) s = (some 1, s)
  dialled c cfg broker turns (ok channel) s = with_heartbeat c cfg broker channel turns s

  registered :
      {C : Type 0}
      → Client
      → Config.Connector
      → (S → ℕ → Result C)
      → Broker C
      → List Turn
      → Option Error × S
      → Option ℕ × S
  unfolding dialled
  registered c cfg dial broker turns (some e, s) = (some 1, s)
  registered c cfg dial broker turns (none, s) =
      dialled c cfg broker turns (wait_for_subscriber (dial s) (rounds cfg.startup_attempts)) s

  reached :
      {C : Type 0}
      → Client
      → Config.Connector
      → (S → ℕ → Result C)
      → Broker C
      → List Turn
      → Option Error × S
      → Option ℕ × S
  unfolding registered
  reached c cfg dial broker turns (some e, s) = (some 1, s)
  reached c cfg dial broker turns (none, s) =
      registered c cfg dial broker turns (register http c cfg.connector_id s)

  abbrev pub client_of : Config.Connector → Client
  client_of cfg = record {
    base = cfg.core_api_base;
    tenant = env.uuid_string cfg.tenant_id;
    principal = principal_header;
  }

  -- `main`; `dial` is `NewSubscriber`, in the state in which the broker is dialled and by the number
  -- of the attempt, with the channel that it opens.
  unfoldable pub connector_main :
      {C : Type 0}
      → Getenv
      → (ℕ → Bool)
      → (S → ℕ → Result C)
      → Broker C
      → List Turn
      → S
      → Option ℕ × S
  unfolding reached
  connector_main getenv ends dial broker turns s = elim (load_connector env getenv) [
    | err e ↦ (some 1, s)
    | ok cfg ↦
        reached (client_of cfg) cfg dial broker turns
          (wait_for_core http (client_of cfg) ends 0 (rounds cfg.startup_attempts) s)
  ]

  -- What ends the running connector, whatever the core answers.
  abbrev pub ending : List Turn → Option ℕ
  ending [] = none
  ending (tick ∷ rest) = ending rest
  ending (bus (delivery body) ∷ rest) = ending rest
  ending (bus cancelled ∷ rest) = some 0
  ending (bus closed ∷ rest) = some 1

  -- What the turns before the end ask of the core, in their order.
  abbrev pub effects : Client → String → List Turn → S → S
  effects c id [] s = s
  effects c id (tick ∷ rest) s = effects c id rest (heartbeat http c id s).1
  effects c id (bus (delivery body) ∷ rest) s =
      effects c id rest (deliveries env (on_envelope c) (delivery body ∷ []) s).1
  effects c id (bus cancelled ∷ rest) s = s
  effects c id (bus closed ∷ rest) s = s

  -- The running connector ends by the first cancelled context or closed channel and by nothing else,
  -- with 0 or 1: neither a failing heartbeat nor a failing patch nor a malformed delivery ends it, and
  -- until then every tick sends a heartbeat and every delivery is handled, in the order of the turns.
  pub run_turns-ending :
      (c : Client) (id : String) (turns : List Turn) (s : S)
      → run_turns c id turns s ≡ (ending turns, effects c id turns s)
  unfolding run_turns deliveries is
  run_turns-ending c id [] s = refl
  run_turns-ending c id (tick ∷ rest) s = run_turns-ending c id rest _
  run_turns-ending c id (bus (delivery body) ∷ rest) s = run_turns-ending c id rest _
  run_turns-ending c id (bus cancelled ∷ rest) s = refl
  run_turns-ending c id (bus closed ∷ rest) s = refl
