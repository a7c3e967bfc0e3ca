-- ===== src/SmokeConsumer.antt =====
-- cmd/smoke-consumer/main.go: the one-shot consumer that waits for an envelope. The context ends by
-- its timeout in any case, so every run ends; the command line is parsed by package flag.
use Prim.Native.String.{◌++◌ as ◌<>◌}
use soarcore.Common.{
  ℕ, String, ◌≡◌, inl, inr, refl, ap, ◌∙◌, Bool, true, false, not, ◌&&◌, Option, none, some, List,
  [], ◌∷◌, ◌++◌, ◌==◌, ==_iff, eq_iff, arith, ◌≢◌, All, str_eq, if◌then◌else◌, Bool-cases,
}
use soarcore.Json.{Json}
use soarcore.Errors.{Error, Result, ok, err}
use soarcore.World.{Env, Uuid}
use soarcore.Events.Envelope.{Envelope, encode}
use soarcore.Events.Subscriber.{
  Signal, Broker, subscribe_ephemeral, subscribe_with, deliveries, received, handle_all,
  deliveries-handle_all,
}

-- The flags; `url` goes to the dial, `timeout` to the context.
pub record Flags : Type 0 where
  pub pattern : String
  pub event_type : String
  pub entity_id : String
  pub queue : String

-- What the process ends with: its exit code, and what it prints on stdout.
pub record Exit : Type 0 where
  pub code : ℕ
  pub printed : Option Json

abbrev pub exit : ℕ → Exit
exit n = record { code = n; printed = none }

-- The two tests of the handler.
unfoldable pub wanted : String → Uuid → Envelope → Bool
wanted event_type entity e =
    if str_eq e.event_type event_type
    then (if not (entity == 0) && not (e.entity.id == entity) then false else true)
    else false

-- A send to a channel of one place: it is left out where the place is taken.
abbrev offer : Envelope → Option Envelope → Option Envelope
offer e none = some e
offer e (some first) = some first

unfoldable pub handler : String → Uuid → Envelope → Option Envelope → Option Error × Option Envelope
handler event_type entity e place =
    if wanted event_type entity e then (none, offer e place) else (none, place)

-- `uuid.Nil` where the flag is not given.
abbrev pub entity_of_flag : Env → String → Option Uuid
entity_of_flag env text = if str_eq text "" then some 0 else env.uuid_parse text

-- An envelope that the flags ask for: of the event type, and of the entity unless that is the nil
-- UUID.
pub record IsWanted (event_type : String) (entity : Uuid) (e : Envelope) : Type 0 where
  pub of_type : e.event_type ≡ event_type
  pub of_entity : (entity ≢ 0) → e.entity.id ≡ entity

-- What stands first among the envelopes that are wanted: nothing where none is wanted, and else an
-- envelope that is wanted, with none before it that is.
abbrev pub IsFirst : String → Uuid → List Envelope → Option Envelope → Type 0
IsFirst event_type entity es none = All (λ e. ¬ IsWanted event_type entity e) es
IsFirst event_type entity es (some e) =
    (before : List Envelope) × (after : List Envelope) × (es ≡ before ++ e ∷ after)
    × All (λ x. ¬ IsWanted event_type entity x) before
    × IsWanted event_type entity e

wanted_iff :
    (event_type : String) (entity : Uuid) (e : Envelope)
    → (wanted event_type entity e ≡ true → IsWanted event_type entity e)
      × (wanted event_type entity e ≡ false → ¬ IsWanted event_type entity e)
unfolding wanted
wanted_iff event_type entity e = (
  λ h. record {
    of_type = (eq_iff e.event_type event_type).0 (ground arith);
    of_entity = λ n. ground (arith, ==_iff entity 0, ==_iff e.entity.id entity);
  },
  λ h w.
      let typed = (eq_iff e.event_type event_type).1 w.of_type in
      ground (arith, typed, w.of_entity, ==_iff entity 0, ==_iff e.entity.id entity),
)

module _ {C : Type 0} (env : Env) (broker : Broker C) where
  -- The select of main: what the channel holds, or the timeout.
  abbrev pub finished : Option Envelope → Exit
  finished none = exit 1
  finished (some e) = record { code = 0; printed = some (encode env e) }

  consume : Flags → String → List Signal → Result C → Uuid → Exit
  consume flags stamp signals (err e) entity = exit 1
  consume flags stamp signals (ok channel) entity =
      let queue = "smoke-consumer." <> (flags.queue <> ("." <> stamp)) in
      let heard =
        subscribe_ephemeral env (handler flags.event_type entity) broker channel queue flags.pattern
          signals none in
      finished heard.1

  parsed : Flags → String → List Signal → Result C → Option Uuid → Exit
  unfolding consume
  parsed flags stamp signals dialled none = exit 2
  parsed flags stamp signals dialled (some entity) = consume flags stamp signals dialled entity

  -- `main`; `stamp` is the time in the queue's name, and `dialled` what `NewSubscriber` returns.
  unfoldable pub smoke_main : Flags → String → Result C → List Signal → Exit
  unfolding parsed
  smoke_main flags stamp dialled signals =
      if str_eq flags.event_type ""
      then exit 2
      else parsed flags stamp signals dialled (entity_of_flag env flags.entity_id)

  taken :
      (event_type : String) (entity : Uuid) (e : Envelope) (es : List Envelope)
      → handle_all env (handler event_type entity) es (some e) ≡ some e
  unfolding handler
  taken event_type entity e [] = refl
  taken event_type entity e (x ∷ es) = elim (Bool-cases (wanted event_type entity x)) [
    | inl y ↦ rw (y, handle_all) (taken event_type entity e es)
    | inr n ↦ rw (n, handle_all) (taken event_type entity e es)
  ]

  IsFirst-later :
      (event_type : String) (entity : Uuid) (x : Envelope) (es : List Envelope)
      (o : Option Envelope)
      → ¬ IsWanted event_type entity x
      → IsFirst event_type entity es o
      → IsFirst event_type entity (x ∷ es) o
  IsFirst-later event_type entity x es none unwanted h = (unwanted, h)
  IsFirst-later event_type entity x es (some e) unwanted (before, after, split, others, good) =
      (x ∷ before, after, ap (λ l. x ∷ l) split, (unwanted, others), good)

  handle_all-IsFirst :
      (event_type : String) (entity : Uuid) (es : List Envelope)
      → IsFirst event_type entity es (handle_all env (handler event_type entity) es none)
  unfolding handler
  handle_all-IsFirst event_type entity [] = tt
  handle_all-IsFirst event_type entity (x ∷ es) = elim (Bool-cases (wanted event_type entity x)) [
    | inl y ↦
        rw (y, handle_all)
          (rw (taken event_type entity x es)
            ([], es, refl, tt, (wanted_iff event_type entity x).0 y))
    | inr n ↦
        rw (n, handle_all)
          (IsFirst-later event_type entity x es _ ((wanted_iff event_type entity x).1 n)
            (handle_all-IsFirst event_type entity es))
  ]

  -- The broker takes every queue, binding and consumer, on any channel.
  pub record Takes (pattern : String) : Type 0 where
    pub declares :
        (queue : String) (c : C) → (d : C) × (broker.declare_queue queue false true c ≡ ok d)
    pub binds : (queue : String) (c : C) → (d : C) × (broker.bind_queue queue pattern c ≡ ok d)
    pub consumes : (queue : String) (c : C) → (d : C) × (broker.consume queue c ≡ ok d)

  subscribes :
      (run : Envelope → Option Envelope → Option Error × Option Envelope) (queue pattern : String)
      (channel : C) (signals : List Signal) (place : Option Envelope)
      → Takes pattern
      → subscribe_ephemeral env run broker channel queue pattern signals place
        ≡ deliveries env run signals place
  unfolding subscribe_ephemeral subscribe_with
  subscribes run queue pattern channel signals place takes =
      let (c₁, declares) = takes.declares queue channel in
      let (c₂, binds) = takes.binds queue c₁ in
      let (_, consumes) = takes.consumes queue c₂ in
      rw (declares, subscribe_with)
        (rw (binds, subscribe_with) (rw (consumes, subscribe_with) refl))

  -- What the process ends with, by what stands first among the wanted.
  abbrev pub Ends : Option Envelope → Exit → Type 0
  Ends none x = (x.code ≡ 1) × (x.printed ≡ none)
  Ends (some e) x = (x.code ≡ 0) × (x.printed ≡ some (encode env e))

  finished-Ends : (o : Option Envelope) → Ends o (finished o)
  finished-Ends none = (refl, refl)
  finished-Ends (some e) = (refl, refl)

  -- With an event type and an entity that parses, once the broker is dialled and takes the queue, its
  -- binding and the consumer, the process prints the first delivered envelope of the event type, and
  -- of the entity where one is asked, and exits with 0; where none is delivered before the context
  -- ends or the channel closes, it prints nothing and exits with 1.
  pub smoke_main-IsFirst :
      (flags : Flags) (stamp : String) (entity : Uuid) (channel : C) (signals : List Signal)
      → str_eq flags.event_type "" ≡ false
      → entity_of_flag env flags.entity_id ≡ some entity
      → Takes flags.pattern
      → (o : Option Envelope) × IsFirst flags.event_type entity
          (received env (handler flags.event_type entity) signals)
          o
        × Ends o (smoke_main flags stamp (ok channel) signals)
  unfolding smoke_main
  smoke_main-IsFirst flags stamp entity channel signals typed known takes =
      let queue = "smoke-consumer." <> (flags.queue <> ("." <> stamp)) in
      let run = handler flags.event_type entity in
      let heard = subscribes run queue flags.pattern channel signals none takes in
      let held : (subscribe_ephemeral env run broker channel queue flags.pattern signals none).1
          ≡ handle_all env run (received env run signals) none =
        ap (λ (x : Option Error × Option Envelope). x.1) heard
        ∙ deliveries-handle_all env run signals none in
      (
        handle_all env run (received env run signals) none,
        handle_all-IsFirst flags.event_type entity (received env run signals),
        rw (typed, smoke_main) (rw (known, smoke_main) (rw held (finished-Ends _))),
      )
