-- ===== src/Events/Subscriber.antt =====
-- internal/events/subscriber.go: the loop that hands deliveries to a handler. Declaring the queue,
-- binding it and consuming are calls of the broker.
use soarcore.Common.{
  String, ◌≡◌, inl, inr, refl, Bool, true, false, Option, none, some, List, [], ◌∷◌, Option-cases,
}
use soarcore.Json.{Json}
use soarcore.Errors.{Error, sentinel, canceled, plain, wrapped, Result, ok, err}
use soarcore.World.{Env}
use soarcore.Events.Envelope.{Envelope, decode}

-- What the select of the loop sees next: a delivery, by its body (`none` where it is no JSON), the
-- cancelled context, or the closed channel.
pub data Signal : Type 0 where
  delivery : Option Json → Signal
  cancelled : Signal
  closed : Signal

-- The three calls before the loop, on the channel as the calls before have left it.
pub record Broker (C : Type 0) : Type 0 where
  pub declare_queue : String → Bool → Bool → C → Result C
  pub bind_queue : String → String → C → Result C
  pub consume : String → C → Result C

-- A body is decoded, and the handler run; its error is only logged.
module _ {ℓ} {S : Type ℓ} (env : Env) (handler : Envelope → S → Option Error × S) where
  abbrev handled : Option Envelope → S → S
  handled none s = s
  handled (some e) s = (handler e s).1

  abbrev pub decode_body : Option Json → Option Envelope
  decode_body none = none
  decode_body (some body) = decode env body

  -- The loop; a list of signals that ends is a loop that still waits, and has returned nothing. The
  -- error of a context that ends is `ctx.Err()`, here that of a cancelled one.
  unfoldable pub deliveries : List Signal → S → Option Error × S
  deliveries [] s = (none, s)
  deliveries (cancelled ∷ rest) s = (some (sentinel canceled), s)
  deliveries (closed ∷ rest) s = (some (plain "amqp deliveries channel closed"), s)
  deliveries (delivery body ∷ rest) s = deliveries rest (handled (decode_body body) s)

  unfoldable pub subscribe_with :
      {C : Type 0}
      → Broker C
      → C
      → Bool
      → Bool
      → String
      → String
      → List Signal
      → S
      → Option Error × S
  subscribe_with broker channel durable auto_delete queue pattern signals s =
      elim (broker.declare_queue queue durable auto_delete channel) [
        | err e ↦ (some (wrapped "declare queue" e), s)
        | ok declared ↦ elim (broker.bind_queue queue pattern declared) [
          | err e ↦ (some (wrapped "bind queue" e), s)
          | ok bound ↦ elim (broker.consume queue bound) [
            | err e ↦ (some (wrapped "consume" e), s)
            | ok consumed ↦ deliveries signals s
          ]
        ]
      ]

  -- `Subscribe`: durable, kept.
  unfoldable pub subscribe :
      {C : Type 0} → Broker C → C → String → String → List Signal → S → Option Error × S
  subscribe broker channel = subscribe_with broker channel true false

  -- `SubscribeEphemeral`: not durable, deleted with its last consumer.
  unfoldable pub subscribe_ephemeral :
      {C : Type 0} → Broker C → C → String → String → List Signal → S → Option Error × S
  subscribe_ephemeral broker channel = subscribe_with broker channel false true

  -- The envelopes among the deliveries before the first signal that ends the loop.
  abbrev pub received : List Signal → List Envelope
  received [] = []
  received (cancelled ∷ rest) = []
  received (closed ∷ rest) = []
  received (delivery body ∷ rest) = elim (decode_body body) [
    | none ↦ received rest
    | some e ↦ e ∷ received rest
  ]

  abbrev pub handle_all : List Envelope → S → S
  handle_all [] s = s
  handle_all (e ∷ es) s = handle_all es (handler e s).1

  -- The loop runs the handler on each delivered envelope once, in the order of delivery, until it is
  -- cancelled or the channel closes: a malformed delivery or an error of the handler changes nothing
  -- of that.
  pub deliveries-handle_all :
      (signals : List Signal) (s : S) → (deliveries signals s).1 ≡ handle_all (received signals) s
  unfolding deliveries
  deliveries-handle_all [] s = refl
  deliveries-handle_all (cancelled ∷ rest) s = refl
  deliveries-handle_all (closed ∷ rest) s = refl
  deliveries-handle_all (delivery body ∷ rest) s = elim (Option-cases (decode_body body)) [
    | inl n ↦ rw (n, deliveries, received) (deliveries-handle_all rest s)
    | inr (e, y) ↦ rw (y, deliveries, received) (deliveries-handle_all rest (handler e s).1)
  ]
