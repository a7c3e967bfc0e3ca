-- ===== src/Events/Publisher.antt =====
-- internal/events/publisher.go. The AMQP client is a parameter: whether each call succeeds, by its
-- number, and whether a publish that reports an error had been written all the same. The channel is
-- not put into confirm mode, so a publish without an error says that the message was written to the
-- connection, not that the broker has it.
pub mod Delivery
pub mod Reconnect
use soarcore.Common.{
  ℕ, ◌+◌, Bool, not, Option, none, some, List, [], ◌∷◌, ◌++◌, ◌==◌, if◌then◌else◌, keep,
}
use soarcore.Errors.{Error, plain, wrapped}
use soarcore.Events.Envelope.{Envelope}

pub record Amqp : Type 0 where
  pub dials : ℕ → Bool
  pub opens : ℕ → Bool
  pub declares : ℕ → Bool
  pub publishes : ℕ → Bool
  pub writes : ℕ → Bool

-- `conn` and `channel` hold the number of the dial that made them. `open_conns` are the
-- connections that were dialled and not closed, and `sent` what was written to them, oldest first.
pub record State : Type 0 where
  pub conn : Option ℕ
  pub channel : Option ℕ
  pub open_conns : List ℕ
  pub calls : ℕ
  pub sent : List Envelope

abbrev called : State → State
called s = record s { calls = s.calls + 1 }

abbrev close_conn : ℕ → State → State
close_conn c s = record s { open_conns = keep (λ d. not (d == c)) s.open_conns }

module _ (amqp : Amqp) where
  -- The exchange on a fresh channel; both are given up when it cannot be declared.
  declare_exchange : ℕ → State → Option Error × State
  declare_exchange c s =
      if amqp.declares s.calls
      then (none, record (called s) { conn = some c; channel = some c })
      else (some (wrapped "declare exchange" (plain "amqp")), close_conn c (called s))

  open_channel : ℕ → State → Option Error × State
  unfolding declare_exchange
  open_channel c s =
      if amqp.opens s.calls
      then declare_exchange c (called s)
      else (some (wrapped "amqp channel" (plain "amqp")), close_conn c (called s))

  unfoldable pub connect : State → Option Error × State
  unfolding open_channel
  connect s =
      if amqp.dials s.calls
      then open_channel s.calls (record (called s) { open_conns = s.calls ∷ s.open_conns })
      else (some (wrapped "amqp dial" (plain "amqp")), called s)

  -- `PublishWithContext` on the channel, where there is one.
  send : Option ℕ → Envelope → State → Option Error × State
  send none e s = (some (plain "amqp channel is nil"), s)
  send (some c) e s =
      if amqp.publishes s.calls then (none, record (called s) { sent = s.sent ++ e ∷ [] }) else (
        some (plain "amqp"),
        if amqp.writes s.calls then record (called s) { sent = s.sent ++ e ∷ [] } else called s,
      )

  -- The outcome of the publish after a reconnect.
  after_reconnect : Option Error × State → Option Error × State
  after_reconnect (none, t) = (none, t)
  after_reconnect (some x, t) = (some (wrapped "publish after reconnect" x), t)

  -- One reconnect attempt, and one more publish on what it made.
  retry : Envelope → Option Error × State → Option Error × State
  unfolding send after_reconnect
  retry e (some r, s) = (some (wrapped "reconnect after publish failure" r), s)
  retry e (none, s) = after_reconnect (send s.channel e s)

  first_try : Envelope → Option Error × State → Option Error × State
  unfolding retry
  first_try e (none, s) = (none, s)
  first_try e (some x, s) = retry e (connect s)

  -- `Publish`
  unfoldable pub publish : Envelope → State → Option Error × State
  unfolding send first_try
  publish e s = first_try e (send s.channel e s)

-- `Close`: what is there is closed, and a second call finds nothing.
abbrev close_one : Option ℕ → State → State
close_one none s = s
close_one (some c) s = close_conn c s

unfoldable pub close : State → State
close s = record (close_one s.conn s) { channel = none; conn = none }
