-- ===== src/Events/Connection.antt =====
-- internal/events/subscriber.go: NewSubscriber and Close. The AMQP client is a parameter: the errors
-- of its calls. What is open at the broker is counted.
use soarcore.Common.{Bool, true, if◌then◌else◌, ℕ, ◌+◌, ◌-◌, ◌≡◌, Option, none, some, arith}
use soarcore.Errors.{Error, wrapped, Result, ok, err}

pub record Dialer : Type 0 where
  pub dial : Option Error
  pub open_channel : Option Error
  pub declare_exchange : Option Error

pub record Held : Type 0 where
  pub conns : ℕ
  pub channels : ℕ

-- The two pointers of a `Subscriber`, by whether they are not nil.
pub record Subscriber : Type 0 where
  pub conn : Bool
  pub channel : Bool

abbrev connected : Subscriber
connected = record { conn = true; channel = true }

abbrev close_channel : Held → Held
close_channel h = record h { channels = h.channels - 1 }

abbrev close_conn : Held → Held
close_conn h = record h { conns = h.conns - 1 }

module _ (d : Dialer) where
  with_channel : Held → Result Subscriber × Held
  with_channel h = elim d.declare_exchange [
    | some e ↦ (err (wrapped "declare exchange" e), close_conn (close_channel h))
    | none ↦ (ok connected, h)
  ]

  with_conn : Held → Result Subscriber × Held
  unfolding with_channel
  with_conn h = elim d.open_channel [
    | some e ↦ (err (wrapped "amqp channel" e), close_conn h)
    | none ↦ with_channel (record h { channels = h.channels + 1 })
  ]

  -- `NewSubscriber`
  unfoldable pub new_subscriber : Held → Result Subscriber × Held
  unfolding with_conn
  new_subscriber h = elim d.dial [
    | some e ↦ (err (wrapped "amqp dial" e), h)
    | none ↦ with_conn (record h { conns = h.conns + 1 })
  ]

-- `Close`
unfoldable pub close : Subscriber → Held → Held
close s h =
    let h' = if s.channel then close_channel h else h in if s.conn then close_conn h' else h'

-- What is open, by the outcome.
abbrev pub kept_open : Result Subscriber → Held → Held
kept_open (ok s) h = record { conns = h.conns + 1; channels = h.channels + 1 }
kept_open (err e) h = h

abbrev pub closed : Result Subscriber × Held → Held
closed (ok s, h) = close s h
closed (err e, h) = h

-- A subscriber that is returned holds one connection and one channel; where any of the three calls
-- fails, what was opened on the way is closed again; and closing what was returned leaves what was
-- open before.
new_subscriber-kept_open :
    (d : Dialer) (h : Held)
    → ((new_subscriber d h).1 ≡ kept_open (new_subscriber d h).0 h)
      × (closed (new_subscriber d h) ≡ h)
unfolding new_subscriber close
new_subscriber-kept_open d h = ground arith
