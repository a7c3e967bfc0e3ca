-- ===== src/Events/Publisher/Reconnect.antt =====
-- The one reconnect attempt of Publish, and what it does to the connection.
use mathlib.Core.Path.{subst}
use soarcore.Common.{
  ℕ, ◌+◌, ◌<◌, ◌≡◌, ◌≢◌, inl, inr, refl, sym, ◌∙◌, true, false, Option, none, some, ◌∷◌, arith,
  Bool-cases, OneOf,
}
use soarcore.Errors.{Error}
use soarcore.Events.Envelope.{Envelope}
use soarcore.Events.Publisher.{Amqp, State, connect, send, after_reconnect, retry, publish}

module _ (amqp : Amqp) where
  -- Publish makes one reconnect attempt: after the first publish fails, a reconnect that fails is
  -- the last call, and the publisher keeps the channel that it had.
  pub publish-reconnect_failed :
      (e : Envelope) (s : State) (c : ℕ)
      → s.channel ≡ some c
      → amqp.publishes s.calls ≡ false
      → amqp.dials (s.calls + 1) ≡ false
      → ((publish amqp e s).0 ≢ none)
        × ((publish amqp e s).1.channel ≡ some c)
        × ((publish amqp e s).1.calls ≡ s.calls + 2)
  unfolding publish connect
  publish-reconnect_failed e s c h k l = elim (Bool-cases (amqp.writes s.calls)) [
    | inl y ↦ rw (h, publish) (rw (k, y, publish) (rw (l, connect) (λ x. cc, refl, omega arith)))
    | inr n ↦ rw (h, publish) (rw (k, n, publish) (rw (l, connect) (λ x. cc, refl, omega arith)))
  ]

  conn-after_reconnect :
      (r : Option Error × State)
      → ((after_reconnect amqp r).1.conn ≡ r.1.conn)
        × ((after_reconnect amqp r).1.open_conns ≡ r.1.open_conns)
  unfolding after_reconnect
  conn-after_reconnect (none, t) = (refl, refl)
  conn-after_reconnect (some x, t) = (refl, refl)

  conn-send :
      (c : Option ℕ) (e : Envelope) (s : State)
      → ((send amqp c e s).1.conn ≡ s.conn) × ((send amqp c e s).1.open_conns ≡ s.open_conns)
  unfolding send
  conn-send none e s = (refl, refl)
  conn-send (some c) e s = ground arith

  connected : ℕ → State → State
  connected n t = record t {
    conn = some n;
    channel = some n;
    open_conns = n ∷ t.open_conns;
    calls = t.calls + 1 + 1 + 1;
  }

  connect-connected :
      (t : State)
      → amqp.dials t.calls ≡ true
      → amqp.opens (t.calls + 1) ≡ true
      → amqp.declares (t.calls + 1 + 1) ≡ true
      → connect amqp t ≡ (none, connected t.calls t)
  unfolding connect connected
  connect-connected t d o x = rw (d, connect) (rw (o, connect) (rw (x, connect) refl))

  retry-leaks :
      (e : Envelope) (t : State) (c : ℕ)
      → OneOf (λ d. d ≡ c) t.open_conns
      → c < t.calls
      → amqp.dials t.calls ≡ true
      → amqp.opens (t.calls + 1) ≡ true
      → amqp.declares (t.calls + 1 + 1) ≡ true
      → OneOf (λ d. d ≡ c) (retry amqp e (connect amqp t)).1.open_conns
        × ((retry amqp e (connect amqp t)).1.conn ≢ some c)
  unfolding retry connected
  retry-leaks e t c m lt d o x =
      let (p, q) = conn-after_reconnect (send amqp (some t.calls) e (connected t.calls t)) in
      let (p', q') = conn-send (some t.calls) e (connected t.calls t) in
      rw (connect-connected t d o x) (
        subst (OneOf (λ d. d ≡ c)) (sym (q ∙ q')) (inr m),
        λ eq. let same : some t.calls ≡ some c = sym (p ∙ p') ∙ eq in absurd (ground arith),
      )

  -- After a publish that failed and a reconnect that succeeded, the publisher is on the new
  -- connection, and the one that it had before is neither closed nor held any more.
  pub publish-leaks_connection :
      (e : Envelope) (s : State) (c : ℕ)
      → s.conn ≡ some c
      → s.channel ≡ some c
      → OneOf (λ d. d ≡ c) s.open_conns
      → c < s.calls
      → amqp.publishes s.calls ≡ false
      → amqp.dials (s.calls + 1) ≡ true
      → amqp.opens (s.calls + 1 + 1) ≡ true
      → amqp.declares (s.calls + 1 + 1 + 1) ≡ true
      → OneOf (λ d. d ≡ c) (publish amqp e s).1.open_conns × ((publish amqp e s).1.conn ≢ some c)
  unfolding publish
  publish-leaks_connection e s c h h' m lt k d o x = elim (Bool-cases (amqp.writes s.calls)) [
    | inl y ↦ rw (h', publish) (rw (k, y, publish) (retry-leaks e _ c m (omega arith) d o x))
    | inr n ↦ rw (h', publish) (rw (k, n, publish) (retry-leaks e _ c m (omega arith) d o x))
  ]
