-- ===== src/Events/Publisher/Delivery.antt =====
-- What is written to the broker's connection: the promise of the publisher's interface.
use soarcore.Common.{
  ℕ, zero, suc, ◌+◌, ◌<◌, ◌≡◌, inl, inr, refl, sym, ap, ◌∙◌, Option, none, some, ◌∷◌, ◌++◌, arith,
  Bool-cases,
}
use mathlib.Core.List.{append-nil}
use mathlib.Core.List.{append_assoc}
use soarcore.Errors.{Error}
use soarcore.Events.Envelope.{Envelope}
use soarcore.Events.Bus.{copies, Publisher}
use soarcore.Events.Publisher.{
  Amqp, State, connect, send, after_reconnect, retry, first_try, publish,
}

module _ (amqp : Amqp) where
  -- How often one call of `send` has written its envelope.
  Sends : Envelope → State → Option Error × State → Type 0
  Sends e s r = (k : ℕ) × (r.1.sent ≡ s.sent ++ copies k e) × (r.0 ≡ none → 0 < k)

  send-Sends : (c : Option ℕ) (e : Envelope) (s : State) → Sends e s (send amqp c e s)
  unfolding send Sends
  send-Sends none e s = (0, rw append-nil, λ h. absurd (ground arith))
  send-Sends (some c) e s = elim (Bool-cases (amqp.publishes s.calls)) [
    | inl y ↦ rw y (1, refl, λ h. omega arith)
    | inr n ↦ elim (Bool-cases (amqp.writes s.calls)) [
      | inl y ↦ rw (n, y) (1, refl, λ h. absurd (ground arith))
      | inr m ↦ rw (n, m) (0, rw append-nil, λ h. absurd (ground arith))
    ]
  ]

  -- Connecting writes nothing.
  sent-connect : (s : State) → (connect amqp s).1.sent ≡ s.sent
  unfolding connect
  sent-connect s = ground arith

  nil_add : (j : ℕ) → zero + j ≡ j
  nil_add j = omega arith

  suc_add : (k j : ℕ) → suc k + j ≡ suc (k + j)
  suc_add k j = omega arith

  copies-append : (k j : ℕ) (e : Envelope) → copies k e ++ copies j e ≡ copies (k + j) e
  copies-append zero j e = rw (nil_add j)
  copies-append (suc k) j e = rw (suc_add k j) (ap (◌∷◌ e) (copies-append k j e))

  Sends-trans :
      (e : Envelope) (s t : State) (r : Option Error × State) (k : ℕ)
      → t.sent ≡ s.sent ++ copies k e
      → Sends e t r
      → Sends e s r
  unfolding Sends
  Sends-trans e s t r k h (j, eq, pos) = (
    k + j,
    eq
        ∙ (ap (λ l. l ++ copies j e) h
            ∙ (append_assoc s.sent (copies k e) (copies j e)
                ∙ ap (◌++◌ s.sent) (copies-append k j e))),
    λ ok. let p = pos ok in omega arith,
  )

  after_reconnect-Sends :
      (e : Envelope) (s : State) (r : Option Error × State)
      → Sends e s r
      → Sends e s (after_reconnect amqp r)
  unfolding Sends after_reconnect
  after_reconnect-Sends e s (none, t) h = h
  after_reconnect-Sends e s (some x, t) (k, eq, pos) = (k, eq, λ h. absurd (ground arith))

  retry-Sends :
      (e : Envelope) (s : State) (r : Option Error × State)
      → r.1.sent ≡ s.sent
      → Sends e s (retry amqp e r)
  unfolding Sends retry
  retry-Sends e s (some x, t) h = (0, h ∙ sym (append-nil s.sent), λ h. absurd (ground arith))
  retry-Sends e s (none, t) h =
      Sends-trans e s t (after_reconnect amqp (send amqp t.channel e t)) 0
        (h ∙ sym (append-nil s.sent)) (after_reconnect-Sends e t _ (send-Sends t.channel e t))

  first_try-Sends :
      (e : Envelope) (s : State) (r : Option Error × State)
      → Sends e s r
      → Sends e s (first_try amqp e r)
  unfolding first_try Sends
  first_try-Sends e s (none, t) h = h
  first_try-Sends e s (some x, t) (k, eq, pos) =
      Sends-trans e s t (retry amqp e (connect amqp t)) k eq
        (retry-Sends e t (connect amqp t) (sent-connect t))

  -- The AMQP publisher keeps the promise of the interface: whatever the broker does, a publish adds
  -- only copies of its envelope to what was written to the connection, and at least one where it
  -- reports success; that the broker has taken it is not confirmed.
  pub publish-Sends :
      (e : Envelope) (s : State)
      → (k : ℕ) × ((publish amqp e s).1.sent ≡ s.sent ++ copies k e)
        × ((publish amqp e s).0 ≡ none → 0 < k)
  unfolding publish Sends
  publish-Sends e s = first_try-Sends e s _ (send-Sends s.channel e s)

  abbrev pub publisher : Publisher
  publisher = record {
    State = State;
    publish = publish amqp;
    sent = λ s. s.sent;
    hands_over = publish-Sends;
  }
