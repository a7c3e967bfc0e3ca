-- ===== src/Events/Bus.antt =====
-- What the relay asks of a publisher: the interface `publisher` of internal/outbox/relay.go, with
-- the promise that its at-least-once sending rests on.
use soarcore.Common.{ℕ, zero, suc, ◌≡◌, ◌<◌, Option, none, List, [], ◌∷◌, ◌++◌}
use soarcore.Errors.{Error}
use soarcore.Events.Envelope.{Envelope}

abbrev pub copies {ℓ} : {A : Type ℓ} → ℕ → A → List A
copies zero a = []
copies (suc k) a = a ∷ copies k a

-- `sent` is what has been handed to the broker's connection, oldest first; whether the broker takes it
-- from there is not confirmed. A publish that fails may have been handed over all the same, and one
-- that succeeds may have been so more than once.
pub record Publisher : Type 1 where
  pub State : Type 0
  pub publish : Envelope → State → Option Error × State
  pub sent : State → List Envelope
  pub hands_over :
      (e : Envelope) (s : State)
      → (k : ℕ) × (sent (publish e s).1 ≡ sent s ++ copies k e) × ((publish e s).0 ≡ none → 0 < k)
