-- ===== src/Startup.antt =====
-- The waits at start-up: WaitForDB (internal/persistence/pool.go), WaitForBroker
-- (internal/events/publisher.go) and waitForSubscriber (cmd/reference-connector/main.go) are the
-- same loop over a constructor. The delay between attempts is left out.
pub mod Attempts
use soarcore.Common.{ℕ, zero, suc, String, Option, none, some}
use soarcore.Errors.{Error, plain, wrapped, Result, ok, err}

-- "… unreachable after n attempts", around the last error where there was an attempt.
abbrev pub unreachable : String → Option Error → Error
unreachable what none = plain what
unreachable what (some e) = wrapped what e

module _ {ℓ} {A : Type ℓ} (what : String) (connect : ℕ → Result A) where
  -- The attempts from number `i` on, of which `n` are left.
  unfoldable pub attempt : ℕ → ℕ → Option Error → Result A
  attempt i zero last = err (unreachable what last)
  attempt i (suc n) last = elim (connect i) [ ok p ↦ ok p | err e ↦ attempt (suc i) n (some e) ]

  unfoldable pub wait_for : ℕ → Result A
  unfolding attempt
  wait_for attempts = attempt 0 attempts none

-- The three instances.
module _ {ℓ} {A : Type ℓ} (connect : ℕ → Result A) where
  abbrev pub wait_for_db : ℕ → Result A
  wait_for_db = wait_for "postgres unreachable" connect

  abbrev pub wait_for_broker : ℕ → Result A
  wait_for_broker = wait_for "amqp broker unreachable" connect

  abbrev pub wait_for_subscriber : ℕ → Result A
  wait_for_subscriber = wait_for "amqp broker unreachable" connect
