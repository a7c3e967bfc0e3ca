-- ===== src/Relay.antt =====
-- internal/outbox/relay.go: the relay that drains the outbox to the bus. It runs beside the
-- service; each of its database calls is a step of its own on the shared database.
pub mod Order
pub mod Table
pub mod Incidents
pub mod Honesty
pub mod Progress
pub mod Waiting
pub mod Draining
use soarcore.Common.{ℕ, zero, suc, Option, none, some, List, [], ◌∷◌}
use soarcore.Common.Int.{pos}
use soarcore.Errors.{Error, wrapped, Result, ok, err}
use soarcore.Events.Envelope.{Envelope, decode}
use soarcore.Events.Bus.{Publisher}
use soarcore.World.{Env, World, OutboxRow, tick}
use soarcore.Persistence.Outbox.{fetch_unpublished, mark_published}

-- `newRelay`: 100-row batches. (The interval only paces the ticks.)
abbrev pub batch : ℕ
batch = 100

module _ (publisher : Publisher) where
  pub record State : Type 0 where
    pub world : World
    pub bus : publisher.State

  -- Whether the loop over the batch goes on after a row.
  pub data Flow : Type 0 where
    go : State → Flow
    stop : State → Flow

module _ (env : Env) (publisher : Publisher) where
  -- After a publish: an error stops the batch; else the row is marked, and a failure of that is
  -- only logged.
  after_publish : OutboxRow → World → Option Error × publisher.State → Flow publisher
  after_publish row w (some e, bus) = stop (record { world = w; bus = bus })
  after_publish row w (none, bus) =
      go (record { world = (mark_published env row.id (env.now w.reads) (tick w)).1; bus = bus })

  -- One row; a payload that is no envelope is skipped.
  drain_decoded : OutboxRow → State publisher → Option Envelope → Flow publisher
  drain_decoded row s none = go s
  drain_decoded row s (some e) = after_publish row s.world (publisher.publish e s.bus)

  unfoldable pub drain_row : OutboxRow → State publisher → Flow publisher
  unfolding drain_decoded after_publish
  drain_row row s = drain_decoded row s (decode env row.payload)

  unfoldable pub drain_rows : List OutboxRow → State publisher → State publisher
  drain_rows [] s = s
  drain_rows (row ∷ rows) s = elim (drain_row row s) [ go t ↦ drain_rows rows t | stop t ↦ t ]

  drain_fetched : publisher.State → Result (List OutboxRow) × World → Option Error × State publisher
  drain_fetched bus (err e, w) = (some (wrapped "fetch" e), record { world = w; bus = bus })
  drain_fetched bus (ok rows, w) = (none, drain_rows rows (record { world = w; bus = bus }))

  -- `drainOnce`
  unfoldable pub drain_once : State publisher → Option Error × State publisher
  unfolding drain_fetched
  drain_once s = drain_fetched s.bus (fetch_unpublished env (pos batch) s.world)

  -- The ticks of `Run` until its context is cancelled; an error of a tick is only logged.
  unfoldable pub run : ℕ → State publisher → State publisher
  run zero s = s
  run (suc n) s = run n (drain_once s).1
