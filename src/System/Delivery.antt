-- ===== src/System/Delivery.antt =====
-- What becomes of the events of any sequence of operations.
use mathlib.Core.Path.{subst}
use soarcore.Common.{
  ℕ, ◌*◌, ◌≤◌, ◌≡◌, sym, false, none, List, [], ◌∷◌, ◌++◌, All, length, keep, arith,
}
use soarcore.World.{Env, OutboxRow, Db}
use soarcore.Persistence.Outbox.{NewOutboxRow, stored, push_outbox, is_unpublished}
use soarcore.Events.Bus.{Publisher}
use soarcore.Events.Envelope.{Envelope}
use soarcore.Events.Envelope.RoundTrip.{IsReadBack, decode-encode}
use soarcore.Relay.{State, batch, run}
use soarcore.Relay.Draining.{payloads, HoldsEnvelope, drain_once-payloads, IsSent, run_delivers}
use soarcore.Incident.Service.{create, patch}
use soarcore.Api.Router.{router}
use soarcore.System.{Step, creates, patches, serves, drains, Reach, here, after, initial}
use soarcore.System.Requests.{router-Grows}
use soarcore.System.Growth.{Grows, IsEncoded, push_all, create-Grows, patch-Grows}
use soarcore.System.Honesty.{Reach-IsHonest}

module _ (env : Env) (publisher : Publisher) (read_back : IsReadBack env) where
  abbrev AreEnvelopes : List OutboxRow → Type 0
  AreEnvelopes rows = All (HoldsEnvelope env publisher) (payloads rows)

  added :
      (rows : List OutboxRow) (r : OutboxRow)
      → AreEnvelopes rows
      → HoldsEnvelope env publisher r.payload
      → AreEnvelopes (rows ++ r ∷ [])
  added [] r h p = (p, tt)
  added (x ∷ rows) r (q, h) p = (q, added rows r h p)

  push_all-AreEnvelopes :
      (rows : List NewOutboxRow) (db : Db)
      → All (IsEncoded env) rows
      → AreEnvelopes db.outbox
      → AreEnvelopes (push_all rows db).outbox
  push_all-AreEnvelopes [] db encoded h = h
  push_all-AreEnvelopes (r ∷ rows) db ((e, form), encoded) h =
      push_all-AreEnvelopes rows (push_outbox r db) encoded (
        added db.outbox (stored db.next_outbox_id r) h
          (subst (HoldsEnvelope env publisher) (sym form) (e, decode-encode env read_back e)))

  Grows-AreEnvelopes :
      (before later : Db)
      → Grows env before later
      → AreEnvelopes before.outbox
      → AreEnvelopes later.outbox
  Grows-AreEnvelopes before later (rows, encoded, set, _) h =
      subst AreEnvelopes (sym set) (push_all-AreEnvelopes rows before encoded h)

  Step-AreEnvelopes :
      (s t : State publisher)
      → Step env publisher s t
      → AreEnvelopes s.world.db.outbox
      → AreEnvelopes t.world.db.outbox
  Step-AreEnvelopes s _ (creates service p tenant i corr) h =
      Grows-AreEnvelopes s.world.db (create env service p tenant i corr s.world).1.db
        (create-Grows env service p tenant i corr s.world) h
  Step-AreEnvelopes s _ (patches service p tenant id i corr) h =
      Grows-AreEnvelopes s.world.db (patch env service p tenant id i corr s.world).1.db
        (patch-Grows env service p tenant id i corr s.world) h
  Step-AreEnvelopes s _ (serves chi server r) h =
      Grows-AreEnvelopes s.world.db (router env chi server r s.world).1.db
        (router-Grows env chi server r s.world) h
  Step-AreEnvelopes s _ drains h =
      subst (All (HoldsEnvelope env publisher)) (sym (drain_once-payloads env publisher s)) h

  Reach-AreEnvelopes :
      (reads : ℕ) (bus : publisher.State) (t : State publisher)
      → Reach env publisher (initial env publisher reads bus) t
      → AreEnvelopes t.world.db.outbox
  Reach-AreEnvelopes reads bus _ here = tt
  Reach-AreEnvelopes reads bus _ (after t u r step) =
      Step-AreEnvelopes t u step (Reach-AreEnvelopes reads bus t r)

  -- No event stays behind: from empty tables, whatever operations have followed each other and whichever
  -- of their calls have failed, once no database call of the relay fails any more and the bus takes
  -- every envelope, as many passes as the waiting rows take at 100 a pass leave no row waiting, with
  -- the payloads as they were, and the envelope of every row of the outbox sent. UUIDs and times are
  -- read back as they are printed.
  pub Reach-delivers :
      (reads : ℕ) (bus : publisher.State) (t : State publisher) (n : ℕ)
      → Reach env publisher (initial env publisher reads bus) t
      → ((m : ℕ) → t.world.reads ≤ m → env.fails m ≡ false)
      → ((e : Envelope) (b : publisher.State) → (publisher.publish e b).0 ≡ none)
      → length (keep is_unpublished t.world.db.outbox) ≤ n * batch
      → (length (keep is_unpublished (run env publisher n t).world.db.outbox) ≡ 0)
        × (payloads (run env publisher n t).world.db.outbox ≡ payloads t.world.db.outbox)
        × All (IsSent env publisher (run env publisher n t)) (run env publisher n t).world.db.outbox
  Reach-delivers reads bus t n reached works up few =
      run_delivers env publisher t.world.reads works up n t (omega arith)
        (Reach-AreEnvelopes reads bus t reached) (Reach-IsHonest env publisher reads bus t reached)
        few
