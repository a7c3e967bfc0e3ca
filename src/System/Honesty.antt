-- ===== src/System/Honesty.antt =====
-- No event is marked before it is sent: over every sequence of operations, a row marked published has
-- been sent.
use mathlib.Core.Path.{subst, subst₂}
use soarcore.Common.{
  ℕ, ◌+◌, ◌<◌, ◌≡◌, inl, inr, refl, sym, false, some, List, [], ◌∷◌, ◌++◌, arith, ◌==◌, ==_refl,
  Bool-cases, All, All-append, All-map,
}
use soarcore.Json.{Json}
use soarcore.World.{Env, World, Db, OutboxRow}
use soarcore.Persistence.Outbox.{NewOutboxRow, stored, push_outbox}
use soarcore.Events.Envelope.{Envelope}
use soarcore.Events.Bus.{Publisher}
use soarcore.Relay.{State}
use soarcore.Relay.Table.{payload_at, IsAt, IsFresh}
use soarcore.Relay.Honesty.{IsHonest, IsHonestRow, drain_once-IsHonest}
use soarcore.System.{Step, creates, patches, serves, drains, Reach, here, after, in_world, initial}
use soarcore.System.Requests.{router-Grows}
use soarcore.System.Growth.{Grows, push_all, create-Grows, patch-Grows}

-- An id that is found is found in a longer table; one that is new is found where it is added.
payload_at-append :
    (id : ℕ) (rows more : List OutboxRow) (j : Json)
    → payload_at id rows ≡ some j
    → payload_at id (rows ++ more) ≡ some j
unfolding payload_at
payload_at-append id [] more j h = absurd (ground arith)
payload_at-append id (r ∷ rows) more j h = elim (Bool-cases (r.id == id)) [
  | inl y ↦ rw (y, payload_at) (rw (y, payload_at) at h)
  | inr n ↦ rw (n, payload_at) (payload_at-append id rows more j (rw (n, payload_at) at h))
]

payload_at_last :
    (r : OutboxRow) (rows : List OutboxRow)
    → All (λ x. x.id < r.id) rows
    → payload_at r.id (rows ++ r ∷ []) ≡ some r.payload
unfolding payload_at
payload_at_last r [] h = rw (==_refl r.id) refl
payload_at_last r (x ∷ rows) (p, h) =
    let other : (x.id == r.id) ≡ false = ground arith in
    rw (other, payload_at) (payload_at_last r rows h)

module _ (env : Env) (publisher : Publisher) where
  -- What the invariant says of a database, for what was sent.
  abbrev Sound : List Envelope → Db → Type 0
  Sound sent db =
      IsFresh db × All (IsAt db.outbox) db.outbox × All (IsHonestRow env publisher sent) db.outbox

  push_outbox-Sound :
      (sent : List Envelope) (r : NewOutboxRow) (db : Db)
      → Sound sent db
      → Sound sent (push_outbox r db)
  push_outbox-Sound sent r db (fresh, keyed, honest) =
      let row = stored db.next_outbox_id r in
      (
        All-append _ db.outbox (row ∷ [])
            (All-map (λ (x : OutboxRow). x.id < db.next_outbox_id)
              (λ (x : OutboxRow). x.id < db.next_outbox_id + 1) (λ x p. omega arith) db.outbox
              fresh)
            (omega arith, tt),
        All-append _ db.outbox (row ∷ [])
            (All-map (IsAt db.outbox) (IsAt (db.outbox ++ row ∷ []))
              (λ x p. payload_at-append x.id db.outbox (row ∷ []) x.payload p) db.outbox keyed)
            (payload_at_last row db.outbox fresh, tt),
        All-append _ db.outbox (row ∷ []) honest (inl refl, tt),
      )

  push_all-Sound :
      (sent : List Envelope) (rows : List NewOutboxRow) (db : Db)
      → Sound sent db
      → Sound sent (push_all rows db)
  push_all-Sound sent [] db h = h
  push_all-Sound sent (r ∷ rows) db h =
      push_all-Sound sent rows (push_outbox r db) (push_outbox-Sound sent r db h)

  -- An operation of the service keeps the invariant.
  Grows-IsHonest :
      (s : State publisher) (w : World)
      → Grows env s.world.db w.db
      → IsHonest env publisher s
      → IsHonest env publisher (in_world env publisher w s)
  Grows-IsHonest s w (rows, _, o, n) h =
      let sent = publisher.sent s.bus in
      let (fresh, keyed, honest) =
        push_all-Sound sent rows s.world.db (h.fresh, h.keyed, h.honest) in
      record {
        fresh = subst₂ (λ next l. All (λ (r : OutboxRow). r.id < next) l) (sym n) (sym o) fresh;
        keyed = subst (λ l. All (IsAt l) l) (sym o) keyed;
        honest = subst (All (IsHonestRow env publisher sent)) (sym o) honest;
      }

  pub Step-IsHonest :
      (s t : State publisher)
      → Step env publisher s t
      → IsHonest env publisher s
      → IsHonest env publisher t
  Step-IsHonest s _ (creates service p tenant i corr) h =
      Grows-IsHonest s _ (create-Grows env service p tenant i corr s.world) h
  Step-IsHonest s _ (patches service p tenant id i corr) h =
      Grows-IsHonest s _ (patch-Grows env service p tenant id i corr s.world) h
  Step-IsHonest s _ (serves chi server r) h =
      Grows-IsHonest s _ (router-Grows env chi server r s.world) h
  Step-IsHonest s _ drains h = drain_once-IsHonest env publisher s h

  -- From empty tables, whatever creates, patches, HTTP requests and passes of the relay have followed
  -- each other, and whichever of their database calls and publishes have failed: the ids of the
  -- outbox come from the sequence and find their rows, and a row that is marked published holds an
  -- envelope that has been sent.
  pub Reach-IsHonest :
      (reads : ℕ) (bus : publisher.State) (t : State publisher)
      → Reach env publisher (initial env publisher reads bus) t
      → IsHonest env publisher t
  Reach-IsHonest reads bus _ here = record { fresh = tt; keyed = tt; honest = tt }
  Reach-IsHonest reads bus _ (after t u r step) =
      Step-IsHonest t u step (Reach-IsHonest reads bus t r)
