-- ===== src/ConnectorRuntime/Heartbeats.antt =====
-- What a heartbeat of a connector does to its row.
use mathlib.Core.Option
use soarcore.Common.{
  String, ◌≡◌, inl, inr, refl, ap, ◌∙◌, some, List, [], ◌∷◌, arith, str_eq, Bool-cases,
  Option-cases,
}
use soarcore.Errors.{ok}
use soarcore.World.{Env, World, Time, ConnectorRow, tick}
use soarcore.Persistence.Connectors.{find_connector, heartbeat_rows, heartbeat-eq-ok}
use soarcore.ConnectorRuntime.{heartbeat}

abbrev pub beaten : Time → ConnectorRow → ConnectorRow
beaten at r = record r { last_heartbeat_at = some at; status = "active" }

find_connector-heartbeat_rows :
    (id : String) (at : Time) (rows : List ConnectorRow)
    → find_connector id (heartbeat_rows id at rows)
      ≡ Option.map (beaten at) (find_connector id rows)
unfolding find_connector heartbeat_rows
find_connector-heartbeat_rows id at [] = refl
find_connector-heartbeat_rows id at (r ∷ rows) = elim (Bool-cases (str_eq r.id id)) [
  | inl y ↦ rw (y, find_connector, heartbeat_rows) (rw y refl)
  | inr n ↦ rw (n, find_connector, heartbeat_rows) (rw n (find_connector-heartbeat_rows id at rows))
]

-- A heartbeat that succeeds has found the connector, and leaves its row active, with the time of
-- the heartbeat and all else as it was.
pub heartbeat-beaten :
    (env : Env) (id : String) (w : World) {u : Unit {0}} {w' : World}
    → heartbeat env id w ≡ (ok u, w')
    → (old : ConnectorRow) × (find_connector id w.db.connectors ≡ some old)
      × (find_connector id w'.db.connectors ≡ some (beaten (env.now w.reads) old))
unfolding heartbeat
heartbeat-beaten env id w {u} {w'} h =
    let at = env.now w.reads in
    let (there, set) = heartbeat-eq-ok env id at (tick w) h in
    let after =
      ap (λ b. find_connector id b.connectors) set
      ∙ find_connector-heartbeat_rows id at w.db.connectors in
    elim (Option-cases (find_connector id w.db.connectors)) [
      | inl n ↦ absurd (ground (arith, rw n at there))
      | inr (old, y) ↦ (old, y, after ∙ ap (Option.map (beaten at)) y)
    ]
