-- ===== src/System.antt =====
-- The service and the relay on one database: every sequence of their operations.
pub mod Growth
pub mod Requests
pub mod Incidents
pub mod Life
pub mod Sound
pub mod Honesty
pub mod Delivery
use soarcore.Common.{ℕ}
use soarcore.Auth.{Principal}
use soarcore.World.{Env, Uuid, World, empty_db}
use soarcore.Events.Bus.{Publisher}
use soarcore.Incident.Input.{CreateInput, PatchInput}
use soarcore.Incident.Service.{Service, create, patch}
use soarcore.Api.Router.{Chi, Request, Server, router}
use soarcore.Relay.{State, drain_once}

module _ (env : Env) (publisher : Publisher) where
  -- The world moves, the bus stays.
  abbrev pub in_world : World → State publisher → State publisher
  in_world w s = record s { world = w }

  -- One operation: a call of the service by any caller, which may fail, an HTTP request to a server
  -- with any route matching, service and registries, or a pass of the relay.
  pub data Step (s : State publisher) : State publisher → Type 0 where
    creates :
        (service : Service) (p : Principal) (tenant : Uuid) (i : CreateInput) (corr : Uuid)
        → Step s (in_world (create env service p tenant i corr s.world).1 s)
    patches :
        (service : Service) (p : Principal) (tenant id : Uuid) (i : PatchInput) (corr : Uuid)
        → Step s (in_world (patch env service p tenant id i corr s.world).1 s)
    serves :
        (chi : Chi) (server : Server) (r : Request)
        → Step s (in_world (router env chi server r s.world).1 s)
    drains : Step s (drain_once env publisher s).1

  -- The states after any number of operations from one.
  pub data Reach (s : State publisher) : State publisher → Type 0 where
    here : Reach s s
    after : (t u : State publisher) → Reach s t → Step t u → Reach s u

  -- Empty tables, and whatever the bus is.
  abbrev pub initial : ℕ → publisher.State → State publisher
  initial reads bus = record { world = record { db = empty_db; reads = reads }; bus = bus }
