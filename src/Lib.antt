-- ===== src/Lib.antt =====
-- SOARcore: the core of a SOAR platform, verified. Incidents are created and patched over HTTP; each
-- change writes the incident, an audit row and its events into an outbox in one transaction; a relay
-- drains the outbox to an AMQP exchange; connectors subscribe, and answer over HTTP.
--
-- The parts, by file:
--   * Incident (internal/domain/incident/incident.go): the status machine. Incident/Machine states
--     it as a step relation: the edges that context/data_model.md draws, and the one that it lacks.
--   * Incident/Input, Incident/Rows, Incident/Service (internal/domain/incident/service.go): the
--     inputs and the plan of a patch, the conversions to rows and JSON, and Create, Patch, Get and
--     List. Incident/Transitions and Incident/Service/* hold their theorems. Incident/Service/Race
--     splits the transaction of Patch at its first write, for two patches that overlap.
--   * World, Persistence (internal/persistence, migrations/0001_init.up.sql): the four tables as
--     lists of rows, the repositories and WithTx. A statement may fail, may be refused by a
--     constraint, or takes effect; a COMMIT whose call fails may have taken effect. The times of an
--     incident go through `stored` into their columns. Persistence/Connect is NewPool, WaitForDB and Close,
--     Persistence/Migrate the migration runner.
--   * Audit (internal/audit/audit.go), Auth (internal/auth/auth.go), Schema
--     (internal/schemaregistry/registry.go). Auth/Callers says who the middleware lets through.
--   * Events (internal/events): the envelope and its JSON form, the publisher with its reconnect,
--     the subscriber's connection (Events/Connection) and its loop. Events/Bus is the interface that
--     the relay asks of a publisher, and Events/Publisher/Delivery fills it.
--   * Relay (internal/outbox/relay.go): one batch and the ticks. Relay/Draining follows passes in
--     which nothing fails, System/Delivery from any state that the system reaches.
--   * Api (internal/api): the handlers and the error table; Api/Router is the route table behind the
--     middleware, the health check and the request log (internal/api/server.go).
--   * System: creates, patches, HTTP requests and passes of the relay as the steps of one system.
--     System/Growth and System/Incidents say what a step does to the outbox and to the incidents.
--   * ConnectorRuntime (internal/connectorruntime/runtime.go).
--   * ReferenceConnector (cmd/reference-connector/main.go): the handler of an envelope. Client is the
--     HTTP client, Main the process, and Core, EndToEnd, Enriching and Registering put the client and
--     the handler before the router of the core.
--   * CoreMain (cmd/core/main.go), SmokeConsumer (cmd/smoke-consumer/main.go): the other processes.
--   * Startup (the wait loops of internal/persistence/pool.go, internal/events/publisher.go and
--     cmd/reference-connector/main.go), Config (internal/config/config.go).
--   * Common, Numbers, Json, Errors: lists, Go's integers, JSON documents and their decoding,
--     Go's error values. Tests: a concrete run for each theorem that has conditions.
--
-- How the code is read. An operation is a function from a world to a result and a world: `World` is
-- the database and the number of readings taken from outside; `Env` says what each reading gives
-- (a new UUID, the time, whether a database call fails, whether a failed COMMIT landed), so a theorem for every `Env` holds for
-- every failure. `Result` is Go's (value, error) pair, `Error` keeps what errors.Is sees. A pointer,
-- a nil slice and a nil map are options. Severities and statuses are any texts, as in Go. A UUID
-- and a time are numbers, with their printers and parsers in `Env`. A loop of the code is a
-- structural recursion: over the rows or entries that are there when it starts, over the signals
-- that the subscriber sees, over the attempts of a wait. `run` of the relay takes the number of
-- ticks, and its theorems hold for each number. A running connector is a list of turns: the signals
-- of its subscription and the ticks of its heartbeat, in the order in which they happen.
--
-- Parameters: the AMQP client (whether each call succeeds, and whether a publish that fails had been
-- written; `sent` is what was written to the connection, since the code asks for no confirms, and
-- what the broker does with it is outside), the calls of a subscriber on its channel, pgxpool, golang-migrate over a state of its own, the JSON schema compiler,
-- google/uuid and the printing of times, chi's matching of a path against a pattern, and net/http
-- between the connector and the core (any state and any answers; for the run end to end, the router
-- behind a rendering of its responses). Outside Incident/Service/Race two operations are modelled as
-- one after the other. Rows with the same time keep the table's order in an ORDER BY. JSON keys are
-- compared exactly and the first of equal keys counts, where encoding/json also takes a key that
-- differs in case, and the last of equal ones. Only the incident's times lose precision on their way
-- into the table; the other tables keep theirs, and a List's bounds are compared, as they are given.
--
-- Not modelled: the sinks of the log, delays and deadlines (a deadline that passes is a call that
-- fails), the bound on the shutdown of the core and its deferred closes, panics in a handler.
pub mod Common
pub mod Json
pub mod Numbers
pub mod Errors
pub mod World
pub mod Persistence
pub mod Auth
pub mod Audit
pub mod Events
pub mod Schema
pub mod Incident
pub mod Relay
pub mod ConnectorRuntime
pub mod ReferenceConnector
pub mod SmokeConsumer
pub mod CoreMain
pub mod Api
pub mod Tests
pub mod System
pub mod Startup
pub mod Config
