-- ===== src/Tests.antt =====
-- Concrete runs: for each theorem that has conditions, an input at which they hold.
pub mod Fixtures
mod Service
mod Bus
mod Http
mod Racing
mod Processes
mod Connector
mod Edges
