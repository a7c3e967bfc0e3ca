-- ===== src/Persistence.antt =====
-- internal/persistence: transactions, and the statements on each table. SQL is a language of the
-- source; a statement is modelled by its effect on the rows and the constraints of migration 0001.
pub mod Pool
pub mod Incidents
pub mod Migrate
pub mod Connect
pub mod Outbox
pub mod Audit
pub mod Connectors
