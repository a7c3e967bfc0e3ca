-- ===== src/Events.antt =====
-- internal/events: the wire envelope, and the AMQP publisher and subscriber.
pub mod Envelope
pub mod Bus
pub mod Publisher
pub mod Connection
pub mod Subscriber
