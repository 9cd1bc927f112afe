-- ===== src/Events.antt =====
-- src/lib/events: the outbox that carries this service's events to the message broker.
pub mod Outbox
pub mod Drain
pub mod Consumer
