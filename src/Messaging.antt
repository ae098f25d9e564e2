-- ===== src/Messaging.antt =====
-- src/messaging: the order.placed event, its outbox relay and its consumer.
pub mod Event
pub mod Effects
pub mod Relay
pub mod Transient
pub mod Consumer
