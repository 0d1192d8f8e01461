-- ===== src/Events.antt =====
-- The events: internal/domain/events.go, internal/infrastructure/messaging, the notification service
-- and the worker.
pub mod Event
pub mod Streams
pub mod Publisher
pub mod Notification
pub mod Subscriber
pub mod Worker
