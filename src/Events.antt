-- ===== src/Events.antt =====
-- Wide events (stormpulse/events.py): the bounded buffer, and the registry that admits an event.
pub mod Buffer
pub mod Admit
pub mod Walk
pub mod Spool
