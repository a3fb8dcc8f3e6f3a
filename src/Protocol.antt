-- ===== src/Protocol.antt =====
-- The wire protocol (stormpulse/protocol/): message types, the envelope and its parser, the decoder
-- that checks a payload against its declared fields, and command results.
pub mod Reasons
pub mod Messages
pub mod Results
pub mod Codec
pub mod Envelope
mod Tests
