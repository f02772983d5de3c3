-- ===== src/Smpp.antt =====
-- vumi/transports/smpp: what the transport remembers about the messages that it sent in the store,
-- when it sends their events, and how it slows down. The wire protocol is not modelled.
pub mod Stash
pub mod Sequence
pub mod Transport
pub mod Multipart
pub mod Single
pub mod Events
pub mod Rollover
pub mod Throttling
pub mod Drain
mod Tests
