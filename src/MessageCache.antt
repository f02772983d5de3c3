-- ===== src/MessageCache.antt =====
-- vumi/components/message_store_cache.py: what is remembered in the store about the messages and
-- events of a batch.
pub mod Keys
pub mod Counters
pub mod Messages
pub mod Queries
pub mod Truncation
mod Tests
pub mod Distinct
pub mod Counting
pub mod Switch
