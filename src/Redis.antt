-- ===== src/Redis.antt =====
-- vumi/persist/fake_redis.py, by the kind of value that an operation works on.
pub mod State
pub mod Keys
pub mod Texts
pub mod Hashes
pub mod Sets
pub mod Zset
pub mod Zsets
pub mod Lists
pub mod Effects
mod Tests
