-- ===== src/Heartbeat.antt =====
-- vumi/blinkenlights/heartbeat: the monitor that counts the processes of each worker that check in
-- between two audits, and keeps the issues of the workers with too few in the store. Times are
-- whole seconds. JSON is a parameter.
pub mod Storage
pub mod Worker
pub mod Monitor
pub mod Checkins
pub mod Issues
pub mod Places
pub mod Syncing
pub mod Beats
pub mod Periods
pub mod Auditing
pub mod Hosts
mod Tests
