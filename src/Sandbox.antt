-- ===== src/Sandbox.antt =====
-- vumi/application/sandbox.py: a sandboxed process writes requests, one on each line, which the
-- resources of the sandbox answer. Protocol reads the lines, Api hands the requests on, and Kv is the
-- resource that keeps keys.
pub mod Protocol
pub mod Api
pub mod Kv
pub mod Lines
pub mod Quota
pub mod Answers
pub mod Limits
pub mod Requests
mod Tests
