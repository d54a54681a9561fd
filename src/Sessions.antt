-- ===== src/Sessions.antt =====
-- SessionManager (src/private/data/session/sessionManager.ts): the sessions of the handles, their access
-- tokens, and the timers that refresh the tokens.
pub mod State
pub mod Invariant
pub mod Tokens
pub mod Delete
pub mod Refresh
pub mod Ensure
pub mod Reset
pub mod Runs
pub mod Queue
