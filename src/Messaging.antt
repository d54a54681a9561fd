-- ===== src/Messaging.antt =====
-- Messages (src/private/data/common/matrixClientManager.ts and src/private/data/messaging).
pub mod Pins
pub mod Polls
pub mod PollEvents
pub mod Reactions
pub mod Content
pub mod Media
pub mod Transformer
pub mod Timeline
pub mod Summaries
pub mod Sending
pub mod Edits
pub mod Reading
pub mod ReadMarkers
pub mod Search
