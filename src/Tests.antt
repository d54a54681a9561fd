-- ===== src/Tests.antt =====
-- The theorems at concrete inputs.
mod Samples
mod Sessions
mod Rooms
mod Channels
mod Groups
mod Settings
mod Messaging
mod Chats
mod Files
mod Handles
mod Markers
