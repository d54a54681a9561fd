-- ===== src/Channels/Update.antt =====
-- UpdateChannelUseCase (src/private/domain/use-cases/channels/updateChannelUseCase.ts).
pub mod Levels
pub mod Execute
