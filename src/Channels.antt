-- ===== src/Channels.antt =====
-- Channels: the entities (src/private/domain/entities/channels/channelEntity.ts), the translation of
-- roles and permissions to power levels
-- (src/private/data/channels/transformer/channelPowerLevelsTransformer.ts), and the update of a
-- channel's permissions (src/private/domain/use-cases/channels/updateChannelUseCase.ts).
pub mod Entities
pub mod PowerLevels
pub mod Create
pub mod Update
