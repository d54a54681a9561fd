-- ===== src/Rooms.antt =====
-- Rooms: the entities (src/private/domain/entities/rooms/, src/private/domain/entities/common/), the
-- matrix-js-sdk client that the room code calls, the wrappers of MatrixClientManager
-- (src/private/data/common/matrixClientManager.ts) and MatrixRoomsService
-- (src/private/data/rooms/matrixRoomsService.ts).
pub mod Entities
pub mod Sdk
pub mod Levels
pub mod Manager
pub mod Members
pub mod Service
pub mod Authority
