-- ===== src/Handles.antt =====
-- Handles: DefaultHandleService (src/private/data/handle/), the service of their sessions
-- (src/private/data/session/defaultSessionService.ts), and the use cases
-- (src/private/domain/use-cases/handles/) that tie a handle to its session.
pub mod Entities
pub mod Service
pub mod UseCases
