-- ===== src/Groups.antt =====
-- Groups: the entities (src/private/domain/entities/groups/groupEntity.ts), the translation of roles
-- and permissions (src/private/data/groups/transformer/), and the use cases that create, update and
-- delete a group (src/private/domain/use-cases/groups/).
pub mod Entities
pub mod Roles
pub mod Create
pub mod Update
pub mod Delete
