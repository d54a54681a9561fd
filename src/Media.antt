-- ===== src/Media.antt =====
-- Media credentials and files in S3 (src/private/domain/entities/media, src/private/data/media and
-- src/private/domain/use-cases/media).
pub mod Entities
pub mod Credentials
pub mod Files
pub mod Download
