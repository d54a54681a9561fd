-- ===== src/Notifications.antt =====
-- Push rules: DefaultNotificationService
-- (src/private/data/notification/defaultNotificationService.ts) and the push rule methods of
-- MatrixClientManager (src/private/data/common/matrixClientManager.ts).
pub mod Rules
pub mod Settings
