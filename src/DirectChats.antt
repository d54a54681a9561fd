-- ===== src/DirectChats.antt =====
-- Direct chats: the account data `m.direct`, which lists the direct chats with each user, and
-- MatrixDirectChatsService (src/private/data/directChats/matrixDirectChatsService.ts).
pub mod Lists
pub mod Client
pub mod Service
