-- ===== src/Lib.antt =====
-- sudo-secure-communications-js: handles, channels, groups, direct chats, blocking, media,
-- messages and notifications on top of a Matrix homeserver. This library models the part of it that
-- decides something: sessions and their timers, rooms and power levels, the use cases on channels
-- and groups, direct chats, blocking, messages, the cache of media credentials, and notification
-- settings.
--
-- The program. A public module (src/public/modules) builds a use case
-- (src/private/domain/use-cases) and calls it. A use case checks the words of its input, asks
-- SessionManager for the MatrixClientManager of a handle, and works on the homeserver through a
-- service such as MatrixRoomsService (src/private/data). MatrixClientManager wraps matrix-js-sdk's
-- client.
--
-- The model. An asynchronous method is an action `Exec S A`: a function of a state `S` to a
-- result, which is a value or the error that is thrown, and the state that is left (Exec). What an
-- action has changed before it throws stays changed. Code that is not in the repository is a
-- record of actions on `S`: matrix-js-sdk's client (Rooms/Sdk, Notifications/Rules, Messaging), and
-- the clock, the tokens and the storage of SessionManager (Sessions/State). What a theorem needs of
-- it is a hypothesis of the theorem (StoresIgnored, StoresRules, StoresPinned, KeepsDirect,
-- FiniteHistory, KeepsIds, KeepsDelays, StoresObjects, StoresMark). Ids are texts, power levels are
-- integers, times are natural numbers, and objects that are compared by identity have an address.
--
-- Prelude: the shared names, lists, dictionaries and integers.
-- Exec, Errors: actions, error classes; src/private/data/common/transformer/errorTransformer.ts.
-- Ids: src/private/util/id.ts.
-- Sessions: src/private/data/session/sessionManager.ts. State has the sessions, the timers and the
--   outside; Tokens decodes tokens and schedules their refresh (decodeToken, isTokenExpired,
--   isTokenExpiringSoon, scheduleTokenRefresh); Delete is deleteSession; Refresh is
--   tryUseCachedSession and what it calls; Ensure is ensureValidSession, createNewSession and
--   getMatrixClient; Reset is reset; Runs are sequences of whole calls and of timers that fire. Queue is
--   runSessionWorkSerialized: the calls for one handle wait for each other, so each is one action;
--   its steps are those of the event loop, and Queue/Line is what it promises.
-- Rooms: src/private/data/rooms/matrixRoomsService.ts (Members, Service, Levels, Authority) on the
--   wrappers of src/private/data/common/matrixClientManager.ts (Manager), and
--   src/private/domain/entities/rooms (Entities).
-- Words: the check of words that the use cases begin with.
-- Api: src/private/data/common/apiClient.ts (Requests: those for handles and sessions).
-- Handles: src/private/data/handle and src/private/data/session (Service), the GraphQL types and
--   entities (Entities), and src/private/domain/use-cases/handles (UseCases).
-- Channels: src/private/domain/entities/channels, src/private/data/channels/transformer
--   (PowerLevels), and the use cases createChannelUseCase.ts (Create) and updateChannelUseCase.ts
--   (Update).
-- Groups: src/private/domain/entities/groups, src/private/data/groups/transformer (Roles), and the
--   use cases createGroupUseCase.ts, updateGroupUseCase.ts and deleteGroupUseCase.ts (Create,
--   Update, Delete).
-- Blocking: the blocking of handles of src/private/data/directChats/matrixDirectChatsService.ts.
-- DirectChats: the rest of that file (Service), on createDirectChat and joinDirectChat of
--   matrixClientManager.ts (Client), which keep the account data m.direct (Lists).
-- Media: src/private/data/media/mediaCredentialManager.ts (Credentials), and the files in S3 of
--   matrixMediaService.ts beside it, s3Client.ts of src/private/data/common and
--   src/private/util/mediaUtil.ts (Files); the use case downloadMediaFileUseCase.ts (Download).
-- Notifications: the settings of src/private/data/notification/defaultNotificationService.ts
--   (Settings) on the push rules of matrixClientManager.ts (Rules).
-- Messaging: pinUnpinMessage (Pins), getPollResponses (Polls), the other methods on polls
--   (PollEvents), searchMessages (Search), markAsUnread, sendReadReceipt and
--   sendTypingNotification (ReadMarkers), getReactions and toggleReaction (Reactions),
--   listMessages (Timeline) and getChatSummaries (Summaries) of
--   matrixClientManager.ts; src/private/data/messaging/transformer/messageTransformer.ts (Content,
--   Media, Transformer); and src/private/data/messaging/matrixMessagingService.ts: messages that are
--   sent (Sending), how edits are applied (Edits), and get, list and getPinnedMessages (Reading).
-- Tests: concrete parameters, and the theorems at concrete inputs.
--
-- The loop over the pages of responses to a poll takes as fuel the number of pages that it may
-- read; as much as the server has pages is enough (Messaging/Polls/Pages). The loop of listMessages
-- takes the number of its requests; more than the history has pages is enough
-- (Messaging/Timeline/Pages). Every other function is structurally recursive. Arithmetic is
-- unbounded, as the numbers stay far below the 2^53 up to which JavaScript's are exact. Logging and
-- delays are left out.
--
-- Rooms, members and events of matrix-js-sdk are taken as they are when the code reads them first,
-- although the SDK may change its objects while the code waits.
--
-- Not modelled: sending media, key backup and verification, thumbnails, the stores in IndexedDB, and
-- the services of channels and media credentials, which are calls of other systems with little
-- between them; the public modules, which convert types; generated code. The steps of a
-- deleteSession and an ensureValidSession that overlap are not modelled as a system of their own
-- (Tests/Sessions has one such run, which leaves a timer without a session), and neither are other
-- interleavings of the steps of two calls.
pub mod Prelude
pub mod Errors
pub mod Exec
pub mod Ids
pub mod Media
pub mod Rooms
pub mod Words
pub mod Api
pub mod Handles
pub mod Channels
pub mod Groups
pub mod Blocking
pub mod DirectChats
pub mod Sessions
pub mod Notifications
pub mod Messaging
pub mod Tests
