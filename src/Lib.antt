-- ===== src/Lib.antt =====
-- Verification library of the cui server, the TypeScript server of this repository that runs
-- Claude sessions and streams them to browsers.
--
-- The program's parts and how they interact. A conversation runs as a child process of
-- claude-process-manager.ts, whose output json-lines-parser.ts cuts into messages. cui-server.ts
-- joins the services: stream-manager.ts sends the messages to the connected
-- browsers, ToolMetricsService.ts counts the edits in them, and conversation-status-manager.ts
-- knows which session runs on which stream. The tools of a conversation ask for permission and
-- put questions to the user through the routes over permission-tracker.ts and
-- question-tracker.ts; when the stream ends, its requests, questions and clients go. The
-- history of past conversations is read from files by claude-history-reader.ts, with
-- conversation-cache.ts before the files, and message-filter.ts hides local commands. auth.ts
-- stands before the routes that cui-server.ts mounts after those of permissions and questions;
-- log-stream-buffer.ts holds recent logs, and session-info-service.ts keeps in a database what the
-- user set for each session. The web client folds the events of a stream into what it shows.
--
-- Files, and the code they model, under web/cui/src:
--   Types          types/index.ts
--   Status         services/conversation-status-manager.ts; Status/Views has the views of active
--                  sessions, `get_conversations_not_in_history` and
--                  `get_active_conversation_details`
--   Permissions    services/permission-tracker.ts; Permissions/Routes: routes/permission.routes.ts
--   Questions      services/question-tracker.ts; Questions/Routes: routes/question.routes.ts
--   JsonLines      services/json-lines-parser.ts
--   LogBuffer      services/log-stream-buffer.ts
--   Filter         services/message-filter.ts; Filter/Commands what a local command is
--   Metrics        services/ToolMetricsService.ts
--   Auth           middleware/auth.ts
--   Streams        services/stream-manager.ts
--   Cache          services/conversation-cache.ts
--   History        services/claude-history-reader.ts: History/Entries `groupEntriesBySession`,
--                  `processSummaries` and `parseMessage`, History/Chain `buildMessageChain`,
--                  History/Conversation `buildConversationChain` and `processAllEntries`,
--                  History/Fetch `fetchConversation`, `getConversationMetadata` and
--                  `getConversationWorkingDirectory`, History/Listing `applyFilters` and
--                  `applyPagination`, History/Cleanup `cleanupEmptyShellSessions`
--   Process        services/claude-process-manager.ts: the children, their timers and signals;
--                  Process/Init `waitForSystemInit`
--   Server         cui-server.ts: the listeners that join the services; Server/Events: the events
--                  of services/claude-process-manager.ts that reach them
--   SessionInfo    services/session-info-service.ts; SessionInfo/Batches its batch operations,
--                  SessionInfo/Table the database, as a parameter with its laws
--   Conversations  routes/conversation.routes.ts, `POST /start`; Conversations/Sessions: the
--                  endpoints that rename, update and archive sessions
--   Client         web/chat/hooks/useConversationMessages.ts; Client/Loading `setAllMessages`;
--                  Client/Connections web/chat/hooks/useMultipleStreams.ts
--   WorkingDirectories  services/working-directories-service.ts
-- The other files below these hold lemmas. Base has the shared helpers, JsMap JavaScript's maps in
-- insertion order, Examples runs at concrete inputs.
--
-- A method `camelCase` of the source is `snake_case` here. It takes the state it changes as its
-- last argument and returns the new one, with the value and the events that it gives. Map
-- fields are association lists with distinct keys. Time stamps, fresh UUIDs and readings of the
-- clock are arguments. Text is a list of character codes where the code walks over it.
-- Parameters stand for what the code calls: `JSON.parse`, `diffLines` of jsdiff, the function
-- that parses a history file, the reading of a time stamp, the spawning of a child, and SQLite,
-- whose laws a table in memory satisfies (Examples/Database).
--
-- Fuel: the walk over replies in History/Chain takes fuel, one more than the number of
-- messages; each level of the recursion has visited one message more. History/Conversation
-- makes no conversation where it runs out. The loop for a short name in WorkingDirectories counts
-- the lengths that are left, as many as the path has segments. Client/Connections takes fuel for the
-- loop over the waiting streams.
--
-- A child process is a number, and a timer too. A method that waits is two steps here, before and
-- after the wait, except `stopConversation`, whose wait of 100 ms before the signal is left out: it is
-- one step. Server/Runs has the events of the server as steps and the states that they reach.
--
-- Not modelled: log lines, response headers, network, the contents of files, the spawning of
-- children and their arguments, the schema of the database;
-- the promise that joins concurrent callers of the conversation cache; what Node makes of a stream
-- after `push(null)`; the decoding of bytes
-- into text; the other services and routes, the rest of the web client, and the platform in
-- Python.
pub mod Auth
pub mod Base
pub mod Cache
pub mod Client
pub mod Conversations
pub mod Examples
pub mod Filter
pub mod History
pub mod JsMap
pub mod JsonLines
pub mod LogBuffer
pub mod Metrics
pub mod Permissions
pub mod Process
pub mod Questions
pub mod Server
pub mod SessionInfo
pub mod Status
pub mod Streams
pub mod Types
pub mod WorkingDirectories
