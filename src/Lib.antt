-- ===== src/Lib.antt =====
-- im-backend: a verification library of the instant messaging backend.
--
-- The program stores direct messages in PostgreSQL, hands each one to its receiver's devices through
-- an outbox and a realtime channel, and lets devices catch up over HTTP. Its parts and how they meet:
--   * sending (message_service.go, message_store.go): one transaction finds or creates the
--     conversation of two users, gives the message the next sequence of it, and writes the message
--     and an outbox event in one statement. Messages/* models it; a repeated request is recognised by
--     its sender and clientMessageId.
--   * the outbox worker (outbox.go, schema.sql): workers lease due events with fresh lock tokens,
--     publish them, and mark them published, to be retried or dead. Outbox/* models it.
--   * the event payload (websocket.go, decodeMessageCreatedEvent): what a node checks of an event
--     before it pushes it. Realtime/* models it; the event is the one that Messages/Store writes.
--   * synchronisation (conversation_sync.go, sync_ack.go): pages of a conversation behind a cursor,
--     up to a snapshot, and the cursor that a device acknowledges. Sync/* models it.
--   * the history (message_history.go): pages of a conversation in both directions. History/*.
--   * the headless client (internal/headlessclient): a durable log of each conversation, filled by
--     realtime envelopes and by the pages of Sync. Client/* models it.
--   * accounts and sessions (auth.go, auth_crypto.go): a session has access tokens, which let a request
--     in, and refresh tokens, each good for one rotation; the answers of logins and rotations are kept
--     encrypted for ten minutes, so that a request may be repeated. Auth/* models it.
--   * the migrations (internal/migrate): the chain of schema files, the table that records them, and
--     Up, Baseline and CheckReady. Migrate/* models it.
--   * the presence of connections (redis_presence.go): Lua scripts that say which connection serves a
--     session. Presence/* models it.
--   * the limits on authentication requests (rate_limit.go). RateLimit models them.
--   * the laboratories for packets and for fencing tokens (packet.go, fence.go and schema.sql of
--     internal/reliabilitylab). Packet and Fence model them.
--
-- Files:
--   Prelude (Tests, Lists, Results, Member, Distinct, Sorting, Ranking, Strings, Int): shared names and
--     lemmas; Results is what a function with early returns returns.
--   Message: message of main.go, and messageCreatedEventPayload and its recipients of websocket.go.
--   Messages/Command: the checks of send; validOpaqueID of auth.go. Messages/Database and Store: the
--     tables and each SQL statement as a function. Messages/Service: send, a function for each step
--     behind a statement. Messages/Consistency (Write, Conversations): the invariant of the tables.
--     Messages/Outcome (Stages) and Retry: what send leaves and answers.
--   Outbox/Types, Backoff (retryDelay, equalJitter), Claim (claim, claimLimit), Mark (markPublished,
--     markPublishedBatch, markFailed), Deliver (deliverBatch, completeDeliveryBatch, RunOnce), Cleanup
--     (cleanupPublished, the checks of newOutboxWorker), Run (Run, continueAfterBatch); Claim/Waiting, Sound and
--     First, Mark/Fencing, Leaves and Owner, Deliver/Settled, Published and Round, and Run/Drained hold
--     proofs. Outbox/Lifecycle: the table and its workers
--     as a step relation, with one step for each statement.
--   Sync/Request (parseSnapshotPagination, validateSnapshotCursor, parseConversationID), Page
--     (syncConversationMessages, listConversations), Ack (acknowledgeConversation); Window and
--     Contiguous on the pages, Ack/Cursor and Ack/Bound on the cursors.
--   History/Request (the parameters and the cursor), History (listMessages), History/Order and Pages.
--   Client/State (store.go: Update, load, persist), Apply (applyMessage, ApplyRealtime), Session
--     (PersistAuth, Refresh, FlushACK), Sync (SyncConversation); Apply/Log, Apply/Sound, Sync/Pages,
--     Sync/History, Sync/Rounds and Sync/Converge hold their proofs.
--   Auth/Types (the tables, and what a request meets), Cipher and Cipher/Keyring (auth_crypto.go),
--     Sessions (createSessionResponse, newToken), Access (requireAuthentication, logout, logoutAll,
--     revokeSession, listSessions), Login (createIdempotentLogin, loadLoginResult), Refresh
--     (rotateRefreshToken), Reuse (handleUsedOrInvalidRefresh), Register (register), Accounts
--     (login, refresh), PasswordHash (hashPassword, verifyPassword), Password (changePassword). Auth/Closed follows a closed session through every handler; Cipher/RoundTrip,
--     Login/Issued, Retry and Replay, Refresh/Rotation and Replay, PasswordHash/RoundTrip, Password/Changed and Stored
--     hold the other proofs.
--   Migrate/Load (Load), Unwrap (unwrapTransaction), Split (splitSQLStatements), History
--     (validateApplied, validateReady), Apply (apply,
--     recordMigration, nonTransactionalState), Up (Up, CheckReady), Baseline (Baseline);
--     History/Prefix and Chain, Split/Moves, Tokens and Statements, Up/Advance (the steps that Up is
--     meant to take), Applied, Refines, Ready and Again hold the proofs.
--   Presence (the scripts register, refresh and unregister, and LookupUsers); Presence/Index, Live,
--     Calls and Lookup hold the proofs.
--   RateLimit (the Lua script, rulesForAuthRequest, enforceAuthRateLimit), RateLimit/ClientAddress (clientIP,
--     parseTrustedProxyNetworks); RateLimit/Admission, Waiting and ClientAddress/Forged hold
--     the proofs.
--   Packet (Create, Claim, Deliver), Packet/Allocation, Holds, Claims and Delivery; Fence (AcquireFence,
--     WriteFenced) and Fence/Superseded.
--   The modules whose names end in Tests, and Samples, hold runs at concrete inputs.
--
-- How the code is read:
--   * A table is a list of records, and a SQL statement a function of the tables that it sees. The
--     other transactions are parameters: of a send, what they commit before each statement and which
--     statements fail; of a claim, the rows that SKIP LOCKED leaves out; of a page, the database of
--     each of its two statements; of the outbox, any interleaving of statements.
--   * A statement that changes something is served, refused with nothing changed, or lost: done,
--     with an error for an answer.
--   * Generated keys are numbers in turn. Lock tokens come from a parameter, with the hypothesis that
--     they are unique where a theorem needs it. Times are numbers, in milliseconds for the outbox and
--     the limits; the clocks are arguments.
--   * A transaction of auth.go is one function of the tables: its row locks make it one step. What
--     other requests commit between a read and the transaction behind it is a parameter of the handler.
--     An Environment says which statements fail, what rand.Read draws, what each call of currentTime
--     returns, and the fate of the commit. SHA-256, base64, AES-GCM, JSON, Argon2 and strings.ToLower are
--     fields of a Library, with the laws that the theorems use as HasLaws and HasPasswordLaws; the
--     package net is the record Net. The
--     constraints that compare two readings of the database's own clock are taken to hold.
--   * Redis is a table of keys with the times at which they expire; a script is one step, and so
--     is each of the three commands of a lookup of the presence: SMEMBERS, MGET and the SREM of the
--     sessions that were taken for stale, as the three may have other scripts between them.
--   * PostgreSQL is a parameter of the migrations: what a statement makes of the schema, which is any type,
--     and what the queries see of it. A commit that records a migration is served, refused or lost.
--   * Texts are lists of code points; byte_length gives their size in UTF-8. JSON is left out: a body
--     or payload is the record that it decodes to, or none. On the client and in a payload an id or
--     cursor that is not positive is read as 0.
--   * Ids, sequences and cursors are int64 in the code and natural numbers here; the sequences grow by
--     one for each message and are taken not to reach 2^63. Numbers in a query string keep their
--     bounds (parse_int), and the retry delay is computed on signed words of 64 bits.
--   * The loop of SyncConversation runs on fuel, a bound on its rounds; the theorem about it says
--     how much is enough. The scanner of splitSQLStatements runs on
--     the length of its text, which is enough (Split/Statements). All other loops are structural recursion.
--   * The file of the headless client is its state; each access may fail to read, to replace the
--     file, or to sync the directory after that. During SyncConversation no other goroutine applies
--     messages.
--
-- Not modelled: the hub and sockets of websocket.go and realtime_router.go, the schema fingerprint (schema.go), the cache of
-- internal/reliabilitylab, all HTTP and JSON encoding, encryption of the
-- client's file, and metrics, logs, configuration and command lines. The deferred triggers and length
-- constraints of the laboratory's schema are left out too, and so are, in Up, the reads of the history
-- that fail and the texts of errors.
pub mod Presence
pub mod Migrate
pub mod Auth
pub mod Prelude
pub mod Message
pub mod Outbox
pub mod Messages
pub mod Realtime
pub mod Sync
pub mod Client
pub mod RateLimit
pub mod Packet
pub mod Fence
pub mod History
