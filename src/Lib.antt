-- ===== src/Lib.antt =====
-- Verification of koge, a service in which people draw together on one canvas.
--
-- The program. A client draws through an outbox (packages/protocol/src/outbox.ts), which numbers its
-- events for one connection and keeps them until they are acknowledged. Each room is a durable
-- object (apps/realtime/src/drawing-room.ts) with a database of its own: it takes the events of its
-- connections one by one, checks their order, rate and limits, appends them to its log and applies
-- them to the table of strokes, and broadcasts what it accepted. It also ends strokes by itself, warns
-- before its end and before its limits, and slows down or cuts off actors that send too much.
--
-- Files and the code that they model:
--   Prelude          lists as tables (the statements of SQL on them), tests, fallible steps
--   Protocol/Limits  packages/protocol/src/types.ts: PROTOCOL_LIMITS
--   Protocol/Messages  packages/protocol/src/types.ts: stroke events, rejections
--   Protocol/Value   what JSON and MessagePack give: values of unknown type, and tests on texts
--   Protocol/Validation  packages/protocol/src/validation.ts: normalizePoint; Event: validateClientEvent
--   Protocol/Wire    packages/protocol/src/wire.ts, codec.ts, and the events of a room in
--     server-codec.ts. Valid, Accepted, Sound and Typed relate records and typed events, RoundTrip is
--     about frames, Sent about the events of an outbox.
--   Protocol/Server  packages/protocol/src/server-codec.ts: the server's messages. Records has them as
--     records, Read and Parser their parsers, Codec the frames; RoundTrip and Frames are about them.
--   Protocol/Realtime  packages/protocol/src/realtime-codec.ts: the client's other messages
--   Protocol/Outbox  packages/protocol/src/outbox.ts: StrokeOutbox, a function for each method.
--     Queue and Calls are about its numbers, Drawing and Strokes about its points.
--   Room/Log         drawing-room.ts: the tables strokes and stroke_events, applyStrokeLifecycle and
--     finalizeActiveStrokes. Strokes, Events and Finalize are about each; Drawn about the events of
--     an outbox.
--   Room/Tokens      drawing-room.ts: the token bucket of persistEvent
--   Room/State       drawing-room.ts: the room's state, roomLifecycleState
--   Room/Persist     drawing-room.ts: persistEvent, discardOrderedEvent
--   Room/History     drawing-room.ts: runs of persistEvent and finalizeActiveStrokes (the loop of the alarm
--     that ends strokes which took too long is not a step of them)
--   Room/Abuse       drawing-room.ts: recordRateAbuse, actorIsTemporarilyMuted
--   Room/TimeLimit   drawing-room.ts: the warnings before the end and their alarms
--   Room/Activity    drawing-room.ts: roomActivityLevel, evaluateRoomActivityLimit
--   Room/Chat        drawing-room.ts: persistChatMessage, pruneChatMessages, readChatHistory
--   Room/Cursor      drawing-room.ts: consumeCursorRateToken
--   Room/Tickets     drawing-room.ts: connectionCapacityError, registerRoomTicket, consumeRoomTicket.
--     Request: validateRoomTicketRegistrationRequest of packages/protocol/src/room-access.ts.
--     Waiting and Capacity are about the places, while requests wait between their test and their
--     acceptance; Once and Minute about tickets.
--   Room/Store       drawing-room.ts: the tables and columns that the lifecycle writes
--   Room/Lifecycle   drawing-room.ts: startRoom, recordRoomActivity, markRoomIdle, afterSocketClose,
--     suspendRoom, beginRoomClose. Statuses and Moves are about the statuses, Closing about what
--     closing leaves.
--   Room/Discard     drawing-room.ts: rejectRateLimitedDrawing, rejectRateAbuse, and the emergency
--     stop of processWebSocketMessage
--   Snapshot         apps/realtime/src/snapshot-automation.ts: when a room asks for a snapshot
--   Room/Snapshots   drawing-room.ts: the tables of snapshots. Jobs: createSnapshotJob. Events:
--     snapshotEvents, snapshotJobDisposition, snapshotSource. Commit: commitSnapshot. Compaction:
--     compactSnapshotEvents, runPendingSnapshotCompaction. Automatic: reconcileInitialThumbnail,
--     reconcileSnapshotAutomation. Rows is about rows with consecutive numbers, Invariant about
--     consistent tables, Requests, Insertion, Commits, Committed, Deletion, Compacts, Rounds and
--     Operations about the operations, Life about runs of them, Replay about the chunks of events.
--     Worker: sameJob, applyEvents and the loop of apps/snapshot/src/processor.ts; Rendered is about
--     what it draws. Sample is a small room, Drawn one with a job of one stroke.
--   Room/Replay      drawing-room.ts: eventsAfter, encodeReplayChunk, sendReplay. Chunks is about the
--     frames of a chunk, Places and Sent about the loop, Cache about the whole replay and its cache,
--     Runs about the life of both.
--   Room/Offers      drawing-room.ts: issueSnapshotOffer, consumeSnapshotReadTicket, and how fetch
--     chooses what a socket that joins is sent: what it reads before it awaits the hash of the token, and
--     the log that it replays after it, are two arguments. Offered and Joins are about that, ReadTickets
--     about the token.
--   Room/Provision   packages/protocol/src/room-provisioning.ts: validateRoomProvisioningRequest;
--     drawing-room.ts: initializeRoom. Once and Made are about it.
--   Room/Moderation  drawing-room.ts: moderateMember, disconnectServiceBannedActor. Request:
--     validateRoomModerationRequest of packages/protocol/src/moderation.ts. Removed and Requested are
--     about the member.
--
-- Correspondence. A row is a record, a table a list of rows, a transaction a function from the state
-- to an optional state: none is an exception, which rolls back. Keys and unique indexes are tests of
-- the insertion. The time and the ids that the code draws are arguments. The size of an encoded event
-- is a parameter, byte_length, and so are the functions of MessagePack and of JSON, with a law: what
-- they print they read back. Tokens of a bucket and numbers of unknown type are held in thousandths,
-- coordinates in hundredths of a pixel (in thousandths before they are rounded), sizes of brushes in
-- thousandths, so that they are whole numbers; the rounding of doubles in between is not modelled.
-- Times are milliseconds after 1970, never negative.
--
-- Bounds and fuel. The loop of StrokeOutbox.end takes as many rounds as there are pending points,
-- which is enough, since each round sends at least one. The loop over the chunks of a snapshot's job
-- takes a round for each event and one more, since each but the last brings at least one; the room
-- that it asks keeps the events meanwhile, since the job is queued. The alarms of a compaction and
-- the loop of sendReplay take a round for 500 events each, the latter one more; encodeReplayChunk
-- halves its events, in one round more than there are events at most. All other loops run over lists.
--
-- Not modelled: sockets, alarms and storage of the platform, and the texts of errors, which no
-- code reads; the deletion of read tickets at the end of a room; evidence and cleanup after a
-- room, which are jobs of their own over the same tables; the drawing of a snapshot, which is a
-- WebAssembly module written in Rust; the web server and the user interface, which talk to rooms
-- by the requests and messages above.
pub mod Prelude
pub mod Protocol
pub mod Room
pub mod Snapshot
