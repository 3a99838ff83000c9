-- ===== src/Lib.antt =====
-- A model of the zenth_dht server (src/ of the repository), with proofs of what its parts promise.
--
-- The server answers requests of clients that it knows by the hash of their name and by Dilithium
-- keys. A request is a method number and a protobuf payload (handlers/decompose.rs), over HTTP or over
-- a socket (websocket/handler.rs); each method has a handler in handlers/method/, which checks the
-- request, verifies a signature, and sends statements to a PostgreSQL database (migrations/, schema.rs,
-- models.rs). Handlers share the limiters of rate_limit.rs and the connection manager and the file
-- registry of websocket/.
--
-- Files:
--   Prelude: lists, byte strings, 64-bit casts, maps and orders that the other files share.
--   RateLimit: src/rate_limit.rs. KeyRateLimiter with new, is_allowed (bucket, charge) and cleanup, and
--     the four global limiters with their *_allowed functions. Children: Quota, Isolation, Cleanup.
--   Timestamp, Crypto: src/timestamp.rs (is_timestamp_fresh) and src/crypto.rs
--     (verify_dilithium_signature).
--   Websocket.ConnectionManager: src/websocket/connection_manager.rs. Children: Routing, Closing.
--   Websocket.FileRelay: src/websocket/file_relay.rs, the registry of transfers. Children: Views (one
--     operation), History (a history of them).
--   Websocket.Handler: src/websocket/handler.rs: authenticate, the loop of handle_websocket (serve_socket
--     over a list of Events) and its end (leave, of leave_manager and leave_registry). Child Messages:
--     process_ws_request and the messages of file transfers. Children for proofs: Sessions,
--     Authentication, AfterLogin, Transfers, Panics (which requests end the loop), Endings.
--   Models: src/models.rs, src/schema.rs and migrations/: the rows, and the database Db as its tables.
--   Server: what all handlers share: the parameters Env and Readings, the state World, statements that
--     the database may refuse, a small monad for early returns, and Exit for a call that may panic.
--     Server.Rules has its rules of proof, Server.Keeps those for what a handler keeps of the database,
--     Server.Ends those for its answers.
--   Method: one module for each handler or group of handlers of src/handlers/method/:
--     Users (the query for a user), Login (login.rs), Prekeys (upload_prekeys.rs, replenish_prekeys.rs,
--     check_prekey_count.rs, fetch_prekey_bundle.rs), Message (send_message.rs, ack_message.rs),
--     Inbox (fetch_message.rs), Register (register.rs), Contact (contact.rs), Respond
--     (respond_friend_request.rs), Delete (delete.rs), Recovery (recovery.rs), Relay (relay.rs),
--     Friends (fetch_friend_requests.rs, fetch_friend_response.rs,
--     fetch_my_accepted.rs), Lookup (lookup_user.rs), SyncBlob (sync_blob.rs),
--     Updates (update_manifest.rs, update_chunk.rs). A child Dto has the messages of zenth_dto.
--     Method.Keeps has, for each handler, what its statements have to keep for the handler to keep it.
--   Decompose: src/handlers/decompose.rs: the numbers of the methods, process_request with its arms, and
--     handle_post. Children: Handlers (the handle_* functions), Serve (what they share), Codecs (the
--     messages and the parameters); for proofs Dispatch and Keeps (all arms at once), Tables and
--     Footprint (which tables a method writes), Clear and Replies (what a response says).
--   Cleanup: the periodic task of src/main.rs. Children for proofs: Invisible, Keeps.
--   System: the server as the steps that it takes, in any order: whole requests over HTTP or a socket, the
--     beginning of a session of a socket, each of the two calls at its end, rounds of the cleanup.
--     Children: Invariant (what every request keeps holds in every state that is reached), Keys (the keys
--     of the tables), Ownership (who the rows belong to), Start (the state in which main leaves the
--     server).
--   RateLimit.Tests, Websocket.Tests, Method.Tests and their likes: runs on small inputs, over the
--     constants of Server.Samples, Method.Samples, Decompose.Samples and Websocket.Handler.Samples.
--
-- State and operations. A handler is a function from a request and a World to its Result and the World
-- that it leaves; send_message alone may panic. World holds the database, the number of statements so far, the limiters, the
-- connection manager and the registry. A SQL statement is a function on the lists of rows, and Env.fault
-- says which statements the database refuses to run: the theorems hold for every choice of these. A
-- refused statement changes nothing. Unique keys and `ON DELETE CASCADE` are written out where a handler
-- meets them. A step that the handlers take without a transaction stays a step of its own.
--
-- Readings of clocks and random bytes are arguments (Readings). Byte strings are lists of numbers, a
-- NaiveDateTime is a number of microseconds since 1970, an Instant one of nanoseconds; casts between u64
-- and i64 wrap around; an i32 is a ℤ. A HashMap is its lookup function, since the code iterates over
-- none. A tokio broadcast channel is a number with a log of what was sent, and Env.listening says which
-- channels have a receiver. A socket is the list of what it yields, and an Event of it says whether the
-- frame in reply goes out and what other tasks do in between. Error texts are kept unrendered (Message),
-- and those about HTTP without what they quote. All functions are total by recursion on lists, so no
-- fuel is needed.
--
-- Panics. A message whose lifetime in hours leads to no date panics in send_message, which returns an
-- Exit: handle_send_message, process_request, handle_post and process_ws_request pass it on, and no
-- answer is sent. Over a socket it ends the task of handle_websocket (Ending): the calls after its loop
-- are not made. A pool that gives no connection panics as well: for a socket this is an Event (unserved)
-- with whatever the request had done; for a request over HTTP, and while a socket is authenticated, it is
-- not modelled.
--
-- Parameters: the package pqcrypto_dilithium is the record Dilithium2; prost's `decode` and `encode` for
-- each message are the record Codecs, and those of the messages of sockets, with the numbers of its
-- enums, the record WsPackages; what else the handlers take from prost, chrono and the storage behind
-- HTTP is the record Packages with its parts Formats, Decoder and Storage. zenth_dto's messages are
-- records with the fields that the code uses.
--
-- Not modelled: the sockets, HTTP and TLS of src/main.rs, and its environment; the connection pool of
-- src/db.rs; connection_count and subscribe_global of src/websocket/connection_manager.rs, which nothing
-- depends on; the error page and the files that only name modules. Two requests at once are followed only for fetch_prekey_bundle, in
-- Method.Prekeys.Race, where one request is served between the two statements of another, and for a
-- message and a deletion, in Method.Message.Orphans: in System, one request ends before the next one
-- starts.
mod Prelude
pub mod RateLimit
pub mod Timestamp
pub mod Crypto
pub mod Websocket
pub mod Models
pub mod Server
pub mod Method
pub mod Cleanup
pub mod Decompose
pub mod System
