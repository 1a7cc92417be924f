-- ===== src/Lib.antt =====
-- The public key directory server for the Fediverse: its protocol, its directory, its administration,
-- and the keys and tokens that these need.
--
-- A client posts a signed protocol message to the endpoint /protocol (internal/api). The endpoint
-- checks the HTTP signature of an ActivityPub request, decodes the message, and gives it to the
-- handler of its action. The handler checks who has signed the message, submits it to a SigSum
-- transparency log (internal/sigsum), and calls PKDService (internal/domain), which changes the
-- tables of the database (internal/db) in one transaction.
--
-- Prelude: Boolean tests, lists, laws of lists, results. No part of the program.
-- Encoding, Encoding/RoundTrip: base64 of Go's encoding/base64. Text: Go's strings package.
-- Json: encoding/json, as it reads objects into structs and maps.
-- Signing, Signing/PublicKeys: internal/crypto/signing.go, utils.go, totp.go, and DecryptWithHPKE of
--   attribute_encryption.go (decode_public_key is DecodePublicKey, and so on).
-- Attributes: the rest of internal/crypto/attribute_encryption.go. Its Framing, Sealed, Opening,
--   RoundTrip and Hpke: laws of it.
-- Protocol/Messages, Protocol/Unmarshal: internal/protocol/messages.go and unmarshal.go.
-- Store/Rows: internal/domain/models.go and the tables of sql/sqlite/sqlite_schema.sql. Store/Reads and
--   Store/Writes: the methods of SQLiteRepository and SQLiteTx (tx_...) of internal/db/sqlite.go, by
--   their names. Store/Driver: the database driver. Store/Consistency: the invariant of the tables.
--   Store/Postgres: PostgresRepository and PostgresTx of internal/db/postgres.go (pg_..., pg_tx_...).
--   Its Answers, Newest, Agreement, Hashes, Insertions and Changes: laws of them.
--   Store/Ownership, Outcomes, Preservation, Renaming, ActiveKeys: lemmas on them.
-- Domain/Transaction, Domain/Service: internal/domain/service.go (process_add_key is ProcessAddKey).
--   A call is a body of statements on the working copy within a transaction; where it fails, it leaves
--   there what it has written, for the rollback to drop. Domain/Steps: what a
--   call that succeeded has gone through. Consistency, Atomicity, History: laws of all calls. Keys,
--   Revocation, Identity, BurnDown, Auxiliary: what one call does. Reliable: when a call succeeds.
--   Directory: the directory of names with their keys and data, without rows. Refinement: the
--   calls as operations of it.
-- Api/Handler, Signatures, Actions: internal/api/protocol_actions.go and helpers.go
--   (process_add_key_action is processAddKeyAction). Api/HttpSignature, Dispatch:
--   protocol_handler.go, http_signature_helpers.go, the table of handlers of server.go, and
--   internal/util/url_validator.go. Routes, Runs, KeyRuns, Authority: lemmas. Transparency, Errors,
--   Accepted, Published, Signed, Invariant: laws of the endpoint and of the handlers.
-- Api/AuthMiddleware, Admin, Reads: auth_middleware.go, admin_handler.go, and the reads of
--   internal/api/server.go. AdminTokens, Authorized, Shredding, Gossip, Listings: laws of them.
-- Auth/KeyFile, Auth/Tokens: internal/auth/encryption.go and key_manager.go, and token_service.go.
--   Auth/Refreshes: calls of Refresh that interleave. Fields, Lifetime, KeyFileRoundTrip,
--   KeyFileFormat: laws of them.
-- Checkpoint, Checkpoint/Scheduler: internal/checkpoint/scheduler.go; the message is built by the same
--   steps in admin_handler.go. Checkpoint/Loop: Start, the loop and Stop. Padding: a law of it.
-- Config, Config/Keygen: internal/config/config.go and cmd/keygen.go. Generated: laws of them.
-- Auxdata: internal/auxdata, and the validators that server/main.go enables.
-- Commands, Commands/Minted: cmd/token.go, cmd/actor.go, and the choice of the database in
--   server/main.go.
-- Tests: runs on concrete inputs.
--
-- How it is modelled. A struct is a record, a Go error a constructor of a result, a table a list of
-- rows in their order of insertion with its greatest id. A handler is a function from the world (the
-- database, the log, the cache of actor keys) to a response or a value and the new world; an early
-- return is `stop`. One request runs alone: its reads and its transaction see one database. The
-- service and the endpoint run on the statements for SQLite; those for PostgreSQL stand beside
-- them. All recursion is structural; the digits of a number (decimal) take one round more
-- than its value, which is enough.
--
-- Calls of Refresh, and the scheduler with its callers, run at the same time: their interleavings
-- are the paths of a step relation.
--
-- What is not the program's is a parameter: the driver's failures and its clock (Driver), the
-- order of rows and the lost numbers in PostgreSQL (Postgres), the random bytes, Ed25519, JCS,
-- SHA-256, TOTP and HPKE (Primitives), HKDF, HMAC, Argon2 and the ciphers (AttributeCiphers,
-- KeyCiphers), PASETO and the parsing of times (TokenServer, TokenService), the file system
-- (FileSystem), the answers of SigSum, of DNS, of an actor's server and of a peer (Server,
-- Network, Sender), what viper reads from a file, the parsers of SSH keys and age recipients, and
-- the UTF-8 of a text (sign_bytes). A numeric value in JSON is a natural number, and lower case is
-- that of ASCII.
--
-- Not modelled: how viper merges files and the environment, how the router matches a path, the
-- endpoints that are stubs, the flags of the subcommands, the start of the server,
-- logging, and the writing of a response to the connection.
pub mod Prelude
pub mod Encoding
pub mod Json
pub mod Signing
pub mod Text
pub mod Protocol
pub mod Store
pub mod Domain
pub mod Api
pub mod Attributes
pub mod Auth
pub mod Checkpoint
pub mod Config
pub mod Auxdata
pub mod Commands
pub mod Tests
