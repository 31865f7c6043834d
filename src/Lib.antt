-- ===== src/Lib.antt =====
-- A verification library for the GitHub Actions cache server, a server to which the runners of
-- GitHub Actions save caches and from which they restore them. A runner calls three Twirp
-- methods (internal/server/twirp.go) with a token that grants scopes (internal/auth); the
-- handlers call the service (internal/storage/service.go), which keeps uploads, storage
-- locations and cache entries in a SQL database (internal/db) and the bytes in a storage adapter
-- (internal/storage/adapter.go); cleanup tasks (internal/tasks) run beside it, and a management
-- API (internal/server/management.go) reads and deletes rows.
--
-- The parts and their files:
--
-- - Base.antt, Base/: the names that all files share; texts as lists of bytes, 64-bit integers,
--     decimal numbers as `strconv` prints and reads them, lists over the native numbers.
-- - Action.antt, Action/: Go functions that change state and may return an error, as actions
--     that give a result and the state; the rules by which an action keeps a property.
-- - Auth/Tokens.antt, Auth/Keys.antt, Auth/Authorize.antt: internal/auth, with `Verify` of
--     jwt.go, the cached keys of jwks.go and `Authorize` of scope.go. Base64, JSON, the hash and
--     the signature checks are the fields of `Tools`; the answers of the issuer and the readings
--     of the clock are functions of their number. Auth/Tokens/Signed.antt and Auth/Authorize/
--     are about what is accepted and granted.
-- - Config/Load.antt, Config/Sizes.antt, Config/Settings.antt: `Load`, `parseBytes` and
--     `parseBool` of internal/config/config.go, over any environment.
-- - Auth/Scopes.antt, Auth/Scopes/: `WriteScope` and `ScopesByPermissionDesc` of
--     internal/auth/scope.go, with the insertion sort as the two loops that it is.
-- - Db/Models.antt, Db/Sql.antt, Db/State.antt, Db/Queries.antt, Db/Queries/:
--     internal/db/models.go and internal/db/queries.go, a definition for each method with the
--     method's name in small letters. A table is a list of rows in the order of insertion, and a
--     statement is written with `select`, `delete`, `update`, `order_by` and `page`.
--     Db/Like.antt is `escapeLike` with the operator that reads its result. What the schema in
--     internal/db/migrations.go makes the database do of itself, refuse an id that is taken,
--     refuse a reference to no location and delete the entries of a deleted location, is apart
--     from the statements: `location_id_taken`, `entry_id_taken`, `upload_id_taken`,
--     `location_exists` and `cascade`. Db/Integrity.antt states the keys and the reference of
--     the schema, Db/Integrity/Keys.antt and Db/Integrity/Sound.antt that no two entries have
--     the same key, version, scope and repository, and Db/Migrations.antt is `Migrate` of that
--     file over a catalog of tables and indexes.
-- - Storage/World.antt, Storage/Adapter.antt, Storage/Upload.antt, Storage/Match.antt,
--     Storage/Download.antt: internal/storage/service.go over any adapter. The state is a
--     `World`: the tables, the adapter's store, the clock, the ids of the running merges, and
--     the goroutines that have still to run. Random ids are arguments. Storage/Memory.antt is an
--     adapter for the examples. Storage/Filesystem.antt is that of
--     internal/storage/filesystem.go over a tree of files (Storage/Filesystem/Files.antt), with
--     `safe` in Storage/Filesystem/Paths.antt and its theorems in the children. Storage/S3.antt
--     and Storage/Gcs.antt are those of internal/storage/s3.go and gcs.go over a service that is
--     a parameter, with the HTTP client of Storage/Net.antt; what is documented of an S3 bucket
--     is the record `IsBucket` of Storage/S3/Bucket.antt. Storage/SigV4/Canonical.antt and
--     Storage/SigV4/Sign.antt are internal/storage/sigv4.go, with `crypto/sha256` and
--     `crypto/hmac` as the record `Crypto`. Storage/Match/, Storage/Completion.antt and
--     Storage/Download/Parts.antt are about the search, the completion of an upload and the
--     stream of the parts, Storage/Consistency.antt, Storage/Soundness.antt and
--     Storage/Integrity.antt about the tables after each call, Storage/Publication.antt about
--     the entries that a completion adds or changes.
-- - Tasks/Pages.antt, Tasks/Jobs.antt, Tasks/Pressure.antt: internal/tasks, with the loop over
--     pages that four of the tasks share. Tasks/Ends.antt is about the fuel of that loop,
--     Tasks/Sweeps.antt about the rows that it leaves alone, Tasks/Bounds.antt about the
--     eviction. The cut-off of `CleanupCacheEntries` is computed in a `time.Duration` of 64
--     bits, from a clock that stands at a whole millisecond.
-- - Server/: internal/server, a definition for each handler, from the decoded request to the
--     status and the body. Server/Bearer.antt puts the authorization of Auth/Authorize.antt in
--     front of the three Twirp methods; it runs on the world of the service and the keys that
--     the verifier keeps. Server/Restoring.antt, Server/Access.antt and Server/Publishing.antt
--     are about what a token may read and write, and Server/Bearer/Granted.antt about what its
--     bearer may.
-- - Ids.antt: `NumericID` of internal/ids/ids.go, which System.antt calls for a new upload.
-- - System.antt: `NewHandler` of internal/server/server.go, the routes of `registerManagement`,
--     the goroutines and the tasks as the steps of one server, in any order.
--     System/Invariants.antt is about the states that are reached, System/Guards.antt about
--     requests without the key of the management API.
--
-- Errors: a statement of the database fails where the list of faults in the state says so, and
-- an adapter is arbitrary, so each of its calls may fail. What an action has changed before it
-- fails stays changed.
--
-- Bounds and fuel: times, counts and sizes are natural numbers; ids and the integers of the API
-- are signed, read within 64 bits, and the offset of a listing wraps around as an `int` does.
-- The loops of the tasks have fuel, one unit for each page or batch. For the loops over pages
-- one unit for each ten rows of the table and one more is enough; for the eviction, 1000 units,
-- one for each statement to come that may fail, and one more. The loops of the S3 adapter have a
-- unit of fuel for each page, and one more than the folder has objects is enough; those of the
-- GCS adapter have one for each page too.
--
-- Not modelled: opening the database and the texts of the DDL, HTTP, JSON, base64 and TLS of the
-- standard library, logging, the documents and the reverse proxy of the server, the timers of
-- the scheduler, the URLs of requests to S3 and GCS, and the assertion that is exchanged for a
-- token of GCS. `url.Parse` is a parameter of `Load`. A file of the storage has no links and no
-- permissions, and a call of the operating system that fails changes nothing. The statements are
-- not in MySQL's dialect, so the databases are SQLite and PostgreSQL; in Db/Migrations.antt
-- MySQL only stands for the types that its statements are formatted with, and that the server
-- refuses their quotes is left out. The goroutine that streams parts to a client is taken to run
-- to its end when `Download` returns.
pub mod Base
pub mod Action
pub mod Auth
pub mod Db
pub mod Storage
pub mod Tasks
pub mod Config
pub mod Ids
pub mod Server
pub mod System
