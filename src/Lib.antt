-- ===== src/Lib.antt =====
-- The Git LFS server lfsd, whose Go code stands in cmd/lfsd and internal.
--
-- A request for /{host}/{repo}/info/lfs/objects passes the middleware of cmd/lfsd/auth.go, which
-- asks a forge (internal/forge) for the permission of the caller's token, and then one of the four
-- handlers of cmd/lfsd/lfs.go. The handlers keep the rows of objects and of their links to
-- repositories by internal/database, and the bytes by a storage backend of internal/storage; the
-- body of a proxied upload is checked on its way by the two readers of internal/iox. The janitor
-- (internal/janitor) deletes rows that were never verified or have no link, and their bytes.
--
-- The files, and the code that each is about:
--   Base, Error, Effect   Go's strings as lists of bytes, int64, (value, error) results, blocks that
--                         return early, and deferred calls.
--   Database              internal/database: Schema has the two tables, Statements the SQL statements
--                         of objects.go, Exec the statements' faults and transactions, Objects the
--                         methods of DB (GetRepoObjectByOID is get_repo_object_by_oid, and so on),
--                         Connect the connection string and the pool of New in database.go;
--                         Invariant says what sound tables are; Link, Reads, Sweeps, Unchanged prove.
--   Database.Catalog      what the package promises, which is no code: the stored objects and their
--                         links without keys, order, counts and times; its children compare it with
--                         the tables, operation by operation and for every sequence of operations.
--   Iox                   internal/iox: ExactSizeReader.Read is exact_read, SHA256Reader.Read is
--                         sha256_read, io.Copy is copy; Verdict describes their effect without readers.
--   Storage               internal/storage: storage.go in Storage, filesystem.go in Filesystem,
--                         s3_presign.go in Presign; Url, FilePath, Decimal and Base64 are what they
--                         call of net/url, path/filepath, strconv and encoding/base64.
--   Forge                 internal/forge: forge.go in Forge, github.go in GitHub, gitlab.go in GitLab.
--   Auth                  cmd/lfsd/auth.go.
--   Server                cmd/lfsd/lfs.go and the two helpers of cmd/lfsd/main.go: serveBatch in
--                         Batch, serveUpload in Upload, serveDownload in Download, serveVerify in
--                         Verify; a handler takes the world, which is the database and the storage.
--   App                   cmd/lfsd/main.go: serveHealthz, and the routes behind the middleware as one
--                         function of a request and the server's state; Start makes that of the
--                         configuration; Reach has the states that requests, health checks and
--                         sweeps lead to, in any order, and Backed those of a server with one
--                         filesystem backend, with the files.
--   Config                cmd/lfsd/config.go: the two loops of loadConfig, and in Load the rest of it.
--   Janitor               internal/janitor/janitor.go; Run takes the sequence of what its select
--                         receives.
--   Logging               internal/logx, parseLevel of cmd/lfsd/logging.go, and internal/strx.
--   Tests                 concrete inputs.
--
-- Faults: each SQL statement and each system call takes one entry of a list that says whether it
-- fails, so that a theorem holds whichever calls fail. Fuel: io.Copy takes one unit for a read, and
-- an upload gives it one more than its body has reads; a body of less than 2 ^ 63 bytes then never
-- runs out. The digits of an int64 take 20.
--
-- Downloads: opening a file and reading it are two system calls. io.Copy to the response, whose
-- error the code only logs, delivers the bytes whole if reading ends well and there are as many as
-- the Content-Length says; otherwise the body is cut_off, and what the client had of it is not
-- modelled.
--
-- Interleavings: a database method runs as one block, and two transactions that interleave are seen
-- only through the rows that a sweep finds locked. Catalog.History takes the methods in any order,
-- as concurrent requests and sweeps make them; App.Reach and App.Backed run each request and
-- each sweep to its end.
--
-- Parameters: SHA-256, the S3 client, the HTTP clients of the forges, time.Parse, the cache of
-- permissions, the check of an S3 endpoint, the test of a URL's authority, the ini parser with its
-- mapping of sections to structs, and the handlers that write the log. Not modelled: JSON, the
-- matching of a path against the routes, the HTTP server with its goroutines and shutdown in
-- main.go, the output of the log, directories, and the opening and migration of the database,
-- which are other packages' work.
pub mod Base
pub mod Error
pub mod Effect
pub mod Database
pub mod Iox
pub mod Storage
pub mod Server
pub mod Forge
pub mod Auth
pub mod Config
pub mod Janitor
pub mod App
pub mod Logging
pub mod Tests
