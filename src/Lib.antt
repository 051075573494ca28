-- ===== src/Lib.antt =====
-- Reporting and mapping of street signs: a server with which volunteers report where a sign was
-- sighted, missed or removed, and a map of what is known, kept in a SQLite database.
--
-- The parts, and how they interact. A request passes the authentication (internal/auth/auth.go),
-- which derives an opaque id from the subject in a header (internal/identity/identity.go) and
-- registers or bumps the user; the router and handlers (internal/api/server.go, util.go and
-- handlers.go) check the permission and the body and call the store (internal/store), which runs
-- statements on the database (internal/db/schema.sql). At its start the server seeds the database
-- (internal/db/db.go).
--
-- - Prelude: names of the library passed on, tests on numbers, lists, integers, ordering.
-- - Platform: what is not in the repository, as instance arguments with documented laws: Float64 for
--   Go's float64 and math, Sqlite for the choices that SQLite makes (a new rowid, the row of LIMIT 1
--   or beside max(), the function round, last_insert_rowid after no insertion). Platform/Fixed is one
--   concrete platform, for evaluating examples.
-- - Db: the tables as lists of rows, in order of insertion. An action takes the database to a result
--   and a database (Db/Monad); INSERT checks what the table declares (Db/Tables); a statement that
--   names what the schema does not declare is refused (Db/Columns). Db/Invariant says what the
--   constraints keep true, Db/AppendOnly what it is for a call only to add rows.
-- - Identity, Geo: NewSeed and OpaqueUserID; DistanceMeters, BoundingBox and GetPlusCode. HMAC,
--   base64, random bytes and the plus code package are parameters.
-- - Store: internal/store. Config is config.go, Users is users.go, Sightings, Reconciliation and
--   Reputation are store.go, Mapping is mapping.go, Lists is sightings.go, History is locations.go,
--   Events is auditing.go, Import is import.go and Queries is queries.go. Store/Users/Directory is the
--   user table as its clients see it.
--   A definition has the name of the Go method in snake case. The record Store is the cached seed,
--   the handle *sql.DB is the database itself.
-- - Startup: internal/db/db.go: seedRolePermissions and ensureUserIDHashSeed; Startup/Identities is
--   dropUserIdentities, Startup/Restart is Open, which every start of the server and the tools runs.
-- - Api: Params is parseSince, parseBBox, clamp and the flags of the query; Contribute, Moderate
--   and Review are the handlers; Requests is the router; Auth is the configuration and the subject of
--   internal/auth/auth.go. A body is given decoded: `none` is one that decodeJSON refuses. A handler
--   takes the clock's time as `now`, also where the code reads the clock more than once.
-- - Http: the HTTP requests that the server gets, and the handler that main of cmd/server/main.go
--   composes. Http/Mux has the patterns of Routes with the matching of http.ServeMux; Http/Serve is the
--   mux, Middleware of internal/auth/auth.go and PanicRecoveryMiddleware of internal/api/panic.go around
--   it; a panic is an answer `none`. encoding/json is a parameter, one decoder for each body, and
--   so is the path that net/http redirects to where a path is not clean.
-- - Importer: cmd/import-pirate-map/main.go. Source is loadRaw and unwrapKMZ, Folders is classify with
--   messageForFolder and mediumForDescription, Dates is observationDateFromDescription, Records is
--   buildRecords with parseLonLat and naturalID, and Run is main. Text has the functions of package
--   strings, on lists of code points.
-- - RoleTool: cmd/user-role/main.go. Server: splitCSV and the configuration in cmd/server/main.go.
-- - System: the server and the tools on one database, as steps of a history. System/Reached has what
--   every history keeps, System/Interleaved what may come between two statements, System/Newcomer a
--   start and the first request after it.
-- - Tests: a small database and the theorems at concrete inputs.
--
-- Times are nanoseconds and stored timestamps are seconds, as the RFC-3339 texts in UTC order up to
-- the year 9999. Ids are natural numbers, but for those that a path or a body names, which may be
-- negative. There is no fuel: every definition recurses on a list. Every
-- statement of a call is a step of its own, except in dropUserIdentities, seedRolePermissions and
-- ImportSourceRecords, whose transactions give the database back as it was on an error. In a history
-- whole requests follow each other; System/Interleaved lets them in between the statements of one
-- call, InsertSighting. A statement fails for the reasons that the schema gives, not for lack of disk
-- or a lock.
--
-- Not modelled: reading files, HTTP, ZIP and XML, which are parameters of the importer; the regular
-- expressions of internal/store/import.go, parameters too; what the tools print;
-- listening, shutdown and logging of the server; what the file server has for the path that it is
-- asked for; the web pages.
pub mod Prelude
pub mod Platform
pub mod Db
pub mod Http
pub mod Identity
pub mod Importer
pub mod Geo
pub mod Store
pub mod RoleTool
pub mod Server
pub mod Startup
pub mod Api
pub mod System
pub mod Tests
