-- ===== src/Lib.antt =====
-- A verification library for goval-dictionary, which collects OVAL and advisory feeds of Linux
-- distributions and answers which definitions name a CVE or affect a package.
--
-- The parts of the program. The packages under models/ convert the feed of one distribution into
-- the records of models/models.go; a driver of db/ stores the records of one family and release,
-- and answers queries by CVE and by package. The family and the release are normalised by
-- formatFamilyAndOSVer before both, so that what was stored under a name is found under it.
--
--   Config, Models       config/config.go (names of families and releases), and the records of
--                        models/models.go
--   Db.Version           db/db.go: formatFamilyAndOSVer, major, majorDotMinor, getAmazonLinuxVer
--   Db.Chunks            db/db.go: chunkSlice
--   Db.Filters           db/db.go: filterByRedHatMajor, and db/redis.go: fileterPacksByArch
--   Db.Redis.Server      the Redis server and the JSON encodings, as records of operations and laws
--   Db.Redis.Keys, Deps  db/redis.go: the key formats, and the maps newDeps and oldDeps
--   Db.Redis.Insert      db/redis.go: InsertOval
--   Db.Redis.Query       db/redis.go: GetByPackName, GetByCveID, restoreDefinition
--   Db.Redis.Meta        db/redis.go: CountDefs, GetLastModified, IsGovalDictModelV1, GetFetchMeta,
--                        UpsertFetchMeta
--   Db.Rdb.Gorm          what db/rdb.go calls of gorm, as a record of statements and its laws
--   Db.Rdb.Insert, Query, Meta, Open
--                        db/rdb.go: InsertOval; GetByPackName, GetByCveID; the counts, dates and
--                        FetchMeta; OpenDB, MigrateDB, CloseDB
--   Db.New               db/db.go: NewDB, newDB
--   Converters.Common    models/util/util.go, and what all converters do
--   Converters.Releases  the packages of a definition by release, as Oracle and SUSE collect them
--   Converters.Oval      the criteria of an OVAL document, and what a walk over them visits
--   Converters.Debian, Oracle, Redhat, Ubuntu, Alpine
--                        ConvertToModel and its helpers of the package under models/
--   Converters.Suse      models/suse: the tests (Suse), getOSVersion (Suse.Platform), the walks
--                        (Suse.Walk) and ConvertToModel (Suse.Convert)
--   Converters.Updates   models/amazon and models/fedora
--   Fetcher.Util, Feeds  fetcher/util/fetcher.go: the download of one file; FetchFeedFiles
--   Fetcher.Fedora       fetcher/fedora: the requests (Fedora), types.go (Fedora.Rpm), modules.yaml
--                        and Koji (Fedora.Modules), the CVE ids (Fedora.Advisories), and
--                        FetchUpdateInfosFedora (Fedora.Updates)
--   Fetcher.Amazon, Redhat
--                        fetcher/amazon/amazon.go, fetcher/redhat/redhat.go
--   Fetcher.Requests     the fetchers of Alpine, Debian, Oracle, SUSE and Ubuntu
--   Commands             the operations of the interface DB that follow NewDB; what the fetch commands
--                        of commands/ share (Commands.Fetch), each of them (Commands.Run), and
--                        select (Commands.Select)
--   Server               server/server.go: the handlers
--   Prelude, Text, Outcome, GoMap
--                        shared lists and tests, Go's strings as lists of bytes with the functions
--                        of package strings and strconv, results with errors and panics, Go's maps
--   Tests                a server and a database in memory, an encoding, sample data and examples
--
-- How the code is modelled. A Go function that fails returns an Outcome: a value, an error named by
-- the place that makes it, or a panic. The Redis server is a record: its state, the write commands
-- with what each of them does when it succeeds, and the reads. InsertOval passes the state of the
-- server along; the commands of a pipeline are queued in a list and run at its end, and a pipeline
-- that fails leaves the state that the server then has. InsertOval of the relational driver passes
-- a transaction along, and its result says where it leaves the connection: outside a transaction,
-- or in one that is neither committed nor rolled back. The workers of FetchFeedFiles are a step
-- relation, with a step for each assignment to the variable they share, each test of it and each
-- send; an error that is sent is read from that variable again. A time has a zone.
-- Parameters of the model are the server, the codec of encoding/json, gorm, the functions Parse, Now
-- and Format of package time, the comparison of go-rpm-version, what go-version accepts, HTTP, htcat
-- and the decompressors, the decoders of the fetched documents, URLs, and the regular expressions.
-- The batch size and the no-details option are arguments. The interface DB is a parameter of NewDB
-- and of the commands, which take the functions of Fetcher as arguments too.
--
-- Bounds. The loop of chunkSlice is on fuel: as many rounds as the slice has elements, enough for
-- every batch size of 1 or more, which InsertOval checks. The SCAN loop of GetByPackName is on
-- fuel, with a result of its own for fuel that ran out, since the server decides when it ends. All
-- other loops are structural recursion; the digits of a number are printed on fuel, as many rounds
-- as the number. Sizes and indices are natural numbers without a bound, below that of a Go int.
--
-- What is not modelled: the flags of the commands, the routes and the start of the HTTP server, and
-- the connection to Redis, which are glue around libraries; progress bars, logs and the texts of
-- error messages; the timeout of FetchFeedFiles. Calls of time.Now are numbered in their order. The
-- order in which Go ranges over a map is taken to be that of the entries of an association list.
pub mod Prelude
pub mod Text
pub mod Outcome
pub mod GoMap
pub mod Config
pub mod Models
pub mod Db
pub mod Commands
pub mod Server
pub mod Converters
pub mod Fetcher
pub mod Tests
