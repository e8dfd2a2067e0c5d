-- ===== src/Lib.antt =====
-- SkyBeam Mail: the services behind a mail server. Dovecot keeps the mail; the watcher reads each
-- account's INBOX over IMAP and copies it into the table message_view of PostgreSQL, with an event for
-- every new message; the API serves the tables to the browser and writes flags and moves into them,
-- again with events; sessions with bearer tokens guard the API.
--
-- The modules and the code they are about:
--   Prelude   Go's strings, int64, strconv.Atoi and fmt's %d, with the lemmas on them
--   Store     the tables of migrations/, the SQL statements of the code as functions on the list of a
--             table's rows, and the calls of the pool (World): the environment decides for each
--             call whether it is answered, does not arrive, or is made and its answer lost, and which
--             values PostgreSQL refuses
--   Events    internal/events/events.go: the event types and the writer
--   Imap      internal/imap/client.go: what the client makes of the answers to FETCH, LIST and IDLE; Client
--             has its other methods too, by the commands that they send
--   Watcher   internal/watcher/service.go: scanNewMessages (Scan, with the headers in Mail, the body in
--             Body, the snippet in Snippet and toJSONB in Jsonb; Connection adds the commands that a scan
--             sends), watchAccount and idleLoop (Watch), Run and listAccounts (Run); the message of
--             internal/imap/client.go is in Mail
--   Auth      internal/auth/service.go: Login, Logout, VerifyToken, CreateAdmin; Book is what the first
--             three promise, with the table of sessions forgotten
--   Api       internal/api/middleware and internal/api/handlers: a handler is a function from a request
--             to a step of the world that gives a response; Router is internal/api/router.go, the table
--             of routes with the middleware of each group; Logging is the line logged for a request
--   Config    internal/config/config.go: Load, findDotEnv and LogSafeConfig
--   Reconciler  internal/reconciler/service.go: reconcileAccount and refreshFolderCounts; Run is the
--             loop, with the goroutines of runAll, and Session the connection to Dovecot
--   Cmd       cmd/ and internal/db/db.go: the starts of the programs, with -setup-admin, and NewPool
--   System    the programs on one database: the statements that write, and histories of requests, scans,
--             reconciliations and starts in any order
--
-- State is passed explicitly: a step takes a World, the database and the number of calls made, and gives
-- a result and the World after it. Results that the Go code drops are dropped. The goroutines of the
-- reconciler are a list of tasks, and a list of choices says which of them goes on and when a tick
-- starts more; each call of the database is one step. The watcher's loop is given the database as it
-- is at each tick. A history of System takes requests and scans one behind another, each with an
-- environment of its own; for those that run beside each other there is the relation of the databases
-- that the statements lead to, one statement at a time and in any order.
--
-- Bounds and fuel. extractBody reads parts until io.EOF, so it runs on fuel, with none where the fuel
-- runs out: more than the number of results before io.EOF is enough. findDotEnv makes at most its six
-- rounds. The other loops go over lists. int64 is an integer with its wrap-around where the code
-- multiplies (the offset of a page, the lifetime of a session).
--
-- What stands for something outside the code: bcrypt, SHA-256 and the random bytes (Auth.Crypto), the
-- results of the mail reader (Watcher.Body.Part), the answers of the IMAP server (Watcher.Scan.Server
-- and the arguments of Imap), the Unicode table of ToLower, the collation of names, full text search,
-- what JSON decoding and uuid.Parse give, which are arguments of the handlers (for a whole request,
-- Api.Router.Outside and Incoming), the file server, the route that chi finds for a request, which is
-- given as its place in the table, and os.Stat, godotenv.Load and time.ParseDuration (Config.System).
-- A UUID is a number that a counter draws, so that a drawn id is new. Foreign keys are not checked.
-- Rows that tie in ORDER BY stand in List in an order that is given for each query, and elsewhere in
-- the order of their insertion. Where the answer to a query is lost Query returns the error, but for
-- the scan's SELECT of the uids, whose read can also break off behind some of the rows. The goroutine that sets last_seen runs
-- at once, as its result is not used. A string is a list of code points and stray bytes; stray bytes
-- that meet do not become a code point again. Marshalled payloads are left as values.
--
-- Not modelled: the headers of a response; the log lines other than that of a request; the middleware of
-- chi that leaves a response as it is; signals, the HTTP server and its shutdown; the browser's code
-- and the deployment.
pub mod Prelude
pub mod Store
pub mod Events
pub mod Imap
pub mod Watcher
pub mod Auth
pub mod Api
pub mod Config
pub mod Reconciler
pub mod Cmd
pub mod System
