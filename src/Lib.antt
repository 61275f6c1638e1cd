-- ===== src/Lib.antt =====
-- VRClog Companion reads VRChat's log, stores joins, leaves and world changes, and shows them live.
-- A Go server (cmd/, internal/) ingests and serves the events over HTTP and a server-sent event
-- stream; a React page (web/src/) reads both. This library models the page's logic and the parts of
-- the server that the page depends on, and relates the two.
--
-- The files and what they model:
--   Event      internal/event/event.go: the event that the server's packages share.
--   Derive     internal/derive/state.go: State, Update and its handlers. Players has the invariant
--              of the player map, Presence an abstract account of who is there.
--   Client     web/src/api/client.ts: the JSON shapes; Client/Requests the methods of ApiClient.
--   Sse        web/src/hooks/useSSE.ts: the hook with what the browser holds for it. `step` is one
--              callback run to its next await; a run is any list of callbacks. Backoff, Timers,
--              Sources, Leaks and Resume have the theorems.
--   Now        web/src/pages/Now.tsx: the live page. Roster is its player list, Json what the
--              server sends to it, and Mirror relates it to Derive.
--   History    web/src/pages/History.tsx: the paged list; Paging has the theorems for any server,
--              Stored for the handler of Api/Events over Store.
--   Settings   web/src/pages/Settings.tsx: the reducer and the submission; Saved relates them to
--              Config. View is what the page shows, with its Inputs.
--   Shell      web/src/App.tsx, main.tsx, components/Layout.tsx, components/ErrorFallback.tsx: the
--              routes, and the links to them in Links.
--   Config     internal/config/config.go, internal/config/secrets.go, internal/app/config.go: the
--              two files of settings and UpdateConfig. Env has the overrides from the environment.
--              Startup is the start in cmd/vrclog/main.go, with the credentials that it generates:
--              Fresh is what it ensures, Login what it has and tells, Again about the next start.
--   Api        internal/api: Events is the query parser of events.go, with its round trip from
--              Client/Requests and the answer in Handler; Limiter is AuthFailureLimiter and Rate
--              RateLimiter of ratelimit.go; Hub is hub.go, with what its subscribers get in
--              Delivery; Stream is the replay of stream.go, which Replay relates to a page that
--              reconnects, and Open its loop over the hub; Token is sseauth/token.go, Auth is
--              auth.go, which issues them, and Guard the checks of middleware.go: Sources is about
--              the CSRF check in LAN mode, Streams about who may open a stream. Server is
--              server.go and static.go with the options of cmd/vrclog/main.go, in Serve: Wrapped
--              is about the routes, and Entry about who gets through, in LAN mode from the start
--              of the program on, and what is open.
--   Store      internal/store/events.go, row.go, cursor.go: the rows, the cursors and QueryEvents
--              over a database that runs the statement it builds; Codec has the round trips, Order
--              the order of the rows, Database what is asked of the database, Conditions what a
--              statement selects, Answers a query's answer, and Pages the chain of pages. Insert
--              is InsertEvent, and InsertParseFailure of parse_failures.go; Stats is stats.go up
--              to the handler, with its statements as data: Rows is what a database answers to
--              them, Picks what their limits leave, and Today relates it to the page.
--   Ingest     internal/ingest: the loop from the lines of the log to the store, and the callback
--              of cmd/vrclog/main.go that tells the state, the notifier and the hub. Table is what
--              becomes of one line, Replay about lines that come again, Once about what is told.
--   Notify     internal/notify: Payload is payload.go, Queue the coalescing of notifier.go, and
--              Loop its goroutine with backoff.go. `step` is one case of its select, or one call
--              from another goroutine. Sender is sender.go. Splits, Coalesce, Bounds, Progress,
--              Stuck, Disabled and Refused have the theorems.
--   Stats      web/src/pages/Stats.tsx: today's numbers; Shows is what the page shows.
--   Prelude    what these share. Tests has runs and the theorems at concrete inputs.
--
-- Times are natural numbers of nanoseconds since the zero time. Numbers that a user or a file sets
-- are integers, unbounded: Go's int and JavaScript's number are not exceeded by what the code
-- compares them with, 0 and 65535. A text is compared whole. A Go map is an association list, whose
-- order no theorem reads: the server lists its players in any order. A loop is a recursion on a
-- list, but for the split into payloads, whose fuel is the number of embeds and one, and a theorem
-- says that it is enough; Store.Pages.follow and the replay of a stream count their queries. The
-- channels of the hub and of the notifier are lists with the capacities of the code, 64 for both
-- and 16 for a subscriber. What goroutines do is one list of steps in any order; a step runs up to
-- the next receive or send.
--
-- Not modelled: the database, its migrations and its vacuum; the log watcher; the bodies of the
-- handlers that pass a use case's answer on, and a failure of JSON to write an answer; React's
-- markup and styles; the generated bundle under webembed/; locks, signals, paths and the operating
-- system. What the browser, SQLite and Go's libraries do (fetch, btoa, JSON, the clock, statements,
-- base64, hashes, random numbers, token buckets, parsing of times and numbers) is a parameter, an
-- argument of an action, or an outcome of an operation.
pub mod Api
pub mod Client
pub mod Config
pub mod Derive
pub mod Event
pub mod History
pub mod Ingest
pub mod Notify
pub mod Now
pub mod Prelude
pub mod Settings
pub mod Shell
pub mod Sse
pub mod Stats
pub mod Store
pub mod Tests
