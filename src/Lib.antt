-- ===== src/Lib.antt =====
-- The RFO protocol engine (src/ of the repository, in Rust): sites are compiled to payloads, cached
-- and served over HTTP and over a native binary transport, to clients that are limited, authenticated
-- and logged.
--
-- Base          names, lists, results, numbers and text that the other modules share
-- Payloads      src/rfo_protocol.rs: the payload records; `Json`, which stands for serde_json
-- Binary        src/binary.rs: header, CRC-32, serializers, deserializers, BinaryStreamReader
-- Resolver      src/opt_resolver.rs: OptResolver, the registry of .opt domains
-- Limits        src/server/middleware.rs (RateLimitState) and src/audit.rs (DdosProtection)
-- Cache         src/cache/mod.rs: RfoCache
-- Transport     src/transport.rs: read_frame, write_frame, handle_connection, NativeClient
-- Auth          src/auth.rs: ApiKeyStore and the middleware that asks for keys
-- Ring          the ring buffers of src/telemetry.rs and src/audit.rs
-- Telemetry     src/telemetry.rs: TelemetryTracker
-- Audit         src/audit.rs: AuditLogger
-- Domain        src/domain.rs: RfoDomain and the metadata records
-- Protocol      src/protocol.rs: versions, encodings and the records of messages
-- SiteId        src/crypto/site_id.rs: site identifiers and the freshness of handshakes
-- Crypto        src/crypto/mod.rs: RfoCrypto
-- Parser        src/parser.rs: parse_markdown, parse_html, coordinates and questions
-- Compiler      src/compiler.rs: the payloads of a page and its quality score
-- WebSocket     src/server/websocket.rs: WsManager and the sessions of web sockets
-- Handlers      src/server/handlers.rs: AppState, the handshake, the batch and the reads
-- Pipeline      src/pipeline.rs: pages, sites and their statistics
-- CoreFile      src/core_file.rs: the core file of a site, with what it aggregates
-- Client        src/client.rs: RfoClient, its retries and the calls that use them
-- Tests         the theorems at concrete inputs, and runs of definitions
--
-- A struct is a record and an enum a data type with the source's constructors. A method that takes
-- `&self` and changes what is behind a lock, a DashMap or an atomic returns the new state. Each call is
-- one step where the source holds the lock or the entry for its length. `get` of the cache does not: the
-- removal of an expired entry is a second step (`Cache.Steps`), and `Cache.get` is both without another
-- call between them. The task that `log` of the audit logger spawns is a step of its own, and a cleanup,
-- which takes the entries one after the other, is one step. A map is an association list,
-- whose order stands for the order of iteration, which the source does not fix. The clock is an
-- argument, in nanoseconds, or in seconds where the source has seconds. `Outcome` is `Result` with a
-- third case for code that panics. Counters of u32, u64 and usize wrap as in a release build. Text is a
-- list of code points; `to_lowercase` is that of the letters A to Z. Averages and ratios are kept as
-- their two numbers.
--
-- The transport calls the binary format for headers and checksums, and the resolver for its answers;
-- frames, resolver and clock meet in `serve_frame`, one turn of the loop. The loop is on fuel. A
-- frame takes fifteen bytes or more from the stream, so fuel above the number of incoming bytes is
-- enough.
--
-- A handshake goes from the request through the cache or, by the parser and the compiler, from the
-- fetched page into the cache, the telemetry and the database (`Handlers.Handshake`). In a batch each
-- handshake is a task of two steps, before and after it awaits the web, and a schedule is the order in
-- which the steps of all tasks run; the awaits of the database are not split.
--
-- The client of the HTTP interface is apart from the server: what becomes of a request at each attempt
-- is a function that stands for the web. Its loop is recursion on the attempts that are left.
--
-- serde_json, hashes, HMAC, hex, scraper, regex, the HTTP client, chrono's formatting and the lossy
-- reading of UTF-8 are parameters; where a theorem needs that JSON is read back, it is a hypothesis on
-- the values at hand (`Written`, `Requested`). A tokio broadcast channel is a number and a list of what
-- was sent, and the database a list of the statements it was handed. Not modelled: sockets, logging,
-- HTTP routing and CORS, constant responses, the server's listing of sites, the walk of a directory,
-- the administration, the command line, the start of the server, the bindings and
-- SDKs, and the parts not named above.
pub mod Base
pub mod Payloads
pub mod Binary
pub mod Resolver
pub mod Limits
pub mod Cache
pub mod Ring
pub mod Telemetry
pub mod Audit
pub mod Auth
pub mod Transport
pub mod Domain
pub mod Protocol
pub mod SiteId
pub mod Crypto
pub mod Parser
pub mod Compiler
pub mod WebSocket
pub mod Handlers
pub mod Pipeline
pub mod CoreFile
pub mod Client
pub mod Tests
