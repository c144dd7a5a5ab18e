-- ===== src/Lib.antt =====
-- A model of caddy-reverse-proxy's control plane, a gateway that keeps listeners, backend pools and
-- routing rules in a store, compiles them to routes, saves them to a JSON file, renders them as the
-- configuration of a Caddy server and loads that into Caddy. The core is backend/internal/routes,
-- backend/internal/caddy/config.go and backend/internal/reconcile; around them stand the atomic file
-- write, the middleware in front of the administration interface, the choice of Docker networks, and
-- the ring of log entries.
--
-- How the parts meet: the store of Routes gives Reconcile its routes and its revision; Reconcile
-- calls the renderer of Caddy on them and loads what it makes, and either commits the state of
-- the sync or restores the one before. Routes saves through Persistence. Model holds what all of
-- them share.
--
-- Files and what they model:
-- - Model: the records of backend/internal/model/model.go, with the fields that the code here reads.
--   Model/Config has those of the configuration, AppConfig.
-- - Persistence: backend/internal/persistence/json.go, WriteJSON. A `Disk` is the target and the
--   temporary file beside it; an argument says which step of the operating system fails, if any.
-- - Routes: backend/internal/routes/store.go and resources.go.
--   - Validate, Normalize, Listeners, Pools, Rules: validate*, normalize* and the *Locked functions on
--     one list. Compile: rebuildRoutesLocked. Store: Store, storeSnapshot, fileFormat, saveLocked,
--     snapshotLocked, restoreLocked. Commit: commitLocked, MarkApplied, PersistStaged. Operations: the
--     methods on listeners, pools, rules and resource sets. Runtime: SetRuntimeStatus. Compat: Add,
--     Replace and Delete of routes. Load: Load and its migration of the older file versions.
--   - A method is a function from a `World`, the store and the file at its path, to a result and the
--     world after it. It runs under the store's mutex from start to end, so calls are steps in some
--     order. Calls: every method as a case of `Method`, `run` for one call, `run_all` for a list.
--   - Invariant: what the store keeps true, and that each change keeps it. Calls: the theorems on
--     methods.
-- - Caddy: backend/internal/caddy/config.go. The module Caddy has a record or a data type for each
--   kind of JSON object that Render writes. Matchers: routeMatch, the path matchers and
--   intersectPathPrefixes. Policies: the tokens and headers that open a protected route. Handlers: the
--   access log, the limit of the body, headers and the reverse proxy. Entries: renderRoute and
--   renderSecurityEntries. Servers: the servers by address, listen addresses, and the hosts that a
--   wildcard certificate covers. Tls: tlsAutomation. Render: Render with its redirects, and
--   Render/Order the order of the routes.
-- - Reconcile: backend/internal/reconcile/reconciler.go. A sync has two parts. Prepare, Restore and
--   Sync: the first part, under its mutex, which renders, loads and commits, or restores what was there
--   before. Checks: the second part, the health checks and Azure. Run: the ways to ask for a sync, and
--   the loop of Run. System: syncs that overlap, as a step relation.
-- - Auth: backend/internal/auth/auth.go.
-- - Docker: backend/internal/docker/network.go.
-- - Logs: backend/internal/logs/store.go. Logs is the ring (Add, ReadLast) and Queue the bounded queue
--   that it holds; Writer is lineWriter. The length of an entry's JSON and parseEntry are arguments.
-- - Text, Common: Go's strings functions on lists of bytes (HostPort: net.SplitHostPort and
--   net.JoinHostPort), and lists, integers, results and a state monad with errors, with their laws.
--
-- Choices and bounds:
-- - Texts are ASCII, where Go's byte, rune and Unicode functions agree. Ports and versions are
--   integers of any size, as their checks bound them; a revision is a uint64 and wraps at 2^64, and so
--   does the generation of the reconciler.
-- - A float64 of the configuration is a dyadic number with a sign, or not a number.
-- - A Go map is a list of pairs in the order that a range over it gives, which is any.
-- - Every loop of the source runs over a slice and is structural recursion on its list, but for
--   three with fuel: `itoa` has the number plus one, at least its count of digits; the eviction loop of
--   the log store has the count of entries, one less each turn; Write has the count of bytes, at least
--   one less each turn.
-- - A reading of the clock is an argument, numbered in the order of the calls of time.Now in a method.
-- - net.ParseIP, net.ParseCIDR and url.Parse are the fields of `Std`, a parameter; nothing is assumed
--   of them.
-- - What Caddy does with its matchers is a parameter: the theorems on requests name what Caddy
--   documents of them as hypotheses, that a matcher accepts what all its keys take, and that a path
--   pattern ignores the case of letters.
-- - A write to disk fails in one step at most; the removal of its temporary file does not fail.
-- - What Caddy, Docker, Azure and the health checker answer in a sync is an argument of the sync.
-- - JSON itself is not modelled: a file holds a `FileFormat` or something that does not decode. A field
--   with the tag "-" is dropped on writing.
-- - Clones keep callers from sharing slices with the store; the values here are never shared, so the
--   clones and the plain accessors have no definition.
--
-- Not modelled: reading and checking the configuration, the HTTP handlers, the Azure manager,
-- the archive and the inspector of certificates, Docker's discovery, health probes, the
-- processes of Caddy, and the audit log. Most of it is I/O around calls of the modelled parts.
pub mod Auth
pub mod Caddy
pub mod Common
pub mod Docker
pub mod Logs
pub mod Model
pub mod Persistence
pub mod Reconcile
pub mod Routes
pub mod Text
