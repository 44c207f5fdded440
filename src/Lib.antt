-- ===== src/Lib.antt =====
-- DevicePulse is a fleet monitor: agents on the machines collect telemetry and send it to an API
-- server, which stores it in MongoDB, serves a dashboard, sends remote commands back to the agents
-- and rolls out agent releases. This library models the server's own logic in api/main.go,
-- api/app_names.go and api/telemetry_slim.go, and of the agent the queue of unsent telemetry in
-- agent/queue/queue.go, its upload and the registration in agent/main.go, the guard of the
-- collectors in agent/guard.go, the focus tracker in agent/collector/active_window.go, and the
-- remote commands with the quarantine of the host in agent/commander.
--
-- The parts and their files. Prelude holds the shared lists, tests, maps and texts, Go the
-- functions of Go's strings and sort packages that the code uses. Db is the MongoDB driver as a
-- record of operations with their documented laws; Db/Removal adds the operations that delete and
-- upsert. Db/InMemory is an instance of the driver, with which the examples run, and Db/Removal
-- holds that of its own operations. Http is the shape of a handler: a chain of checks, each of
-- which may refuse with a status, and the value that the chain ends with.
--
-- RateLimit is the fixed-window limiter (`rateLimiter`, `Allow`, `Blocked`, `Reset`, and the
-- janitor of `newRateLimiter` as one step), with proofs in RateLimit/Passed, Window and Janitor.
-- Activity/AppNames is `displayAppName` and `isVisibleAppUsageName`; Activity/Sessions is
-- `mergeActivitySessions` and `normalizeActivitySessions`; Activity/Presence is `presenceWindows`
-- and `clippedActivitySessionsForPresence`; Activity/Summary is `summarizeActivitySessions`;
-- Activity/Focus is the focus cache; Activity/Lease is the lease that admits one active-window
-- collector of a device, with proofs in Activity/Lease/Holder. The proofs on these are in
-- Activity/Chain, Coverage, Shown, Day, Clipped and Focus/Totals. Telemetry is the choice between a
-- full and a slim document in api/telemetry_slim.go, with proofs in Telemetry/Snapshots.
--
-- Access is the roles and the rules on changing them; Access/Users is the handlers that change a
-- user; Access/Login is `authLoginHandler`, on the limiter of RateLimit, with proofs in
-- Access/Login/Sound and Guesses; Access/Bootstrap is `authRegisterHandler` as steps between which
-- other requests run, with proofs in Access/Bootstrap/Turns and Exclusion; Access/Sessions is the
-- session tokens, `requireAuth` and `requireRole`. The proofs are in Access/Ids, Governed, Admins,
-- Tokens and SignOut. Commands is the data of the remote commands, Commands/Devices the writes to
-- device documents with `resolveAPIKey`, which the update check uses too, Commands/Handlers the
-- handlers from creation to result and Commands/Enrolment the registration of a device
-- (`registerHandler`), with proofs in Commands/Enrolment/Admitted, and Commands/Deletion its
-- removal (`deviceDeleteHandler`, `createDeviceRevocation`, `revocationClearHandler`), with proofs
-- in Commands/Deletion/Shut and Erased; the proofs are in Commands/Lifecycle, Once and Rights.
-- Releases is the data of the agent releases, Releases/Publishing their publication, activation and
-- signing, Releases/Checks the update check, Releases/Rollout the rollout to the fleet and
-- Releases/Versions the order of versions; the proofs are in Releases/Agreement, Order, Offers,
-- Activation and Rollout/Greatest.
--
-- Policy is the fleet policy (`normalizePolicy`, `policyHandler`, its saves, its loading at the
-- start and `currentRetentionDays`), with proofs in Policy/Settings, and in Policy/Stored over
-- requests, saves and restarts.
--
-- Queue is the agent's SQLite queue, with proofs in Queue/Order and Queue/Cap. Agent/Sync is a
-- round of `syncEngine` over that queue: it takes a batch, uploads it, registers again after a 401
-- and marks what is sent; the proofs are in Agent/Sync/Delivery and Drain. Agent/Registration is
-- `registerDeviceWithCache`, with proofs in Agent/Registration/Cached. Agent/Tracker is
-- `ActiveWindowTracker`, with proofs in Agent/Tracker/Measure and Credit. Agent/Guard is
-- `collectGuard` of agent/guard.go as steps in any order, with proofs in Agent/Guard/Alone.
-- Agent/Firewall is the isolation of a Linux host by iptables, with proofs in
-- Agent/Firewall/Release, Chain and Isolation; Agent/Quarantine is `Execute` and the deadline of a
-- quarantine over that firewall, with proofs in Agent/Quarantine/Deadline, whose step relation has
-- commands, time, the timer and restarts, and in Agent/Quarantine/Vain. Tests runs the models on
-- small inputs.
--
-- How the code is read. An instant or a duration is a natural number, of nanoseconds where the code
-- uses time.Time and of seconds in tokens and in the queue; the zero time is 0, and the clock's
-- readings are arguments. A text is its list of code points, and case folding is ASCII. A number of
-- the policy, a float64 in the code, is a value of a type with an order and conversions, which the
-- model takes as an argument. It may be a NaN, of which no conversion is known. Another duration in
-- seconds, a float64 too, is its number of nanoseconds without rounding and without the overflow of
-- time.Duration. A map is an association list. A handler takes its state and returns its reply and
-- the new state; handlers are served one after another, as the database does with single
-- operations, so interleavings within one handler are covered only for the first registration. A
-- database call that fails leaves its collection as it was. Loops are structural recursion, and the
-- loop of `commandsPendingHandler` runs over the 20 readings of the clock that it makes at most; no
-- definition needs fuel; the number of rounds of the sync engine is an argument. The answers of the
-- network, of iptables and of the disk are functions of what has been asked so far, so that the
-- same request may fail once and succeed later.
--
-- Not modelled: JSON, base64, bcrypt, iptables, HMAC, Ed25519, SQLite and MongoDB themselves
-- (parameters, where a definition calls them), HTTP routing, cookies and response encryption, S3
-- archives, telemetry ingest but for the lease, the collectors but for the focus tracker, the
-- quarantine on Windows and macOS, and everything that calls the operating system.
pub mod Prelude
pub mod RateLimit
pub mod Go
pub mod Activity
pub mod Db
pub mod Http
pub mod Access
pub mod Agent
pub mod Commands
pub mod Policy
pub mod Queue
pub mod Releases
pub mod Telemetry
pub mod Tests
