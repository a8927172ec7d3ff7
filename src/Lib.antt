-- ===== src/Lib.antt =====
-- goedge-ip-cert: a manager of certificates for public IPv4 addresses. One process runs at a time for
-- one address: it finds the address's server in the GoEdge EdgeAPI, orders a certificate by ACME with
-- challenges that it writes into GoEdge's MySQL table, puts the certificate into the EdgeAPI, verifies
-- it by TLS, and keeps what it does in a SQLite file, so that the next run recovers what a crash left.
--
-- The parts and their files:
-- * internal/lifecycle/runner.go is Lifecycle: Model (Runner, Validate, the pure functions), Ensure
--   (ensureCreated, ensureUpdated, restoreOldCertificate), Operations (from the order to the active
--   certificate), Recovery (recoverOperations, recoverRollbacks), Run (RunOnce, runFirstIssue, DryRun).
--   A long method is split where it returns early, in the order of the source.
-- * internal/state is State: Model (model.go), Tables (the rows and each SQL statement), Store
--   (store.go), Challenges (challenge.go).
-- * internal/challenge is Challenge: Model, Provider, and MySql (mysql.go), with the schema in its child
--   Schema; internal/rollback/store.go is Rollback, with the JSON of a snapshot in its child
--   Encoding, over the objects of Json;
--   internal/certificate/verify.go is Certificate; internal/scheduler/policy.go is Scheduler;
--   internal/ipv4/validate.go is Ipv4.
-- * internal/goedge is GoEdge: Model (model.go), Api (the requests, and what encoding/json makes of the
--   answers), Client (client.go), Certificates (cert.go, policy.go), Servers (server.go). A run of the
--   lifecycle has these methods as parameters, which may answer anything.
-- * internal/security is Security: Redact, with the regular expressions as parameters, and Secret.
-- * internal/acme/account.go is Acme: the directory with the key and the metadata of the account.
-- * internal/bootstrap is Bootstrap: the database user with the least privileges and its credential.
-- * internal/config is Config, internal/lock/file.go is Lock, and cmd/goedge-ip-cert/main.go is Command:
--   what comes before a run, and the run itself with the runner that the command makes.
-- * Error has Go's error values, Action the methods that change state and may fail, and World what a
--   run works on: the tables, the rollback directory, the outside, and a history of the requests sent.
-- * Text has the parts of Go's strings package that the others use. Prelude has the integers, tests and
--   list functions that the others share.
-- * The proofs: Action.Keeps, Success, Returns and Ends have rules for actions; State.Moves, Statements,
--   Valid, Progress, Outcomes and Activation are about the tables; Lifecycle.Keeps, Tables, Sent, Placing,
--   Waiting, Dry, Journaled and Replacing are about whole runs; Scheduler.Retry and Renewal,
--   Certificate.Soundness, Rollback.RoundTrip, Ipv4.Canonical, Config.Accepted, Command.Safety,
--   Bootstrap.Grants and Cleanup, Acme.Files, Challenge.MySql.Ownership, Tasks, RoundTrip and Guard,
--   Security.Redact.Visible and GoEdge.Attempts, Discovery, Binding and Websites are about those
--   parts. Examples has concrete inputs.
--
-- The outside is a parameter, the record `World.Outside` over any state X: the clock, the EdgeAPI, the
-- ACME client, the TLS port, MySQL, the faults of SQLite statements and of file-system calls, X.509 and
-- SHA-256. It may answer anything and fail at any call; a statement that needs more of it has a
-- hypothesis that says so. Errors are values (`Action.Result`), and what was written before an error
-- stays written, except in a transaction, which puts the tables back.
--
-- Integers: ids, times and durations are `Prelude.Int.ℤ`; the doublings of RetryDelay wrap around as
-- int64 (`Scheduler.to_int64`), other sums are of times and small counters and are not wrapped. Every
-- loop of the source runs over a list or counts down, so no model needs fuel.
--
-- Simplified: the wording of errors; the context and its cancellation; a text column is its constructor
-- when its values are the constants of model.go; ACME's Obtain may change the journal of challenges in
-- any way and sends one order.
-- Not modelled: internal/acme/issuer.go, internal/tlsverify, the migration of the SQLite schema,
-- NewStore of internal/rollback, and cmd/goedge-ip-cert/management.go. They are met through `Outside` and
-- `Command.Setup`, where state.Open may change the tables in any way, or come before a run.
-- internal/testutil is for tests, the installer is a shell script.
pub mod Prelude
pub mod Error
pub mod Security
pub mod Text
pub mod Config
pub mod Action
pub mod Scheduler
pub mod GoEdge
pub mod Ipv4
pub mod Challenge
pub mod State
pub mod Certificate
pub mod World
pub mod Rollback
pub mod Lifecycle
pub mod Json
pub mod Lock
pub mod Command
pub mod Acme
pub mod Bootstrap
pub mod Examples
