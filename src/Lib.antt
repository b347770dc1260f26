-- ===== src/Lib.antt =====
-- ForgeBase is a panel and a server for PostgreSQL projects, written in Go: one process, `pgforged`
-- (pgforge/), signs people in, hands out database projects, and serves each project's APIs on its own
-- host name. This library models the parts of it that decide something, as functions on explicit
-- state, and proves what makes them correct. SQL tables and Go maps are lists of rows and association
-- lists, a handler takes the request together with what its environment answers and returns the new
-- state and its reply, and time is an argument.
--
-- The parts, each a module of this name with the modules below it:
--
-- Limiter - the login limits of pgforge/main.go and pgforge/auth.go: `rateLimited` is `rate_limited`,
-- `recordAttempt` is `record_attempt`, `acctLocked` is `acct_locked`, `recordAcctFail` is
-- `record_acct_fail`, `authRateLimited` is `auth_rate_limited`, `loginSurge` is `login_surge`, and a
-- tick of `startRateLimitPruner` is `prune`. `Trace` has runs of these calls, `History` and `Lockout`
-- compare them with logs of everything that was ever recorded, `Surge` is about the alert.
--
-- Storage - pgforge/storage.go and pgforge/storagerules.go: `Path` has `safeRel` and the other
-- functions on texts, `Bucket` the rows and files of one project with its limits, quota and rules,
-- `Objects` the upload, download, delete and public read, `Signed` the tokens of `signedURL` and
-- `storageSignUpload`. `PathSafety`, `Rules`, `Uploads`, `Guarantees`, `Tokens` and `Binding` prove.
-- The verification of a JWT and the HMAC are parameters. `Panel` has the panel's handlers for buckets,
-- rules, the quota, uploads, deletions, copies and moves, `Listing` has `storageListAPI`; `Agreement`,
-- `Transfers`, `Removal`, `Runs`, `Levels` and `Listed` prove about them.
--
-- Resumable - pgforge/tus.go on top of Storage: `serve_tus` is `serveTUS`, `prune_stale` is
-- `pruneStaleTUS`. `Outcome` reduces a request to a step relation, which `Landing` follows; `Chunks`
-- is about the branch of `PATCH`.
--
-- DataApi - the pool of PostgREST processes of pgforge/api.go: `alloc_pgrst_port`,
-- `ensure_postgrest` with `give_up` behind its wait, `stop_postgrest`, `touch` and `reap_postgrest`
-- are the functions of these names, each an atomic step under the pool's mutex. `Ports` has the
-- invariant, `Runs` the interleavings, `Scan` the search.
--
-- Refresh - the refresh tokens of pgforge/authusers.go: `issue_tokens` is `issueTokensAAL`,
-- `handle_refresh` is `handleRefresh`, `logout` the endpoint of this name.
--
-- Auth - the accounts of end users, pgforge/authusers.go and pgforge/authmfa.go: `SignIn` has the cases
-- of `serveAuth` for sign-up, passwords, links, recovery and invitations, `OneTime` those for codes by
-- email and text message, `Factors` has `serveAuthMFA`, `Links` the signed tokens of pgforge/oauth.go
-- and pgforge/email.go, `Admin` the administration of users, `Settings` the form of the settings,
-- `Accounts` the tables, `Handlers` and `Calls` the calls that change who the users are, held to the
-- interface of `Rows`. A session is opened by `issue_tokens` of Refresh, a code is checked by
-- `totp_verify` of Panel. The libraries' functions are the fields of `Crypto`.
--
-- Panel - pgforge/auth.go and pgforge/totp.go: session cookies, the token between the password and
-- the code, the codes (`totpAt`, `totpVerify`), and in `Login` the handlers `loginSubmit` and
-- `totpSubmit`, which call the Limiter.
--
-- Realtime - pgforge/realtime.go: the guards of `serveRealtime`, the three phases of `broadcast`, and
-- the hub with its reapers.
--
-- Queues - pgforge/queues.go: `Tables` has the SQL functions `queue_send`, `queue_read`,
-- `queue_delete_msg` and `queue_archive`, `Panel` the panel's handlers. `Mailbox` has runs of the
-- operations on one queue's table, which `Abstract` compares with a queue that knows of no locks;
-- `Leases`, `Delivery` and `Redelivery` are about visibility timeouts, `Collision` about the names of
-- tables.
--
-- WarmPool - the pool of pgforge/edgewarm.go: `warm_proxy` is `warmProxy`, `warm_reaper` a tick of
-- `warmReaper`, `die` the end of a process.
--
-- Webhooks - pgforge/webhooks.go: `fire_webhooks`, `deliver_webhook`, `log_delivery`,
-- `replay_delivery` and `create_webhook` are the functions of these names.
--
-- Update - `semverLess` of pgforge/update.go and `graphqlDepth` of pgforge/api.go.
--
-- Common - lists, texts, decimal numbers and maps that the parts share.
--
-- Bounds and fuel: numbers are natural; where the code parses an `int64`, the parsed value is an
-- integer in range, and a theorem that formats a time assumes that it fits. `format` has fuel `suc n`
-- for `n`, more than its digits. The loop of `allocPgrstPort` has fuel 62000, one round for each port
-- from 3001 to 65000; the eviction of the warm pool has one round for each process, and each round that
-- goes on takes one away; its scan has the 500 rounds of the code, and a delivery its five attempts.
-- Everything else is recursion on its input.
--
-- The SQL functions and the handlers run one transaction at a time, and the serial and the counters of a
-- queue are natural numbers; a lease and a limit that a client gives are not negative.
--
-- Not modelled: access tokens and their signatures, SQL beyond the rows above, processes and sockets,
-- the S3 protocol (its outcome is an input of uploads), response headers, the pages, the shell
-- scripts, and the parts of the panel that only build SQL statements or run commands. Texts are bytes,
-- and the functions on letters and white space are those on ASCII.
pub mod Auth
pub mod Common
pub mod DataApi
pub mod Limiter
pub mod Panel
pub mod Queues
pub mod Realtime
pub mod Refresh
pub mod Resumable
pub mod Storage
pub mod Update
pub mod WarmPool
pub mod Webhooks
