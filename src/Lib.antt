-- ===== src/Lib.antt =====
-- vault42, a self-hosted authentication server: a model of the parts that decide who holds a
-- session, what is counted against a caller and who may do what, with the theorems that make them
-- correct.
--
-- The parts and the files that model them:
--   * Session: refresh tokens. Session/Store is the table of internal/repository/postgres/
--     refresh_token.go: one function per statement, on the list of its rows. Session/Tokens is the
--     issuance in internal/service/token.go. Session/Refresh is the rotation in
--     internal/service/auth.go: Refresh with its steps in the order of the source, Logout, the
--     session cap and the storage of a login's row. The service runs in Session/World, where the
--     store is a state, the audit log is a list and each statement may be refused or lost.
--     Session/Store/Reap has the sweeps of expired rows, in batches of 2000 for 20 rounds.
--     Session/Store/Listing is ListActiveFamilies, the sessions that a user is shown.
--     Session/Store/Statements lets other requests run statements in between.
--     Session/Auth is the way in, over the same world and a cache: Session/Auth/Login is Login,
--     Session/Auth/Challenge is CompleteMFALogin, Session/Auth/Otp is the code by email, and
--     Session/Opening is the end that the first two share (the device, the claims, the pair and its
--     row). Session/Store/Accounts has the statements on users, devices and counter windows
--     (user.go, device.go, rate_limit.go of the same directory).
--     Session/Password is the reset and the change of a password and the mailed links
--     (internal/handler/password.go, VerifyEmail of auth.go there, and sendResetLink and
--     sendVerificationEmail of internal/service/auth.go), over the same state;
--     Session/Store/Passwords has its statements.
--   * Mfa: internal/service/mfa.go, the factors of an account and the assurance level of a login.
--   * Cache: internal/cache/memory.go, one function per method of the cache, at an instant.
--   * Alert: internal/alert/detector.go, the windowed counters over security events.
--   * RateLimit: internal/middleware/ratelimit.go, the fixed-window limiter and its in-memory
--     fallback, given what the cache's Increment answered.
--   * ClientIp: the address that a request is counted under, in the same file of the source.
--   * IpAccess: internal/middleware/ipaccess.go, the address and country lists over that address.
--   * IpIntel: internal/ipintel, the table of countries, hosting and Tor ranges: IpIntel is the
--     lookup, IpIntel/Format the file that Marshal writes and IpIntel/Decode how it is read.
--   * Outbound: internal/outbound/outbound.go, the destinations that a discovery document, a redirect
--     or a resolver's answer may lead to.
--   * DeferWork: internal/deferwork/deferwork.go, the pool of workers and its shutdown.
--   * Keystore: internal/keystore/keystore.go, the signing keys in use: which rows of the table a
--     refresh publishes, revocation and cleanup.
--   * Lockout: the account lockout and the login delay of internal/service/auth.go, over any
--     implementation of the cache interface.
--   * Bridge: cmd/bridge/state.go, the store of flagged addresses and what it keeps in Redis.
--   * Rbac: internal/rbac/rbac.go, the roles and permissions of the admin plane.
-- Common holds what they share: Boolean tests, lists, string-keyed maps and results.
--
-- Instants and durations are nanoseconds as natural numbers, the instant 0 is Go's zero time. A
-- machine integer that can wrap is written with its modulus. Each loop goes through a list or counts
-- down; the sweeps count their 20 rounds down, as the source does, and the binary search counts as
-- many rounds as the table has ranges, which are enough since each round shrinks the interval.
--
-- Parameters: the hash, the signer, the fingerprint, the thumbprint of a validated DPoP proof, random
-- draws, the filter of roles, the database's order on text (of which nothing is assumed), what
-- Sscanf reads from a text, strconv, which is assumed to parse what it prints, VerifyPassword with its
-- outcomes, HashPassword with its outcomes, IsBreached, the signature of an email code, the parser of
-- an address and its classes, the parser of a URL, the resolver, the dial, the encryption and format of keys, and what Redis answers.
--
-- Work that the source hands to deferwork.Go is queued in the model and not run, and a planted
-- (honeypot) account is not set up.
--
-- Not modelled: HTTP handlers, configuration, mail, migrations, the admin API, the import and
-- rotation of keys and the other services; the delivery of an alert to its sink. A
-- transaction is one step: that its locks make it one is the database's promise.
pub mod Common
pub mod Alert
pub mod Cache
pub mod Mfa
pub mod Outbound
pub mod Session
pub mod Rbac
pub mod ClientIp
pub mod RateLimit
pub mod DeferWork
pub mod IpAccess
pub mod IpIntel
pub mod Keystore
pub mod Lockout
pub mod Bridge
