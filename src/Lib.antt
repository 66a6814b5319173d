-- ===== src/Lib.antt =====
-- Unified account centre: a model of the login, token and second-factor core of the service, and what
-- it guarantees.
--
-- The program is a Go service over MySQL and Redis. Login methods (internal/authenticator) verify a
-- request and yield an identity; the services (internal/service) decide what the identity may do, keep
-- their rows through the repositories (internal/repository) and their short-lived keys through the Redis
-- client (internal/pkg/redisx).
--
-- Prelude: tests, tables as lists of rows (Rows), tables whose rows are never deleted (Growth).
-- Errors: internal/pkg/errcode. An error is its code and the data sent with it; the texts are left out.
-- Model: the rows and constants of internal/model.
-- Text, Identity: internal/pkg/identity, phone numbers and addresses, with the text functions it uses.
-- Cache: the Redis commands of internal/pkg/redisx over the keys of one prefix; Window is its limiter.
-- World: the state of the service, and as `Env` what rests on other libraries: random draws, hashes,
--   TOTP, signing and parsing of tokens, captchas and OAuth providers.
-- Exec: actions on the state, which return a value or an error and keep what was written before an error;
--   a transaction is its BEGIN, COMMIT and ROLLBACK, each where the code has it. Inversion says what follows from the success of an action, Frame
--   which part of the state an action leaves alone.
-- Repo: the statements of internal/repository and the Redis calls of the services, with the fallback of
--   GetDelJSON to GET and DEL (Redis).
-- Auth: internal/authenticator: Otp, Password, OAuth2 and the registry of methods.
-- History: how the state may change; Rules and Stores have a rule for every way to build an action.
-- Service: internal/service: Apps (requireApp, audit), Risk, Roles, Mfa, StepUp, Passwords, Tokens
--   (issueTokens, Refresh, Logout, RevokeToken, Introspect), Users (resolveUser), Completion
--   (MFAComplete), Tenants (tenants and their quotas), OauthFlow (AuthorizeURL and the OAuth state), Login
--   (Challenge, Login), Binding (Bind, Unbind), Profile (the user's own account), Hosted (hosted login and
--   its codes), Merge (MergeStart, MergeConfirm, mergeUsers), Invites (invitations,
--   join requests, created users), AdminSession (AdminLogin). Steadiness places each of them under the rules of History. Traffic is any sequence
--   of the operations, with time and faults in between.
-- Webhook: internal/pkg/webhook, the bus: Emit, flushRetries and the deliveries, over a state of their
--   own; Runs is any interleaving of the statements of its goroutines.
-- Middleware: internal/middleware/middleware.go, the tests before the handlers.
-- KeyRing: internal/pkg/jwtutil, the ring of signing keys, its rotation and the published set.
-- Examples: the theorems at concrete inputs.
--
-- An operation is a function on the state. A command that MySQL, Redis or a gateway refuses is an entry
-- of `faults` that is true; a result that is about the absence of faults says so. Operations of several
-- clients are sequences of operations; two operations of the services that interleave their commands are
-- not modelled, the goroutines of the webhook bus that do so are.
-- Time is in seconds and does not move during one operation; random draws are numbered.
-- Go's integers in the configuration that are negative are read as zero, as every reader treats them.
-- Masks count characters where the code counts bytes, which is the same on ASCII. Scopes are a list
-- where the code joins them in the arbitrary order of a map. There is no recursion on fuel: every loop
-- goes over a list or counts down.
--
-- Not modelled: the rest of the administration of users, applications and roles, the handlers, single
-- sign-on by SAML and OIDC, and the MySQL and Redis servers themselves. Nor, since the code is input and
-- output or calls of other libraries: adapters, WebAuthn, configuration files, metrics,
-- messages, alerts and the publication of events by the services. The text of an error in an audit
-- record is left out.
pub mod Prelude
pub mod Errors
pub mod Model
pub mod Text
pub mod Identity
pub mod Cache
pub mod World
pub mod Exec
pub mod Repo
pub mod Auth
pub mod History
pub mod Service
pub mod Webhook
pub mod Middleware
pub mod KeyRing
pub mod Examples
