-- ===== src/Lib.antt =====
-- Verification of CLAN, a gateway that shares Codex accounts between clients with access keys.
--
-- A client sends a request with an access key. The executor authenticates the key, takes one of the
-- key's slots from the limiter, and opens a stream on one of the accounts: the selector says whose
-- turn it is, the store and the OAuth manager say whether the account may serve, and the Codex
-- client says how the provider answered, which may be a failure that another account can make good.
-- Management revokes keys and disables accounts while requests run.
--
-- Files, and the code each is about:
--   Concurrency, Concurrency/*   internal/concurrency/limiter.go (TryAcquire, Release)
--   Selection, Selection/*       internal/selection/round_robin.go (Select)
--   Retry, Retry/*               internal/retry/retry.go (ParseRetryAfter)
--   AccessKey, AccessKey/*       internal/accesskey (New, Generate, Hash)
--   Account                      internal/account/account.go, internal/usage/usage.go
--   Errors                       the error values that errors.Is and errors.As tell apart
--   Codex/Client                 internal/codex/client.go (Client.do, httpFailure, quotaReset)
--   Codex/Request                internal/codex/request.go (ValidateModel)
--   Codex/Json, Parse, Parse/*   internal/codex/request.go (ParseRequest) on decoded JSON values
--   Codex/Controls               internal/codex/controls.go (tools, reasoning, text)
--   Codex/Input, Input/*         internal/codex/input.go (validateInput, validateContent)
--   Codex/Catalog, Catalog/*     internal/codex/catalog.go (SetAccounts, Snapshot, refresh, Close)
--   Codex/Stream, Stream/*       internal/codex/stream.go (Next, terminal, finish, Close)
--   Storage, Storage/Keys        internal/storage/storage.go and accesskey.go, as a list of rows
--   Execution/Codes              internal/execution/log.go and the error tables of the package
--   Execution/Attempt            internal/execution/attempt.go (open, selectAccount, prepare)
--   Execution/Candidates         which accounts of the catalog may serve a request
--   Execution/Choice, Retries, Prepared   what the choice of an account and the retry loop guarantee
--   Execution/Upstream           which upstream answers are retried, and until when accounts wait
--   Execution/Requests           internal/execution/execution.go, stream.go and management.go
--   Execution/Revocation, Revoked, Slots   invariants of every history of events
--   Storage/Accounts, Accounts/*  internal/storage/account.go, as a map from IDs to rows
--   OAuth, OAuth/Complete        internal/codexoauth/client.go (Exchange, Refresh, requestToken)
--   OAuth/Refresh, Refresh/Jobs  internal/codexoauth/manager.go (current, CurrentAccount, refresh)
--   Refresh/Status, Steps        its statusLocked, and its critical sections in any order
--   Refresh/Sound, Single, SignedOut, SignIn, Answers, Progress   what the states guarantee
--   Storage/Requests, Requests/*  internal/storage/requests.go, internal/app/retention.go
--   Management, Management/*     internal/management/usage.go (listRequests and its cursors)
--   Login, Login/*               internal/codexoauth/login.go (StartLogin, CancelLogin, callback)
--   Gateway, Gateway/Statuses    internal/gateway/errors.go (classify, safeField)
--   Prelude, Prelude/*           lists, texts, maps and numbers; Tests/* has concrete runs
--
-- A Go string is the list of its bytes, and a Go map is an association list that is read by its
-- first match; `range` over a map is taken in the list's order. A method that holds a mutex is one
-- step; what happens between steps is a list of events in any order. Functions and their state:
-- `try_acquire` is TryAcquire with the Limiter as an argument and a result, `Once` is the sync.Once
-- of a slot, `State` is what the mutex of an Executor guards together with the rows of the store,
-- `Event` is a call or an effect of one.
--
-- Bounds and fuel: the loop of `open` runs on the number 3 of its source, and the digits of an index
-- on the index, and all other recursion is structural, except for the loop of pruneRequests, which
-- has the number of its rounds as fuel: one for every thousand expired records and one more is
-- enough. Counts and lengths are unbounded, since they count slots and list items. A time is the
-- number of nanoseconds since Go's zero time. ParseRetryAfter has its own bound on seconds, which is
-- modelled with the cutoffs of strconv.ParseUint; the revision of the OAuth manager is a uint64.
--
-- Parameters: base64, url.Parse and the claims in a token; the encryption of credentials (`encrypt`,
-- `decrypt`), http.ParseTime (`http_date`), sha256.Sum256 (`sha256`) and the random secret of
-- Generate; what the store, the OAuth manager, the Codex client and the context answer in each round
-- of the retry loop; what a fetch of models answers (`fetch`); the parsing of times, the hash of a
-- filter and the encoding of cursors; the length of an output item's text; when a request is
-- cancelled by its client.
--
-- Not modelled: HTTP handling, the encoding of JSON, SQL and encryption; the summaries of usage and
-- the migrations, which are SQL text; the waiting of goroutines for each other, so a cancelled
-- request is only marked as cancelled; log records; configuration and the wiring of the program.

pub mod Prelude
pub mod Concurrency
pub mod Selection
pub mod Retry
pub mod AccessKey
pub mod Account
pub mod Errors
pub mod Codex
pub mod Storage
pub mod OAuth
pub mod Execution
pub mod Login
pub mod Management
pub mod Gateway
pub mod Tests
