-- ===== src/Errors.antt =====
-- The error values that the packages pass around, with `errors.Is` and `errors.As` over them.
--
-- `Failure` is codex.Failure (internal/codex/client.go) and unwraps to its cause, a context error.
-- The other constructors are the packages' sentinels and error types; `join` is `errors.Join` of
-- two errors. A sentinel that storage wraps in a message is the sentinel.
use clan.Prelude.{ℕ, Bool, true, false, ◌||◌, Option, none, some, if◌then◌else◌, Text}
use clan.Retry.{Cooldown, unrestricted}

pub data CtxError : Type 0 where
  canceled deadline_exceeded : CtxError

pub data Category : Type 0 where
  invalid_request account_problem provider_limit provider_failure transport_failure
        invalid_response :
      Category

pub record Failure : Type 0 where
  pub category : Category
  pub http_status : ℕ
  pub safe_to_retry : Bool
  pub retry_after : Cooldown
  pub cause : Option CtxError

pub data Sentinel : Type 0 where
  unauthorized closed no_accounts unavailable delivery : Sentinel
  limit_reached catalog_unavailable catalog_closed eof invalid_body : Sentinel
  not_found conflict corrupt invalid : Sentinel
  oauth_closed oauth_disabled oauth_needs_sign_in oauth_unavailable : Sentinel

pub data Error : Type 0 where
  ctx : CtxError → Error
  sentinel : Sentinel → Error
  failure : Failure → Error
  validation : Text → Error
  too_large : Error
  network : Bool → Error
  other : Text → Error
  join : Error → Error → Error

abbrev pub ctx_eq : CtxError → CtxError → Bool
ctx_eq canceled canceled = true
ctx_eq deadline_exceeded deadline_exceeded = true
ctx_eq _ _ = false

abbrev pub category_eq : Category → Category → Bool
category_eq invalid_request invalid_request = true
category_eq account_problem account_problem = true
category_eq provider_limit provider_limit = true
category_eq provider_failure provider_failure = true
category_eq transport_failure transport_failure = true
category_eq invalid_response invalid_response = true
category_eq _ _ = false

pub Sentinel-discrete : Discrete Sentinel
Sentinel-discrete = hlevel

abbrev cause_is : CtxError → Option CtxError → Bool
cause_is c none = false
cause_is c (some d) = ctx_eq c d

-- `errors.Is` with a context error.
unfoldable pub is_ctx : CtxError → Error → Bool
is_ctx c (ctx d) = ctx_eq c d
is_ctx c (failure f) = cause_is c f.cause
is_ctx c (join a b) = is_ctx c a || is_ctx c b
is_ctx c _ = false

-- `errors.Is` with a sentinel.
unfoldable pub is : Sentinel → Error → Bool
is s (sentinel t) = elim (Sentinel-discrete s t) [ yes _ ↦ true | no _ ↦ false ]
is s (join a b) = is s a || is s b
is s _ = false

abbrev or_else {ℓ} : {A : Type ℓ} → Option A → Option A → Option A
or_else none b = b
or_else (some a) b = some a

-- `errors.As` with a `*codex.Failure`: the first in the tree.
unfoldable pub as_failure : Error → Option Failure
as_failure (failure f) = some f
as_failure (join a b) = or_else (as_failure a) (as_failure b)
as_failure _ = none

-- `errors.As` with a `*codex.ValidationError`.
unfoldable pub as_validation : Error → Option Text
as_validation (validation field) = some field
as_validation (join a b) = or_else (as_validation a) (as_validation b)
as_validation _ = none

-- `errors.As` with an `*http.MaxBytesError`.
unfoldable pub as_too_large : Error → Bool
as_too_large too_large = true
as_too_large (join a b) = as_too_large a || as_too_large b
as_too_large _ = false

-- `errors.As` with a `net.Error` that reports a timeout: the first in the tree decides, and
-- `context.DeadlineExceeded` is one that does.
unfoldable pub as_network : Error → Option Bool
as_network (network timeout) = some timeout
as_network (ctx deadline_exceeded) = some true
as_network (failure f) = elim f.cause [
  | none ↦ none
  | some c ↦ if ctx_eq c deadline_exceeded then some true else none
]
as_network (join a b) = or_else (as_network a) (as_network b)
as_network _ = none

-- `&codex.Failure{Category: c}`, safe to retry or not.
abbrev pub plain_failure : Category → Bool → Failure
plain_failure c safe = record {
  category = c;
  http_status = 0;
  safe_to_retry = safe;
  retry_after = unrestricted;
  cause = none;
}
