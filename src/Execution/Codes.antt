-- ===== src/Execution/Codes.antt =====
-- The error tables of internal/execution: result codes (log.go), what may be retried and how OAuth
-- failures read (attempt.go), and what storage failures read as (execution.go).
use clan.Prelude.{
  Bool, true, false, ◌&&◌, ◌||◌, Option, none, some, [], if◌then◌else◌, is_some, Text, codes,
  text_eq,
}
use clan.Errors.{
  CtxError, canceled, deadline_exceeded, Category, invalid_request, account_problem, provider_limit,
  provider_failure, transport_failure, invalid_response, Failure, unauthorized, closed, no_accounts,
  unavailable, delivery, limit_reached, not_found, oauth_disabled, oauth_needs_sign_in,
  oauth_unavailable, Error, ctx, sentinel, failure, is_ctx, is, as_failure, as_validation,
  plain_failure, category_eq,
}

-- `string(failure.Category)`
abbrev pub category_text : Category → Text
category_text invalid_request = codes "invalid_request"
category_text account_problem = codes "account_problem"
category_text provider_limit = codes "provider_limit"
category_text provider_failure = codes "provider_failure"
category_text transport_failure = codes "transport_failure"
category_text invalid_response = codes "invalid_response"

abbrev failure_code : Error → Option Failure → Text
failure_code e (some f) = category_text f.category
failure_code e none =
    if is_some (as_validation e) then codes "invalid_request" else codes "unavailable"

-- `errorCode`; `none` is nil.
unfoldable pub error_code : Option Error → Text
error_code none = codes "completed"
error_code (some e) =
    if is_ctx canceled e
    then codes "canceled"
    else if is_ctx deadline_exceeded e
    then codes "timeout"
    else if is unauthorized e
    then codes "unauthorized"
    else if is limit_reached e
    then codes "concurrency_limit"
    else if is no_accounts e
    then codes "no_accounts"
    else if is closed e
    then codes "closed"
    else if is delivery e
    then codes "delivery_failed"
    else failure_code e (as_failure e)

-- `resultCode`: the terminal status of the provider's response, unless the request failed.
unfoldable pub result_code : Text → Option Error → Text
result_code status none = if text_eq status [] then error_code none else status
result_code status (some e) = error_code (some e)

abbrev retryable : Option Failure → Bool
retryable none = false
retryable (some f) =
    f.safe_to_retry
    && (category_eq f.category provider_limit || category_eq f.category account_problem)

-- `safeRetry`
unfoldable pub safe_retry : Error → Bool
safe_retry e =
    if is_ctx canceled e || is_ctx deadline_exceeded e then false else retryable (as_failure e)

-- `operationError`, from `ctx.Err()` and the storage error.
unfoldable pub operation_error : Option CtxError → Error → Error
operation_error (some c) e = ctx c
operation_error none e =
    if is_ctx deadline_exceeded e
    then ctx deadline_exceeded
    else if is_ctx canceled e
    then ctx canceled
    else sentinel unavailable

-- The failure of an account that cannot serve: another one may be tried.
abbrev pub account_failure : Error
account_failure = failure (plain_failure account_problem true)

-- `oauthFailure`
unfoldable pub oauth_failure : Option CtxError → Error → Error
oauth_failure (some c) e = ctx c
oauth_failure none e =
    if is oauth_disabled e || is oauth_needs_sign_in e || is oauth_unavailable e || is not_found e
    then account_failure
    else operation_error none e
