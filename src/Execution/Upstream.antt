-- ===== src/Execution/Upstream.antt =====
-- Which upstream answers are retried (internal/codex/client.go and execution/attempt.go).
use clan.Prelude.{
  ℕ, ◌≡◌, refl, Bool, true, false, not, ◌&&◌, ◌||◌, Option, none, some, arith, ◌==◌, is_some, Text,
  codes,
}
use clan.Retry.{Time, is_empty}
use clan.Account.{OAuthCredentials, validate_credentials}
use clan.Codex.Client.{
  QuotaBody, http_failure, response_failure, Context, safe_failure, Sent, send_failed, answered,
  answer_failure, do_request,
}
use clan.Errors.{
  CtxError, canceled, deadline_exceeded, account_problem, transport_failure, Error, failure, other,
  is_ctx, as_failure, plain_failure,
}
use clan.Execution.Codes.{safe_retry}

-- Whether the context of a read has ended, by an error or by a cause that is a passed deadline.
abbrev pub has_ended : Context → Bool
has_ended c = is_some c.err || c.cause_deadline

-- Whether an error of `Client.do` moves a request on to another account.
abbrev pub moves_on : Option Error → Bool
moves_on none = false
moves_on (some e) = safe_retry e

-- An answer that refuses one account alone, and whose body was read in time.
abbrev pub refuses_account : Sent → Bool
refuses_account (send_failed c e) = false
refuses_account (answered status header body received c) =
    (status == 401 || status == 403 || status == 429) && not (has_ended c)

safe_retry-answer_failure :
    (http_date : Text → Option Time) (status : ℕ) (header : Text) (body : Option QuotaBody)
    (received : Time) (c : Context)
    → safe_retry (failure (answer_failure http_date status header body received c))
      ≡ ((status == 401 || status == 403 || status == 429) && not (has_ended c))
unfolding safe_retry http_failure answer_failure safe_failure is_ctx as_failure
safe_retry-answer_failure http_date status header body received c = go c.err refl
  where
    go :
        (o : Option CtxError)
        → c.err ≡ o
        → safe_retry (failure (answer_failure http_date status header body received c))
          ≡ ((status == 401 || status == 403 || status == 429) && not (has_ended c))
    go none p = ground (arith, p)
    go (some canceled) p = ground (arith, p)
    go (some deadline_exceeded) p = ground (arith, p)

safe_retry-send_failed :
    (c : Context) (e : Error)
    → safe_retry (failure (safe_failure c transport_failure 0 (some e))) ≡ false
unfolding safe_retry safe_failure as_failure
safe_retry-send_failed c e = ground arith

safe_retry-response_failure :
    (code : Text) (status : ℕ) → safe_retry (failure (response_failure code status)) ≡ false
unfolding safe_retry response_failure as_failure
safe_retry-response_failure code status = ground arith

safe_retry-account_failure : safe_retry (failure (plain_failure account_problem true)) ≡ true
unfolding safe_retry is_ctx as_failure
safe_retry-account_failure = refl

safe_retry-other : (message : Text) → safe_retry (other message) ≡ false
unfolding safe_retry is_ctx as_failure
safe_retry-other message = refl

-- A request that the client could not send, or that the provider answered, moves on to another
-- account exactly in two cases: the account's own credentials are incomplete, or the answer has the
-- status 401, 403 or 429, which refuse this account alone, and the context under which its body was
-- read has not ended. An error in a response that has begun never moves it on.
pub moves_on-do_request :
    (http_date : Text → Option Time) (base_url : Text) (credentials : OAuthCredentials)
    (sent : Sent) (code : Text) (status : ℕ)
    → (moves_on (do_request http_date base_url credentials sent) ≡ (
        not (is_empty base_url)
        && (is_some (validate_credentials credentials) || refuses_account sent)))
      × (safe_retry (failure (response_failure code status)) ≡ false)
unfolding do_request
moves_on-do_request http_date base_url credentials (send_failed c e) code status = (
  ground (
    arith,
    safe_retry-send_failed c e,
    safe_retry-account_failure,
    safe_retry-other (codes "codex: client is not initialized"),
  ),
  safe_retry-response_failure code status,
)
moves_on-do_request http_date base_url credentials (answered n header body received c) code status =
    (
      ground (
        arith,
        safe_retry-answer_failure http_date n header body received c,
        safe_retry-account_failure,
        safe_retry-other (codes "codex: client is not initialized"),
      ),
      safe_retry-response_failure code status,
    )
