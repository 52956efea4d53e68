-- ===== src/Tests/Answers.antt =====
use clan.Prelude.{
  ◌≡◌, refl, true, false, not, ◌&&◌, ◌||◌, Option, none, some, [], is_some, Text, codes, is_blank,
  pos,
}
use clan.Retry.{Time, at, is_empty}
use clan.Account.{OAuthCredentials, validate_credentials}
use clan.Codex.Client.{
  QuotaBody, Context, answered, response_failure, answer_failure, do_request, http_failure,
  safe_failure,
}
use clan.Errors.{deadline_exceeded, failure, is_ctx}
use clan.Execution.Codes.{safe_retry}
use clan.Execution.Upstream.{moves_on, refuses_account, moves_on-do_request}

abbrev no_date : Text → Option Time
no_date s = none

abbrev used_up : QuotaBody
used_up = record {
  kind = codes "usage_limit_reached";
  resets_at = some (pos 60);
  resets_in_text = [];
  resets_in = none;
}

abbrev owner : OAuthCredentials
owner = record {
  chatgpt_account_id = codes "x";
  access_token = codes "t";
  refresh_token = [];
  expires_at = 0;
}

abbrev running : Context
running = record { err = none; cause_deadline = false }

abbrev timed_out : Context
timed_out = record { err = some deadline_exceeded; cause_deadline = true }

-- An error body that does not arrive in time keeps the status, but ends the request.
slow_body :
    moves_on (do_request no_date (codes "u") owner (answered 429 [] none 5 timed_out)) ≡ false
unfolding do_request validate_credentials is_blank safe_retry answer_failure http_failure
    safe_failure is_ctx
slow_body = refl

moves_on-do_request_example :
    (moves_on (do_request no_date (codes "u") owner (answered 429 [] (some used_up) 5 running)) ≡ (
      not (is_empty (codes "u"))
      && (is_some (validate_credentials owner)
          || refuses_account (answered 429 [] (some used_up) 5 running))))
    × (safe_retry (failure (response_failure (codes "slow_down") 429)) ≡ false)
moves_on-do_request_example =
    moves_on-do_request no_date (codes "u") owner (answered 429 [] (some used_up) 5 running)
      (codes "slow_down") 429
