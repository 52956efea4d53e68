-- ===== src/Codex/Client.antt =====
-- internal/codex/client.go: how a provider's answer becomes a classified failure.
--
-- JSON decoding is the standard library's: an error body enters as the fields that
-- `json.Unmarshal` finds in it, `none` where decoding fails. A `net/http` answer enters as its
-- status, its Retry-After header and its body.
use clan.Prelude.{
  ℕ, ◌+◌, ◌-◌, ◌*◌, ◌/◌, String, Bool, true, false, not, ◌&&◌, ◌||◌, Option, none, some, List, [],
  ◌∷◌, ltb, leb, ◌==◌, if◌then◌else◌, is_some, Text, codes, text_eq, ℤ, pos, negsuc, int_lt,
}
use clan.Retry.{
  Time, Cooldown, CooldownKind, no_cooldown, unrestricted, at, nanos_per_second, parse_retry_after,
  is_empty,
}
use clan.Errors.{
  CtxError, canceled, deadline_exceeded, Category, invalid_request, account_problem, provider_limit,
  provider_failure, transport_failure, invalid_response, Failure, Error, failure, other, is_ctx,
  as_network, plain_failure,
}
use clan.Account.{OAuthCredentials, validate_credentials}

-- `time.Time.Unix`: the zero time is 62135596800 seconds before 1970.
abbrev pub unix_zero : ℕ
unix_zero = 62_135_596_800

unfoldable pub to_unix : Time → ℤ
to_unix t =
    let s = t / nanos_per_second in
    if leb unix_zero s then pos (s - unix_zero) else negsuc (unix_zero - s - 1)

-- `time.Unix(seconds, 0)`, from year 1 on.
unfoldable pub of_unix : ℤ → Time
of_unix (pos s) = (s + unix_zero) * nanos_per_second
of_unix (negsuc n) = (unix_zero - (n + 1)) * nanos_per_second

-- End of year 9999, the last RFC3339 year.
abbrev pub last_unix_second : ℕ
last_unix_second = 253_402_300_799

-- The fields of a provider's error body: `error.type`, `error.resets_at` as an int64 if it is one,
-- and the text of `error.resets_in_seconds` with its int64.
pub record QuotaBody : Type 0 where
  pub kind : Text
  pub resets_at : Option ℤ
  pub resets_in_text : Text
  pub resets_in : Option ℤ

abbrev pub kept : Option Cooldown → Cooldown
kept none = unrestricted
kept (some c) = c

abbrev is_positive : Option ℤ → Bool
is_positive none = false
is_positive (some s) = int_lt (pos 0) s

-- `resets_at` in the future and within the years that can be printed.
abbrev pub usable_reset : Option ℤ → Time → Bool
usable_reset none received = false
usable_reset (some s) received =
    int_lt (to_unix received) s && not (int_lt (pos last_unix_second) s)

abbrev pub reset_time : Option ℤ → Time
reset_time none = 0
reset_time (some s) = of_unix s

module _ (http_date : Text → Option Time) where
  unfoldable pub quota_reset : Option QuotaBody → Time → Cooldown
  quota_reset none received = unrestricted
  quota_reset (some w) received =
      if not (text_eq w.kind (codes "usage_limit_reached"))
      then unrestricted
      else if usable_reset w.resets_at received
      then at (reset_time w.resets_at)
      else if is_positive w.resets_in
      then kept (parse_retry_after http_date w.resets_in_text received)
      else unrestricted

  abbrev is_none_kind : CooldownKind → Bool
  is_none_kind no_cooldown = true
  is_none_kind _ = false

  unfoldable pub http_failure : ℕ → Text → Option QuotaBody → Time → Failure
  http_failure status header body received =
      let cooldown = kept (parse_retry_after http_date header received) in
      let base : Failure = record {
        category = provider_failure;
        http_status = status;
        safe_to_retry = false;
        retry_after = cooldown;
        cause = none;
      } in
      if status == 400 || status == 404 || status == 422
      then record base { category = invalid_request; safe_to_retry = true }
      else if status == 401 || status == 403
      then record base { category = account_problem; safe_to_retry = true }
      else if status == 429
      then record base {
        category = provider_limit;
        safe_to_retry = true;
        retry_after = if is_none_kind cooldown.kind then quota_reset body received else cooldown;
      }
      else if ltb status 400
      then record base { category = invalid_response }
      else base

one_of : Text → List String → Bool
one_of s [] = false
one_of s (t ∷ ts) = text_eq s (codes t) || one_of s ts

-- The category that a terminal error's code stands for.
unfoldable pub code_category : Text → Category
unfolding one_of
code_category code =
    if one_of code (
      "context_length_exceeded" ∷ "invalid_prompt" ∷ "bio_policy" ∷ "cyber_policy"
      ∷ "misalignment_policy_violation" ∷ [])
    then invalid_request
    else if one_of code
        ("insufficient_quota" ∷ "rate_limit_exceeded" ∷ "server_is_overloaded" ∷ "slow_down" ∷ [])
    then provider_limit
    else if one_of code ("usage_not_included" ∷ [])
    then account_problem
    else provider_failure

unfoldable pub response_failure : Text → ℕ → Failure
response_failure code status = record {
  category = code_category code;
  http_status = status;
  safe_to_retry = false;
  retry_after = unrestricted;
  cause = none;
}

-- The context of an attempt: `ctx.Err()`, and whether its cause is a passed deadline.
pub record Context : Type 0 where
  pub err : Option CtxError
  pub cause_deadline : Bool

abbrev error_cause : Option Error → Option CtxError
error_cause none = none
error_cause (some e) =
    if is_ctx deadline_exceeded e
    then some deadline_exceeded
    else if is_ctx canceled e
    then some canceled
    else elim (as_network e) [
      | none ↦ none
      | some timeout ↦ if timeout then some deadline_exceeded else none
    ]

abbrev or_error : Option CtxError → Option CtxError → Option CtxError
or_error none e = e
or_error (some c) e = some c

unfoldable pub safe_failure : Context → Category → ℕ → Option Error → Failure
safe_failure c category status e = record {
  category = category;
  http_status = status;
  safe_to_retry = false;
  retry_after = unrestricted;
  cause = or_error (if c.cause_deadline then some deadline_exceeded else c.err) (error_cause e);
}

-- What becomes of the request of `Client.do`: it could not be built or sent, with the attempt's
-- context then, or there is an answer, with the context under which its error body is read, as it is
-- at the end of that read.
pub data Sent : Type 0 where
  send_failed : Context → Error → Sent
  answered : ℕ → Text → Option QuotaBody → Time → Context → Sent

-- The failure of an answer other than 200, whose cause is the end of its read.
unfoldable pub answer_failure :
    (Text → Option Time) → ℕ → Text → Option QuotaBody → Time → Context → Failure
answer_failure http_date status header body received c =
    let f = http_failure http_date status header body received in
    record f { cause = (safe_failure c f.category f.http_status none).cause }

-- `Client.do`; `none` is the response 200. Its request headers are not modelled.
unfoldable pub do_request : (Text → Option Time) → Text → OAuthCredentials → Sent → Option Error
do_request http_date base_url credentials sent =
    if is_empty base_url
    then some (other (codes "codex: client is not initialized"))
    else if is_some (validate_credentials credentials)
    then some (failure (plain_failure account_problem true))
    else elim sent [
      | send_failed c e ↦ some (failure (safe_failure c transport_failure 0 (some e)))
      | answered status header body received c ↦
          if not (status == 200)
          then some (failure (answer_failure http_date status header body received c))
          else none
    ]
