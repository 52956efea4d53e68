-- ===== src/Gateway.antt =====
-- internal/gateway/errors.go: what a client is told of an error.
use clan.Prelude.{
  ℕ, zero, suc, ◌+◌, ◌-◌, ◌*◌, ◌/◌, ◌%◌, ◌^◌, ◌≤◌, ◌<◌, max, min, String, ◌≡◌, refl, sym, ap, ◌∙◌,
  subst, ◌≢◌, ◌↔◌, ◌⊎◌, inl, inr, Bool, true, false, not, ◌&&◌, ◌||◌, Option, none, some, List, [],
  ◌∷◌, ◌++◌, map, arith, ltb, leb, ◌==◌, if◌then◌else◌, Bool-cases, Option-cases, is_some,
  subst_some, if_elim, all_below, all_below_sound, length, length-append, replicate, count, filter,
  count-le-length, count-append, count-set, count-strict, count_mono, count-pos, In, All, All-In,
  get_elem?, set, get_elem?-set_self, Text, codes, text_eq, text_eq_iff, text_eq_refl, text_lt,
  text_lt_irrefl, text_lt_trans, text_lt_total, text_lt_of_ge, is_blank, Map, lookup, insert, erase,
  lookup-insert, lookup-erase, get_or, ℤ, pos, negsuc, incr, decr, int_lt, is_zero, ltb→lt, lt→ltb,
  leb→le, le→leb, ==_iff, tests,
}
use clan.Errors.{
  CtxError, canceled, deadline_exceeded, Category, invalid_request, account_problem, provider_limit,
  provider_failure, transport_failure, invalid_response, Failure, unauthorized, closed, no_accounts,
  unavailable, limit_reached, catalog_unavailable, invalid_body, Error, ctx, sentinel, failure,
  validation, too_large, is, is_ctx, as_failure, as_validation, as_too_large, as_network,
}
use clan.Errors
use clan.AccessKey.{has_prefix, drop}
pub mod Statuses

pub record ClientError : Type 0 where
  pub status : ℕ
  pub type_ : Text
  pub code : Text
  pub message : Text
  pub param : Option Text

abbrev pub named_field : Text → Option Text
named_field [] = none
named_field (c ∷ s) = some (c ∷ s)

-- `invalidRequest`
unfoldable pub invalid_client_request : Text → Text → ClientError
invalid_client_request message field = record {
  status = 400;
  type_ = codes "invalid_request_error";
  code = codes "invalid_request";
  message = message;
  param = named_field field;
}

abbrev answer : ℕ → String → String → String → ClientError
answer status type_ code message = record {
  status = status;
  type_ = codes type_;
  code = codes code;
  message = codes message;
  param = none;
}

-- `unavailable()`
unfoldable pub service_unavailable : ClientError
service_unavailable =
    answer 503 "server_error" "service_unavailable"
      "No account is currently available to serve the request."

-- `strings.Cut(field, ".")`, its first result.
unfoldable pub before_dot : Text → Text
before_dot [] = []
before_dot (c ∷ s) = if c == 46 then [] else c ∷ before_dot s

-- `strings.TrimPrefix(field, "request.")`
unfoldable pub trim_request : Text → Text
trim_request s = if has_prefix s (codes "request.") then drop 8 s else s

unfoldable pub one_of : Text → List String → Bool
one_of s [] = false
one_of s (t ∷ ts) = text_eq s (codes t) || one_of s ts

abbrev pub known_fields : List String
known_fields =
    "model" ∷ "input" ∷ "instructions" ∷ "stream" ∷ "store" ∷ "background" ∷ "max_output_tokens"
    ∷ "prompt_cache_key" ∷ "tools" ∷ "tool_choice" ∷ "parallel_tool_calls" ∷ "reasoning" ∷ "include"
    ∷ "text" ∷ []

-- `safeField`
unfoldable pub safe_field : Text → Text
safe_field field =
    let root = before_dot (trim_request field) in if one_of root known_fields then root else []

abbrev pub of_category : Category → ClientError
of_category invalid_request = invalid_client_request (codes "Codex rejected the request.") []
of_category provider_limit =
    answer 429 "rate_limit_error" "rate_limit_exceeded" "The provider limit was reached."
of_category account_problem = service_unavailable
of_category _ =
    answer 502 "server_error" "upstream_error" "The upstream response could not be completed."

abbrev pub is_unavailable : Error → Bool
is_unavailable e =
    is catalog_unavailable e
    || is no_accounts e
    || is closed e
    || is unavailable e
    || is_ctx canceled e

abbrev pub is_timeout : Option Bool → Bool
is_timeout none = false
is_timeout (some t) = t

abbrev pub of_failure : Error → Option Failure → ClientError
of_failure e (some f) = of_category f.category
of_failure e none =
    if is_unavailable e
    then service_unavailable
    else if is_timeout (as_network e)
    then answer 408 "invalid_request_error" "request_timeout"
        "The request body was not received in time."
    else answer 500 "server_error" "internal_error" "The request could not be completed."

-- The cases from `tooLarge` on.
abbrev pub of_limits : Error → ClientError
of_limits e =
    if as_too_large e
    then answer 413 "invalid_request_error" "request_too_large" "The request exceeds 16 MiB."
    else if is limit_reached e
    then answer 429 "rate_limit_error" "concurrency_limit"
        "The client key has no free request slots."
    else if is_ctx deadline_exceeded e
    then answer 504 "server_error" "upstream_timeout" "The upstream request timed out."
    else of_failure e (as_failure e)

abbrev pub of_validation : Error → Option Text → ClientError
of_validation e (some field) =
    invalid_client_request (codes "Invalid or unsupported request field.") (safe_field field)
of_validation e none = of_limits e

-- `classify`
unfoldable pub classify : Error → ClientError
classify e =
    if is unauthorized e
    then answer 401 "authentication_error" "invalid_api_key" "The client key is invalid or revoked."
    else if is invalid_body e
    then invalid_client_request (codes "The request body is invalid or incomplete.") []
    else of_validation e (as_validation e)
