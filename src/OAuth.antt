-- ===== src/OAuth.antt =====
-- internal/codexoauth/client.go: how an answer of the token endpoint becomes credentials or a
-- classified failure.
--
-- HTTP and encoding/json are not modelled: an answer is its status, its headers and the fields that
-- json.Unmarshal finds in its body. `http_date` is http.ParseTime; `id_claims` and `expiry_claim` give
-- the claims in the base64 middle part of a token, or nothing if they cannot be decoded.
use clan.Prelude.{
  ℕ, zero, suc, ◌+◌, ◌-◌, ◌*◌, ◌/◌, ◌%◌, ◌^◌, ◌≤◌, ◌<◌, max, min, String, ◌≡◌, refl, sym, ap, ◌∙◌,
  subst, ◌≢◌, ◌↔◌, ◌⊎◌, inl, inr, Bool, true, false, not, ◌&&◌, ◌||◌, Option, none, some, List, [],
  ◌∷◌, ◌++◌, map, arith, ltb, leb, ◌==◌, if◌then◌else◌, Bool-cases, Option-cases, is_some,
  subst_some, if_elim, all_below, all_below_sound, length, length-append, replicate, count, filter,
  count-le-length, count-append, count-set, count-strict, count_mono, count-pos, In, All, All-In,
  get_elem?, set, get_elem?-set_self, Text, codes, text_eq, text_eq_iff, text_eq_refl, text_lt,
  text_lt_irrefl, text_lt_trans, text_lt_total, text_lt_of_ge, is_blank, Map, lookup, insert, erase,
  lookup-insert, lookup-erase, get_or, ℤ, pos, negsuc, incr, decr, int_lt, is_zero, ltb→lt, lt→ltb,
  leb→le, le→leb, ==_iff, tests,
}
use clan.Retry.{Time, Cooldown, unrestricted, nanos_per_second, parse_retry_after}
use clan.Errors.{CtxError}
use clan.Account.{OAuthCredentials}
use clan.Codex.Client.{to_unix, of_unix, last_unix_second, kept}
pub mod Complete
pub mod Refresh

pub data FailureKind : Type 0 where
  failure_rejected failure_transient failure_invalid_response : FailureKind

pub record Failure : Type 0 where
  pub kind : FailureKind
  pub status_code : ℕ
  pub retry_after : Cooldown
  pub cause : Option CtxError

abbrev pub plain_failure : FailureKind → ℕ → Option CtxError → Failure
plain_failure k status c = record {
  kind = k;
  status_code = status;
  retry_after = unrestricted;
  cause = c;
}

-- The error body of an answer: its `code`, its `error` if it is a text, and the `code` of its `error`.
pub record ErrorBody : Type 0 where
  pub code : Text
  pub error_text : Option Text
  pub nested_code : Option Text

abbrev or_code : Option Text → Text → Text
or_code none d = d
or_code (some t) d = if text_eq t [] then d else t

unfoldable pub error_code : Option ErrorBody → Text
error_code none = []
error_code (some b) = or_code b.error_text (or_code b.nested_code b.code)

abbrev pub is_spent : Text → Bool
is_spent code =
    text_eq code (codes "refresh_token_expired")
    || text_eq code (codes "refresh_token_reused")
    || text_eq code (codes "refresh_token_invalidated")

-- The kind of failure that a status and a code stand for.
unfoldable pub failure_kind : ℕ → Text → FailureKind
failure_kind status code =
    if status == 429 || leb 500 status
    then failure_transient
    else if is_spent code
    then failure_rejected
    else if status == 401 || (text_eq code (codes "invalid_grant") && status == 400)
    then failure_rejected
    else failure_invalid_response

-- `contextCause`: the context's error, or what the transport's error is.
unfoldable pub context_cause : Option CtxError → Option CtxError → Option CtxError
context_cause (some c) e = some c
context_cause none e = e

-- `validField`; the runes that it refuses are single bytes.
unfoldable pub has_control : Text → Bool
has_control [] = false
has_control (c ∷ s) = ltb c 0x20 || c == 0x7f || has_control s

unfoldable pub valid_field : Text → Bool
valid_field t = not (is_blank t) && not (has_control t)

-- `math.MaxInt64 / int64(time.Second)`
abbrev pub max_seconds : ℕ
max_seconds = 9_223_372_036

-- `expirySeconds`, for an `expires_in` that decodes to an int64.
unfoldable pub expiry_seconds : Option ℤ → Option ℕ
expiry_seconds none = none
expiry_seconds (some (pos s)) = if ltb 0 s && leb s max_seconds then some s else none
expiry_seconds (some (negsuc n)) = none

unfoldable pub lower : ℕ → ℕ
lower c = if leb 65 c && leb c 90 then c + 32 else c

-- `strings.EqualFold(s, "Bearer")`: none of these letters folds to another rune.
abbrev pub is_bearer : Text → Bool
is_bearer s = text_eq (map lower s) (codes "bearer")

-- `strings.Split(token, ".")`
unfoldable pub split_dots : Text → List Text
split_dots [] = [] ∷ []
split_dots (c ∷ s) =
    let rest = split_dots s in
    if c == b'.' then [] ∷ rest else elim rest [ [] ↦ (c ∷ []) ∷ [] | t ∷ ts ↦ (c ∷ t) ∷ ts ]

-- The part of a token that `decodeMetadata` decodes.
unfoldable pub payload : Text → Option Text
payload token = elim (split_dots token) [ a ∷ b ∷ c ∷ [] ↦ some b | _ ↦ none ]

pub record TokenResponse : Type 0 where
  pub access_token : Option Text
  pub refresh_token : Option Text
  pub id_token : Option Text
  pub token_type : Text
  pub expires_in : Option ℤ
  pub has_error : Bool

-- What the transport gives for one request; an error that ended the reading of the body with its cause.
pub record HttpAnswer : Type 0 where
  pub status : ℕ
  pub retry_after : Text
  pub error_body : Option ErrorBody
  pub read_error : Option (Option CtxError)
  pub is_json : Bool
  pub too_long : Bool
  pub wire : Option TokenResponse

pub record IdClaims : Type 0 where
  pub account_id : Text
  pub fedramp : Bool

abbrev pub invalid_answer : Failure
invalid_answer = plain_failure failure_invalid_response 200 none

abbrev read_cause : Option (Option CtxError) → Option CtxError
read_cause none = none
read_cause (some e) = e

module _ (http_date : Text → Option Time) where
  unfoldable pub response_failure : ℕ → Text → Option ErrorBody → Time → Failure
  response_failure status header body now = record {
    kind = failure_kind status (error_code body);
    status_code = status;
    retry_after = kept (parse_retry_after http_date header now);
    cause = none;
  }

  -- `requestToken` after the round trip; `inr` is the cause of a transport that failed.
  unfoldable pub request_token :
      HttpAnswer ⊎ Option CtxError → Option CtxError → Time → TokenResponse ⊎ Failure
  request_token (inr cause) c now = inr (plain_failure failure_transient 0 (context_cause c cause))
  request_token (inl r) c now =
      if not (r.status == 200)
      then inr (record (response_failure r.status r.retry_after r.error_body now) {
        cause = context_cause c (read_cause r.read_error);
      })
      else if is_some r.read_error
      then inr
          (plain_failure failure_transient r.status (context_cause c (read_cause r.read_error)))
      else if r.too_long || not r.is_json
      then inr (plain_failure failure_invalid_response r.status none)
      else elim r.wire [
        | none ↦ inr (plain_failure failure_invalid_response r.status none)
        | some w ↦ inl w
      ]

abbrev decode {ℓ} : {A : Type ℓ} → (Text → Option A) → Option Text → Option A
decode f none = none
decode f (some t) = f t

abbrev account_of : Option IdClaims → Option Text
account_of none = none
account_of (some c) =
    if c.fedramp || not (valid_field c.account_id) then none else some c.account_id

abbrev claimed_expiry : Option ℤ → Time → Option Time
claimed_expiry none now = none
claimed_expiry (some e) now =
    if not (int_lt (to_unix now) e) || int_lt (pos last_unix_second) e
    then none
    else some (of_unix e)

abbrev complete : OAuthCredentials → OAuthCredentials ⊎ Failure
complete c =
    if valid_field c.chatgpt_account_id
      && valid_field c.access_token
      && valid_field c.refresh_token
      && not (c.expires_at == 0)
    then inl c
    else inr invalid_answer

abbrev assembled :
    TokenResponse → OAuthCredentials → Option Text → Option Time → OAuthCredentials ⊎ Failure
assembled w previous none expiry = inr invalid_answer
assembled w previous (some account) none = inr invalid_answer
assembled w previous (some account) (some expiry) = complete (record {
  chatgpt_account_id = account;
  access_token = get_or previous.access_token w.access_token;
  refresh_token = get_or previous.refresh_token w.refresh_token;
  expires_at = expiry;
})

abbrev no_credentials : OAuthCredentials
no_credentials = record {
  chatgpt_account_id = [];
  access_token = [];
  refresh_token = [];
  expires_at = 0;
}

module _ (id_claims : Text → Option IdClaims) (expiry_claim : Text → Option ℤ) where
  -- The account that the answer is for.
  unfoldable pub token_account : Option Text → Text → Option Text
  token_account none previous = some previous
  token_account (some token) previous = account_of (decode id_claims (payload token))

  abbrev expiry_of : Option ℕ → Text → Time → Option Time
  expiry_of (some s) token now = some (now + s * nanos_per_second)
  expiry_of none token now = claimed_expiry (decode expiry_claim (payload token)) now

  -- When the access token expires.
  unfoldable pub token_expiry : TokenResponse → Time → Time → Option Time
  token_expiry w previous now = elim w.access_token [
    | none ↦ some previous
    | some token ↦ expiry_of (expiry_seconds w.expires_in) token now
  ]

  -- `tokenResponse.credentials`
  unfoldable pub credentials : TokenResponse → OAuthCredentials → Time → OAuthCredentials ⊎ Failure
  credentials w previous now =
      if w.has_error || not (text_eq w.token_type [] || is_bearer w.token_type)
      then inr invalid_answer
      else assembled w previous (token_account w.id_token previous.chatgpt_account_id)
          (token_expiry w previous.expires_at now)

  abbrev pub answered :
      TokenResponse ⊎ Failure → OAuthCredentials → Time → OAuthCredentials ⊎ Failure
  answered (inr f) previous now = inr f
  answered (inl w) previous now = credentials w previous now

  -- `Exchange`, with what `requestToken` gives.
  unfoldable pub exchange :
      Text → Text → TokenResponse ⊎ Failure → Time → OAuthCredentials ⊎ Failure
  exchange code verifier r now =
      if not (valid_field code) || not (valid_field verifier)
      then inr (plain_failure failure_rejected 0 none)
      else answered r no_credentials now

  -- `Refresh`
  unfoldable pub refresh :
      OAuthCredentials → TokenResponse ⊎ Failure → Time → OAuthCredentials ⊎ Failure
  refresh previous r now =
      if not (valid_field previous.refresh_token)
      then inr (plain_failure failure_rejected 0 none)
      else answered r previous now
