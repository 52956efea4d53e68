-- ===== src/Tests/Tokens.antt =====
-- A concrete token answer.
use clan.Prelude.{
  ◌≡◌, refl, ◌≢◌, true, false, not, ◌||◌, Option, none, some, ltb, is_some, Text, codes, text_eq,
  is_blank, ℤ, pos,
}
use clan.Account.{OAuthCredentials, validate_credentials}
use clan.OAuth.{
  TokenResponse, IdClaims, valid_field, has_control, credentials, token_account, token_expiry,
  expiry_seconds, lower,
}
use clan.OAuth.Complete.{credentials-validate_credentials}

abbrev id_claims : Text → Option IdClaims
id_claims t = some (record { account_id = codes "g"; fedramp = false })

abbrev expiry_claim : Text → Option ℤ
expiry_claim t = none

abbrev stale : OAuthCredentials
stale = record {
  chatgpt_account_id = codes "g";
  access_token = codes "t";
  refresh_token = codes "r";
  expires_at = 9;
}

abbrev answer : TokenResponse
answer = record {
  access_token = some (codes "u");
  refresh_token = none;
  id_token = none;
  token_type = codes "bearer";
  expires_in = some (pos 2);
  has_error = false;
}

abbrev renewed : OAuthCredentials
renewed = record {
  chatgpt_account_id = codes "g";
  access_token = codes "u";
  refresh_token = codes "r";
  expires_at = 2_000_000_010;
}

credentials-validate_credentials_example :
    (validate_credentials renewed ≡ none)
    × (valid_field (codes "r") ≡ true)
    × (renewed.expires_at ≢ 0)
    × ((not (is_some answer.access_token) || ltb 10 renewed.expires_at) ≡ true)
unfolding credentials text_eq lower token_account token_expiry expiry_seconds valid_field is_blank
    has_control
credentials-validate_credentials_example =
    credentials-validate_credentials id_claims expiry_claim answer stale renewed 10 refl
