-- ===== src/Account.antt =====
-- internal/account/account.go and internal/usage/usage.go: account snapshots and token counts.
use clan.Prelude.{
  ℕ, ◌≡◌, ◌⊎◌, inl, inr, Bool, true, false, ◌&&◌, Option, none, some, arith, ◌==◌, if◌then◌else◌,
  Text, text_eq, text_eq_iff, text_eq_refl, is_blank,
}
use clan.Retry.{Time}

pub record Identity : Type 0 where
  pub id : Text
  pub name : Text

-- A zero `expires_at` means an unknown expiry.
pub record OAuthCredentials : Type 0 where
  pub chatgpt_account_id : Text
  pub access_token : Text
  pub refresh_token : Text
  pub expires_at : Time

pub record Account : Type 0 where
  pub identity : Identity
  pub credentials : OAuthCredentials

pub data AccountError : Type 0 where
  id_required name_required account_id_required access_token_required : AccountError

-- `ValidateCredentials`; `none` is nil.
unfoldable pub validate_credentials : OAuthCredentials → Option AccountError
validate_credentials c =
    if is_blank c.chatgpt_account_id
    then some account_id_required
    else if is_blank c.access_token
    then some access_token_required
    else none

abbrev new_account : Identity → OAuthCredentials → Option AccountError → Account ⊎ AccountError
new_account i c none = inl (record { identity = i; credentials = c })
new_account i c (some e) = inr e

-- `account.New`
unfoldable pub new : Identity → OAuthCredentials → Account ⊎ AccountError
unfolding validate_credentials
new i c =
    if is_blank i.id
    then inr id_required
    else if is_blank i.name
    then inr name_required
    else new_account i c (validate_credentials c)

-- `==` on the Go struct.
unfoldable pub credentials_eq : OAuthCredentials → OAuthCredentials → Bool
credentials_eq a b =
    text_eq a.chatgpt_account_id b.chatgpt_account_id
    && text_eq a.access_token b.access_token
    && text_eq a.refresh_token b.refresh_token
    && a.expires_at == b.expires_at

pub credentials_eq→eq : (a b : OAuthCredentials) → credentials_eq a b ≡ true → a ≡ b
unfolding credentials_eq
credentials_eq→eq a b h = ground (
  arith,
  text_eq_iff a.chatgpt_account_id b.chatgpt_account_id,
  text_eq_iff a.access_token b.access_token,
  text_eq_iff a.refresh_token b.refresh_token,
)

pub credentials_eq_refl : (a : OAuthCredentials) → credentials_eq a a ≡ true
unfolding credentials_eq
credentials_eq_refl a = ground (
  arith,
  text_eq_refl a.chatgpt_account_id,
  text_eq_refl a.access_token,
  text_eq_refl a.refresh_token,
)

-- usage.go: a token count that is known, or none; the zero value is unknown.
pub record Counter : Type 0 where
  pub tokens : ℕ
  pub known : Bool

pub record Snapshot : Type 0 where
  pub input : Counter
  pub output : Counter
  pub total : Counter

abbrev pub unknown : Counter
unknown = record { tokens = 0; known = false }

abbrev pub no_usage : Snapshot
no_usage = record { input = unknown; output = unknown; total = unknown }
