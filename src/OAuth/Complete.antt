-- ===== src/OAuth/Complete.antt =====
-- What the credentials of an accepted token answer guarantee (internal/codexoauth/client.go).
use clan.Prelude.{
  ℕ, ◌+◌, ◌-◌, ◌*◌, ◌/◌, ◌<◌, ◌≡◌, refl, ◌≢◌, ◌⊎◌, inl, inr, Bool, true, false, not, ◌||◌, Option,
  none, some, arith, ltb, if◌then◌else◌, Bool-cases, is_some, Text, ℤ, pos, negsuc, int_lt,
}
use clan.Retry.{Time, nanos_per_second}
use clan.Account.{OAuthCredentials, validate_credentials}
use clan.Codex.Client.{to_unix, of_unix, unix_zero}
use clan.OAuth.{
  Failure, TokenResponse, IdClaims, valid_field, expiry_seconds, token_account, token_expiry,
  expiry_of, claimed_expiry, complete, assembled, credentials,
}

seconds_later : (n q b : ℕ) → n / nanos_per_second < b → n < b * nanos_per_second
seconds_later n q b h = omega (arith, h)

of_unix-later : (now : Time) (e : ℤ) → int_lt (to_unix now) e ≡ true → now < of_unix e
unfolding to_unix of_unix
of_unix-later now (pos s) h = seconds_later now 0 (s + unix_zero) (ground (arith, h))
of_unix-later now (negsuc n) h = seconds_later now 0 (unix_zero - (n + 1)) (ground (arith, h))

claimed-later : (e : Option ℤ) (now t : Time) → claimed_expiry e now ≡ some t → now < t
claimed-later none now t h = cc
claimed-later (some e) now t h = ground (arith, h, of_unix-later now e)

record IsAssembled (c : OAuthCredentials) (expiry : Option Time) : Type 0 where
  account_valid : valid_field c.chatgpt_account_id ≡ true
  access_valid : valid_field c.access_token ≡ true
  refresh_valid : valid_field c.refresh_token ≡ true
  expires : c.expires_at ≢ 0
  expiry_kept : expiry ≡ some c.expires_at

complete-IsAssembled :
    (d c : OAuthCredentials) → complete d ≡ inl c → IsAssembled c (some d.expires_at)
complete-IsAssembled d c h = ground (arith, h)

assembled-IsAssembled :
    (w : TokenResponse) (previous c : OAuthCredentials) (account : Option Text)
    (expiry : Option Time)
    → assembled w previous account expiry ≡ inl c
    → IsAssembled c expiry
assembled-IsAssembled w previous c none expiry h = cc
assembled-IsAssembled w previous c (some a) none h = cc
assembled-IsAssembled w previous c (some a) (some e) h = complete-IsAssembled _ c h

else_inl :
    (b : Bool) (x : Failure) (y : OAuthCredentials ⊎ Failure) {c : OAuthCredentials}
    → (if b then inr x else y) ≡ inl c
    → y ≡ inl c
else_inl true x y h = cc
else_inl false x y h = h

module _ (id_claims : Text → Option IdClaims) (expiry_claim : Text → Option ℤ) where
  expiry_of-later :
      (s : Option ℕ) (token : Text) (now t : Time)
      → ((n : ℕ) → s ≡ some n → 0 < n)
      → expiry_of id_claims expiry_claim s token now ≡ some t
      → now < t
  expiry_of-later (some s) token now t p h = ground (arith, h, p s refl)
  expiry_of-later none token now t p h = claimed-later _ now t h

  expiry_seconds-positive : (e : Option ℤ) (n : ℕ) → expiry_seconds e ≡ some n → 0 < n
  unfolding expiry_seconds
  expiry_seconds-positive none n h = cc
  expiry_seconds-positive (some (pos s)) n h = ground (arith, h)
  expiry_seconds-positive (some (negsuc s)) n h = cc

  token_expiry-later :
      (w : TokenResponse) (previous now t : Time)
      → is_some w.access_token ≡ true
      → token_expiry id_claims expiry_claim w previous now ≡ some t
      → now < t
  unfolding token_expiry
  token_expiry-later w previous now t h e = later w.access_token h e
    where
      later :
          (token : Option Text)
          → is_some token ≡ true
          → elim token [
            | none ↦ some previous
            | some x ↦ expiry_of id_claims expiry_claim (expiry_seconds w.expires_in) x now
          ]
            ≡ some t
          → now < t
      later none h e = absurd (ground (arith, h))
      later (some x) h e =
          expiry_of-later (expiry_seconds w.expires_in) x now t
            (λ n p. expiry_seconds-positive w.expires_in n p) e

  -- If credentials accepts an answer, the result passes ValidateCredentials, its refresh token is usable and
  -- its expiry is set; and if the answer has an access token, the result expires after the time of the answer.
  pub credentials-validate_credentials :
      (w : TokenResponse) (previous c : OAuthCredentials) (now : Time)
      → credentials id_claims expiry_claim w previous now ≡ inl c
      → (validate_credentials c ≡ none)
        × (valid_field c.refresh_token ≡ true)
        × (c.expires_at ≢ 0)
        × ((not (is_some w.access_token) || ltb now c.expires_at) ≡ true)
  unfolding credentials valid_field validate_credentials
  credentials-validate_credentials w previous c now h =
      let a : IsAssembled c (token_expiry id_claims expiry_claim w previous.expires_at now) =
        assembled-IsAssembled w previous c
          (token_account id_claims expiry_claim w.id_token previous.chatgpt_account_id)
          (token_expiry id_claims expiry_claim w previous.expires_at now) (else_inl _ _ _ h) in
      (
        ground (arith, a.account_valid, a.access_valid),
        a.refresh_valid,
        a.expires,
        later (token_expiry-later w previous.expires_at now c.expires_at) a.expiry_kept,
      )
    where
      later :
          {E : Type 0}
          → (is_some w.access_token ≡ true → E → now < c.expires_at)
          → E
          → (not (is_some w.access_token) || ltb now c.expires_at) ≡ true
      later f e = elim (Bool-cases (is_some w.access_token)) [
        | inl p ↦ ground (arith, p, f p e)
        | inr n ↦ ground (arith, n)
      ]
