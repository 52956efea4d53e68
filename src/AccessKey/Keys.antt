-- ===== src/AccessKey/Keys.antt =====
-- Which raw keys internal/accesskey accepts: exactly those that it can issue.
use clan.Prelude.{
  ℕ, ◌≡◌, sym, ap, ◌∙◌, ◌↔◌, inl, inr, Bool, true, false, some, List, [], ◌∷◌, ◌++◌, arith,
  Option-cases, length, Text, is_blank,
}
use clan.AccessKey.{
  Identity, AccessKey, ok, err, new, id_required, key_prefix, encode, decode, has_prefix, drop,
  generate, hash,
}
use clan.AccessKey.Base64.{AreBytes, decode-encode, decode_canonical, encode-decode, length-encode}

prefixed : (raw : Text) → has_prefix raw key_prefix ≡ true → raw ≡ key_prefix ++ drop 5 raw
prefixed [] h = cc
prefixed (a ∷ []) h = absurd (ground arith)
prefixed (a ∷ b ∷ []) h = absurd (ground arith)
prefixed (a ∷ b ∷ c ∷ []) h = absurd (ground arith)
prefixed (a ∷ b ∷ c ∷ d ∷ []) h = absurd (ground arith)
prefixed (a ∷ b ∷ c ∷ d ∷ e ∷ s) h = ground arith

module _ (sha256 : Text → Text) where
  -- A generated key is 48 bytes long, and hashing it again gives the hash that was issued with it,
  -- for every 32 random bytes.
  pub hash-generate :
      (secret : List ℕ)
      → AreBytes secret
      → length secret ≡ 32
      → (length (generate sha256 secret).0 ≡ 48)
        × (hash sha256 (generate sha256 secret).0 ≡ some (generate sha256 secret).1)
  unfolding generate hash
  hash-generate secret h l =
      let long : length (encode secret) ≡ 43 = omega (arith, length-encode secret) in
      (omega (arith, long), ground (arith, long, decode-encode secret h))

  -- A text that has a hash is the raw key of 32 random bytes, and the hash is the one issued with
  -- it: no second spelling of a key is accepted.
  pub generate-hash :
      (raw h : Text)
      → hash sha256 raw ≡ some h
      → (secret : List ℕ) × AreBytes secret
        × (length secret ≡ 32)
        × (generate sha256 secret ≡ (raw, h))
  unfolding generate hash
  generate-hash raw h e = elim (Option-cases (decode (drop 5 raw))) [
    | inl n ↦ absurd (ground (arith, n))
    | inr (secret, d) ↦
        let long : length raw ≡ 48 = ground arith in
        let start : has_prefix raw key_prefix ≡ true = ground arith in
        let size : length secret ≡ 32 = ground (arith, d) in
        let split = prefixed raw start in
        let short : length (drop 5 raw) ≡ 43 = omega (arith, ap length split) in
        let code = decode_canonical (drop 5 raw) secret d (omega arith) in
        let again : key_prefix ++ encode secret ≡ raw =
          ap (λ t. key_prefix ++ t) (sym code) ∙ sym split in
        let hashed : sha256 raw ≡ h = ground (arith, d) in
        (
          secret,
          (encode-decode (drop 5 raw) secret d).1,
          size,
          λ i. (again i, (ap sha256 again ∙ hashed) i),
        )
  ]

-- `New` keeps an identity whose two fields are not blank, and names the first blank one otherwise.
pub new_lem :
    (identity : Identity) (enabled : Bool)
    → ((k : AccessKey)
        → new identity enabled ≡ ok k
        → (k ≡ record { identity = identity; enabled = enabled })
          × (is_blank identity.id ≡ false)
          × (is_blank identity.name ≡ false))
      × ((new identity enabled ≡ err id_required) ↔ (is_blank identity.id ≡ true))
unfolding new
new_lem identity enabled = (λ k e. ground arith, (λ e. ground arith, λ e. ground arith))
