-- ===== src/AccessKey.antt =====
-- internal/accesskey: key snapshots, and the raw keys behind a verification hash.
--
-- `base64.RawURLEncoding` is written out over bytes, its strict decoder with the CR and LF that it
-- skips. SHA-256 is the parameter `sha256`, any function on texts, and the 32 random bytes of
-- `Generate` are an argument.
use clan.Prelude.{
  ℕ, zero, suc, ◌+◌, ◌-◌, ◌*◌, ◌/◌, ◌%◌, ◌^◌, ◌≤◌, ◌<◌, max, min, String, ◌≡◌, refl, sym, ap, ◌∙◌,
  subst, ◌≢◌, ◌↔◌, ◌⊎◌, inl, inr, Bool, true, false, not, ◌&&◌, ◌||◌, Option, none, some, List, [],
  ◌∷◌, ◌++◌, map, arith, ltb, leb, ◌==◌, if◌then◌else◌, Bool-cases, Option-cases, is_some,
  all_below, all_below_sound, length, length-append, replicate, count, filter, count-le-length,
  count-append, count-set, count-strict, count_mono, count-pos, In, All, All-In, get_elem?, set,
  get_elem?-set_self, Text, codes, text_eq, text_eq_iff, text_eq_refl, text_lt, text_lt_irrefl,
  text_lt_trans, text_lt_total, text_lt_of_ge, is_blank, Map, lookup, insert, erase, lookup-insert,
  lookup-erase, get_or, ℤ, pos, negsuc, incr, decr, int_lt, is_zero, ltb→lt, lt→ltb, leb→le, le→leb,
  ==_iff, tests,
}
use mathlib.Core.Option
pub mod Base64
pub mod Keys

pub record Identity : Type 0 where
  pub id : Text
  pub name : Text

pub record AccessKey : Type 0 where
  pub identity : Identity
  pub enabled : Bool

pub data KeyError : Type 0 where
  id_required name_required : KeyError

pub data Result {ℓ} (A : Type ℓ) : Type ℓ where
  ok : A → Result A
  err : KeyError → Result A

-- `accesskey.New`
unfoldable pub new : Identity → Bool → Result AccessKey
new identity enabled =
    if is_blank identity.id
    then err id_required
    else if is_blank identity.name
    then err name_required
    else ok (record { identity = identity; enabled = enabled })

abbrev pub key_prefix : Text
key_prefix = codes "clan_"

-- The base64url alphabet.
abbrev pub encode_char : ℕ → ℕ
encode_char v =
    if ltb v 26
    then v + b'A'
    else if ltb v 52
    then v - 26 + b'a'
    else if ltb v 62
    then v - 52 + b'0'
    else if v == 62
    then b'-'
    else b'_'

abbrev pub decode_char : ℕ → Option ℕ
decode_char c =
    if leb b'A' c && leb c b'Z'
    then some (c - b'A')
    else if leb b'a' c && leb c b'z'
    then some (c - b'a' + 26)
    else if leb b'0' c && leb c b'9'
    then some (c - b'0' + 52)
    else if c == b'-'
    then some 62
    else if c == b'_'
    then some 63
    else none

-- Bytes as six-bit values, the last one filled up with zero bits.
unfoldable pub sextets : List ℕ → List ℕ
sextets [] = []
sextets (a ∷ []) = (a / 4) ∷ (a % 4 * 16) ∷ []
sextets (a ∷ b ∷ []) = (a / 4) ∷ (a % 4 * 16 + b / 16) ∷ (b % 16 * 4) ∷ []
sextets (a ∷ b ∷ c ∷ s) =
    (a / 4) ∷ (a % 4 * 16 + b / 16) ∷ (b % 16 * 4 + c / 64) ∷ (c % 64) ∷ sextets s

-- The strict way back: a single value is left over nowhere, and the bits filled up are zero.
unfoldable pub unsextets : List ℕ → Option (List ℕ)
unsextets [] = some []
unsextets (u ∷ []) = none
unsextets (u ∷ v ∷ []) = if v % 16 == 0 then some ((u * 4 + v / 16) ∷ []) else none
unsextets (u ∷ v ∷ w ∷ []) =
    if w % 4 == 0 then some ((u * 4 + v / 16) ∷ (v % 16 * 16 + w / 4) ∷ []) else none
unsextets (u ∷ v ∷ w ∷ x ∷ s) =
    let rest = unsextets s in
    Option.map (λ t. (u * 4 + v / 16) ∷ (v % 16 * 16 + w / 4) ∷ (w % 4 * 64 + x) ∷ t) rest

unfoldable pub encode_chars : List ℕ → Text
encode_chars [] = []
encode_chars (v ∷ vs) = encode_char v ∷ encode_chars vs

abbrev join_char : Option ℕ → Option (List ℕ) → Option (List ℕ)
join_char none vs = none
join_char (some v) none = none
join_char (some v) (some vs) = some (v ∷ vs)

unfoldable pub decode_chars : Text → Option (List ℕ)
decode_chars [] = some []
decode_chars (c ∷ s) = join_char (decode_char c) (decode_chars s)

-- `RawURLEncoding.EncodeToString`
unfoldable pub encode : List ℕ → Text
encode bs = encode_chars (sextets bs)

unfoldable pub skip_newlines : Text → Text
skip_newlines [] = []
skip_newlines (c ∷ s) = if c == 10 || c == 13 then skip_newlines s else c ∷ skip_newlines s

-- `RawURLEncoding.Strict().DecodeString`
unfoldable pub decode : Text → Option (List ℕ)
decode s = Option.bind (decode_chars (skip_newlines s)) unsextets

-- `strings.HasPrefix`
abbrev pub has_prefix : Text → Text → Bool
has_prefix s [] = true
has_prefix [] (p ∷ ps) = false
has_prefix (c ∷ s) (p ∷ ps) = c == p && has_prefix s ps

abbrev pub drop : ℕ → Text → Text
drop zero s = s
drop (suc n) [] = []
drop (suc n) (c ∷ s) = drop n s

module _ (sha256 : Text → Text) where
  -- `accesskey.Generate`: the raw key and its verification hash.
  unfoldable pub generate : List ℕ → Text × Text
  generate secret = let raw = key_prefix ++ encode secret in (raw, sha256 raw)

  abbrev checked : Text → Option (List ℕ) → Option Text
  checked raw none = none
  checked raw (some secret) = if length secret == 32 then some (sha256 raw) else none

  -- `accesskey.Hash`
  unfoldable pub hash : Text → Option Text
  hash raw =
      if not (length raw == 48) || not (has_prefix raw key_prefix)
      then none
      else checked raw (decode (drop 5 raw))
