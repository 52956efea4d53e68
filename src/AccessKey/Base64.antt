-- ===== src/AccessKey/Base64.antt =====
-- The base64url code of internal/accesskey/verification.go both ways.
use clan.Prelude.{
  ℕ, suc, ◌+◌, ◌*◌, ◌/◌, ◌%◌, ◌≤◌, ◌<◌, ◌≡◌, refl, sym, ap, ◌∙◌, inl, inr, ◌||◌, some, List, [],
  ◌∷◌, arith, ◌==◌, if◌then◌else◌, Bool-cases, Option-cases, subst_some, length, All, Text,
}
use mathlib.Core.Option
use clan.AccessKey.{
  encode_char, decode_char, sextets, unsextets, encode_chars, decode_chars, encode, decode,
  skip_newlines,
}

abbrev pub AreBytes : List ℕ → Type 0
AreBytes = All (λ b. b < 256)

abbrev AreSextets : List ℕ → Type 0
AreSextets = All (λ v. v < 64)

decode_char-encode_char : (v : ℕ) → v < 64 → decode_char (encode_char v) ≡ some v
decode_char-encode_char v h = ground arith

encode_char-decode_char : (c v : ℕ) → decode_char c ≡ some v → (encode_char v ≡ c) × (v < 64)
encode_char-decode_char c v h = ground arith

-- No character of the alphabet is a line break.
encode_char-visible : (v : ℕ) → 32 < encode_char v
encode_char-visible v = ground arith

sextets-AreSextets : (bs : List ℕ) → AreBytes bs → AreSextets (sextets bs)
unfolding sextets
sextets-AreSextets [] h = tt
sextets-AreSextets (a ∷ []) h = omega arith
sextets-AreSextets (a ∷ b ∷ []) h = omega arith
sextets-AreSextets (a ∷ b ∷ c ∷ s) h = ground (arith, sextets-AreSextets s h.1.1.1)

unsextets-sextets : (bs : List ℕ) → AreBytes bs → unsextets (sextets bs) ≡ some bs
unfolding sextets unsextets
unsextets-sextets [] h = refl
unsextets-sextets (a ∷ []) h = ground arith
unsextets-sextets (a ∷ b ∷ []) h = ground arith
unsextets-sextets (a ∷ b ∷ c ∷ s) h = ground (arith, unsextets-sextets s h.1.1.1)

-- `bs` packs into the six-bit values `vs`.
abbrev Packs : List ℕ → List ℕ → Type 0
Packs vs bs = (sextets bs ≡ vs) × AreBytes bs

sextets-unsextets : (vs bs : List ℕ) → AreSextets vs → unsextets vs ≡ some bs → Packs vs bs
unfolding unsextets sextets
sextets-unsextets [] bs h e = subst_some (Packs []) e (refl, tt)
sextets-unsextets (u ∷ []) bs h e = cc
sextets-unsextets (u ∷ v ∷ []) bs h e = elim (Bool-cases (v % 16 == 0)) [
  | inl z ↦ subst_some (Packs (u ∷ v ∷ [])) (rw z at e) (ground arith, omega arith)
  | inr z ↦ absurd (ground arith)
]
sextets-unsextets (u ∷ v ∷ w ∷ []) bs h e = elim (Bool-cases (w % 4 == 0)) [
  | inl z ↦ subst_some (Packs (u ∷ v ∷ w ∷ [])) (rw z at e) (ground arith, omega arith)
  | inr z ↦ absurd (ground arith)
]
sextets-unsextets (u ∷ v ∷ w ∷ x ∷ s) bs h e = elim (Option-cases (unsextets s)) [
  | inl n ↦ absurd (ground arith)
  | inr (t, f) ↦
      let (same, small) = sextets-unsextets s t h.1.1.1.1 f in
      subst_some (Packs (u ∷ v ∷ w ∷ x ∷ s)) (rw f at e) (ground arith, ground arith)
]

decode_chars-encode_chars : (vs : List ℕ) → AreSextets vs → decode_chars (encode_chars vs) ≡ some vs
unfolding decode_chars encode_chars
decode_chars-encode_chars [] h = refl
decode_chars-encode_chars (v ∷ vs) h =
    rw (decode_char-encode_char v h.0, decode_chars-encode_chars vs h.1)

abbrev Spells : Text → List ℕ → Type 0
Spells s vs = (encode_chars vs ≡ s) × AreSextets vs

encode_chars-decode_chars : (s : Text) (vs : List ℕ) → decode_chars s ≡ some vs → Spells s vs
unfolding decode_chars encode_chars
encode_chars-decode_chars [] vs e = subst_some (Spells []) e (refl, tt)
encode_chars-decode_chars (c ∷ s) vs e = elim (Option-cases (decode_char c)) [
  | inl n ↦ absurd (ground (arith, n))
  | inr (v, f) ↦ elim (Option-cases (decode_chars s)) [
    | inl n ↦ absurd (ground (arith, n, f))
    | inr (ws, g) ↦
        let (same, small) = encode_chars-decode_chars s ws g in
        let (spelled, low) = encode_char-decode_char c v f in
        subst_some (Spells (c ∷ s)) (rw (f, g) at e) (cc, (low, small))
  ]
]

skip_newlines-encode_chars : (vs : List ℕ) → skip_newlines (encode_chars vs) ≡ encode_chars vs
unfolding skip_newlines encode_chars
skip_newlines-encode_chars [] = refl
skip_newlines-encode_chars (v ∷ vs) =
    let ih = skip_newlines-encode_chars vs in
    skip_visible (encode_char v) _ _ (encode_char-visible v) ih
  where
    skip_visible :
        (c : ℕ) (s t : Text) → 32 < c → s ≡ t → (if c == 10 || c == 13 then s else c ∷ s) ≡ c ∷ t
    skip_visible c s t h e = ground arith

length-skip_newlines : (s : Text) → length (skip_newlines s) ≤ length s
unfolding skip_newlines
length-skip_newlines [] = omega arith
length-skip_newlines (c ∷ s) = ground (arith, length-skip_newlines s)

-- A text that loses nothing has no line breaks.
skip_newlines-same : (s : Text) → length s ≤ length (skip_newlines s) → skip_newlines s ≡ s
unfolding skip_newlines
skip_newlines-same [] h = refl
skip_newlines-same (c ∷ s) h = ground (arith, length-skip_newlines s, skip_newlines-same s)

length-encode_chars : (vs : List ℕ) → length (encode_chars vs) ≡ length vs
unfolding encode_chars
length-encode_chars [] = refl
length-encode_chars (v ∷ vs) = ap suc (length-encode_chars vs)

length-sextets : (bs : List ℕ) → length (sextets bs) ≡ (length bs * 4 + 2) / 3
unfolding sextets
length-sextets [] = omega arith
length-sextets (a ∷ []) = omega arith
length-sextets (a ∷ b ∷ []) = omega arith
length-sextets (a ∷ b ∷ c ∷ s) = omega (arith, length-sextets s)

pub length-encode : (bs : List ℕ) → length (encode bs) ≡ (length bs * 4 + 2) / 3
unfolding encode
length-encode bs = length-encode_chars (sextets bs) ∙ length-sextets bs

-- Decoding what was encoded gives the bytes back.
pub decode-encode : (bs : List ℕ) → AreBytes bs → decode (encode bs) ≡ some bs
unfolding decode encode Option.bind unsextets
decode-encode bs h =
    rw
      (
        skip_newlines-encode_chars (sextets bs),
        decode_chars-encode_chars (sextets bs) (sextets-AreSextets bs h),
      )
      (unsextets-sextets bs h)

-- What decodes is a code of the bytes that it decodes to, once its line breaks are taken out.
pub encode-decode :
    (s : Text) (bs : List ℕ) → decode s ≡ some bs → (encode bs ≡ skip_newlines s) × AreBytes bs
unfolding decode encode Option.bind unsextets
encode-decode s bs e = elim (Option-cases (decode_chars (skip_newlines s))) [
  | inl n ↦ absurd (ground (arith, n))
  | inr (vs, f) ↦
      let (spelled, small) = encode_chars-decode_chars (skip_newlines s) vs f in
      let (packed, bytes) = sextets-unsextets vs bs small (rw f at e) in
      (ap encode_chars packed ∙ spelled, bytes)
]

-- A text that decodes and is as long as the code of its bytes is that code.
pub decode_canonical :
    (s : Text) (bs : List ℕ)
    → decode s ≡ some bs
    → length s ≡ (length bs * 4 + 2) / 3
    → s ≡ encode bs
decode_canonical s bs e l =
    let (coded, bytes) = encode-decode s bs e in
    let kept = skip_newlines-same s (omega (arith, ap length coded, length-encode bs)) in
    sym (coded ∙ kept)
