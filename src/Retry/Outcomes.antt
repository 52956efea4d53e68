-- ===== src/Retry/Outcomes.antt =====
-- The cooldowns that retry.go hands to the executor, and the blanks around a header.
use clan.Prelude.{
  ℕ, ◌+◌, ◌^◌, ◌<◌, ◌≡◌, refl, ap, ◌∙◌, ◌≢◌, Bool, true, false, Option, none, some, [], ◌∷◌, ◌++◌,
  arith, All, Text,
}
use clan.Retry.{
  Time, Cooldown, retry_at, is_pad, trim_left, trim_right, trim, date_cooldown, parse_retry_after,
}
use clan.Retry.Seconds.{parse_retry_after_lem, is_seconds, digits_value, all_digits, after_seconds}

-- `RetryAt` uses `Until`; the other kinds require the zero time.
abbrev pub IsWellFormed : Cooldown → Type 0
IsWellFormed c = c.kind ≢ retry_at → c.until ≡ 0

date-IsWellFormed : (d : Option Time) → IsWellFormed (date_cooldown d)
date-IsWellFormed none h = refl
date-IsWellFormed (some t) h = absurd (h refl)

-- Every cooldown that is parsed is well formed, and one that counts seconds from receipt lies
-- within the range of a Go duration, less than 2^63 nanoseconds after it.
pub parse_retry_after-IsWellFormed :
    (http_date : Text → Option Time) (s : Text) (received : Time) (c : Cooldown)
    → parse_retry_after http_date s received ≡ some c
    → IsWellFormed c × (is_seconds (trim is_pad s) ≡ true → c.until < received + 2 ^ 63)
parse_retry_after-IsWellFormed http_date s received c h = ground (
  arith,
  parse_retry_after_lem http_date s received,
  date-IsWellFormed (http_date (trim is_pad s)),
)

abbrev Cuts : (ℕ → Bool) → Text → Type 0
Cuts cut = All (λ c. cut c ≡ true)

abbrev Keeps : (ℕ → Bool) → Text → Type 0
Keeps cut = All (λ c. cut c ≡ false)

trim_left-pad :
    (cut : ℕ → Bool) (p s : Text) → Cuts cut p → trim_left cut (p ++ s) ≡ trim_left cut s
unfolding trim_left
trim_left-pad cut [] s h = refl
trim_left-pad cut (c ∷ p) s h = ground (arith, trim_left-pad cut p s)

trim_right-pad : (cut : ℕ → Bool) (q : Text) → Cuts cut q → trim_right cut q ≡ []
unfolding trim_right
trim_right-pad cut [] h = refl
trim_right-pad cut (c ∷ q) h = ground (arith, trim_right-pad cut q)

trim_right-keep :
    (cut : ℕ → Bool) (s q : Text) → Keeps cut s → Cuts cut q → trim_right cut (s ++ q) ≡ s
unfolding trim_right
trim_right-keep cut [] q k h = trim_right-pad cut q h
trim_right-keep cut (c ∷ s) q k h = ground (arith, trim_right-keep cut s q)

-- Trimming takes the blanks on both sides off a text that has none inside.
trim-pad :
    (cut : ℕ → Bool) (p s q : Text)
    → Cuts cut p
    → Keeps cut s
    → Cuts cut q
    → s ≢ []
    → trim cut (p ++ (s ++ q)) ≡ s
unfolding trim trim_left
trim-pad cut p [] q hp k hq n = absurd (n refl)
trim-pad cut p (c ∷ s) q hp k hq n =
    ap (trim_right cut) (trim_left-pad cut p (c ∷ (s ++ q)) hp ∙ ground (arith, k.0))
    ∙ trim_right-keep cut (c ∷ s) q k hq

digits-Keeps : (s : Text) → all_digits s ≡ true → Keeps is_pad s
digits-Keeps [] h = tt
digits-Keeps (c ∷ s) h = (ground arith, digits-Keeps s (ground arith))

-- Spaces and tabs on either side of a decimal numeral change nothing.
pub parse_retry_after-padded :
    (http_date : Text → Option Time) (p s q : Text) (received : Time)
    → Cuts is_pad p
    → is_seconds s ≡ true
    → Cuts is_pad q
    → received ≢ 0
    → parse_retry_after http_date (p ++ (s ++ q)) received
      ≡ some (after_seconds received (digits_value 0 s))
parse_retry_after-padded http_date p [] q received hp h hq r = cc
parse_retry_after-padded http_date p (c ∷ s) q received hp h hq r =
    let t = trim-pad is_pad p (c ∷ s) q hp (digits-Keeps (c ∷ s) (ground arith)) hq (λ e. cc) in
    ground (arith, t, parse_retry_after_lem http_date (p ++ ((c ∷ s) ++ q)) received)
