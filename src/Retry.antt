-- ===== src/Retry.antt =====
-- internal/retry/retry.go: what a provider's Retry-After header asks for.
--
-- A `time.Time` is its number of nanoseconds since Go's zero time, so 0 is the zero time.
-- `strconv.ParseUint(value, 10, 64)` is written out with its uint64 wrap-around. `http.ParseTime`
-- is the parameter `http_date`, any function from texts to times or failure.
use clan.Prelude.{
  ℕ, zero, suc, ◌+◌, ◌-◌, ◌*◌, ◌/◌, ◌%◌, ◌^◌, ◌≤◌, ◌<◌, max, min, String, ◌≡◌, refl, sym, ap, ◌∙◌,
  subst, ◌≢◌, ◌↔◌, ◌⊎◌, inl, inr, Bool, true, false, not, ◌&&◌, ◌||◌, Option, none, some, List, [],
  ◌∷◌, ◌++◌, map, arith, ltb, leb, ◌==◌, if◌then◌else◌, Bool-cases, Option-cases, is_some,
  all_below, all_below_sound, length, length-append, replicate, count, filter, count-le-length,
  count-append, count-set, count-strict, count_mono, count-pos, In, All, All-In, get_elem?, set,
  get_elem?-set_self, Text, codes, text_eq, text_eq_iff, text_eq_refl, text_lt, text_lt_irrefl,
  text_lt_trans, text_lt_total, text_lt_of_ge, is_blank, Map, lookup, insert, erase, lookup-insert,
  lookup-erase, get_or, ℤ, pos, negsuc, incr, decr, int_lt, is_zero, ltb→lt, lt→ltb, leb→le, le→leb,
  ==_iff, tests,
}
pub mod Seconds
pub mod Outcomes

abbrev pub Time : Type 0
Time = ℕ

abbrev pub nanos_per_second : ℕ
nanos_per_second = 1_000_000_000

abbrev pub is_zero_time : Time → Bool
is_zero_time t = t == 0

pub data CooldownKind : Type 0 where
  no_cooldown retry_at retry_blocked : CooldownKind

pub record Cooldown : Type 0 where
  pub kind : CooldownKind
  pub until : Time

-- `Cooldown{}` and `Cooldown{Kind: RetryBlocked}`
abbrev pub unrestricted : Cooldown
unrestricted = record { kind = no_cooldown; until = 0 }

abbrev pub blocked : Cooldown
blocked = record { kind = retry_blocked; until = 0 }

abbrev pub at : Time → Cooldown
at t = record { kind = retry_at; until = t }

abbrev pub is_digit : ℕ → Bool
is_digit c = leb b'0' c && leb c b'9'

abbrev pub is_pad : ℕ → Bool
is_pad c = c == 32 || c == 9

-- `strings.Trim` with a set of bytes.
unfoldable pub trim_left : (ℕ → Bool) → Text → Text
trim_left cut [] = []
trim_left cut (c ∷ s) = if cut c then trim_left cut s else c ∷ s

abbrev pub is_empty : Text → Bool
is_empty [] = true
is_empty (c ∷ s) = false

unfoldable pub trim_right : (ℕ → Bool) → Text → Text
trim_right cut [] = []
trim_right cut (c ∷ s) =
    let rest = trim_right cut s in if is_empty rest && cut c then [] else c ∷ rest

unfoldable pub trim : (ℕ → Bool) → Text → Text
trim cut s = trim_right cut (trim_left cut s)

pub data ParseUint : Type 0 where
  value : ℕ → ParseUint
  err_syntax err_range : ParseUint

abbrev pub u64 : ℕ → ℕ
u64 n = n % 18446744073709551616

-- `maxUint64/10 + 1`
abbrev pub cutoff : ℕ
cutoff = 1844674407370955162

unfoldable pub parse_digits : ℕ → Text → ParseUint
parse_digits n [] = value n
parse_digits n (c ∷ s) =
    let shifted = u64 (n * 10) in
    let sum = u64 (shifted + (c - b'0')) in
    let rest = parse_digits sum s in
    if not (is_digit c)
    then err_syntax
    else if leb cutoff n
    then err_range
    else if ltb sum shifted
    then err_range
    else rest

unfoldable pub parse_uint : Text → ParseUint
parse_uint [] = err_syntax
parse_uint (c ∷ s) = parse_digits 0 (c ∷ s)

-- `math.MaxInt64/int64(time.Second)`
abbrev pub max_seconds : ℕ
max_seconds = 9223372036

abbrev pub date_cooldown : Option Time → Cooldown
date_cooldown none = unrestricted
date_cooldown (some t) = at t

-- What the digits decide: `none` falls through to the HTTP date.
abbrev pub seconds_cooldown : Time → Text → ParseUint → Option Cooldown
seconds_cooldown received s (value n) =
    if ltb max_seconds n then some blocked else some (at (received + n * nanos_per_second))
seconds_cooldown received s err_syntax = none
seconds_cooldown received s err_range = if is_empty (trim is_digit s) then some blocked else none

abbrev pub starts_with_digit : Text → Bool
starts_with_digit [] = false
starts_with_digit (c ∷ s) = is_digit c

abbrev pub or_date : Option Cooldown → Option Time → Cooldown
or_date none d = date_cooldown d
or_date (some c) d = c

module _ (http_date : Text → Option Time) where
  unfoldable pub parse_trimmed : Text → Time → Cooldown
  parse_trimmed s received =
      if starts_with_digit s
      then or_date (seconds_cooldown received s (parse_uint s)) (http_date s)
      else date_cooldown (http_date s)

  -- `none` is the error for a zero receipt time.
  unfoldable pub parse_retry_after : Text → Time → Option Cooldown
  unfolding parse_trimmed
  parse_retry_after s received =
      if is_zero_time received then none else some (parse_trimmed (trim is_pad s) received)
