-- ===== src/Retry/Seconds.antt =====
-- What retry.go makes of a Retry-After header: decimal seconds of any size, else a date.
use clan.Prelude.{
  ℕ, ◌+◌, ◌-◌, ◌*◌, ◌≤◌, ◌<◌, ◌≡◌, refl, ◌⊎◌, inl, inr, Bool, true, false, not, ◌&&◌, Option, none,
  some, [], ◌∷◌, arith, ltb, leb, ◌==◌, if◌then◌else◌, Bool-cases, Text, ltb→lt,
}
use clan.Retry.{
  Time, Cooldown, blocked, at, is_digit, is_pad, trim_left, trim_right, trim, is_empty, ParseUint,
  value, err_syntax, err_range, cutoff, parse_digits, parse_uint, max_seconds, nanos_per_second,
  date_cooldown, parse_trimmed, parse_retry_after, u64,
}

-- The number that decimal digits denote, after the digits read so far.
abbrev pub digits_value : ℕ → Text → ℕ
digits_value n [] = n
digits_value n (c ∷ s) = digits_value (n * 10 + (c - b'0')) s

abbrev pub all_digits : Text → Bool
all_digits [] = true
all_digits (c ∷ s) = is_digit c && all_digits s

digits_value-grows : (n : ℕ) (s : Text) → n ≤ digits_value n s
digits_value-grows n [] = omega arith
digits_value-grows n (c ∷ s) = omega (arith, digits_value-grows (n * 10 + (c - b'0')) s)

abbrev two_64 : ℕ
two_64 = 18446744073709551616

-- One round of the uint64 loop: the next number, unless it leaves the range.
fits : (n d : ℕ) → n * 10 + d < two_64 → u64 (u64 (n * 10) + d) ≡ n * 10 + d
fits n d h = omega arith

wraps :
    (n d : ℕ) → d < 10 → n < cutoff → two_64 ≤ n * 10 + d → u64 (u64 (n * 10) + d) < u64 (n * 10)
wraps n d h k l = omega arith

-- On digits the uint64 loop finds the number, or reports that it is out of range.
parse_digits_all :
    (n : ℕ) (s : Text)
    → all_digits s ≡ true
    → n < two_64
    → parse_digits n s
      ≡ (if ltb (digits_value n s) two_64 then value (digits_value n s) else err_range)
unfolding parse_digits
parse_digits_all n [] h l = ground arith
parse_digits_all n (c ∷ s) h l = elim (Bool-cases (ltb (n * 10 + (c - b'0')) two_64)) [
  | inl e ↦
      let f = fits n (c - b'0') (ltb→lt _ _ e) in
      rw f (ground (arith, parse_digits_all (n * 10 + (c - b'0')) s))
  | inr e ↦ ground (arith, wraps n (c - b'0'), digits_value-grows (n * 10 + (c - b'0')) s)
]

-- Otherwise it never finds a number.
parse_digits_value : (n m : ℕ) (s : Text) → parse_digits n s ≡ value m → all_digits s ≡ true
unfolding parse_digits
parse_digits_value n m [] h = refl
parse_digits_value n m (c ∷ s) h =
    ground (arith, parse_digits_value (u64 (u64 (n * 10) + (c - b'0'))) m s)

trim_digits : (s : Text) → is_empty (trim is_digit s) ≡ all_digits s
unfolding trim trim_left trim_right
trim_digits [] = refl
trim_digits (c ∷ s) = ground (arith, trim_digits s)

-- The header after trimming: decimal digits alone ask for seconds, all else is a date or nothing.
abbrev pub is_seconds : Text → Bool
is_seconds s = not (is_empty s) && all_digits s

abbrev pub after_seconds : Time → ℕ → Cooldown
after_seconds received n =
    if leb n max_seconds then at (received + n * nanos_per_second) else blocked

parse_uint_digits :
    (s : Text)
    → is_seconds s ≡ true
    → parse_uint s ≡ (if ltb (digits_value 0 s) two_64 then value (digits_value 0 s) else err_range)
unfolding parse_uint
parse_uint_digits [] h = cc
parse_uint_digits (c ∷ s) h = parse_digits_all 0 (c ∷ s) h (omega arith)

parse_uint_value : (s : Text) (m : ℕ) → parse_uint s ≡ value m → all_digits s ≡ true
unfolding parse_uint
parse_uint_value [] m h = refl
parse_uint_value (c ∷ s) m h = parse_digits_value 0 m (c ∷ s) h

parse_cases : (r : ParseUint) → ((n : ℕ) × (r ≡ value n)) ⊎ ((r ≡ err_syntax) ⊎ (r ≡ err_range))
parse_cases (value n) = inl (n, refl)
parse_cases err_syntax = inr (inl refl)
parse_cases err_range = inr (inr refl)

module _ (http_date : Text → Option Time) where
  parse_trimmed_seconds :
      (s : Text) (received : Time)
      → is_seconds s ≡ true
      → parse_trimmed http_date s received ≡ after_seconds received (digits_value 0 s)
  unfolding parse_trimmed
  parse_trimmed_seconds [] received h = cc
  parse_trimmed_seconds (c ∷ s) received h =
      ground (arith, parse_uint_digits (c ∷ s) h, trim_digits (c ∷ s))

  parse_trimmed_other :
      (s : Text) (received : Time)
      → is_seconds s ≡ false
      → parse_trimmed http_date s received ≡ date_cooldown (http_date s)
  unfolding parse_trimmed
  parse_trimmed_other [] received h = refl
  parse_trimmed_other (c ∷ s) received h = elim (parse_cases (parse_uint (c ∷ s))) [
    | inl (n, e) ↦ absurd (ground (arith, parse_uint_value (c ∷ s) n e))
    | inr (inl e) ↦ rw e (ground arith)
    | inr (inr e) ↦ rw e (ground (arith, trim_digits (c ∷ s)))
  ]

  -- With a receipt time, a header whose text between blanks is decimal digits, of any length, asks
  -- for that many seconds from receipt, or blocks retries when they pass the Go duration's range;
  -- any other text is what the HTTP date makes of it, and no restriction if it is none. Without a
  -- receipt time the call fails.
  pub parse_retry_after_lem :
      (s : Text) (received : Time)
      → parse_retry_after http_date s received ≡ (
          if received == 0
          then none
          else if is_seconds (trim is_pad s)
          then some (after_seconds received (digits_value 0 (trim is_pad s)))
          else some (date_cooldown (http_date (trim is_pad s))))
  unfolding parse_retry_after
  parse_retry_after_lem s received = ground (
    arith,
    parse_trimmed_seconds (trim is_pad s) received,
    parse_trimmed_other (trim is_pad s) received,
  )
