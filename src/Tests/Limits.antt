-- ===== src/Tests/Limits.antt =====
-- Concrete runs of the limiter and of Retry-After headers.
use clan.Prelude.{
  ◌+◌, ◌^◌, ◌≤◌, ◌<◌, ◌≡◌, refl, ◌↔◌, true, Option, none, some, List, [], ◌∷◌, arith, Text, codes,
  text_eq, is_blank, lookup, insert, erase, pos,
}
use clan.Concurrency.{release_key, Call, acquires, releases, new, try_acquire, release, run, step}
use clan.Concurrency.Invariant.{IsValid, live, new-IsValid, run-new-IsValid}
use clan.Concurrency.Bounds.{Permits, try_acquire_succeeds, live-run}
use clan.Retry.{
  parse_uint, trim_left, trim_right, parse_digits, Time, at, is_pad, trim, parse_retry_after,
}
use clan.Retry.Seconds.{parse_retry_after_lem, is_seconds}
use clan.Retry.Outcomes.{IsWellFormed, parse_retry_after-IsWellFormed}

abbrev team : Text
team = codes "team"

abbrev calls : List Call
calls =
    acquires team (pos 2)
    ∷ acquires team (pos 2)
    ∷ acquires team (pos 2)
    ∷ releases (some 0)
    ∷ releases (some 0)
    ∷ []

-- Two slots were taken, the third was refused, one was released, once.
two_then_one : live team (run new calls).onces ≡ 1
unfolding run step new try_acquire release is_blank text_eq lookup insert erase release_key
two_then_one = refl

run-new-IsValid_example : IsValid (run new calls)
run-new-IsValid_example = run-new-IsValid calls

try_acquire_succeeds_example : ((try_acquire new team (pos 1)).2 ≡ none) ↔ Permits (pos 1) 0
unfolding is_blank new
try_acquire_succeeds_example = try_acquire_succeeds new team (pos 1) new-IsValid refl

live-run_example : live team (run new calls).onces ≤ 2
unfolding new
live-run_example = live-run team 2 new calls new-IsValid (omega arith) (omega arith)

abbrev no_date : Text → Option Time
no_date s = none

-- Two minutes from one second after the zero time.
two_minutes : parse_retry_after no_date (codes " 120 ") 1_000_000_000 ≡ some (at 121_000_000_000)
unfolding parse_retry_after trim parse_uint trim_left trim_right parse_digits
two_minutes = refl

parse_retry_after_lem_example :
    parse_retry_after no_date (codes " 120 ") 5 ≡ some (at 120_000_000_005)
unfolding trim trim_left trim_right
parse_retry_after_lem_example = parse_retry_after_lem no_date (codes " 120 ") 5

parse_retry_after-IsWellFormed_example :
    IsWellFormed (at 7_000_000_005)
    × (is_seconds (trim is_pad (codes "7")) ≡ true → 7_000_000_005 < 5 + 2 ^ 63)
unfolding parse_retry_after trim trim_left trim_right parse_uint parse_digits
parse_retry_after-IsWellFormed_example =
    parse_retry_after-IsWellFormed no_date (codes "7") 5 (at 7_000_000_005) refl
