-- ===== src/Tests/Records.antt =====
-- Concrete request records.
use clan.Prelude.{
  ℕ, zero, suc, ◌≡◌, refl, ap, inl, true, not, Option, none, some, List, [], ◌∷◌, ◌++◌, map, arith,
  length, length-append, filter, Text, codes, text_eq, pos,
}
use clan.Prelude.{take}
use clan.Retry.{Time}
use clan.Account.{no_usage}
use clan.Storage.Requests.{
  RequestRecord, RequestRow, RequestFilter, place, before, to_row, is_invalid, insert_request,
  request_where, scan_request, get_request, ceil_millis, is_expired, prune_requests, Event, inserts,
  step, run,
}
use clan.Storage.Requests.Pruning.{prune_requests-filter}
use clan.Storage.Requests.Stored.{in_millis, get_request-insert_request}
use clan.Management.{RequestCursor, record_view}
use clan.Management.Pages.{follow, follow-request_where}

abbrev record_at : Text → Time → RequestRecord
record_at id t = record {
  id = id;
  finished_at = t;
  key_id = codes "k";
  account_id = codes "a";
  model = codes "m";
  result = codes "ok";
  duration = pos 2_500_000;
  response_started = true;
  usage = no_usage;
}

abbrev two : List Event
two = inserts (record_at (codes "x") 3_000_000) ∷ inserts (record_at (codes "y") 8_000_000) ∷ []

get_request-insert_request_example :
    get_request (insert_request [] (record_at (codes "x") 3_000_001)).0 (codes "x")
    ≡ inl (in_millis (record_at (codes "x") 3_000_001))
unfolding insert_request is_invalid
get_request-insert_request_example =
    get_request-insert_request [] (record_at (codes "x") 3_000_001) refl

abbrev old_rows : List RequestRow
old_rows = to_row (record_at (codes "y") 8_000_000) ∷ to_row (record_at (codes "x") 3_000_000) ∷ []

prune_requests-filter_example :
    prune_requests 2 (λ i. none) old_rows 5_000_000
    ≡ (filter (λ r. not (is_expired 5_000_000 r)) old_rows, some none)
unfolding to_row ceil_millis
prune_requests-filter_example =
    prune_requests-filter 1 (λ i. none) old_rows 5_000_000 (λ i. refl) (omega arith)

abbrev number : Option ℕ → ℕ
number none = 0
number (some t) = suc t

abbrev from_number : ℕ → Option ℕ
from_number zero = none
from_number (suc t) = some t

abbrev drop : ℕ → Text → Text
drop zero s = s
drop (suc n) [] = []
drop (suc n) (c ∷ s) = drop n s

abbrev encode : RequestCursor → Text
encode c = number c.time ∷ length c.id ∷ (c.id ++ c.filter)

abbrev decode : Text → Option RequestCursor
decode (t ∷ n ∷ s) = some (record { time = from_number t; id = take n s; filter = drop n s })
decode _ = none

take-append : (s t : Text) → take (length s) (s ++ t) ≡ s
take-append [] t = refl
take-append (c ∷ s) t = ap (λ u. c ∷ u) (take-append s t)

drop-append : (s t : Text) → drop (length s) (s ++ t) ≡ t
drop-append [] t = refl
drop-append (c ∷ s) t = drop-append s t

from_number-number : (o : Option ℕ) → from_number (number o) ≡ o
from_number-number none = refl
from_number-number (some t) = refl

decode-encode : (c : RequestCursor) → decode (encode c) ≡ some c
decode-encode c =
    ground (arith, from_number-number c.time, take-append c.id c.filter, drop-append c.id c.filter)

hash : RequestFilter → Text
hash f = codes "h"

anything : RequestFilter
anything = record {
  from_time = none;
  to_time = none;
  key_id = [];
  account_id = [];
  model = [];
  result = [];
}

follow-request_where_example :
    follow hash encode decode
      (suc (length (filter (request_where anything) (run [] two))))
      (run [] two)
      anything
      1
      []
    ≡ inl (map record_view (map scan_request (filter (request_where anything) (run [] two))))
unfolding hash anything run step insert_request is_invalid place before to_row text_eq
follow-request_where_example =
    follow-request_where hash encode decode decode-encode
      (λ c s t. (refl, omega (arith, s, t, length-append c.id c.filter))) (λ f. omega arith) two
      anything 1 (omega arith) (omega arith) refl ((refl, omega arith), ((refl, omega arith), tt))
