-- ===== src/Storage/Requests.antt =====
-- internal/storage/requests.go and internal/app/retention.go: the records of finished requests.
--
-- The table is a list of its rows in the order of `ORDER BY finished_at DESC, id DESC`. Milliseconds
-- are counted from Go's zero time, so that a time is a natural number here; Unix milliseconds differ
-- from them by a constant. Token counts are never negative. Failures of the database are given to
-- the functions that pass them on.
use clan.Prelude.{
  ℕ, zero, suc, ◌+◌, ◌-◌, ◌*◌, ◌/◌, ◌%◌, ◌^◌, ◌≤◌, ◌<◌, max, min, String, ◌≡◌, refl, sym, ap, ◌∙◌,
  subst, ◌≢◌, ◌↔◌, ◌⊎◌, inl, inr, Bool, true, false, not, ◌&&◌, ◌||◌, Option, none, some, List, [],
  ◌∷◌, ◌++◌, map, arith, ltb, leb, ◌==◌, if◌then◌else◌, Bool-cases, Option-cases, is_some,
  subst_some, if_elim, all_below, all_below_sound, length, length-append, replicate, count, filter,
  count-le-length, count-append, count-set, count-strict, count_mono, count-pos, In, All, All-In,
  get_elem?, set, get_elem?-set_self, Text, codes, text_eq, text_eq_iff, text_eq_refl, text_lt,
  text_lt_irrefl, text_lt_trans, text_lt_total, text_lt_of_ge, is_blank, Map, lookup, insert, erase,
  lookup-insert, lookup-erase, get_or, ℤ, pos, negsuc, incr, decr, int_lt, is_zero, ltb→lt, lt→ltb,
  leb→le, le→leb, ==_iff, tests,
}
use clan.Prelude.{take, last_of}
use clan.Retry.{Time}
use clan.Errors.{Error, Sentinel, not_found, conflict, invalid}
use clan.Account.{Counter, Snapshot}
pub mod Order
pub mod Stored
pub mod Pages
pub mod Pruning

pub record RequestRecord : Type 0 where
  pub id : Text
  pub finished_at : Time
  pub key_id : Text
  pub account_id : Text
  pub model : Text
  pub result : Text
  pub duration : ℤ
  pub response_started : Bool
  pub usage : Snapshot

-- A row of the table; `none` is NULL.
pub record RequestRow : Type 0 where
  pub id : Text
  pub finished : ℕ
  pub key_id : Text
  pub account_id : Option Text
  pub model : Option Text
  pub result : Text
  pub duration_ms : ℕ
  pub response_started : Bool
  pub input : Option ℕ
  pub output : Option ℕ
  pub total : Option ℕ

pub record RequestFilter : Type 0 where
  pub from_time : Option Time
  pub to_time : Option Time
  pub key_id : Text
  pub account_id : Text
  pub model : Text
  pub result : Text

pub record RequestPosition : Type 0 where
  pub finished : ℕ
  pub id : Text

abbrev pub nanos_per_milli : ℕ
nanos_per_milli = 1_000_000

abbrev pub is_unset : Text → Bool
is_unset [] = true
is_unset (c ∷ s) = false

-- `nullableText`, `nullableCounter`
abbrev pub nullable_text : Text → Option Text
nullable_text t = if is_unset t then none else some t

abbrev pub nullable_counter : Counter → Option ℕ
nullable_counter c = if c.known then some c.tokens else none

abbrev pub bad_counter : Counter → Bool
bad_counter c = not c.known && not (c.tokens == 0)

abbrev pub position : RequestRow → RequestPosition
position r = record { finished = r.finished; id = r.id }

-- `(finished_at, id) < (?, ?)`
unfoldable pub before : RequestPosition → RequestPosition → Bool
before p q = ltb p.finished q.finished || (p.finished == q.finished && text_lt p.id q.id)

abbrev pub has_request : Text → List RequestRow → Bool
has_request id [] = false
has_request id (r ∷ rs) = text_eq r.id id || has_request id rs

unfoldable pub place : RequestRow → List RequestRow → List RequestRow
place r [] = r ∷ []
place r (x ∷ xs) =
    let rest = place r xs in if before (position x) (position r) then r ∷ (x ∷ xs) else x ∷ rest

-- The milliseconds of a duration that is not negative.
abbrev pub millis : ℤ → ℕ
millis (pos n) = n / nanos_per_milli
millis (negsuc n) = 0

unfoldable pub to_row : RequestRecord → RequestRow
to_row r = record {
  id = r.id;
  finished = r.finished_at / nanos_per_milli;
  key_id = r.key_id;
  account_id = nullable_text r.account_id;
  model = nullable_text r.model;
  result = r.result;
  duration_ms = millis r.duration;
  response_started = r.response_started;
  input = nullable_counter r.usage.input;
  output = nullable_counter r.usage.output;
  total = nullable_counter r.usage.total;
}

unfoldable pub is_invalid : RequestRecord → Bool
is_invalid r =
    is_unset r.id
    || is_unset r.key_id
    || is_unset r.result
    || int_lt r.duration (pos 0)
    || bad_counter r.usage.input
    || bad_counter r.usage.output
    || bad_counter r.usage.total

-- `InsertRequest`
unfoldable pub insert_request : List RequestRow → RequestRecord → List RequestRow × Option Sentinel
insert_request rows r =
    if is_invalid r
    then (rows, some invalid)
    else if has_request r.id rows
    then (rows, some conflict)
    else (place (to_row r) rows, none)

abbrev pub counter : Option ℕ → Counter
counter none = record { tokens = 0; known = false }
counter (some n) = record { tokens = n; known = true }

abbrev pub text_of : Option Text → Text
text_of none = []
text_of (some t) = t

-- `scanRequest`
unfoldable pub scan_request : RequestRow → RequestRecord
scan_request r = record {
  id = r.id;
  finished_at = r.finished * nanos_per_milli;
  key_id = r.key_id;
  account_id = text_of r.account_id;
  model = text_of r.model;
  result = r.result;
  duration = pos (r.duration_ms * nanos_per_milli);
  response_started = r.response_started;
  usage = record { input = counter r.input; output = counter r.output; total = counter r.total };
}

-- `GetRequest`
unfoldable pub get_request : List RequestRow → Text → RequestRecord ⊎ Sentinel
get_request [] id = inr not_found
get_request (r ∷ rs) id =
    let rest = get_request rs id in if text_eq r.id id then inl (scan_request r) else rest

-- `ceilMillis`
unfoldable pub ceil_millis : Time → ℕ
ceil_millis t = if t % nanos_per_milli == 0 then t / nanos_per_milli else suc (t / nanos_per_milli)

abbrev pub bad_range : RequestFilter → Bool
bad_range f = elim f.from_time [
  | none ↦ false
  | some a ↦ elim f.to_time [ none ↦ false | some b ↦ not (ltb a b) ]
]

abbrev pub from_holds : Option Time → ℕ → Bool
from_holds none n = true
from_holds (some t) n = leb (ceil_millis t) n

abbrev pub to_holds : Option Time → ℕ → Bool
to_holds none n = true
to_holds (some t) n = ltb n (ceil_millis t)

abbrev pub equals_set : Text → Option Text → Bool
equals_set value none = is_unset value
equals_set value (some t) = is_unset value || text_eq t value

-- The conditions of `requestWhere`, on a row.
unfoldable pub request_where : RequestFilter → RequestRow → Bool
request_where f r =
    from_holds f.from_time r.finished
    && to_holds f.to_time r.finished
    && equals_set f.key_id (some r.key_id)
    && equals_set f.account_id r.account_id
    && equals_set f.model r.model
    && equals_set f.result (some r.result)

abbrev pub comes_after : Option RequestPosition → RequestRow → Bool
comes_after none r = true
comes_after (some p) r = before (position r) p

-- `ListRequests`
unfoldable pub list_requests :
    List RequestRow → RequestFilter → Option RequestPosition → ℕ → List RequestRecord ⊎ Sentinel
list_requests rows f after limit =
    if ltb limit 1 || ltb 101 limit
    then inr invalid
    else if bad_range f
    then inr invalid
    else inl (
        map scan_request (take limit (filter (λ r. request_where f r && comes_after after r) rows)))

-- The rows that DeleteRequestsBefore leaves, of which it removes `n` at most; which of the expired ones go is
-- left open by the source, and here they are the first ones in the order of the list.
unfoldable pub delete_up_to : ℕ → (RequestRow → Bool) → List RequestRow → List RequestRow
delete_up_to n p [] = []
delete_up_to zero p rows = rows
delete_up_to (suc n) p (r ∷ rs) = elim (p r) [
  | true ↦ delete_up_to n p rs
  | false ↦ r ∷ delete_up_to (suc n) p rs
]

abbrev pub is_expired : Time → RequestRow → Bool
is_expired t r = ltb r.finished (ceil_millis t)

abbrev pub batch : ℕ
batch = 1000

-- `DeleteRequestsBefore`, with the number of rows that it affects.
unfoldable pub delete_requests_before : List RequestRow → Time → List RequestRow × ℕ
delete_requests_before rows t =
    let rest = delete_up_to batch (is_expired t) rows in (rest, length rows - length rest)

-- `pruneRequests` in `fuel` rounds at most; the context or the database may interrupt a round, given by the number of
-- rounds that are left. A result of `none` is a loop that has not ended.
unfoldable pub prune_requests :
    ℕ → (ℕ → Option Error) → List RequestRow → Time → List RequestRow × Option (Option Error)
prune_requests zero interrupts rows t = (rows, none)
prune_requests (suc n) interrupts rows t = elim (interrupts n) [
  | some e ↦ (rows, some (some e))
  | none ↦
      let next = delete_requests_before rows t in
      let rest = prune_requests n interrupts next.0 t in
      if next.1 == 0 then (next.0, some none) else rest
]

pub data Event : Type 0 where
  inserts : RequestRecord → Event
  deletes : Time → Event

unfoldable pub step : List RequestRow → Event → List RequestRow
step rows (inserts r) = (insert_request rows r).0
step rows (deletes t) = (delete_requests_before rows t).0

unfoldable pub run : List RequestRow → List Event → List RequestRow
run rows [] = rows
run rows (e ∷ es) = run (step rows e) es
