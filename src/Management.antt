-- ===== src/Management.antt =====
-- internal/management/usage.go: the filters and pages of the request records.
--
-- Parameters: `parse_time` is time.Parse with the layout RFC3339Nano, which gives the year and the time, `filter_hash` is
-- the hash of a filter's JSON, and `encode` and `decode` are the JSON and base64 of a cursor.
use clan.Prelude.{
  ℕ, zero, suc, ◌+◌, ◌-◌, ◌*◌, ◌/◌, ◌%◌, ◌^◌, ◌≤◌, ◌<◌, max, min, String, ◌≡◌, refl, sym, ap, ◌∙◌,
  subst, ◌≢◌, ◌↔◌, ◌⊎◌, inl, inr, Bool, true, false, not, ◌&&◌, ◌||◌, Option, none, some, List, [],
  ◌∷◌, ◌++◌, map, arith, ltb, leb, ◌==◌, if◌then◌else◌, Bool-cases, Option-cases, is_some,
  subst_some, if_elim, all_below, all_below_sound, length, length-append, replicate, count, filter,
  count-le-length, count-append, count-set, count-strict, count_mono, count-pos, In, All, All-In,
  get_elem?, set, get_elem?-set_self, Text, codes, text_eq, text_eq_iff, text_eq_refl, text_lt,
  text_lt_irrefl, text_lt_trans, text_lt_total, text_lt_of_ge, is_blank, Map, lookup, insert, erase,
  lookup-insert, lookup-erase, get_or, ℤ, pos, negsuc, incr, decr, int_lt, is_zero, ltb→lt, lt→ltb,
  leb→le, le→leb, ==_iff, tests,
}
use clan.Prelude.{take, last_of}
use clan.Retry.{Time}
use clan.Errors.{Sentinel}
use clan.Account.{Counter, Snapshot}
use clan.Storage.Requests.{
  RequestRecord, RequestRow, RequestFilter, RequestPosition, is_unset, nullable_counter, millis,
  bad_range, list_requests, get_request, nanos_per_milli,
}
pub mod Cuts
pub mod Pages

pub record UsageFilterInput : Type 0 where
  pub from_text : Text
  pub to_text : Text
  pub key_id : Text
  pub account_id : Text
  pub model : Text

pub record ParsedTime : Type 0 where
  pub year : ℤ
  pub time : Time

pub data UsageError : Type 0 where
  invalid_usage_query : UsageError
  usage_failure : Sentinel → UsageError

pub record RequestsInput : Type 0 where
  pub filter : UsageFilterInput
  pub result : Text
  pub limit : ℕ
  pub cursor : Text

pub record RequestCursor : Type 0 where
  pub time : Option ℕ
  pub id : Text
  pub filter : Text

-- `requestView` with its `TokenView`
pub record RequestView : Type 0 where
  pub id : Text
  pub finished_at : Time
  pub key_id : Text
  pub account_id : Text
  pub model : Text
  pub result : Text
  pub duration_ms : ℕ
  pub response_started : Bool
  pub input : Option ℕ
  pub output : Option ℕ
  pub total : Option ℕ

unfoldable pub record_view : RequestRecord → RequestView
record_view r = record {
  id = r.id;
  finished_at = r.finished_at;
  key_id = r.key_id;
  account_id = r.account_id;
  model = r.model;
  result = r.result;
  duration_ms = millis r.duration;
  response_started = r.response_started;
  input = nullable_counter r.usage.input;
  output = nullable_counter r.usage.output;
  total = nullable_counter r.usage.total;
}

-- A page of the records that the store gave, one more than the limit if there are more, and the last record of a page that
-- has a next one.
unfoldable pub page_of : ℕ → List RequestRecord → List RequestRecord × Option RequestRecord
page_of limit records =
    if ltb limit (length records)
    then (take limit records, last_of (take limit records))
    else (records, none)

pub record RequestsPage : Type 0 where
  pub items : List RequestView
  pub next_cursor : Text

abbrev in_years : ℤ → Bool
in_years (pos y) = leb y 9999
in_years (negsuc y) = false

abbrev parsed : Option ParsedTime → Option Time ⊎ UsageError
parsed none = inr invalid_usage_query
parsed (some p) = if in_years p.year then inl (some p.time) else inr invalid_usage_query

abbrev range_checked : RequestFilter → RequestFilter ⊎ UsageError
range_checked f = if bad_range f then inr invalid_usage_query else inl f

-- `decodeRequestCursor`, of what the text decodes to.
unfoldable pub checked_cursor : Option RequestCursor → Text → Option RequestPosition ⊎ UsageError
checked_cursor none hash = inr invalid_usage_query
checked_cursor (some c) hash = elim c.time [
  | none ↦ inr invalid_usage_query
  | some t ↦
      if is_unset c.id || ltb 128 (length c.id) || not (text_eq c.filter hash)
      then inr invalid_usage_query
      else inl (some (record { finished = t; id = c.id }))
]

module _ (parse_time : Text → Option ParsedTime) where
  abbrev bound : Text → Option Time ⊎ UsageError
  bound t = if is_unset t then inl none else parsed (parse_time t)

  -- `parseUsageFilter`, with the result that is set after it.
  unfoldable pub parse_usage_filter : UsageFilterInput → Text → RequestFilter ⊎ UsageError
  parse_usage_filter i result = elim (bound i.from_text) [
    | inr e ↦ inr e
    | inl a ↦ elim (bound i.to_text) [
      | inr e ↦ inr e
      | inl b ↦ range_checked (record {
        from_time = a;
        to_time = b;
        key_id = i.key_id;
        account_id = i.account_id;
        model = i.model;
        result = result;
      })
    ]
  ]

module _ (filter_hash : RequestFilter → Text) (encode : RequestCursor → Text)
    (decode : Text → Option RequestCursor) where
  unfoldable pub decode_request_cursor : Text → Text → Option RequestPosition ⊎ UsageError
  decode_request_cursor raw hash =
      if is_unset raw
      then inl none
      else if ltb 2048 (length raw)
      then inr invalid_usage_query
      else checked_cursor (decode raw) hash

  abbrev pub cursor_of : Text → Option RequestRecord → Text
  cursor_of hash none = []
  cursor_of hash (some r) =
      encode (record { time = some (r.finished_at / nanos_per_milli); id = r.id; filter = hash })

  abbrev pub page_view : Text → List RequestRecord × Option RequestRecord → RequestsPage
  page_view hash p = record { items = map record_view p.0; next_cursor = cursor_of hash p.1 }

  abbrev pub read_page :
      List RequestRow
      → RequestFilter
      → ℕ
      → Option RequestPosition ⊎ UsageError
      → RequestsPage ⊎ UsageError
  read_page rows f limit (inr e) = inr e
  read_page rows f limit (inl after) = elim (list_requests rows f after (suc limit)) [
    | inr e ↦ inr (usage_failure e)
    | inl records ↦ inl (page_view (filter_hash f) (page_of limit records))
  ]

  -- `listRequests` after its filter was parsed.
  unfoldable pub list_page : List RequestRow → RequestFilter → ℕ → Text → RequestsPage ⊎ UsageError
  list_page rows f limit cursor =
      read_page rows f limit (decode_request_cursor cursor (filter_hash f))

  -- `listRequests`
  unfoldable pub list_request_views :
      (Text → Option ParsedTime) → List RequestRow → RequestsInput → RequestsPage ⊎ UsageError
  list_request_views parse_time rows i = elim (parse_usage_filter parse_time i.filter i.result) [
    | inr e ↦ inr e
    | inl f ↦ list_page rows f i.limit i.cursor
  ]

-- `getRequest`
unfoldable pub get_request_view : List RequestRow → Text → RequestView ⊎ UsageError
get_request_view rows id = elim (get_request rows id) [
  | inr e ↦ inr (usage_failure e)
  | inl r ↦ inl (record_view r)
]
