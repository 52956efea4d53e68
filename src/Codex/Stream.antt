-- ===== src/Codex/Stream.antt =====
-- internal/codex/stream.go: reading the events of a response.
--
-- `next` is Next with what readEvent gives: an event, or the end of the body with the error that ended
-- it. `items` is the map of output items in the order of their indexes, `size` the length of a value's text, `detail_code`
-- the code that json.Unmarshal finds in an error, and `close_fails` tells whether closing the body fails.
use clan.Prelude.{
  ℕ, zero, suc, ◌+◌, ◌-◌, ◌*◌, ◌/◌, ◌%◌, ◌^◌, ◌≤◌, ◌<◌, max, min, String, ◌≡◌, refl, sym, ap, ◌∙◌,
  subst, ◌≢◌, ◌↔◌, ◌⊎◌, inl, inr, Bool, true, false, not, ◌&&◌, ◌||◌, Option, none, some, List, [],
  ◌∷◌, ◌++◌, map, arith, ltb, leb, ◌==◌, if◌then◌else◌, Bool-cases, Option-cases, is_some,
  subst_some, if_elim, all_below, all_below_sound, length, length-append, replicate, count, filter,
  count-le-length, count-append, count-set, count-strict, count_mono, count-pos, In, All, All-In,
  get_elem?, set, get_elem?-set_self, Text, codes, text_eq, text_eq_iff, text_eq_refl, text_lt,
  text_lt_irrefl, text_lt_trans, text_lt_total, text_lt_of_ge, is_blank, Map, lookup, insert, erase,
  lookup-insert, lookup-erase, get_or, ℤ, pos, negsuc, incr, decr, int_lt, is_zero, ltb→lt, lt→ltb,
  leb→le, le→leb, ==_iff, tests,
}
use clan.Retry.{Cooldown}
use clan.Errors.{
  CtxError, Category, transport_failure, invalid_response, Failure, Error, failure, join, sentinel,
  eof, is,
}
use clan.Account.{Counter, Snapshot}
use clan.Execution.Codes.{category_text}
use clan.Codex.Client.{Context, safe_failure, response_failure}
use clan.Codex.Json.{
  Json, null, integer, string, elements, members, Items, list_of, items_of, map_of, fields_of,
  Checked, valid, invalid_field, ◌>>=◌, ◌>>◌, dotted, text_value, any_object, array, guard, done,
}
use clan.Codex.Parse.{max_payload}
pub mod Cases
pub mod Stopped
pub mod Bounded

pub record Item : Type 0 where
  pub index : ℕ
  pub value : Json

pub record Result : Type 0 where
  pub response : Option Json
  pub status : Text
  pub usage : Snapshot

pub record Stream : Type 0 where
  pub http_status : ℕ
  pub ended : Bool
  pub err : Option Error
  pub result : Result
  pub items : List Item
  pub item_bytes : ℕ
  pub retry_after : Cooldown
  pub close_fails : Bool

-- What readEvent gives: an event's type and its data, if that is JSON, or no event.
pub data Reading : Type 0 where
  event : Text → Option Json → Reading
  broken : Context → Option Error → Reading

pub data Delivered : Type 0 where
  delivered : Json → Delivered
  stopped : Error → Delivered

abbrev pub stream_failure : Category → Stream → Failure
stream_failure c s = record {
  category = c;
  http_status = s.http_status;
  safe_to_retry = false;
  retry_after = s.retry_after;
  cause = none;
}

abbrev close_error : Stream → Option Error
close_error s = if s.close_fails then some (failure (stream_failure transport_failure s)) else none

-- `errors.Join` of two errors that may be nil.
abbrev joined : Option Error → Option Error → Option Error
joined none b = b
joined (some a) none = some a
joined (some a) (some b) = some (join a b)

abbrev with_cooldown : Cooldown → Option Failure → Option Error
with_cooldown c none = none
with_cooldown c (some f) = some (failure (record f { retry_after = c }))

-- `finish`
unfoldable pub finish : Stream → Option Failure → Stream
finish s f = record s {
  ended = true;
  err = joined (with_cooldown s.retry_after f) (close_error s);
  items = [];
}

abbrev pub final_error : Stream → Error
final_error s = get_or (sentinel eof) s.err

-- The end of a Next that returns `nil, s.err`.
abbrev pub stop : Stream → Failure → Stream × Delivered
stop s f = let t = finish s (some f) in (t, stopped (final_error t))

-- `badEvent`
abbrev pub bad_event : Stream → Stream × Delivered
bad_event s = stop s (stream_failure invalid_response s)

abbrev is_read_error : Option Error → Bool
is_read_error none = false
is_read_error (some e) = not (is eof e)

abbrev broken_category : Context → Option Error → Category
broken_category c e =
    if is_some c.err || is_read_error e then transport_failure else invalid_response

abbrev int64 : Json → Option ℕ
int64 (integer (pos n)) = if ltb n (2 ^ 63) then some n else none
int64 _ = none

-- One count of `observeUsage`; the flag tells that it is not malformed.
unfoldable pub observe_count : Option Json → Counter → Counter × Bool
observe_count none c = (c, true)
observe_count (some null) c = (c, true)
observe_count (some j) c = elim (int64 j) [
  | none ↦ (c, false)
  | some n ↦ (record { tokens = n; known = true }, true)
]

abbrev observed : Map Json → Snapshot → Snapshot × Bool
observed m u =
    let a = observe_count (lookup (codes "input_tokens") m) u.input in
    let b = observe_count (lookup (codes "output_tokens") m) u.output in
    let c = observe_count (lookup (codes "total_tokens") m) u.total in
    (record { input = a.0; output = b.0; total = c.0 }, a.1 && b.1 && c.1)

-- `observeUsage`
unfoldable pub observe_usage : Option Json → Snapshot → Snapshot × Bool
observe_usage none u = (u, true)
observe_usage (some null) u = (u, true)
observe_usage (some (members fs)) u = observed (map_of fs) u
observe_usage (some j) u = (u, false)

abbrev with_usage : Stream → Snapshot → Stream
with_usage s u = record s {
  result = record { response = s.result.response; status = s.result.status; usage = u };
}

-- `s.items[index] = item`
unfoldable pub put_item : ℕ → Json → List Item → List Item
put_item i j [] = record { index = i; value = j } ∷ []
put_item i j (x ∷ xs) =
    let rest = put_item i j xs in
    if ltb i x.index
    then record { index = i; value = j } ∷ (x ∷ xs)
    else if i == x.index
    then record { index = i; value = j } ∷ xs
    else x ∷ rest

-- The items are in the order of their indexes.
unfoldable pub item_at : ℕ → List Item → Option Json
item_at i [] = none
item_at i (x ∷ xs) =
    if ltb i x.index then none else if i == x.index then some x.value else item_at i xs

-- The status that a terminal event stands for.
unfoldable pub terminal_status : Text → Option Text
terminal_status kind =
    if text_eq kind (codes "response.completed")
    then some (codes "completed")
    else if text_eq kind (codes "response.incomplete")
    then some (codes "incomplete")
    else if text_eq kind (codes "response.failed")
    then some (codes "failed")
    else none

abbrev checked_status : Option Json → Text → Checked (Unit {0})
checked_status none status = valid tt
checked_status (some j) status = do
  value ← text_value (some j) (codes "response.status") false
  guard (text_eq value status) (codes "response.status")

unfoldable pub typed_items : List Json → Checked (Unit {0})
typed_items [] = valid tt
typed_items (j ∷ js) = do
  m ← any_object (some j) (codes "response.output")
  done (text_value (lookup (codes "type") m) (codes "response.output.type") false)
  typed_items js

abbrev output_of : Option Json → Checked (List Json)
output_of none = valid []
output_of (some j) = do js ← array (some j) (codes "response.output"); typed_items js; valid js

abbrev or_items : List Json → List Item → Map Json → Map Json
or_items [] items m =
    insert (codes "output") (elements (items_of (map (λ (x : Item). x.value) items))) m
or_items (j ∷ js) items m = m

-- `failure.Error()`
abbrev failure_text : Failure → Text
failure_text f = codes "codex: " ++ category_text f.category

-- `safeErrorJSON`
abbrev safe_error_json : Failure → Json
safe_error_json f = members (
    fields_of (
      (codes "code", string (category_text f.category))
      ∷ (codes "message", string (failure_text f))
      ∷ []))

-- What a terminal event tells.
pub record Terminal : Type 0 where
  pub response : Map Json
  pub failed : Option Failure

module _ (size : Json → ℕ) (detail_code : Option Json → Text) where
  abbrev terminal_failure : Stream → Text → Map Json → Option Failure
  terminal_failure s status m =
      if text_eq status (codes "failed")
      then some (response_failure (detail_code (lookup (codes "error") m)) s.http_status)
      else none

  abbrev with_error : Option Failure → Map Json → Map Json
  with_error none m = m
  with_error (some f) m = insert (codes "error") (safe_error_json f) m

  -- `terminal`, for the status that the event's kind ends in.
  unfoldable pub terminal : Stream → Map Json → Text → Checked Terminal
  terminal s fields status = do
    response ← any_object (lookup (codes "response") fields) (codes "response")
    done (text_value (lookup (codes "id") response) (codes "response.id") false)
    checked_status (lookup (codes "status") response) status
    output ← output_of (lookup (codes "output") response)
    let m = or_items output s.items (insert (codes "status") (string status) response)
    let f = terminal_failure s status m
    valid (record { response = with_error f m; failed = f })

  abbrev ended_by : Stream → Map Json → Text → Terminal → Stream × Delivered
  ended_by s fields status t = (
    finish
        (record s {
          result = record {
            response = some (members (fields_of t.response));
            status = status;
            usage = s.result.usage;
          };
        })
        t.failed,
    delivered
        (members (fields_of (insert (codes "response") (members (fields_of t.response)) fields))),
  )

  abbrev on_terminal : Stream → Map Json → Text → Stream × Delivered
  on_terminal s fields status = elim (terminal s fields status) [
    | invalid_field p ↦ bad_event s
    | valid t ↦ ended_by s fields status t
  ]

  abbrev size_of : Option Json → ℕ
  size_of none = 0
  size_of (some j) = size j

  abbrev stored_item : Stream → Json → ℕ → Json → Stream × Delivered
  stored_item s raw i item =
      let bytes = s.item_bytes + size item - size_of (item_at i s.items) in
      let counted = record s { item_bytes = bytes } in
      if ltb max_payload bytes
      then bad_event counted
      else (record counted { items = put_item i item s.items }, delivered raw)

  abbrev typed_object : Option Json → Checked Json
  typed_object none = invalid_field (codes "item")
  typed_object (some j) = do
    m ← any_object (some j) (codes "item")
    done (text_value (lookup (codes "type") m) (codes "item.type") false)
    valid j

  abbrev index_of : Option Json → Option ℕ
  index_of none = none
  index_of (some j) = int64 j

  abbrev on_item : Stream → Map Json → Json → Stream × Delivered
  on_item s fields raw = elim (index_of (lookup (codes "output_index") fields)) [
    | none ↦ bad_event s
    | some i ↦ elim (typed_object (lookup (codes "item") fields)) [
      | invalid_field p ↦ bad_event s
      | valid item ↦ stored_item s raw i item
    ]
  ]

  abbrev sequence : Option ℕ → Map Json → Map Json
  sequence none m = m
  sequence (some n) m = insert (codes "sequence_number") (integer (pos n)) m

  abbrev error_detail : Option Json → Json → Option Json
  error_detail none raw = some raw
  error_detail (some j) raw = some j

  abbrev on_error : Stream → Map Json → Json → Text → Stream × Delivered
  on_error s fields raw kind =
      let f =
        response_failure (detail_code (error_detail (lookup (codes "error") fields) raw))
          s.http_status in
      (
        finish s (some f),
        delivered (
            members (
              fields_of (
                sequence (index_of (lookup (codes "sequence_number") fields)) (
                  (codes "type", string kind)
                  ∷ (codes "code", string (category_text f.category))
                  ∷ (codes "message", string (failure_text f))
                  ∷ (codes "param", null)
                  ∷ [])))),
      )

  -- The switch of `Next`.
  unfoldable pub on_kind : Stream → Map Json → Json → Text → Stream × Delivered
  on_kind s fields raw kind =
      if text_eq kind (codes "response.output_item.done")
      then on_item s fields raw
      else elim (terminal_status kind) [
        | some status ↦ on_terminal s fields status
        | none ↦
            if text_eq kind (codes "error") then on_error s fields raw kind else (s, delivered raw)
      ]

  abbrev with_response : Stream → Map Json → Json → Text → Map Json → Stream × Delivered
  with_response s fields raw kind values =
      let o = observe_usage (lookup (codes "usage") values) s.result.usage in
      let t = with_usage s o.0 in if o.1 then on_kind t fields raw kind else bad_event t

  abbrev on_response : Stream → Map Json → Json → Text → Option Json → Stream × Delivered
  on_response s fields raw kind none = on_kind s fields raw kind
  on_response s fields raw kind (some response) =
      elim (any_object (some response) (codes "response")) [
        | invalid_field p ↦ bad_event s
        | valid values ↦ with_response s fields raw kind values
      ]

  abbrev on_fields : Stream → Text → Json → Map Json → Stream × Delivered
  on_fields s kind raw fields =
      elim (text_value (lookup (codes "type") fields) (codes "event.type") false) [
        | invalid_field p ↦ bad_event s
        | valid t ↦
            if text_eq kind [] || text_eq kind t
            then on_response s fields raw t (lookup (codes "response") fields)
            else bad_event s
      ]

  abbrev on_data : Stream → Text → Option Json → Stream × Delivered
  on_data s kind none = bad_event s
  on_data s kind (some raw) = elim (any_object (some raw) (codes "event")) [
    | invalid_field p ↦ bad_event s
    | valid fields ↦ on_fields s kind raw fields
  ]

  abbrev read : Stream → Reading → Stream × Delivered
  read s (event kind j) = on_data s kind j
  read s (broken c e) = stop s (safe_failure c (broken_category c e) s.http_status e)

  -- `Next`
  unfoldable pub next : Stream → Reading → Stream × Delivered
  next s r = if s.ended then (s, stopped (final_error s)) else read s r

  -- What a reader gets that calls Next once for each reading.
  unfoldable pub results : Stream → List Reading → List Delivered
  results s [] = []
  results s (r ∷ rs) = (next s r).1 ∷ results (next s r).0 rs

-- `Close`
unfoldable pub close : Stream → Context → Stream
close s c = if s.ended then record s { items = [] } else record s {
  ended = true;
  items = [];
  err = with_cooldown s.retry_after (some (safe_failure c transport_failure s.http_status none));
}
