-- ===== src/Codex/Parse.antt =====
-- internal/codex/request.go: ParseRequest.
--
-- `parse_request` takes the length of the body and what encoding/json decodes it to; `encode` is the
-- encoder of the body that goes upstream.
use clan.Prelude.{
  ℕ, zero, suc, ◌+◌, ◌-◌, ◌*◌, ◌/◌, ◌%◌, ◌^◌, ◌≤◌, ◌<◌, max, min, String, ◌≡◌, refl, sym, ap, ◌∙◌,
  subst, ◌≢◌, ◌↔◌, ◌⊎◌, inl, inr, Bool, true, false, not, ◌&&◌, ◌||◌, Option, none, some, List, [],
  ◌∷◌, ◌++◌, map, arith, ltb, leb, ◌==◌, if◌then◌else◌, Bool-cases, Option-cases, is_some,
  subst_some, if_elim, all_below, all_below_sound, length, length-append, replicate, count, filter,
  count-le-length, count-append, count-set, count-strict, count_mono, count-pos, In, All, All-In,
  get_elem?, set, get_elem?-set_self, Text, codes, text_eq, text_eq_iff, text_eq_refl, text_lt,
  text_lt_irrefl, text_lt_trans, text_lt_total, text_lt_of_ge, is_blank, Map, lookup, insert, erase,
  lookup-insert, lookup-erase, get_or, ℤ, pos, negsuc, incr, decr, int_lt, is_zero, ltb→lt, lt→ltb,
  leb→le, le→leb, ==_iff, tests,
}
use clan.Codex.Request.{Request, contains}
use clan.Codex.Json.{
  Json, null, boolean, integer, number, string, elements, members, Items, nil, cons, Fields, end,
  field, list_of, items_of, map_of, fields_of, Checked, valid, invalid_field, ◌>>=◌, ◌>>◌, dotted,
  text_value, enum_value, bool_value, allowed, any_object, object, array, is_null, omit_null,
  if_present, done, guard,
}
use clan.Codex.Controls.{validate_tools, validate_reasoning, validate_text, Reasoning, TextControls}
use clan.Codex.Input.{Url, Images, validate_input}
pub mod Body

abbrev pub max_payload : ℕ
max_payload = 16_777_216

abbrev pub request_names : List String
request_names =
    "model" ∷ "input" ∷ "instructions" ∷ "stream" ∷ "store" ∷ "background" ∷ "max_output_tokens"
    ∷ "prompt_cache_key" ∷ "tools" ∷ "tool_choice" ∷ "parallel_tool_calls" ∷ "reasoning" ∷ "include"
    ∷ "text" ∷ []

abbrev pub nullable_names : List String
nullable_names =
    "instructions" ∷ "stream" ∷ "store" ∷ "background" ∷ "max_output_tokens" ∷ "prompt_cache_key"
    ∷ "parallel_tool_calls" ∷ "reasoning" ∷ "include" ∷ []

-- `validateToolChoice`
unfoldable pub validate_tool_choice : Json → Checked (Unit {0})
validate_tool_choice (string t) =
    done (enum_value (some (string t)) (codes "tool_choice") ("auto" ∷ "none" ∷ "required" ∷ []))
validate_tool_choice raw = do
  m ← object (some raw) (codes "tool_choice") ("type" ∷ "name" ∷ [])
  done (enum_value (lookup (codes "type") m) (codes "tool_choice.type") ("function" ∷ []))
  done (text_value (lookup (codes "name") m) (codes "tool_choice.name") false)

-- A number from 1 on that an int64 holds.
abbrev pub is_cap : Json → Bool
is_cap (integer n) = int_lt (pos 0) n && int_lt n (pos (2 ^ 63))
is_cap _ = false

abbrev is_encrypted : Json → Bool
is_encrypted (string t) = text_eq t (codes "reasoning.encrypted_content")
is_encrypted _ = false

abbrev all_encrypted : List Json → Bool
all_encrypted [] = true
all_encrypted (j ∷ js) = is_encrypted j && all_encrypted js

abbrev validate_include : Json → Checked (Unit {0})
validate_include raw = do
  js ← array (some raw) (codes "include")
  guard (all_encrypted js) (codes "include")

abbrev with_stream : Bool → Bool → Request → Request
with_stream named b r = if named then record r { stream = b } else r

-- The four Boolean controls; `store` and `background` may not be on.
abbrev pub switch_field : Text → Json → Request → Checked (Json × Request)
switch_field name raw r = do
  b ← bool_value (some raw) name
  guard (not ((text_eq name (codes "store") || text_eq name (codes "background")) && b)) name
  valid (raw, with_stream (text_eq name (codes "stream")) b r)

abbrev with_effort : Option Text → Request → Request
with_effort none r = r
with_effort (some e) r = record r { effort = e }

-- The switch of `ParseRequest`: the member as it is sent on, and the request.
unfoldable pub check_field : Text → Json → Request → Checked (Json × Request)
check_field name raw r =
    if contains (codes "instructions" ∷ codes "prompt_cache_key" ∷ []) name
    then (text_value (some raw) name true >> valid (raw, r))
    else if contains
        (codes "stream" ∷ codes "store" ∷ codes "background" ∷ codes "parallel_tool_calls" ∷ [])
        name
    then switch_field name raw r
    else if text_eq name (codes "max_output_tokens")
    then (guard (is_cap raw) name >> valid (raw, record r { omitted_cap = true }))
    else if text_eq name (codes "tools")
    then (validate_tools raw >>= λ v. valid (v, r))
    else if text_eq name (codes "tool_choice")
    then (validate_tool_choice raw >> valid (raw, r))
    else if text_eq name (codes "reasoning")
    then (validate_reasoning raw >>= λ v.
        valid (v.value, with_effort v.effort (record r { summary = v.summary })))
    else if text_eq name (codes "include")
    then (validate_include raw >> valid (raw, r))
    else if text_eq name (codes "text")
    then (validate_text raw >>= λ v. valid (v.value, record r { verbosity = v.verbosity }))
    else valid (raw, r)

-- The loop of `ParseRequest` over the members.
unfoldable pub check_fields : Map Json → Request → Checked (Map Json × Request)
check_fields [] r = valid ([], r)
check_fields ((name, raw) ∷ m) r = do
  a ← check_field name raw r
  b ← check_fields m a.1
  valid ((name, a.0) ∷ b.0, b.1)

abbrev pub blank_request : Text → Request
blank_request model = record {
  body = [];
  model = model;
  stream = false;
  omitted_cap = false;
  effort = [];
  summary = false;
  verbosity = false;
  original_image = false;
  image = false;
}

-- The members of the body that goes upstream.
unfoldable pub wire_fields : Map Json → Json → Map Json
wire_fields m input = erase (codes "max_output_tokens") (
    insert (codes "store") (boolean false)
      (insert (codes "stream") (boolean true) (insert (codes "input") input m)))

module _ (decodes : Text → Bool) (parse_url : Text → Option Url) where
  -- The checked members and the request, before the body is encoded.
  unfoldable pub parse_fields : Option Json → Checked (Map Json × Request)
  parse_fields raw = do
    fields ← object raw (codes "request") request_names
    let m = omit_null fields nullable_names
    model ← text_value (lookup (codes "model") m) (codes "model") false
    checked ← check_fields m (blank_request model)
    input ← validate_input decodes parse_url (lookup (codes "input") checked.0)
    valid (
      wire_fields checked.0 input.0,
      record checked.1 { image = input.1.image; original_image = input.1.original },
    )

  -- `ParseRequest`
  unfoldable pub parse_request : (Json → Text) → ℕ → Option Json → Checked Request
  parse_request encode size raw =
      if ltb max_payload size
      then invalid_field (codes "request")
      else (parse_fields raw >>= λ p.
          valid (record p.1 { body = encode (members (fields_of p.0)) }))
