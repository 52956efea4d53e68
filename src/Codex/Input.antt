-- ===== src/Codex/Input.antt =====
-- internal/codex/input.go: the items of a request's input.
--
-- Parameters: `decodes` tells the texts that base64.StdEncoding decodes, and `parse_url` is what
-- url.Parse makes of a text, or nothing if it fails.
use clan.Prelude.{
  ℕ, zero, suc, ◌+◌, ◌-◌, ◌*◌, ◌/◌, ◌%◌, ◌^◌, ◌≤◌, ◌<◌, max, min, String, ◌≡◌, refl, sym, ap, ◌∙◌,
  subst, ◌≢◌, ◌↔◌, ◌⊎◌, inl, inr, Bool, true, false, not, ◌&&◌, ◌||◌, Option, none, some, List, [],
  ◌∷◌, ◌++◌, map, arith, ltb, leb, ◌==◌, if◌then◌else◌, Bool-cases, Option-cases, is_some,
  subst_some, if_elim, all_below, all_below_sound, length, length-append, replicate, count, filter,
  count-le-length, count-append, count-set, count-strict, count_mono, count-pos, In, All, All-In,
  get_elem?, set, get_elem?-set_self, Text, codes, text_eq, text_eq_iff, text_eq_refl, text_lt,
  text_lt_irrefl, text_lt_trans, text_lt_total, text_lt_of_ge, is_blank, Map, lookup, insert, erase,
  lookup-insert, lookup-erase, get_or, ℤ, pos, negsuc, incr, decr, int_lt, is_zero, ltb→lt, lt→ltb,
  leb→le, le→leb, ==_iff, tests,
}
use clan.AccessKey.{has_prefix}
use clan.Codex.Json.{
  Json, null, boolean, integer, number, string, elements, members, Items, nil, cons, Fields, end,
  field, list_of, items_of, map_of, fields_of, Checked, valid, invalid_field, ◌>>=◌, ◌>>◌, dotted,
  text_value, enum_value, bool_value, allowed, any_object, object, array, is_null, omit_null,
  if_present, done, guard,
}
pub mod Parts
pub mod Normal

pub record Url : Type 0 where
  pub scheme : Text
  pub host : Text
  pub has_user : Bool

-- What the content of an input sets in the request.
pub record Images : Type 0 where
  pub image : Bool
  pub original : Bool

abbrev pub no_images : Images
no_images = record { image = false; original = false }

abbrev pub both : Images → Images → Images
both a b = record { image = a.image || b.image; original = a.original || b.original }

-- A part of a text and what follows the first comma; `none` if there is no comma.
unfoldable pub cut_comma : Text → Option (Text × Text)
cut_comma [] = none
cut_comma (c ∷ s) =
    if c == b','
    then some ([], s)
    else elim (cut_comma s) [ none ↦ none | some (a, b) ↦ some (c ∷ a, b) ]

unfoldable pub has_suffix : Text → Text → Bool
has_suffix [] suffix = text_eq [] suffix
has_suffix (c ∷ s) suffix = text_eq (c ∷ s) suffix || has_suffix s suffix

-- `strconv.Itoa`; as many digits as the number at most.
unfoldable pub digits : ℕ → ℕ → Text
digits zero n = []
digits (suc f) n =
    let rest = digits f (n / 10) in if ltb n 10 then (48 + n) ∷ [] else rest ++ (48 + n % 10) ∷ []

-- `fmt.Sprintf("input[%d]", i)`
unfoldable pub item_path : ℕ → Text
item_path i = codes "input[" ++ digits (suc i) i ++ codes "]"

-- One part of `validateTextParts`.
unfoldable pub validate_text_part : Json → Text → String → Checked (Unit {0})
validate_text_part part path kind = do
  m ← object (some part) path ("type" ∷ "text" ∷ [])
  done (enum_value (lookup (codes "type") m) (dotted path "type") (kind ∷ []))
  done (text_value (lookup (codes "text") m) (dotted path "text") true)

unfoldable pub each_text_part : List Json → Text → String → Checked (Unit {0})
each_text_part [] path kind = valid tt
each_text_part (part ∷ parts) path kind =
    validate_text_part part path kind >> each_text_part parts path kind

-- `validateTextParts`
unfoldable pub validate_text_parts : Option Json → Text → String → Checked (Unit {0})
validate_text_parts raw path kind = do parts ← array raw path; each_text_part parts path kind

-- `value, ok := fields[name]; ok && string(value) != "null"`
abbrev pub if_set : Option Json → (Json → Checked (Unit {0})) → Checked (Unit {0})
if_set none f = valid tt
if_set (some j) f = if is_null (some j) then valid tt else f j

abbrev pub optional_array : Option Json → Text → Checked (Unit {0})
optional_array j path = if_present j (λ v. done (array (some v) path))

-- An item's members as they are sent on, and what its content sets.
pub record Item : Type 0 where
  pub fields : Map Json
  pub images : Images

-- The members of a message as they are sent on: a system message becomes the developer's.
unfoldable pub sent_role : Text → Map Json → Map Json
sent_role role m =
    if text_eq role (codes "system")
    then insert (codes "role") (string (codes "developer")) m
    else m

abbrev pub kind_of : Option Json → Text → Checked Text
kind_of none path = valid (codes "message")
kind_of (some j) path = text_value (some j) (dotted path "type") false

-- An ID or a status that may be null for some kinds.
abbrev pub unless_null : Bool → Option Json → (Json → Checked (Unit {0})) → Checked (Unit {0})
unless_null nullable none f = valid tt
unless_null nullable (some j) f = if nullable && is_null (some j) then valid tt else f j

-- A text as the input becomes one message of the user.
abbrev pub text_message : Text → Json
text_message t = members (
    fields_of (
      (codes "type", string (codes "message"))
      ∷ (codes "role", string (codes "user"))
      ∷ (
        codes "content",
        elements (
            items_of (
              members (
                fields_of
                  ((codes "type", string (codes "input_text")) ∷ (codes "text", string t) ∷ []))
              ∷ [])),
      )
      ∷ []))

module _ (decodes : Text → Bool) (parse_url : Text → Option Url) where
  -- `imageURL`
  unfoldable pub image_url : Text → Bool
  image_url value =
      if has_prefix value (codes "data:image/")
      then elim (cut_comma value) [
        | none ↦ false
        | some (header, content) ↦
            has_suffix header (codes ";base64") && not (text_eq content []) && decodes content
      ]
      else elim (parse_url value) [
        | none ↦ false
        | some u ↦
            (text_eq u.scheme (codes "https") || text_eq u.scheme (codes "http"))
            && not (text_eq u.host [])
            && not u.has_user
      ]

  abbrev pub original_detail : Option Json → Text → Checked Bool
  original_detail none path = valid false
  original_detail (some j) path = do
    d ← enum_value (some j) path ("auto" ∷ "low" ∷ "high" ∷ "original" ∷ [])
    valid (text_eq d (codes "original"))

  abbrev pub image_part : Map Json → Text → Checked Images
  image_part m path = do
    allowed m path ("type" ∷ "image_url" ∷ "detail" ∷ [])
    url ← text_value (lookup (codes "image_url") m) (dotted path "image_url") false
    guard (image_url url) (dotted path "image_url")
    original ← original_detail (lookup (codes "detail") m) (dotted path "detail")
    valid (record { image = true; original = original })

  abbrev pub output_part : Map Json → Text → Checked (Unit {0})
  output_part m path = do
    allowed m path ("type" ∷ "text" ∷ "annotations" ∷ "logprobs" ∷ [])
    done (text_value (lookup (codes "text") m) (dotted path "text") true)
    optional_array (lookup (codes "annotations") m) (dotted path "annotations")
    if_set (lookup (codes "logprobs") m) (λ v. done (array (some v) (dotted path "logprobs")))

  -- The switch of `validateContent`.
  unfoldable pub part_of_kind : Text → Map Json → Text → Bool → Checked Images
  part_of_kind kind m path output_text =
      if text_eq kind (codes "input_text")
      then (do
        allowed m path ("type" ∷ "text" ∷ [])
        done (text_value (lookup (codes "text") m) (dotted path "text") true)
        valid no_images)
      else if text_eq kind (codes "output_text")
      then (if output_text
          then (output_part m path >> valid no_images)
          else invalid_field (dotted path "type"))
      else if text_eq kind (codes "refusal")
      then (if output_text
          then (do
            allowed m path ("type" ∷ "refusal" ∷ [])
            done (text_value (lookup (codes "refusal") m) (dotted path "refusal") true)
            valid no_images)
          else invalid_field (dotted path "type"))
      else if text_eq kind (codes "input_image")
      then image_part m path
      else invalid_field (dotted path "type")

  unfoldable pub validate_part : Json → Text → Bool → Checked Images
  validate_part part path output_text = do
    m ← any_object (some part) path
    kind ← text_value (lookup (codes "type") m) (dotted path "type") false
    part_of_kind kind m path output_text

  unfoldable pub each_part : List Json → Text → Bool → Checked Images
  each_part [] path output_text = valid no_images
  each_part (part ∷ parts) path output_text = do
    a ← validate_part part path output_text
    b ← each_part parts path output_text
    valid (both a b)

  -- `validateContent`
  unfoldable pub validate_content : Option Json → Text → Bool → Checked Images
  validate_content (some (string t)) path output_text = valid no_images
  validate_content raw path output_text = do
    parts ← array raw path
    each_part parts path output_text

  abbrev pub message_item : Map Json → Text → Checked Item
  message_item m path = do
    allowed m path ("type" ∷ "id" ∷ "role" ∷ "content" ∷ "status" ∷ "phase" ∷ [])
    role ←
        enum_value (lookup (codes "role") m) (dotted path "role")
          ("user" ∷ "assistant" ∷ "system" ∷ "developer" ∷ [])
    let n = sent_role role m
    images ← validate_content (lookup (codes "content") n) (dotted path "content") true
    if_set (lookup (codes "phase") n)
        (λ v. done (enum_value (some v) (dotted path "phase") ("commentary" ∷ "final_answer" ∷ [])))
    valid (record { fields = n; images = images })

  abbrev pub call_item : Map Json → Text → Checked Item
  call_item m path = do
    allowed m path ("type" ∷ "id" ∷ "call_id" ∷ "name" ∷ "arguments" ∷ "status" ∷ [])
    done (text_value (lookup (codes "call_id") m) (dotted path "call_id") false)
    done (text_value (lookup (codes "name") m) (dotted path "name") false)
    done (text_value (lookup (codes "arguments") m) (dotted path "arguments") true)
    valid (record { fields = m; images = no_images })

  abbrev pub output_item : Map Json → Text → Checked Item
  output_item m path = do
    allowed m path ("type" ∷ "id" ∷ "call_id" ∷ "output" ∷ "status" ∷ [])
    done (text_value (lookup (codes "call_id") m) (dotted path "call_id") false)
    images ← validate_content (lookup (codes "output") m) (dotted path "output") false
    valid (record { fields = m; images = images })

  abbrev pub reasoning_item : Map Json → Text → Checked Item
  reasoning_item m path = do
    allowed m path ("type" ∷ "id" ∷ "summary" ∷ "encrypted_content" ∷ "content" ∷ "status" ∷ [])
    if_set (lookup (codes "encrypted_content") m)
        (λ v. done (text_value (some v) (dotted path "encrypted_content") true))
    validate_text_parts (lookup (codes "summary") m) (dotted path "summary") "summary_text"
    if_set (lookup (codes "content") m)
        (λ v. validate_text_parts (some v) (dotted path "content") "reasoning_text")
    valid (record { fields = m; images = no_images })

  -- The switch of `validateInput`.
  unfoldable pub item_of_kind : Text → Map Json → Text → Checked Item
  item_of_kind kind m path =
      if text_eq kind (codes "message")
      then message_item m path
      else if text_eq kind (codes "function_call")
      then call_item m path
      else if text_eq kind (codes "function_call_output")
      then output_item m path
      else if text_eq kind (codes "reasoning")
      then reasoning_item m path
      else invalid_field (dotted path "type")

  -- One round of `validateInput`'s loop.
  unfoldable pub validate_item : Json → Text → Checked Item
  validate_item raw path = do
    m ← any_object (some raw) path
    kind ← kind_of (lookup (codes "type") m) path
    item ← item_of_kind kind m path
    unless_null (text_eq kind (codes "function_call_output")) (lookup (codes "id") item.fields)
        (λ v. done (text_value (some v) (dotted path "id") false))
    unless_null (not (text_eq kind (codes "message"))) (lookup (codes "status") item.fields) (λ v.
        done (
          enum_value (some v) (dotted path "status")
            ("in_progress" ∷ "completed" ∷ "incomplete" ∷ [])))
    valid item

  -- The loop, from the item `i` on.
  unfoldable pub each_item : ℕ → List Json → Checked (List Json × Images)
  each_item i [] = valid ([], no_images)
  each_item i (raw ∷ raws) = do
    item ← validate_item raw (item_path i)
    rest ← each_item (suc i) raws
    valid (members (fields_of item.fields) ∷ rest.0, both item.images rest.1)

  -- `validateInput`
  unfoldable pub validate_input : Option Json → Checked (Json × Images)
  validate_input (some (string t)) = valid (elements (items_of (text_message t ∷ [])), no_images)
  validate_input raw = do
    items ← array raw (codes "input")
    r ← each_item 0 items
    valid (elements (items_of r.0), r.1)
