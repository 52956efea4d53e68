-- ===== src/Tests/Inputs.antt =====
-- A concrete Codex request.
use clan.Prelude.{
  pos, refl, true, false, ◌||◌, not, ◌≡◌, Bool, none, some, Option, [], ◌∷◌, Text, codes, Map,
  lookup, insert, erase, is_some, is_blank, text_eq,
}
use clan.Codex.Request.{contains}
use clan.Codex.Json.{
  Json, integer, words, boolean, string, elements, members, list_of, items_of, map_of, fields_of,
  text_value, enum_value, allowed, any_object, object, array, omit_null,
}
use clan.Codex.Input.{
  Url, Images, validate_input, sent_role, image_url, cut_comma, has_suffix, part_of_kind,
  validate_part, each_part, validate_content, item_of_kind, validate_item, each_item, digits,
}
use clan.Codex.Input.Normal.{validate_input-image}
use clan.Codex.Input.Parts.{any, has_image, is_system, values_of}
use clan.Codex.Parse.{
  parse_fields, check_fields, check_field, wire_fields, request_names, blank_request,
}
use clan.Codex.Parse.Body.{parse_fields-IsWire}

abbrev decodes : Text → Bool
decodes t = true

abbrev parse_url : Text → Option Url
parse_url t = some (record { scheme = codes "https"; host = codes "h"; has_user = false })

abbrev text_part : Json
text_part = members (
    fields_of
      ((codes "type", string (codes "input_text")) ∷ (codes "text", string (codes "hi")) ∷ []))

abbrev image_part : Json
image_part = members (
    fields_of (
      (codes "type", string (codes "input_image"))
      ∷ (codes "image_url", string (codes "https://h/i"))
      ∷ []))

abbrev system_item : Json
system_item = members (
    fields_of (
      (codes "role", string (codes "system"))
      ∷ (codes "content", elements (items_of (text_part ∷ image_part ∷ [])))
      ∷ []))

abbrev developer_item : Json
developer_item = members (
    fields_of (
      (codes "role", string (codes "developer"))
      ∷ (codes "content", elements (items_of (text_part ∷ image_part ∷ [])))
      ∷ []))

abbrev images : Images
images = record { image = true; original = false }

validate_input-image_example :
    (true ≡ any has_image (values_of (some (elements (items_of (system_item ∷ []))))))
    × (any is_system (values_of (some (elements (items_of (developer_item ∷ []))))) ≡ false)
unfolding validate_input array each_item list_of items_of validate_item any_object lookup map_of
    fields_of text_eq item_of_kind allowed contains enum_value text_value is_blank validate_content
    cut_comma digits each_part has_suffix image_url part_of_kind sent_role validate_part object
    insert
validate_input-image_example =
    validate_input-image decodes parse_url (some (elements (items_of (system_item ∷ []))))
      (elements (items_of (developer_item ∷ []))) images refl

abbrev request : Json
request = members (
    fields_of (
      (codes "model", string (codes "m"))
      ∷ (codes "input", elements (items_of (system_item ∷ [])))
      ∷ (codes "max_output_tokens", integer (pos 9))
      ∷ []))

abbrev sent : Map Json
sent =
    (codes "model", string (codes "m"))
    ∷ (codes "input", elements (items_of (developer_item ∷ [])))
    ∷ (codes "stream", boolean true)
    ∷ (codes "store", boolean false)
    ∷ []

parse_fields-IsWire_example :
    (lookup (codes "stream") sent ≡ some (boolean true))
    × (lookup (codes "store") sent ≡ some (boolean false))
    × (lookup (codes "max_output_tokens") sent ≡ none)
    × (lookup (codes "model") sent ≡ some (string (codes "m")))
    × (is_blank (codes "m") ≡ false)
    × ((k : Text) → (not (is_some (lookup k sent)) || contains (words request_names) k) ≡ true)
unfolding validate_input array each_item list_of items_of validate_item any_object lookup map_of
    fields_of text_eq item_of_kind allowed contains enum_value text_value is_blank validate_content
    cut_comma digits each_part has_suffix image_url part_of_kind sent_role validate_part object
    insert parse_fields check_fields check_field wire_fields erase omit_null
parse_fields-IsWire_example =
    parse_fields-IsWire decodes parse_url (some request) sent
      (record (blank_request (codes "m")) { omitted_cap = true; image = true }) refl
