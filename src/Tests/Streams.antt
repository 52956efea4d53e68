-- ===== src/Tests/Streams.antt =====
-- A concrete stream of events.
use clan.Prelude.{ℕ, ◌≤◌, ◌≡◌, refl, false, Option, none, some, [], ◌∷◌, Text, codes, pos}
use clan.Retry.{unrestricted}
use clan.Errors.{failure, invalid_response}
use clan.Account.{no_usage}
use clan.Codex.Json.{Json, integer, string, members, fields_of}
use clan.Codex.Parse.{max_payload}
use clan.Codex.Stream.{Stream, event, stopped, stream_failure, finish, next, results}
use clan.Codex.Stream.Stopped.{results-next}
use clan.Codex.Stream.Bounded.{total, read_all, read_all-total}

abbrev opened : Stream
opened = record {
  http_status = 200;
  ended = false;
  err = none;
  result = record { response = none; status = []; usage = no_usage };
  items = [];
  item_bytes = 0;
  retry_after = unrestricted;
  close_fails = false;
}

abbrev item_event : Json
item_event = members (
    fields_of (
      (codes "type", string (codes "response.output_item.done"))
      ∷ (codes "output_index", integer (pos 0))
      ∷ (codes "item", members (fields_of ((codes "type", string (codes "message")) ∷ [])))
      ∷ []))

abbrev size : Json → ℕ
size j = 20

abbrev detail_code : Option Json → Text
detail_code j = []

results-next_example :
    results size detail_code
      (next size detail_code opened (event [] none)).0
      (event [] (some item_event) ∷ [])
    ≡ stopped (failure (stream_failure invalid_response opened)) ∷ []
unfolding next finish
results-next_example =
    results-next size detail_code opened (event [] none) (event [] (some item_event) ∷ [])
      (failure (stream_failure invalid_response opened)) refl

read_all-total_example :
    total size detail_code
      (read_all size detail_code opened (event [] (some item_event) ∷ [])).items
    ≤ max_payload
read_all-total_example =
    read_all-total size detail_code opened (event [] (some item_event) ∷ []) refl refl
