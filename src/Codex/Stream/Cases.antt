-- ===== src/Codex/Stream/Cases.antt =====
-- The ways in which Next comes to a result (internal/codex/stream.go).
use clan.Prelude.{
  ℕ, false, ◌||◌, Option, none, some, [], if◌then◌else◌, if_elim, Text, codes, text_eq, Map, lookup,
}
use clan.Errors.{Failure}
use clan.Account.{Snapshot}
use clan.Codex.Json.{Json, valid, invalid_field, text_value, any_object}
use clan.Codex.Stream.{
  Stream, Reading, event, broken, Delivered, delivered, stop, bad_event, observe_usage, with_usage,
  terminal_status, Terminal, terminal, ended_by, on_terminal, stored_item, typed_object, index_of,
  on_item, on_error, on_kind, with_response, on_response, on_fields, read,
}

module _ (size : Json → ℕ) (detail_code : Option Json → Text) (G : Stream → Type 0)
    (Q : Stream × Delivered → Type 0) (stops : (s : Stream) (f : Failure) → Q (stop s f))
    (stores : (s : Stream) (raw : Json) (i : ℕ) (item : Json)
      → G s
      → Q (stored_item size detail_code s raw i item))
    (ends : (s : Stream) (fields : Map Json) (status : Text) (t : Terminal)
      → Q (ended_by size detail_code s fields status t))
    (errs : (s : Stream) (fields : Map Json) (raw : Json) (kind : Text)
      → Q (on_error size detail_code s fields raw kind))
    (passes : (s : Stream) (j : Json) → G s → Q (s, delivered j))
    (observes : (s : Stream) (u : Snapshot) → G s → G (with_usage s u)) where
  on_item_case :
      (s : Stream) (fields : Map Json) (raw : Json)
      → G s
      → Q (on_item size detail_code s fields raw)
  on_item_case s fields raw g =
      elim (index_of size detail_code (lookup (codes "output_index") fields))
        as (λ o. Q (elim o [
          | none ↦ bad_event s
          | some i ↦ elim (typed_object size detail_code (lookup (codes "item") fields)) [
            | invalid_field p ↦ bad_event s
            | valid item ↦ stored_item size detail_code s raw i item
          ]
        ])) [
          | none ↦ stops s _
          | some i ↦
              elim (typed_object size detail_code (lookup (codes "item") fields))
                as (λ c. Q (elim c [
                  | invalid_field p ↦ bad_event s
                  | valid item ↦ stored_item size detail_code s raw i item
                ])) [ invalid_field p ↦ stops s _ | valid item ↦ stores s raw i item g ]
        ]

  on_terminal_case :
      (s : Stream) (fields : Map Json) (status : Text)
      → G s
      → Q (on_terminal size detail_code s fields status)
  on_terminal_case s fields status g =
      elim (terminal size detail_code s fields status)
        as (λ c. Q (elim c [
          | invalid_field p ↦ bad_event s
          | valid t ↦ ended_by size detail_code s fields status t
        ])) [ invalid_field p ↦ stops s _ | valid t ↦ ends s fields status t ]

  on_kind_case :
      (s : Stream) (fields : Map Json) (raw : Json) (kind : Text)
      → G s
      → Q (on_kind size detail_code s fields raw kind)
  unfolding on_kind
  on_kind_case s fields raw kind g =
      if_elim Q (text_eq kind (codes "response.output_item.done")) _ _
        (λ h. on_item_case s fields raw g)
        (λ h.
          elim (terminal_status kind)
            as (λ o. Q (elim o [
              | some status ↦ on_terminal size detail_code s fields status
              | none ↦
                  if text_eq kind (codes "error")
                  then on_error size detail_code s fields raw kind
                  else (s, delivered raw)
            ])) [
              | some status ↦ on_terminal_case s fields status g
              | none ↦
                  if_elim Q (text_eq kind (codes "error")) _ _ (λ e. errs s fields raw kind)
                    (λ e. passes s raw g)
            ])

  with_response_case :
      (s : Stream) (fields : Map Json) (raw : Json) (kind : Text) (values : Map Json)
      → G s
      → Q (with_response size detail_code s fields raw kind values)
  with_response_case s fields raw kind values g =
      if_elim Q (observe_usage (lookup (codes "usage") values) s.result.usage).1 _ _
        (λ h. on_kind_case _ fields raw kind (observes s _ g)) (λ h. stops _ _)

  on_response_case :
      (s : Stream) (fields : Map Json) (raw : Json) (kind : Text) (o : Option Json)
      → G s
      → Q (on_response size detail_code s fields raw kind o)
  on_response_case s fields raw kind none g = on_kind_case s fields raw kind g
  on_response_case s fields raw kind (some response) g =
      elim (any_object (some response) (codes "response"))
        as (λ c. Q (elim c [
          | invalid_field p ↦ bad_event s
          | valid values ↦ with_response size detail_code s fields raw kind values
        ])) [
          | invalid_field p ↦ stops s _
          | valid values ↦ with_response_case s fields raw kind values g
        ]

  on_fields_case :
      (s : Stream) (kind : Text) (raw : Json) (fields : Map Json)
      → G s
      → Q (on_fields size detail_code s kind raw fields)
  on_fields_case s kind raw fields g =
      elim (text_value (lookup (codes "type") fields) (codes "event.type") false)
        as (λ c. Q (elim c [
          | invalid_field p ↦ bad_event s
          | valid t ↦
              if text_eq kind [] || text_eq kind t
              then on_response size detail_code s fields raw t (lookup (codes "response") fields)
              else bad_event s
        ])) [
          | invalid_field p ↦ stops s _
          | valid t ↦
              if_elim Q (text_eq kind [] || text_eq kind t) _ _
                (λ h. on_response_case s fields raw t _ g) (λ h. stops s _)
        ]

  pub read_case : (s : Stream) (r : Reading) → G s → Q (read size detail_code s r)
  read_case s (event kind none) g = stops s _
  read_case s (event kind (some raw)) g =
      elim (any_object (some raw) (codes "event"))
        as (λ c. Q (elim c [
          | invalid_field p ↦ bad_event s
          | valid fields ↦ on_fields size detail_code s kind raw fields
        ])) [ invalid_field p ↦ stops s _ | valid fields ↦ on_fields_case s kind raw fields g ]
  read_case s (broken c e) g = stops s _
