-- ===== src/Storage/Requests/Stored.antt =====
-- A stored request record is read back (internal/storage/requests.go).
use clan.Prelude.{
  ◌*◌, ◌/◌, ◌≡◌, refl, ap, ◌∙◌, inl, inr, false, Option, none, List, [], ◌∷◌, arith, Bool-cases,
  if_elim, Text, text_eq_refl, pos,
}
use clan.Account.{Counter}
use clan.Errors.{Sentinel}
use clan.Storage.Requests.{
  RequestRecord, RequestRow, nullable_text, nullable_counter, bad_counter, position, before,
  has_request, place, millis, to_row, is_invalid, insert_request, counter, text_of, scan_request,
  get_request, nanos_per_milli,
}

text_of-nullable_text : (t : Text) → text_of (nullable_text t) ≡ t
text_of-nullable_text [] = refl
text_of-nullable_text (c ∷ s) = refl

counter-nullable_counter : (c : Counter) → bad_counter c ≡ false → counter (nullable_counter c) ≡ c
counter-nullable_counter c h = ground (arith, h)

get-place :
    (r : RequestRow) (rows : List RequestRow)
    → has_request r.id rows ≡ false
    → get_request (place r rows) r.id ≡ inl (scan_request r)
unfolding get_request place
get-place r [] h = ground (arith, text_eq_refl r.id)
get-place r (x ∷ xs) h =
    if_elim (λ l. get_request l r.id ≡ inl (scan_request r)) (before (position x) (position r)) _ _
      (λ g. ground (arith, text_eq_refl r.id))
      (λ g. ground (arith, h, get-place r xs (ground (arith, h))))

-- The times of a record in whole milliseconds.
abbrev pub in_millis : RequestRecord → RequestRecord
in_millis r = record r {
  finished_at = r.finished_at / nanos_per_milli * nanos_per_milli;
  duration = pos (millis r.duration * nanos_per_milli);
}

scan_request-to_row :
    (r : RequestRecord) → is_invalid r ≡ false → scan_request (to_row r) ≡ in_millis r
unfolding scan_request to_row is_invalid
scan_request-to_row r h = ground (
  arith,
  h,
  text_of-nullable_text r.account_id,
  text_of-nullable_text r.model,
  counter-nullable_counter r.usage.input,
  counter-nullable_counter r.usage.output,
  counter-nullable_counter r.usage.total,
)

-- A record that InsertRequest accepts is what GetRequest then reads under its ID, with its time and its duration cut to whole
-- milliseconds.
pub get_request-insert_request :
    (rows : List RequestRow) (r : RequestRecord)
    → (insert_request rows r).1 ≡ none
    → get_request (insert_request rows r).0 r.id ≡ inl (in_millis r)
unfolding insert_request to_row
get_request-insert_request rows r h = elim (Bool-cases (is_invalid r)) [
  | inl i ↦ absurd (ground (arith, h, i))
  | inr i ↦ elim (Bool-cases (has_request r.id rows)) [
    | inl e ↦ absurd (ground (arith, h, i, e))
    | inr e ↦
        if_elim IsRead (is_invalid r) _ _ (λ j. absurd (ground (arith, i, j)))
          (λ j.
            if_elim IsRead (has_request r.id rows) _ _ (λ g. absurd (ground (arith, e, g)))
              (λ g. get-place (to_row r) rows e ∙ ap inl (scan_request-to_row r i)))
  ]
]
  where
    IsRead : List RequestRow × Option Sentinel → Type 0
    IsRead x = get_request x.0 r.id ≡ inl (in_millis r)
