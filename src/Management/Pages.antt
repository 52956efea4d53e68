-- ===== src/Management/Pages.antt =====
-- Following the cursors of listRequests (internal/management/usage.go).
use clan.Prelude.{
  ℕ, zero, suc, ◌≤◌, ◌<◌, ◌≡◌, refl, sym, ap, ◌∙◌, subst, ◌⊎◌, inl, inr, true, false, not, ◌||◌,
  Option, none, some, List, [], ◌∷◌, ◌++◌, map, arith, ltb, if◌then◌else◌, Bool-cases, if_elim,
  length, filter, All, set, Text, text_eq, text_eq_refl,
}
use clan.Prelude.{take}
use clan.Storage.Requests.{
  RequestRow, RequestFilter, RequestPosition, is_unset, position, scan_request, request_where,
  comes_after, bad_range, list_requests, Event, run,
}
use clan.Storage.Requests.Order.{IsOrdered, filter-All, filter-IsOrdered, run-IsOrdered}
use clan.Management.{
  usage_failure, UsageError, RequestCursor, RequestView, RequestsPage, record_view, page_of,
  checked_cursor, decode_request_cursor, cursor_of, page_view, read_page, list_page,
}
use clan.Management.Cuts.{
  filter-filter, filter_everything, filter-after, Cut, page_of-cut, page_of-last, append_assoc,
  append_nil, views-append, cut_at, cut-whole, cut-shorter, IsCursorId, All-right, joined,
}

listed :
    (rows : List RequestRow) (f : RequestFilter) (limit : ℕ) (after : Option RequestPosition)
    → 0 < limit
    → limit ≤ 100
    → bad_range f ≡ false
    → list_requests rows f after (suc limit)
      ≡ inl (
          map scan_request
            (take (suc limit) (filter (comes_after after) (filter (request_where f) rows))))
unfolding list_requests
listed rows f limit after p q b =
    if_elim
      (λ x.
        x
        ≡ inl (
            map scan_request
              (take (suc limit) (filter (comes_after after) (filter (request_where f) rows)))))
      (ltb (suc limit) 1 || ltb 101 (suc limit)) _ _ (λ h. absurd (ground (arith, h, p, q)))
      (λ h1.
        if_elim
          (λ x.
            x
            ≡ inl (
                map scan_request
                  (take (suc limit) (filter (comes_after after) (filter (request_where f) rows)))))
          (bad_range f) _ _ (λ h. absurd (ground (arith, h, b)))
          (λ h.
            ap (λ l. inl (map scan_request (take (suc limit) l)))
              (filter-filter (request_where f) (comes_after after) rows)))

module _ (filter_hash : RequestFilter → Text) (encode : RequestCursor → Text)
    (decode : Text → Option RequestCursor) where
  -- A client that asks for `n` pages at most.
  unfoldable pub follow :
      ℕ → List RequestRow → RequestFilter → ℕ → Text → List RequestView ⊎ UsageError
  follow zero rows f limit cursor = inl []
  follow (suc n) rows f limit cursor =
      elim (list_page filter_hash encode decode rows f limit cursor) [
        | inr e ↦ inr e
        | inl p ↦
            joined p.items
              (if is_unset p.next_cursor then inl [] else follow n rows f limit p.next_cursor)
      ]

  module _ (decode_encode : (c : RequestCursor) → decode (encode c) ≡ some c)
      (fits : (c : RequestCursor)
        → length c.id ≤ 128
        → length c.filter ≤ 64
        → (is_unset (encode c) ≡ false) × (length (encode c) ≤ 2048))
      (short_hash : (f : RequestFilter) → length (filter_hash f) ≤ 64) where
    cursor_row : RequestFilter → RequestRow → RequestCursor
    cursor_row f r = record { time = some r.finished; id = r.id; filter = filter_hash f }

    cursor_of-row :
        (f : RequestFilter) (r : RequestRow)
        → cursor_of filter_hash encode decode (filter_hash f) (some (scan_request r))
          ≡ encode (cursor_row f r)
    unfolding cursor_row scan_request
    cursor_of-row f r =
        ap (λ t. encode (record { time = some t; id = r.id; filter = filter_hash f })) (omega arith)

    cursor-roundtrip :
        (f : RequestFilter) (r : RequestRow)
        → IsCursorId r
        → (is_unset (encode (cursor_row f r)) ≡ false)
          × (decode_request_cursor filter_hash encode decode
                (encode (cursor_row f r))
                (filter_hash f)
              ≡ inl (some (position r)))
    unfolding cursor_row decode_request_cursor checked_cursor
    cursor-roundtrip f r (set, short) =
        let c = cursor_row f r in
        let (set_cursor, short_cursor) = fits c short (short_hash f) in
        (
          set_cursor,
          if_elim (λ x. x ≡ inl (some (position r))) (is_unset (encode c)) _ _
              (λ h. absurd (ground (arith, h, set_cursor)))
              (λ h1.
                if_elim (λ x. x ≡ inl (some (position r))) (ltb 2048 (length (encode c))) _ _
                  (λ h. absurd (ground (arith, h, short_cursor)))
                  (λ h2.
                    ap (λ o. checked_cursor o (filter_hash f)) (decode_encode c)
                    ∙ if_elim (λ x. x ≡ inl (some (position r)))
                        (is_unset r.id
                          || ltb 128 (length r.id)
                          || not (text_eq (filter_hash f) (filter_hash f)))
                        _ _
                        (λ h. absurd (ground (arith, h, set, short, text_eq_refl (filter_hash f))))
                        (λ h. refl))),
        )

    page :
        (rows : List RequestRow) (f : RequestFilter) (limit : ℕ) (cursor : Text)
        (after : Option RequestPosition)
        → 0 < limit
        → limit ≤ 100
        → bad_range f ≡ false
        → decode_request_cursor filter_hash encode decode cursor (filter_hash f) ≡ inl after
        → list_page filter_hash encode decode rows f limit cursor
          ≡ inl (
              page_view filter_hash encode decode (filter_hash f) (
                page_of limit (
                  map scan_request (
                    take
                      (suc limit)
                      (filter (comes_after after) (filter (request_where f) rows))))))
    unfolding list_page
    page rows f limit cursor after p q b d =
        ap (read_page filter_hash encode decode rows f limit) d
        ∙ ap
            (λ x. elim x [
              | inr e ↦ inr (usage_failure e)
              | inl records ↦
                  inl (page_view filter_hash encode decode (filter_hash f) (page_of limit records))
            ])
            (listed rows f limit after p q b)

    abbrev after_page :
        ℕ → List RequestRow → RequestFilter → ℕ → RequestsPage → List RequestView ⊎ UsageError
    after_page n rows f limit p =
        joined p.items
          (if is_unset p.next_cursor then inl [] else follow n rows f limit p.next_cursor)

    abbrev view_of : RequestFilter → ℕ → List RequestRow → RequestsPage
    view_of f limit left =
        page_view filter_hash encode decode (filter_hash f)
          (page_of limit (map scan_request (take (suc limit) left)))

    -- The last page.
    end_page :
        (n : ℕ) (rows : List RequestRow) (f : RequestFilter) (limit : ℕ) (left : List RequestRow)
        → length left ≤ limit
        → after_page n rows f limit (view_of f limit left)
          ≡ inl (map record_view (map scan_request left))
    end_page n rows f limit left h =
        ap (λ x. after_page n rows f limit (page_view filter_hash encode decode (filter_hash f) x))
          (page_of-last limit left h)
        ∙ ap inl (append_nil (map record_view (map scan_request left)))

    -- Another one.
    more_pages :
        (n : ℕ) (rows : List RequestRow) (f : RequestFilter) (limit : ℕ) (left : List RequestRow)
        (c : Cut limit left)
        → IsCursorId c.end_row
        → follow n rows f limit (encode (cursor_row f c.end_row))
          ≡ inl (map record_view (map scan_request c.rest))
        → after_page n rows f limit (view_of f limit left)
          ≡ inl (map record_view (map scan_request left))
    more_pages n rows f limit left c i e =
        let items = map record_view (map scan_request c.front ++ scan_request c.end_row ∷ []) in
        let cursor = encode (cursor_row f c.end_row) in
        ap (λ x. after_page n rows f limit (page_view filter_hash encode decode (filter_hash f) x))
          (page_of-cut limit left c)
        ∙ ap (λ t. joined items (if is_unset t then inl [] else follow n rows f limit t))
            (cursor_of-row f c.end_row)
        ∙ ap (λ u. joined items (if u then inl [] else follow n rows f limit cursor))
            (cursor-roundtrip f c.end_row i).0
        ∙ ap (joined items) e
        ∙ ap inl (
            views-append c.front c.end_row c.rest
            ∙ ap (λ l. map record_view (map scan_request l)) (sym c.whole))

    -- What the cursors from some point on lead to: the rest of the matching rows.
    follow-rest :
        (n : ℕ) (rows : List RequestRow) (f : RequestFilter) (limit : ℕ) (cursor : Text)
        (after : Option RequestPosition) (seen left : List RequestRow)
        → 0 < limit
        → limit ≤ 100
        → bad_range f ≡ false
        → decode_request_cursor filter_hash encode decode cursor (filter_hash f) ≡ inl after
        → IsOrdered (filter (request_where f) rows)
        → All IsCursorId (filter (request_where f) rows)
        → filter (request_where f) rows ≡ seen ++ left
        → filter (comes_after after) (filter (request_where f) rows) ≡ left
        → length left < n
        → follow n rows f limit cursor ≡ inl (map record_view (map scan_request left))
    unfolding follow
    follow-rest zero rows f limit cursor after seen left p q b d o ids split rest h =
        absurd (omega (arith, h))
    follow-rest (suc n) rows f limit cursor after seen left p q b d o ids split rest h =
        ap (λ x. elim x [ inr e ↦ inr e | inl y ↦ after_page n rows f limit y ])
          (page rows f limit cursor after p q b d)
        ∙ ap (λ l. after_page n rows f limit (view_of f limit l)) rest
        ∙ elim (Bool-cases (ltb limit (length left))) [
          | inl g ↦
              let c = cut_at limit left p (ground (arith, g)) in
              let whole = cut-whole (filter (request_where f) rows) seen left limit c split in
              let i =
                (All-right IsCursorId (seen ++ c.front) (c.end_row ∷ c.rest)
                  (subst (All IsCursorId) whole ids)).0 in
              more_pages n rows f limit left c i (
                follow-rest n rows f limit (encode (cursor_row f c.end_row))
                  (some (position c.end_row)) ((seen ++ c.front) ++ c.end_row ∷ []) c.rest p q b
                  (cursor-roundtrip f c.end_row i).1 o ids
                  (whole ∙ sym (append_assoc (seen ++ c.front) (c.end_row ∷ []) c.rest))
                  (ap (filter (comes_after (some (position c.end_row)))) whole
                    ∙ filter-after (seen ++ c.front) c.end_row c.rest (subst IsOrdered whole o))
                  (cut-shorter left limit n c h))
          | inr g ↦ end_page n rows f limit left (ground (arith, g))
        ]

    -- A client that starts without a cursor and follows the cursors of listRequests gets the views of exactly the stored records
    -- that match the filter, each once and in the order of the store, after one page more than there are such records at most.
    -- The limit is one that the API allows, the range of the filter is not empty, the IDs of the records fit into a
    -- cursor, and cursors decode to what they encode.
    pub follow-request_where :
        (es : List Event) (f : RequestFilter) (limit : ℕ)
        → 0 < limit
        → limit ≤ 100
        → bad_range f ≡ false
        → All IsCursorId (run [] es)
        → follow (suc (length (filter (request_where f) (run [] es)))) (run [] es) f limit []
          ≡ inl (map record_view (map scan_request (filter (request_where f) (run [] es))))
    follow-request_where es f limit p q b ids =
        let matching = filter (request_where f) (run [] es) in
        follow-rest (suc (length matching)) (run [] es) f limit [] none [] matching p q b
          (unfold decode_request_cursor in refl)
          (filter-IsOrdered (request_where f) (run [] es) (run-IsOrdered [] es tt))
          (filter-All IsCursorId (request_where f) (run [] es) ids) refl
          (filter_everything (comes_after none) matching (all_true matching)) (omega arith)
      where
        all_true : (xs : List RequestRow) → All (λ r. comes_after none r ≡ true) xs
        all_true [] = tt
        all_true (x ∷ xs) = (refl, all_true xs)
