-- ===== src/Codex/Stream/Bounded.antt =====
-- The bound on the items that a stream keeps (internal/codex/stream.go).
use clan.Prelude.{
  ℕ, ◌+◌, ◌-◌, ◌≤◌, ◌≡◌, refl, true, false, ◌||◌, Option, some, List, [], ◌∷◌, arith, ltb, ◌==◌,
  if_elim, Text,
}
use clan.Errors.{Failure}
use clan.Codex.Json.{Json}
use clan.Codex.Parse.{max_payload}
use clan.Codex.Stream.{
  Item, Stream, Reading, Delivered, finish, put_item, item_at, size_of, stored_item, next,
}
use clan.Codex.Stream.Cases.{read_case}

module _ (size : Json → ℕ) (detail_code : Option Json → Text) where
  -- The length of all items.
  unfoldable pub total : List Item → ℕ
  total [] = 0
  total (x ∷ xs) = size x.value + total xs

  put_item-total :
      (i : ℕ) (j : Json) (xs : List Item)
      → total (put_item i j xs) + size_of size detail_code (item_at i xs) ≡ total xs + size j
  unfolding total put_item item_at
  put_item-total i j [] = omega arith
  put_item-total i j (x ∷ xs) =
      if_elim
        (λ l. total l + size_of size detail_code (item_at i (x ∷ xs)) ≡ total (x ∷ xs) + size j)
        (ltb i x.index) _ _ (λ h. ground (arith, h))
        (λ h.
          if_elim
            (λ l. total l + size_of size detail_code (item_at i (x ∷ xs)) ≡ total (x ∷ xs) + size j)
            (i == x.index) _ _ (λ e. ground (arith, h, e))
            (λ e. ground (arith, h, e, put_item-total i j xs)))

  -- The items fit, and as long as the stream goes on their length is known.
  record IsBounded (s : Stream) : Type 0 where
    fits : total s.items ≤ max_payload
    counted : (s.ended || s.item_bytes == total s.items) ≡ true

  finish-IsBounded : (s : Stream) (f : Option Failure) → IsBounded (finish s f)
  unfolding finish total
  finish-IsBounded s f = record { fits = omega arith; counted = refl }

  stored_item-IsBounded :
      (s : Stream) (raw : Json) (i : ℕ) (item : Json)
      → IsBounded s × (s.ended ≡ false)
      → IsBounded (stored_item size detail_code s raw i item).0
  stored_item-IsBounded s raw i item (b, live) =
      let bytes = s.item_bytes + size item - size_of size detail_code (item_at i s.items) in
      if_elim (λ (x : Stream × Delivered). IsBounded x.0) (ltb max_payload bytes) _ _
        (λ h. finish-IsBounded _ _)
        (λ h.
          let known : s.item_bytes ≡ total s.items = ground (arith, live, b.counted) in
          let now : bytes ≡ total (put_item i item s.items) =
            omega (arith, known, put_item-total i item s.items) in
          record { fits = ground (arith, h, now); counted = ground (arith, live, now) })

  next-IsBounded :
      (s : Stream) (r : Reading) → IsBounded s → IsBounded (next size detail_code s r).0
  unfolding next
  next-IsBounded s r b =
      if_elim (λ (x : Stream × Delivered). IsBounded x.0) s.ended _ _ (λ h. b)
        (λ h.
          read_case size detail_code (λ s. IsBounded s × (s.ended ≡ false)) (λ x. IsBounded x.0)
            (λ s f. finish-IsBounded s (some f)) stored_item-IsBounded
            (λ s fields status t. finish-IsBounded _ t.failed)
            (λ s fields raw kind. finish-IsBounded s _) (λ s j g. g.0)
            (λ s u g. (record { fits = g.0.fits; counted = g.0.counted }, g.1)) s r (b, h))

  -- A stream after some readings.
  unfoldable pub read_all : Stream → List Reading → Stream
  read_all s [] = s
  read_all s (r ∷ rs) = read_all (next size detail_code s r).0 rs

  read_all-IsBounded : (s : Stream) (rs : List Reading) → IsBounded s → IsBounded (read_all s rs)
  unfolding read_all
  read_all-IsBounded s [] b = b
  read_all-IsBounded s (r ∷ rs) b =
      read_all-IsBounded (next size detail_code s r).0 rs (next-IsBounded s r b)

  -- However many events a new stream reads, the items that it keeps are 16 MiB long in all at most.
  pub read_all-total :
      (s : Stream) (rs : List Reading)
      → s.items ≡ []
      → s.item_bytes ≡ 0
      → total (read_all s rs).items ≤ max_payload
  unfolding total
  read_all-total s rs e z =
      (read_all-IsBounded s rs
        (record { fits = ground (arith, e); counted = ground (arith, e, z) })).fits
