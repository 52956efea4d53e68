-- ===== src/Storage/Requests/Order.antt =====
-- The order of the request records (internal/storage/requests.go).
use clan.Prelude.{
  ℕ, zero, suc, ◌≡◌, Bool, true, false, Option, List, [], ◌∷◌, arith, if_elim, filter, All, text_eq,
  text_eq_iff, text_lt_irrefl, text_lt_trans, text_lt_total,
}
use clan.Storage.Requests.{
  RequestRow, RequestPosition, position, before, has_request, place, to_row, is_invalid,
  insert_request, delete_up_to, is_expired, batch, delete_requests_before, Event, inserts, deletes,
  step, run,
}

pub before_irrefl : (p : RequestPosition) → before p p ≡ false
unfolding before
before_irrefl p = ground (arith, text_lt_irrefl p.id)

pub before_trans :
    (p q r : RequestPosition) → before p q ≡ true → before q r ≡ true → before p r ≡ true
unfolding before
before_trans p q r a b = ground (arith, a, b, text_lt_trans p.id q.id r.id)

before_total :
    (p q : RequestPosition) → text_eq p.id q.id ≡ false → before p q ≡ false → before q p ≡ true
unfolding before
before_total p q n h = ground (arith, n, h, text_lt_total p.id q.id, text_eq_iff p.id q.id)

abbrev pub IsBelow : RequestRow → RequestRow → Type 0
IsBelow x y = before (position y) (position x) ≡ true

-- Each row comes before the rows that follow it in the list.
abbrev pub IsOrdered : List RequestRow → Type 0
IsOrdered [] = Unit
IsOrdered (x ∷ xs) = All (IsBelow x) xs × IsOrdered xs

place-All :
    (P : RequestRow → Type 0) (r : RequestRow) (xs : List RequestRow)
    → P r
    → All P xs
    → All P (place r xs)
unfolding place
place-All P r [] p a = (p, tt)
place-All P r (x ∷ xs) p a =
    if_elim (All P) (before (position x) (position r)) _ _ (λ h. (p, a))
      (λ h. (a.0, place-All P r xs p a.1))

IsBelow-All :
    (r x : RequestRow) (xs : List RequestRow)
    → IsBelow r x
    → All (IsBelow x) xs
    → All (IsBelow r) xs
IsBelow-All r x [] h a = tt
IsBelow-All r x (y ∷ ys) h a =
    (before_trans (position y) (position x) (position r) a.0 h, IsBelow-All r x ys h a.1)

place-IsOrdered :
    (r : RequestRow) (xs : List RequestRow)
    → has_request r.id xs ≡ false
    → IsOrdered xs
    → IsOrdered (place r xs)
unfolding place
place-IsOrdered r [] n o = (tt, tt)
place-IsOrdered r (x ∷ xs) n o =
    if_elim IsOrdered (before (position x) (position r)) _ _
      (λ h. ((h, IsBelow-All r x xs h o.0), o))
      (λ h. (
        place-All (IsBelow x) r xs (before_total (position x) (position r) (ground (arith, n)) h)
            o.0,
        place-IsOrdered r xs (ground (arith, n)) o.1,
      ))

delete-All :
    (P : RequestRow → Type 0) (n : ℕ) (p : RequestRow → Bool) (xs : List RequestRow)
    → All P xs
    → All P (delete_up_to n p xs)
unfolding delete_up_to
delete-All P n p [] a = tt
delete-All P zero p (x ∷ xs) a = a
delete-All P (suc n) p (x ∷ xs) a =
    elim (p x)
      as (λ b.
        All P (elim b [ true ↦ delete_up_to n p xs | false ↦ x ∷ delete_up_to (suc n) p xs ])) [
          | true ↦ delete-All P n p xs a.1
          | false ↦ (a.0, delete-All P (suc n) p xs a.1)
        ]

delete-IsOrdered :
    (n : ℕ) (p : RequestRow → Bool) (xs : List RequestRow)
    → IsOrdered xs
    → IsOrdered (delete_up_to n p xs)
unfolding delete_up_to
delete-IsOrdered n p [] o = tt
delete-IsOrdered zero p (x ∷ xs) o = o
delete-IsOrdered (suc n) p (x ∷ xs) o =
    elim (p x)
      as (λ b.
        IsOrdered (elim b [ true ↦ delete_up_to n p xs | false ↦ x ∷ delete_up_to (suc n) p xs ])) [
          | true ↦ delete-IsOrdered n p xs o.1
          | false ↦ (delete-All (IsBelow x) (suc n) p xs o.0, delete-IsOrdered (suc n) p xs o.1)
        ]

step-IsOrdered : (rows : List RequestRow) (e : Event) → IsOrdered rows → IsOrdered (step rows e)
unfolding step insert_request delete_requests_before to_row
step-IsOrdered rows (inserts r) o =
    if_elim (λ (x : List RequestRow × Option _). IsOrdered x.0) (is_invalid r) _ _ (λ h. o)
      (λ h1.
        if_elim (λ (x : List RequestRow × Option _). IsOrdered x.0) (has_request r.id rows) _ _
          (λ h. o) (λ h. place-IsOrdered (to_row r) rows h o))
step-IsOrdered rows (deletes t) o = delete-IsOrdered batch (is_expired t) rows o

pub run-IsOrdered :
    (rows : List RequestRow) (es : List Event) → IsOrdered rows → IsOrdered (run rows es)
unfolding run
run-IsOrdered rows [] o = o
run-IsOrdered rows (e ∷ es) o = run-IsOrdered (step rows e) es (step-IsOrdered rows e o)

pub filter-All :
    (P : RequestRow → Type 0) (p : RequestRow → Bool) (xs : List RequestRow)
    → All P xs
    → All P (filter p xs)
filter-All P p [] a = tt
filter-All P p (x ∷ xs) a =
    if_elim (All P) (p x) _ _ (λ h. (a.0, filter-All P p xs a.1)) (λ h. filter-All P p xs a.1)

pub filter-IsOrdered :
    (p : RequestRow → Bool) (xs : List RequestRow) → IsOrdered xs → IsOrdered (filter p xs)
filter-IsOrdered p [] o = tt
filter-IsOrdered p (x ∷ xs) o =
    if_elim IsOrdered (p x) _ _ (λ h. (filter-All (IsBelow x) p xs o.0, filter-IsOrdered p xs o.1))
      (λ h. filter-IsOrdered p xs o.1)
