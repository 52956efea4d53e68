-- ===== src/Management/Cuts.antt =====
-- How a page cuts the list of the records (internal/management/usage.go).
use clan.Prelude.{
  ℕ, zero, suc, ◌≤◌, ◌<◌, ◌≡◌, refl, sym, ap, ◌∙◌, ◌⊎◌, inl, inr, Bool, true, false, ◌&&◌, none,
  some, List, [], ◌∷◌, ◌++◌, map, arith, ltb, if_elim, length, length-append, filter, All,
}
use clan.Prelude.{take, last_of}
use clan.Storage.Requests.{
  RequestRecord, RequestRow, is_unset, position, before, scan_request, comes_after,
}
use clan.Storage.Requests.Order.{before_irrefl, before_trans, IsBelow, IsOrdered}
use clan.Management.{UsageError, RequestView, record_view, page_of}

pub filter-filter :
    (p q : RequestRow → Bool) (xs : List RequestRow)
    → filter (λ r. p r && q r) xs ≡ filter q (filter p xs)
filter-filter p q [] = refl
filter-filter p q (x ∷ xs) = ground (arith, filter-filter p q xs)

pub filter_everything :
    (p : RequestRow → Bool) (xs : List RequestRow) → All (λ r. p r ≡ true) xs → filter p xs ≡ xs
filter_everything p [] a = refl
filter_everything p (x ∷ xs) a = ground (arith, a.0, filter_everything p xs a.1)

-- The rows after the position of one of them.
pub filter-after :
    (front : List RequestRow) (a : RequestRow) (rest : List RequestRow)
    → IsOrdered (front ++ a ∷ rest)
    → filter (comes_after (some (position a))) (front ++ a ∷ rest) ≡ rest
filter-after [] a rest o = ground (
  arith,
  before_irrefl (position a),
  filter_everything (comes_after (some (position a))) rest o.0,
)
filter-after (x ∷ xs) a rest o = ground (
  arith,
  filter-after xs a rest o.1,
  before_trans (position x) (position a) (position x),
  before_irrefl (position x),
  middle xs o.0,
)
  where
    middle :
        (xs : List RequestRow)
        → All (IsBelow x) (xs ++ a ∷ rest)
        → before (position a) (position x) ≡ true
    middle [] h = h.0
    middle (y ∷ ys) h = middle ys h.1

pub length-map : {A : Type 0} {B : Type 0} (f : A → B) (xs : List A) → length (map f xs) ≡ length xs
length-map f [] = refl
length-map f (x ∷ xs) = ap suc (length-map f xs)

pub take-short : (k : ℕ) (xs : List RequestRow) → length xs ≤ k → take k xs ≡ xs
take-short zero [] h = refl
take-short zero (x ∷ xs) h = absurd (omega (arith, h))
take-short (suc k) [] h = refl
take-short (suc k) (x ∷ xs) h = ap (λ ys. x ∷ ys) (take-short k xs (omega (arith, h)))

-- A list that is longer than a page.
pub record Cut (k : ℕ) (rows : List RequestRow) : Type 0 where
  pub front : List RequestRow
  pub end_row : RequestRow
  pub rest : List RequestRow
  pub whole : rows ≡ front ++ end_row ∷ rest
  pub page :
      take k (map scan_request (take (suc k) rows))
      ≡ map scan_request front ++ scan_request end_row ∷ []
  pub longer : k < length (map scan_request (take (suc k) rows))

pub cut : (k : ℕ) (rows : List RequestRow) → suc k < length rows → Cut (suc k) rows
cut k [] h = absurd (omega (arith, h))
cut zero (x ∷ []) h = absurd (omega (arith, h))
cut zero (x ∷ (y ∷ ys)) h = record {
  front = [];
  end_row = x;
  rest = y ∷ ys;
  whole = refl;
  page = refl;
  longer = omega arith;
}
cut (suc k) (x ∷ xs) h =
    let c = cut k xs (omega (arith, h)) in
    record {
      front = x ∷ c.front;
      end_row = c.end_row;
      rest = c.rest;
      whole = ap (λ ys. x ∷ ys) c.whole;
      page = ap (λ ys. scan_request x ∷ ys) c.page;
      longer = omega (arith, c.longer);
    }

pub last_of-append : (xs : List RequestRecord) (a : RequestRecord) → last_of (xs ++ a ∷ []) ≡ some a
last_of-append [] a = refl
last_of-append (x ∷ []) a = refl
last_of-append (x ∷ (y ∷ ys)) a = last_of-append (y ∷ ys) a

pub page_of-cut :
    (k : ℕ) (rows : List RequestRow) (c : Cut k rows)
    → page_of k (map scan_request (take (suc k) rows))
      ≡ (map scan_request c.front ++ scan_request c.end_row ∷ [], some (scan_request c.end_row))
unfolding page_of
page_of-cut k rows c =
    let found = map scan_request (take (suc k) rows) in
    if_elim
      (λ x.
        x
        ≡ (map scan_request c.front ++ scan_request c.end_row ∷ [], some (scan_request c.end_row)))
      (ltb k (length found)) _ _
      (λ h.
        ap (λ ys. (ys, last_of ys)) c.page
        ∙ ap (λ o. (map scan_request c.front ++ scan_request c.end_row ∷ [], o))
            (last_of-append (map scan_request c.front) (scan_request c.end_row)))
      (λ h. absurd (ground (arith, h, c.longer)))

pub page_of-last :
    (k : ℕ) (rows : List RequestRow)
    → length rows ≤ k
    → page_of k (map scan_request (take (suc k) rows)) ≡ (map scan_request rows, none)
unfolding page_of
page_of-last k rows h =
    let same : take (suc k) rows ≡ rows = take-short (suc k) rows (omega (arith, h)) in
    if_elim (λ x. x ≡ (map scan_request rows, none))
      (ltb k (length (map scan_request (take (suc k) rows)))) _ _
      (λ l. absurd (
        ground (arith, l, h, ap length (ap (map scan_request) same), length-map scan_request rows)))
      (λ l. ap (λ ys. (map scan_request ys, none)) same)

pub append_assoc : {A : Type 0} (xs ys zs : List A) → (xs ++ ys) ++ zs ≡ xs ++ (ys ++ zs)
append_assoc [] ys zs = refl
append_assoc (x ∷ xs) ys zs = ap (λ l. x ∷ l) (append_assoc xs ys zs)

pub map-append :
    {A B : Type 0} (f : A → B) (xs ys : List A) → map f (xs ++ ys) ≡ map f xs ++ map f ys
map-append f [] ys = refl
map-append f (x ∷ xs) ys = ap (λ l. f x ∷ l) (map-append f xs ys)

pub append_nil : {A : Type 0} (xs : List A) → xs ++ [] ≡ xs
append_nil [] = refl
append_nil (x ∷ xs) = ap (λ l. x ∷ l) (append_nil xs)

pub views-append :
    (front : List RequestRow) (a : RequestRow) (rest : List RequestRow)
    → map record_view (map scan_request front ++ scan_request a ∷ [])
        ++ map record_view (map scan_request rest)
      ≡ map record_view (map scan_request (front ++ a ∷ rest))
views-append [] a rest = refl
views-append (x ∷ xs) a rest = ap (λ l. record_view (scan_request x) ∷ l) (views-append xs a rest)

pub cut_at : (k : ℕ) (rows : List RequestRow) → 0 < k → k < length rows → Cut k rows
cut_at zero rows p h = absurd (omega (arith, p))
cut_at (suc k) rows p h = cut k rows h

-- A cut of the rows that are left.
pub cut-whole :
    (matching seen left : List RequestRow) (k : ℕ) (c : Cut k left)
    → matching ≡ seen ++ left
    → matching ≡ (seen ++ c.front) ++ c.end_row ∷ c.rest
cut-whole matching seen left k c e =
    e ∙ ap (λ l. seen ++ l) c.whole ∙ sym (append_assoc seen c.front (c.end_row ∷ c.rest))

pub cut-shorter :
    (left : List RequestRow) (k n : ℕ) (c : Cut k left) → length left < suc n → length c.rest < n
cut-shorter left k n c h =
    omega (arith, h, ap length c.whole, length-append c.front (c.end_row ∷ c.rest))

-- An ID that a cursor may have.
abbrev pub IsCursorId : RequestRow → Type 0
IsCursorId r = (is_unset r.id ≡ false) × (length r.id ≤ 128)

pub All-right : (P : RequestRow → Type 0) (xs ys : List RequestRow) → All P (xs ++ ys) → All P ys
All-right P [] ys a = a
All-right P (x ∷ xs) ys a = All-right P xs ys a.1

-- A page and what its cursor leads to.
abbrev pub joined : List RequestView → List RequestView ⊎ UsageError → List RequestView ⊎ UsageError
joined items (inr e) = inr e
joined items (inl views) = inl (items ++ views)
