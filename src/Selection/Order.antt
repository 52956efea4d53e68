-- ===== src/Selection/Order.antt =====
-- Which candidate round_robin.go chooses.
use clan.Prelude.{
  ◌≡◌, refl, ap, ◌∙◌, subst, ◌↔◌, ◌⊎◌, inl, inr, true, false, ◌&&◌, Option, none, some, List, [],
  ◌∷◌, arith, if◌then◌else◌, Bool-cases, In, Text, text_eq, text_lt, text_lt_irrefl, text_lt_trans,
  lookup, lookup-insert,
}
use clan.Selection.{RoundRobin, after, scan, scan_one, select, pick}

-- What the loop knows of the candidates `cs` that it has seen.
abbrev IsSmallest : List Text → Text → Type 0
IsSmallest cs a = In a cs × ((c : Text) → In c cs → text_lt c a ≡ false)

abbrev IsLeastAfter : Option Text → List Text → Option Text → Type 0
IsLeastAfter last cs none = (c : Text) → In c cs → after last c ≡ false
IsLeastAfter last cs (some n) =
    In n cs
    × (after last n ≡ true)
    × ((c : Text) → In c cs → after last c ≡ true → text_lt c n ≡ false)

-- The smaller of two texts is below neither.
smaller : (id a c : Text) → text_lt c a ≡ false → text_lt c (if text_lt id a then id else a) ≡ false
smaller id a c h = ground (arith, text_lt_trans c id a)

smallest_self : (id a : Text) → text_lt id (if text_lt id a then id else a) ≡ false
smallest_self id a = ground (arith, text_lt_irrefl id)

small_step :
    (cs : List Text) (a id : Text)
    → IsSmallest cs a
    → IsSmallest (id ∷ cs) (if text_lt id a then id else a)
small_step cs a id (i, le) = (ground arith, bound)
  where
    bound : (c : Text) → In c (id ∷ cs) → text_lt c (if text_lt id a then id else a) ≡ false
    bound c (inl e) =
        subst (λ t. text_lt t (if text_lt id a then id else a) ≡ false) e (smallest_self id a)
    bound c (inr j) = smaller id a c (le c j)

least_step :
    (last : Option Text) (cs : List Text) (a : Text) (next : Option Text) (id : Text)
    → IsLeastAfter last cs next
    → IsLeastAfter last (id ∷ cs) (scan_one last (a, next) id).1
unfolding scan_one
least_step last cs a none id h = elim (Bool-cases (after last id)) [
  | inl e ↦ rw e (inl refl, e, only e)
  | inr e ↦ rw e (none_after e)
]
  where
    only :
        after last id ≡ true
        → (c : Text) → In c (id ∷ cs)
        → after last c ≡ true
        → text_lt c id ≡ false
    only e c (inl p) f = subst (λ t. text_lt t id ≡ false) p (text_lt_irrefl id)
    only e c (inr i) f = ground (arith, h c i)

    none_after : after last id ≡ false → (c : Text) → In c (id ∷ cs) → after last c ≡ false
    none_after e c (inl p) = subst (λ t. after last t ≡ false) p e
    none_after e c (inr i) = h c i
least_step last cs a (some n) id (i, up, le) = elim (Bool-cases (after last id && text_lt id n)) [
  | inl e ↦ rw e (inl refl, ground arith, lower e)
  | inr e ↦ rw e (inr i, up, kept e)
]
  where
    lower :
        (after last id && text_lt id n) ≡ true
        → (c : Text) → In c (id ∷ cs)
        → after last c ≡ true
        → text_lt c id ≡ false
    lower e c (inl p) f = subst (λ t. text_lt t id ≡ false) p (text_lt_irrefl id)
    lower e c (inr j) f = ground (arith, le c j f, text_lt_trans c id n)

    kept :
        (after last id && text_lt id n) ≡ false
        → (c : Text) → In c (id ∷ cs)
        → after last c ≡ true
        → text_lt c n ≡ false
    kept e c (inl p) f =
        let g : after last id ≡ true = ap (after last) p ∙ f in
        subst (λ t. text_lt t n ≡ false) p (ground arith)
    kept e c (inr j) f = le c j f

abbrev Seen : Option Text → List Text → Text × Option Text → Type 0
Seen last cs acc = IsSmallest cs acc.0 × IsLeastAfter last cs acc.1

abbrev reverse_onto : List Text → List Text → List Text
reverse_onto [] seen = seen
reverse_onto (c ∷ cs) seen = reverse_onto cs (c ∷ seen)

In-reverse_onto :
    (c : Text) (cs seen : List Text) → In c cs ⊎ In c seen → In c (reverse_onto cs seen)
In-reverse_onto c [] seen (inl i) = absurd i
In-reverse_onto c [] seen (inr i) = i
In-reverse_onto c (x ∷ cs) seen (inl (inl e)) = In-reverse_onto c cs (x ∷ seen) (inr (inl e))
In-reverse_onto c (x ∷ cs) seen (inl (inr i)) = In-reverse_onto c cs (x ∷ seen) (inl i)
In-reverse_onto c (x ∷ cs) seen (inr i) = In-reverse_onto c cs (x ∷ seen) (inr (inr i))

In-of_reverse_onto :
    (c : Text) (cs seen : List Text) → In c (reverse_onto cs seen) → In c cs ⊎ In c seen
In-of_reverse_onto c [] seen i = inr i
In-of_reverse_onto c (x ∷ cs) seen i = elim (In-of_reverse_onto c cs (x ∷ seen) i) [
  | inl j ↦ inl (inr j)
  | inr (inl e) ↦ inl (inl e)
  | inr (inr j) ↦ inr j
]

Seen-scan :
    (last : Option Text) (cs seen : List Text) (acc : Text × Option Text)
    → Seen last seen acc
    → Seen last (reverse_onto cs seen) (scan last acc cs)
unfolding scan
Seen-scan last [] seen acc s = s
Seen-scan last (c ∷ cs) seen (a, next) (s, t) =
    Seen-scan last cs (c ∷ seen) (scan_one last (a, next) c)
      (unfold scan_one in small_step seen a c s, least_step last seen a next c t)

abbrev pub IsMinimum : List Text → Text → Type 0
IsMinimum cs a = (c : Text) → In c cs → text_lt c a ≡ false

-- The candidate that comes after `last`: the smallest above it, or the smallest of all if none is.
abbrev pub IsNext : Option Text → List Text → Text → Type 0
IsNext last cs next =
    In next cs
    × (((after last next ≡ true)
          × ((c : Text) → In c cs → after last c ≡ true → text_lt c next ≡ false))
        ⊎ (((c : Text) → In c cs → after last c ≡ false) × IsMinimum cs next))

Seen-IsNext :
    (last : Option Text) (cs : List Text) (acc : Text × Option Text)
    → Seen last cs acc
    → IsNext last cs (pick acc)
Seen-IsNext last cs (a, none) ((i, le), up) = (i, inr (up, le))
Seen-IsNext last cs (a, some n) (s, (i, up, le)) = (i, inl (up, le))

IsNext-same :
    (last : Option Text) (cs ds : List Text) (n : Text)
    → ((c : Text) → In c cs ↔ In c ds)
    → IsNext last cs n
    → IsNext last ds n
IsNext-same last cs ds n e (i, inl (up, le)) = ((e n).0 i, inl (up, λ c j. le c ((e c).1 j)))
IsNext-same last cs ds n e (i, inr (no_more, le)) =
    ((e n).0 i, inr (λ c j. no_more c ((e c).1 j), λ c j. le c ((e c).1 j)))

earliest_member : (last : Option Text) (c : Text) → Seen last (c ∷ []) (scan_one last (c, none) c)
earliest_member last c = unfold scan_one in (same, least_step last [] c none c (λ d i. absurd i))
  where
    same : IsSmallest (c ∷ []) (if text_lt c c then c else c)
    same = (ground arith, only)
      where
        only : (d : Text) → In d (c ∷ []) → text_lt d (if text_lt c c then c else c) ≡ false
        only d (inl e) =
            subst (λ t. text_lt t (if text_lt c c then c else c) ≡ false) e (smallest_self c c)
        only d (inr i) = absurd i

In-rotated :
    (c : Text) (cs : List Text) (d : Text) → In d (reverse_onto cs (c ∷ [])) ↔ In d (c ∷ cs)
In-rotated c cs d = (
  λ i. elim (In-of_reverse_onto d cs (c ∷ []) i) [
    | inl j ↦ inr j
    | inr (inl e) ↦ inl e
    | inr (inr j) ↦ absurd j
  ],
  into,
)
  where
    into : In d (c ∷ cs) → In d (reverse_onto cs (c ∷ []))
    into (inl e) = In-reverse_onto d cs (c ∷ []) (inr (inl e))
    into (inr j) = In-reverse_onto d cs (c ∷ []) (inl j)

-- With any candidates `Select` chooses the smallest one above the model's last choice, or the
-- smallest of all if none is above it or there is no last choice. It records the choice for that
-- model and leaves every other model's last choice alone.
pub select_lem :
    (r : RoundRobin) (model c : Text) (cs : List Text)
    → (next : Text) × ((select r model (c ∷ cs)).1 ≡ some next)
      × IsNext (lookup model r.positions) (c ∷ cs) next
      × ((m : Text)
          → lookup m (select r model (c ∷ cs)).0.positions
            ≡ (if text_eq model m then some next else lookup m r.positions))
unfolding select
select_lem r model c cs =
    let last = lookup model r.positions in
    let acc = scan last (c, none) (c ∷ cs) in
    (
      pick acc,
      refl,
      IsNext-same last _ (c ∷ cs) (pick acc) (In-rotated c cs) (
          Seen-IsNext last _ acc (
            unfold scan in
            Seen-scan last cs (c ∷ []) (scan_one last (c, none) c) (earliest_member last c))),
      λ m. lookup-insert model m (pick acc) r.positions,
    )

-- No candidates: no choice, and the positions stay.
pub select-nil : (r : RoundRobin) (model : Text) → select r model [] ≡ (r, none)
unfolding select
select-nil r model = refl
