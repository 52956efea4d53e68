-- ===== src/Selection/Fairness.antt =====
-- round_robin.go takes turns: with the same candidates every one of them is chosen in time.
use clan.Prelude.{
  ℕ, zero, suc, ◌≤◌, ◌<◌, ◌≡◌, sym, ap, ◌∙◌, subst, ◌⊎◌, inl, inr, Bool, true, false, not, ◌&&◌,
  ◌||◌, Option, none, some, List, [], ◌∷◌, arith, if◌then◌else◌, Bool-cases, length, count,
  count-le-length, count-strict, count-pos, In, Text, text_eq, text_eq_iff, text_eq_refl, text_lt,
  text_lt_irrefl, text_lt_trans, text_lt_total, text_lt_of_ge, lookup,
}
use clan.Selection.{RoundRobin, select}
use clan.Selection.Order.{IsNext, select_lem}

-- The choices of `n` calls in a row for one model over one list of candidates.
unfoldable pub turns : ℕ → RoundRobin → Text → List Text → List (Option Text)
turns zero r model cs = []
turns (suc n) r model cs = let (r', choice) = select r model cs in choice ∷ turns n r' model cs

-- The candidates from `last` on up to `c`, going round.
ahead : Option Text → Text → Text → Bool
ahead none c z = not (text_lt c z)
ahead (some l) c z =
    if text_lt l c then text_lt l z && not (text_lt c z) else text_lt l z || not (text_lt c z)

ahead_shrinks :
    (last : Option Text) (cs : List Text) (next c z : Text)
    → IsNext last cs next
    → In c cs
    → text_eq next c ≡ false
    → ahead (some next) c z ≡ true
    → ahead last c z ≡ true
unfolding ahead
ahead_shrinks none cs next c z (i, inl (up, le)) j d h = cc
ahead_shrinks none cs next c z (i, inr (no_more, le)) j d h =
    ground (arith, le c j, text_lt_total next c, text_eq_iff next c)
ahead_shrinks (some l) cs next c z (i, inl (up, le)) j d h = ground (
  arith,
  le c j,
  text_lt_total next c,
  text_eq_iff next c,
  text_lt_trans l next z,
  text_lt_trans l next c,
  text_lt_of_ge c l next,
)
ahead_shrinks (some l) cs next c z (i, inr (no_more, le)) j d h =
    ground
      (arith, le c j, no_more c j, text_lt_total next c, text_eq_iff next c, text_lt_trans l next z)

ahead_next :
    (last : Option Text) (cs : List Text) (next c : Text)
    → IsNext last cs next
    → In c cs
    → text_eq next c ≡ false
    → (ahead (some next) c next ≡ false) × (ahead last c next ≡ true)
unfolding ahead
ahead_next none cs next c (i, inl (up, le)) j d = cc
ahead_next none cs next c (i, inr (no_more, le)) j d = ground (
  arith,
  le c j,
  text_lt_total next c,
  text_eq_iff next c,
  text_lt_irrefl next,
  text_lt_trans next c next,
)
ahead_next (some l) cs next c (i, inl (up, le)) j d = ground (
  arith,
  le c j,
  text_lt_total next c,
  text_eq_iff next c,
  text_lt_irrefl next,
  text_lt_trans next c next,
)
ahead_next (some l) cs next c (i, inr (no_more, le)) j d = ground (
  arith,
  le c j,
  no_more c j,
  text_lt_total next c,
  text_eq_iff next c,
  text_lt_irrefl next,
  text_lt_trans next c next,
)

abbrev waiting : RoundRobin → Text → List Text → Text → ℕ
waiting r model cs c = count (ahead (lookup model r.positions) c) cs

-- A call chooses `c`, or brings its turn nearer.
waiting-select :
    (r : RoundRobin) (model x : Text) (xs : List Text) (c : Text)
    → In c (x ∷ xs)
    → ((select r model (x ∷ xs)).1 ≡ some c)
      ⊎ (waiting (select r model (x ∷ xs)).0 model (x ∷ xs) c < waiting r model (x ∷ xs) c)
waiting-select r model x xs c j =
    let (next, chosen, is_next, recorded) = select_lem r model x xs in
    let last = lookup model r.positions in
    elim (Bool-cases (text_eq next c)) [
      | inl e ↦ inl (chosen ∙ ap some ((text_eq_iff next c).0 e))
      | inr d ↦
          let (gone, there) = ahead_next last (x ∷ xs) next c is_next j d in
          let now : lookup model (select r model (x ∷ xs)).0.positions ≡ some next =
            recorded model ∙ ground (arith, text_eq_refl model) in
          let fewer : count (ahead (some next) c) (x ∷ xs) < count (ahead last c) (x ∷ xs) =
            count-strict (ahead (some next) c) (ahead last c) (x ∷ xs) next
              (λ z. ahead_shrinks last (x ∷ xs) next c z is_next j d) is_next.0 gone there in
          inr (subst (λ p. count (ahead p c) (x ∷ xs) < waiting r model (x ∷ xs) c) (sym now) fewer)
    ]

ahead_self : (last : Option Text) (c : Text) → ahead last c c ≡ true
unfolding ahead
ahead_self none c = ground (arith, text_lt_irrefl c)
ahead_self (some l) c = ground (arith, text_lt_irrefl c)

In-turns_fuel :
    (n : ℕ) (r : RoundRobin) (model : Text) (cs : List Text) (c : Text)
    → In c cs
    → waiting r model cs c ≤ n
    → In (some c) (turns n r model cs)
unfolding turns
In-turns_fuel n r model [] c j w = absurd j
In-turns_fuel zero r model (x ∷ xs) c j w =
    let last = lookup model r.positions in
    absurd (omega (arith, count-pos (ahead last c) (x ∷ xs) c j (ahead_self last c)))
In-turns_fuel (suc n) r model (x ∷ xs) c j w = elim (waiting-select r model x xs c j) [
  | inl e ↦ inl e
  | inr less ↦
      inr (In-turns_fuel n (select r model (x ∷ xs)).0 model (x ∷ xs) c j (omega (arith, less, w)))
]

-- From any positions, as many calls in a row for a model as there are candidates choose every
-- candidate.
pub In-turns :
    (r : RoundRobin) (model : Text) (cs : List Text) (c : Text)
    → In c cs
    → In (some c) (turns (length cs) r model cs)
In-turns r model cs c j =
    In-turns_fuel (length cs) r model cs c j
      (count-le-length (ahead (lookup model r.positions) c) cs)
