-- ===== src/Tests/Turns.antt =====
-- Concrete turns of the account selector.
use clan.Prelude.{
  ◌≡◌, refl, inl, inr, some, List, [], ◌∷◌, if◌then◌else◌, In, Text, codes, text_eq, text_lt,
  lookup, insert,
}
use clan.Selection.{scan, scan_one, new, select}
use clan.Selection.Order.{IsNext, select_lem}
use clan.Selection.Fairness.{turns, In-turns}

abbrev pool : List Text
pool = codes "b" ∷ codes "c" ∷ codes "a" ∷ []

-- Ascending order, and round again.
four_turns :
    turns 4 new (codes "m") pool
    ≡ some (codes "a") ∷ some (codes "b") ∷ some (codes "c") ∷ some (codes "a") ∷ []
unfolding turns new select scan scan_one lookup insert text_lt text_eq
four_turns = refl

select_lem_example :
    (next : Text) × ((select new (codes "m") pool).1 ≡ some next)
    × IsNext (lookup (codes "m") new.positions) pool next
    × ((m : Text)
        → lookup m (select new (codes "m") pool).0.positions
          ≡ (if text_eq (codes "m") m then some next else lookup m new.positions))
select_lem_example = select_lem new (codes "m") (codes "b") (codes "c" ∷ codes "a" ∷ [])

In-turns_example : In (some (codes "c")) (turns 3 new (codes "m") pool)
In-turns_example = In-turns new (codes "m") pool (codes "c") (inr (inl refl))
