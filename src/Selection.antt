-- ===== src/Selection.antt =====
-- internal/selection/round_robin.go: the last choice per model, and the next account in turn.
--
-- `positions` is the map of the Go struct; `next` and `foundNext` are one `Option`, and so are the
-- two results of `Select`. The mutex makes each call one step.
use clan.Prelude.{
  ℕ, zero, suc, ◌+◌, ◌-◌, ◌*◌, ◌/◌, ◌%◌, ◌^◌, ◌≤◌, ◌<◌, max, min, String, ◌≡◌, refl, sym, ap, ◌∙◌,
  subst, ◌≢◌, ◌↔◌, ◌⊎◌, inl, inr, Bool, true, false, not, ◌&&◌, ◌||◌, Option, none, some, List, [],
  ◌∷◌, ◌++◌, map, arith, ltb, leb, ◌==◌, if◌then◌else◌, Bool-cases, Option-cases, is_some,
  all_below, all_below_sound, length, length-append, replicate, count, filter, count-le-length,
  count-append, count-set, count-strict, count_mono, count-pos, In, All, All-In, get_elem?, set,
  get_elem?-set_self, Text, codes, text_eq, text_eq_iff, text_eq_refl, text_lt, text_lt_irrefl,
  text_lt_trans, text_lt_total, text_lt_of_ge, is_blank, Map, lookup, insert, erase, lookup-insert,
  lookup-erase, get_or, ℤ, pos, negsuc, incr, decr, int_lt, is_zero, ltb→lt, lt→ltb, leb→le, le→leb,
  ==_iff, tests,
}
pub mod Order
pub mod Fairness

pub record RoundRobin : Type 0 where
  pub positions : Map Text

unfoldable pub new : RoundRobin
new = record { positions = [] }

-- `hasLast && id > last`
abbrev pub after : Option Text → Text → Bool
after none id = false
after (some last) id = text_lt last id

-- `!foundNext || id < next`
abbrev better : Option Text → Text → Bool
better none id = true
better (some next) id = text_lt id next

-- One round of the loop over the candidates.
unfoldable pub scan_one : Option Text → Text × Option Text → Text → Text × Option Text
scan_one last (smallest, next) id = (
  if text_lt id smallest then id else smallest,
  if after last id && better next id then some id else next,
)

unfoldable pub scan : Option Text → Text × Option Text → List Text → Text × Option Text
scan last acc [] = acc
scan last acc (id ∷ ids) = scan last (scan_one last acc id) ids

abbrev pub pick : Text × Option Text → Text
pick (smallest, none) = smallest
pick (smallest, some next) = next

unfoldable pub select : RoundRobin → Text → List Text → RoundRobin × Option Text
select r model [] = (r, none)
select r model (c ∷ cs) =
    let last = lookup model r.positions in
    let next = pick (scan last (c, none) (c ∷ cs)) in
    (record { positions = insert model next r.positions }, some next)
