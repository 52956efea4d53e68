-- ===== src/OAuth/Refresh/Sound.antt =====
-- The states of jobs that belong to the accounts (internal/codexoauth/manager.go).
use clan.Prelude.{
  ℕ, zero, suc, ◌≡◌, refl, sym, ◌∙◌, subst, inl, inr, Bool, true, false, not, ◌&&◌, Option, none,
  some, List, [], ◌∷◌, arith, ◌==◌, Bool-cases, Option-cases, if_elim, get_elem?, Text, text_eq_iff,
  Map, lookup, erase, lookup-erase, ==_iff,
}
use clan.OAuth.Refresh.{RefreshState, Refreshes, update, cancel_job, canceled_at, invalidate_locked}

abbrev pub owner : RefreshState → Text
owner s = s.previous.account.identity.id

-- A job of the state runs, and its context was not canceled.
abbrev pub is_live : RefreshState → Bool
is_live s = s.running && not s.canceled

pub record Good (cur : Map ℕ) (i : ℕ) (s : RefreshState) : Type 0 where
  pub live_current : is_live s ≡ true → lookup (owner s) cur ≡ some i
  pub idle : s.needs_sign_in ≡ true → s.running ≡ false
  pub cancelable : s.running ≡ true → s.has_cancel ≡ true

abbrev pub AllGood : Map ℕ → List RefreshState → Type 0
AllGood cur states = (i : ℕ) (s : RefreshState) → get_elem? states i ≡ some s → Good cur i s

-- A state that the map has an ID for is of that account.
pub record Owned (states : List RefreshState) (id : Text) (i : ℕ) : Type 0 where
  pub state : RefreshState
  pub found : get_elem? states i ≡ some state
  pub of_account : owner state ≡ id

abbrev pub Named : Map ℕ → List RefreshState → Type 0
Named cur states = (id : Text) (i : ℕ) → lookup id cur ≡ some i → Owned states id i

pub update_self :
    (ss : List RefreshState) (i : ℕ) (f : RefreshState → RefreshState) (s : RefreshState)
    → get_elem? ss i ≡ some s
    → get_elem? (update ss i f) i ≡ some (f s)
unfolding update
update_self [] i f s h = cc
update_self (x ∷ ss) zero f s h = cc
update_self (x ∷ ss) (suc i) f s h = update_self ss i f s h

pub update-other :
    (ss : List RefreshState) (i j : ℕ) (f : RefreshState → RefreshState)
    → (i == j) ≡ false
    → get_elem? (update ss i f) j ≡ get_elem? ss j
unfolding update
update-other [] i j f h = refl
update-other (x ∷ ss) zero zero f h = absurd (ground (arith, h))
update-other (x ∷ ss) zero (suc j) f h = refl
update-other (x ∷ ss) (suc i) zero f h = refl
update-other (x ∷ ss) (suc i) (suc j) f h = update-other ss i j f (ground (arith, h))

-- What stands at a place after an update.
pub data Updated (ss : List RefreshState) (i j : ℕ) (f : RefreshState → RefreshState)
    (t : RefreshState) : Type 0 where
  here : (s : RefreshState) → get_elem? ss i ≡ some s → t ≡ f s → i ≡ j → Updated ss i j f t
  elsewhere : (i == j) ≡ false → get_elem? ss j ≡ some t → Updated ss i j f t

pub update-none :
    (ss : List RefreshState) (i : ℕ) (f : RefreshState → RefreshState)
    → get_elem? ss i ≡ none
    → get_elem? (update ss i f) i ≡ none
unfolding update
update-none [] i f h = h
update-none (x ∷ ss) zero f h = cc
update-none (x ∷ ss) (suc i) f h = update-none ss i f h

pub update-Updated :
    (ss : List RefreshState) (i j : ℕ) (f : RefreshState → RefreshState) (t : RefreshState)
    → get_elem? (update ss i f) j ≡ some t
    → Updated ss i j f t
update-Updated ss i j f t h = elim (Bool-cases (i == j)) [
  | inl e ↦ same ((==_iff i j).0 e)
  | inr n ↦ elsewhere n (sym (update-other ss i j f n) ∙ h)
]
  where
    same : i ≡ j → Updated ss i j f t
    same e = elim (Option-cases (get_elem? ss i)) [
      | inl n ↦ absurd (ground (arith, h, e, update-none ss i f n))
      | inr (s, g) ↦ here s g (ground (arith, h, e, update_self ss i f s g)) e
    ]

pub update-Good :
    (cur : Map ℕ) (ss : List RefreshState) (i : ℕ) (f : RefreshState → RefreshState)
    → ((s : RefreshState) → get_elem? ss i ≡ some s → Good cur i (f s))
    → AllGood cur ss
    → AllGood cur (update ss i f)
update-Good cur ss i f k g j t h = elim (update-Updated ss i j f t h) [
  | here s e p q ↦ subst (λ j'. Good cur j' t) q (subst (λ t'. Good cur i t') (sym p) (k s e))
  | elsewhere n e ↦ g j t e
]

pub update-Owned :
    (ss : List RefreshState) (i j : ℕ) (f : RefreshState → RefreshState) (id : Text)
    → ((s : RefreshState) → owner (f s) ≡ owner s)
    → Owned ss id j
    → Owned (update ss i f) id j
update-Owned ss i j f id k o = elim (Bool-cases (i == j)) [
  | inl e ↦ record {
    state = f o.state;
    found =
        subst (λ j'. get_elem? (update ss j' f) j ≡ some (f o.state)) (sym ((==_iff i j).0 e))
          (update_self ss j f o.state o.found);
    of_account = k o.state ∙ o.of_account;
  }
  | inr n ↦ record {
    state = o.state;
    found = update-other ss i j f n ∙ o.found;
    of_account = o.of_account;
  }
]

pub cancel_job-owner : (s : RefreshState) → owner (cancel_job s) ≡ owner s
cancel_job-owner s = ground arith

pub cancel_job-Good :
    (cur c : Map ℕ) (i : ℕ) (s : RefreshState) → Good cur i s → Good c i (cancel_job s)
cancel_job-Good cur c i s g =
    if_elim (Good c i) s.has_cancel _ _
      (λ h. record { live_current = λ p. ground (arith, p); idle = g.idle; cancelable = λ p. h })
      (λ h. record {
        live_current = λ p. ground (arith, p, h, g.cancelable);
        idle = g.idle;
        cancelable = λ p. g.cancelable p;
      })

-- A map that differs at one ID that no live state owns.
pub weaken-Good :
    (cur c : Map ℕ) (i : ℕ) (s : RefreshState)
    → (is_live s ≡ true → lookup (owner s) cur ≡ some i → lookup (owner s) c ≡ some i)
    → Good cur i s
    → Good c i s
weaken-Good cur c i s k g = record {
  live_current = λ p. k p (g.live_current p);
  idle = g.idle;
  cancelable = g.cancelable;
}

pub record Sound (m : Refreshes) : Type 0 where
  pub good : AllGood m.current m.states
  pub named : Named m.current m.states

pub erased_some :
    (id k : Text) (cur : Map ℕ) (i : ℕ) → lookup k (erase id cur) ≡ some i → lookup k cur ≡ some i
erased_some id k cur i h = ground (arith, h, lookup-erase id k cur)

pub invalidate_locked-good :
    (m : Refreshes) (id : Text)
    → Sound m
    → AllGood (erase id m.current) (canceled_at m.states (lookup id m.current))
unfolding canceled_at
invalidate_locked-good m id v = elim (Option-cases (lookup id m.current)) [
  | inl e ↦ rw e (λ j s h.
      weaken-Good m.current _ j s
        (λ p q. ground (arith, q, e, lookup-erase id (owner s) m.current, text_eq_iff id (owner s)))
        (v.good j s h))
  | inr (i, e) ↦ rw e (λ j t h. elim (update-Updated m.states i j cancel_job t h) [
    | here s g p q ↦
        subst (λ j'. Good (erase id m.current) j' t) q
          (subst (λ t'. Good (erase id m.current) i t') (sym p)
            (cancel_job-Good m.current _ i s (v.good i s g)))
    | elsewhere n g ↦
        weaken-Good m.current _ j t
          (λ p q.
            ground (arith, q, e, n, lookup-erase id (owner t) m.current, text_eq_iff id (owner t)))
          (v.good j t g)
  ])
]

pub canceled_at-Owned :
    (ss : List RefreshState) (p : Option ℕ) (id : Text) (i : ℕ)
    → Owned ss id i
    → Owned (canceled_at ss p) id i
unfolding canceled_at
canceled_at-Owned ss none id i o = o
canceled_at-Owned ss (some j) id i o = update-Owned ss j i cancel_job id cancel_job-owner o

pub invalidate_locked-Sound : (m : Refreshes) (id : Text) → Sound m → Sound (invalidate_locked m id)
unfolding invalidate_locked
invalidate_locked-Sound m id v = record {
  good = invalidate_locked-good m id v;
  named = λ k i h. canceled_at-Owned m.states _ k i (v.named k i (erased_some id k m.current i h));
}
