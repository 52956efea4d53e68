-- ===== src/OAuth/Refresh/Progress.antt =====
-- CurrentAccount comes to a decision, and Status agrees with it (internal/codexoauth/manager.go).
use clan.Prelude.{
  ℕ, zero, suc, ◌≡◌, refl, sym, ap, ◌∙◌, ◌≢◌, ◌⊎◌, inl, inr, Bool, true, false, not, Option, none,
  some, List, [], ◌∷◌, ◌++◌, arith, Bool-cases, is_some, if_elim, length, get_elem?, Text,
  text_eq_refl, lookup, lookup-insert,
}
use clan.Errors.{Sentinel}
use clan.Account.{OAuthCredentials}
use clan.Storage.{AccountRecord}
use clan.OAuth.Refresh.{
  RefreshState, Refreshes, ManagerError, no_refreshes, update, same_pointer, cancel_job,
  canceled_at, invalidate_locked, Seen, look, is_unchanged, Taken, new_state, renew, is_about,
  reuse, take, manager_closed, account_disabled, looks_again, refused, taken,
}
use clan.OAuth.Refresh.Jobs.{
  Decision, Clock, is_settled, served, decide_state, decide, asks_again, waits_for,
}
use clan.OAuth.Refresh.Steps.{Event, run}
use clan.OAuth.Refresh.Sound.{Sound}
use clan.OAuth.Refresh.Single.{run-Sound, no_refreshes-Sound, append-last}

same_pointer_refl : (p : Option ℕ) → same_pointer p p ≡ true
same_pointer_refl none = refl
same_pointer_refl (some i) = ground arith

look-unchanged :
    (m : Refreshes) (id : Text) (seen : Seen)
    → look m none id ≡ inl seen
    → (is_unchanged m id seen ≡ true) × (m.closed ≡ false) × (seen.before ≡ lookup id m.current)
unfolding look
look-unchanged m id seen h = elim (Bool-cases m.closed) [
  | inl c ↦ absurd (ground (arith, h, c))
  | inr c ↦ ground (arith, h, c, same_pointer_refl (lookup id m.current))
]

-- A pass that took a record of the account: its state is in the map.
record IsRegistered (id : Text) (x : Refreshes × Taken) : Type 0 where
  registered :
      (r : AccountRecord) (i : ℕ)
      → x.1 ≡ taken r i
      → (lookup id x.0.current ≡ some i)
        × (is_some (get_elem? x.0.states i) ≡ true)
        × (x.0.closed ≡ false)

length-update :
    (ss : List RefreshState) (i : ℕ) (f : RefreshState → RefreshState)
    → length (update ss i f) ≡ length ss
unfolding update
length-update [] i f = refl
length-update (s ∷ ss) zero f = refl
length-update (s ∷ ss) (suc i) f = ap suc (length-update ss i f)

length-invalidate_locked :
    (m : Refreshes) (id : Text) → length (invalidate_locked m id).states ≡ length m.states
unfolding invalidate_locked canceled_at
length-invalidate_locked m id =
    elim (lookup id m.current) as (λ p. length (canceled_at m.states p) ≡ length m.states) [
      | none ↦ refl
      | some i ↦ length-update m.states i cancel_job
    ]

renew-IsRegistered :
    (m : Refreshes) (id : Text) (r : AccountRecord) (b : Bool)
    → m.closed ≡ false
    → IsRegistered id (renew m id r b, taken r (length m.states))
unfolding renew invalidate_locked
renew-IsRegistered m id r b c = record {
  registered = λ q i e.
      let n = invalidate_locked m id in
      let place : length n.states ≡ i = length-invalidate_locked m id ∙ ground (arith, e) in
      (
        ground (arith, place, lookup-insert id id (length n.states) n.current, text_eq_refl id),
        ap is_some (
            ap (get_elem? (n.states ++ new_state r b ∷ [])) (sym place)
            ∙ append-last n.states (new_state r b)),
        c,
      );
}

reuse-IsRegistered :
    (m : Refreshes) (id : Text) (r : AccountRecord) (p : Option ℕ)
    → p ≡ lookup id m.current
    → m.closed ≡ false
    → Sound m
    → IsRegistered id (reuse m id r p)
unfolding reuse
reuse-IsRegistered m id r none e c v = renew-IsRegistered m id r false c
reuse-IsRegistered m id r (some j) e c v =
    if_elim (IsRegistered id) (is_about (get_elem? m.states j) r) _ _
      (λ h.
        let o = v.named id j (sym e) in
        record { registered = λ q i g. ground (arith, g, e, c, ap is_some o.found) })
      (λ h. renew-IsRegistered m id r _ c)

take-IsRegistered :
    (m : Refreshes) (id : Text) (seen : Seen) (r : AccountRecord)
    → seen.before ≡ lookup id m.current
    → Sound m
    → IsRegistered id (take m id seen (inl r))
unfolding take
take-IsRegistered m id seen r e v =
    if_elim (IsRegistered id) m.closed _ _ (λ h. nothing m manager_closed)
      (λ c.
        if_elim (IsRegistered id) (not (is_unchanged m id seen)) _ _
          (λ h. record { registered = λ q i g. absurd (ground (arith, g)) })
          (λ h2.
            if_elim (IsRegistered id) (not r.enabled) _ _ (λ h. nothing _ account_disabled)
              (λ h3. reuse-IsRegistered m id r seen.before e c v)))
  where
    nothing : (n : Refreshes) (x : ManagerError) → IsRegistered id (n, refused x)
    nothing n x = record { registered = λ q i g. absurd (ground (arith, g)) }

-- A pass that does not ask again.
record IsLast (x : Refreshes × Taken) : Type 0 where
  no_more : x.1 ≢ looks_again

refused-IsLast : (n : Refreshes) (e : ManagerError) → IsLast (n, refused e)
refused-IsLast n e = record { no_more = λ h. ground (arith, h) }

taken-IsLast : (n : Refreshes) (r : AccountRecord) (i : ℕ) → IsLast (n, taken r i)
taken-IsLast n r i = record { no_more = λ h. ground (arith, h) }

reuse-IsLast :
    (m : Refreshes) (id : Text) (r : AccountRecord) (p : Option ℕ) → IsLast (reuse m id r p)
unfolding reuse
reuse-IsLast m id r none = taken-IsLast _ r _
reuse-IsLast m id r (some j) =
    if_elim IsLast (is_about (get_elem? m.states j) r) _ _ (λ h. taken-IsLast _ r _)
      (λ h. taken-IsLast _ r _)

take-IsLast :
    (m : Refreshes) (id : Text) (seen : Seen) (a : AccountRecord ⊎ Sentinel)
    → is_unchanged m id seen ≡ true
    → IsLast (take m id seen a)
unfolding take
take-IsLast m id seen (inr e) u = refused-IsLast _ _
take-IsLast m id seen (inl r) u =
    if_elim IsLast m.closed _ _ (λ h. refused-IsLast _ _)
      (λ c.
        if_elim IsLast (not (is_unchanged m id seen)) _ _ (λ h. absurd (ground (arith, h, u)))
          (λ h2.
            if_elim IsLast (not r.enabled) _ _ (λ h. refused-IsLast _ _)
              (λ h3. reuse-IsLast m id r seen.before)))

-- A decision on a state, which waits only before the first job.
record IsDecided (waited : Bool) (x : Refreshes × Decision) : Type 0 where
  no_more : x.1 ≢ asks_again
  one_wait : waited ≡ true → (j : ℕ) → x.1 ≢ waits_for j

served-IsDecided :
    (m : Refreshes) (s : RefreshState) (r : AccountRecord) (waited : Bool) (t : Clock)
    → IsDecided waited (m, served s r t)
served-IsDecided m s r waited t = record {
  no_more = λ h. ground (arith, h);
  one_wait = λ w j h. ground (arith, h);
}

decide_state-IsDecided :
    (m : Refreshes) (r : AccountRecord) (i : ℕ) (o : Option RefreshState) (waited : Bool)
    (t : Clock)
    → is_some o ≡ true
    → IsDecided waited (decide_state m r i o waited t)
unfolding decide_state is_settled
decide_state-IsDecided m r i none waited t e = absurd (ground (arith, e))
decide_state-IsDecided m r i (some s) waited t e =
    if_elim (IsDecided waited) s.needs_sign_in _ _
      (λ h. record { no_more = λ g. ground (arith, g); one_wait = λ w j g. ground (arith, g) })
      (λ n.
        if_elim (IsDecided waited) (is_settled s r.account.credentials waited t) _ _
          (λ h. served-IsDecided m s r waited t)
          (λ h. record {
            no_more = λ g. ground (arith, g);
            one_wait = λ w j g. absurd (ground (arith, h, w));
          }))

decide-IsDecided :
    (m : Refreshes) (id : Text) (r : AccountRecord) (i : ℕ) (waited : Bool) (t : Clock)
    → (lookup id m.current ≡ some i) × (is_some (get_elem? m.states i) ≡ true) × (m.closed ≡ false)
    → IsDecided waited (decide m id r i waited t)
unfolding decide
decide-IsDecided m id r i waited t (e, f, c) =
    if_elim (IsDecided waited) m.closed _ _ (λ h. absurd (ground (arith, h, c)))
      (λ h1.
        if_elim (IsDecided waited) (not (same_pointer (lookup id m.current) (some i))) _ _
          (λ h. absurd (ground (arith, h, e)))
          (λ h2. decide_state-IsDecided m r i (get_elem? m.states i) waited t f))

-- A pass of CurrentAccount in which nothing else changes the manager comes to an end: whatever the
-- store answers, it does not ask the store again; a record that it takes leads to an account, an error or
-- a refresh to wait for, and after a wait only to an account or an error.
pub look-take :
    (decrypt : Text → Text → Option OAuthCredentials) (es : List Event) (id : Text) (seen : Seen)
    (a : AccountRecord ⊎ Sentinel) (r : AccountRecord) (i : ℕ) (waited : Bool) (t : Clock)
    → look (run decrypt no_refreshes es) none id ≡ inl seen
    → (take (run decrypt no_refreshes es) id seen (inl r)).1 ≡ taken r i
    → ((take (run decrypt no_refreshes es) id seen a).1 ≢ looks_again)
      × ((decide (take (run decrypt no_refreshes es) id seen (inl r)).0 id r i waited t).1
          ≢ asks_again)
      × ((j : ℕ)
          → (decide (take (run decrypt no_refreshes es) id seen (inl r)).0 id r i true t).1
            ≢ waits_for j)
look-take decrypt es id seen a r i waited t h k =
    let m = run decrypt no_refreshes es in
    let (u, c, b) = look-unchanged m id seen h in
    let v = run-Sound decrypt no_refreshes es (no_refreshes-Sound decrypt) in
    let p = (take-IsRegistered m id seen r b v).registered r i k in
    (
      (take-IsLast m id seen a u).no_more,
      (decide-IsDecided _ id r i waited t p).no_more,
      (decide-IsDecided _ id r i true t p).one_wait refl,
    )
