-- ===== src/OAuth/Refresh/Single.antt =====
-- At most one refresh at a time per account (internal/codexoauth/manager.go).
use clan.Prelude.{
  ℕ, zero, suc, ◌≡◌, refl, sym, ap, ◌∙◌, subst, ◌⊎◌, inl, inr, Bool, true, false, not, ◌&&◌, Option,
  none, some, List, [], ◌∷◌, ◌++◌, arith, Bool-cases, if_elim, length, get_elem?, Text, text_eq,
  text_eq_iff, text_eq_refl, Map, lookup, insert, lookup-insert, lookup-erase,
}
use clan.Retry.{Time}
use clan.Errors.{Sentinel}
use clan.Account.{OAuthCredentials}
use clan.Storage.{AccountRecord}
use clan.Storage.Accounts.{read_row}
use clan.OAuth.Refresh.{
  RefreshState, Refreshes, no_refreshes, needs_sign_in_for, update, pointee, same_pointer,
  canceled_at, invalidate_locked, put_back, invalidate, Seen, is_unchanged, Taken, is_not_found,
  new_state, renew, is_about, reuse, take,
}
use clan.OAuth.Refresh.Jobs.{
  Decision, Clock, start_job, is_settled, decide_state, decide, RefreshError, Outcome, failed_state,
  stop_job, finish, stored, failed,
}
use clan.Storage.Accounts.Revisions.{read_row-id}
use clan.OAuth.Refresh.Steps.{
  Event, takes, decides, finishes, invalidates, closes, is_running, step, run,
}
use clan.OAuth.Refresh.Sound.{
  canceled_at-Owned, owner, is_live, Good, Owned, here, elsewhere, update-Updated, update-Good,
  update-Owned, weaken-Good, Sound, invalidate_locked-Sound,
}

update-Sound :
    (m : Refreshes) (i : ℕ) (f : RefreshState → RefreshState)
    → ((s : RefreshState) → get_elem? m.states i ≡ some s → Good m.current i (f s))
    → ((s : RefreshState) → owner (f s) ≡ owner s)
    → Sound m
    → Sound (record m { states = update m.states i f })
update-Sound m i f k o v = record {
  good = update-Good m.current m.states i f k v.good;
  named = λ id j h. update-Owned m.states i j f id o (v.named id j h);
}

insert-Sound :
    (m : Refreshes) (id : Text) (i : ℕ)
    → lookup id m.current ≡ none
    → Owned m.states id i
    → Sound m
    → Sound (record m { current = insert id i m.current })
insert-Sound m id i n o v = record {
  good = λ j s h.
      weaken-Good m.current _ j s
        (λ p q.
          ground (arith, q, n, lookup-insert id (owner s) i m.current, text_eq_iff id (owner s)))
        (v.good j s h);
  named = λ k j h. elim (Bool-cases (text_eq id k)) [
    | inl e ↦
        subst (λ k'. Owned m.states k' j) ((text_eq_iff id k).0 e)
          (subst (λ j'. Owned m.states id j') (ground (arith, h, e, lookup-insert id k i m.current))
            o)
    | inr e ↦ v.named k j (ground (arith, h, e, lookup-insert id k i m.current))
  ];
}

pub invalidate_locked-none :
    (m : Refreshes) (id : Text) → lookup id (invalidate_locked m id).current ≡ none
unfolding invalidate_locked
invalidate_locked-none m id = ground (arith, lookup-erase id id m.current, text_eq_refl id)

pub append-found :
    (ss : List RefreshState) (t s : RefreshState) (i : ℕ)
    → get_elem? ss i ≡ some s
    → get_elem? (ss ++ t ∷ []) i ≡ some s
append-found [] t s i h = cc
append-found (x ∷ ss) t s zero h = h
append-found (x ∷ ss) t s (suc i) h = append-found ss t s i h

pub append-last :
    (ss : List RefreshState) (t : RefreshState) → get_elem? (ss ++ t ∷ []) (length ss) ≡ some t
append-last [] t = refl
append-last (x ∷ ss) t = append-last ss t

-- What stands at a place of a list with one more state.
append-cases :
    (ss : List RefreshState) (t s : RefreshState) (i : ℕ)
    → get_elem? (ss ++ t ∷ []) i ≡ some s
    → (get_elem? ss i ≡ some s) ⊎ (t ≡ s)
append-cases [] t s zero h = inr (ground (arith, h))
append-cases [] t s (suc i) h = cc
append-cases (x ∷ ss) t s zero h = inl h
append-cases (x ∷ ss) t s (suc i) h = append-cases ss t s i h

append-Sound :
    (m : Refreshes) (t : RefreshState)
    → t.running ≡ false
    → Sound m
    → Sound (record m { states = m.states ++ t ∷ [] })
append-Sound m t r v = record {
  good = λ i s h. elim (append-cases m.states t s i h) [
    | inl g ↦ v.good i s g
    | inr e ↦ subst (Good m.current i) e (record {
      live_current = λ p. ground (arith, p, r);
      idle = λ p. r;
      cancelable = λ p. ground (arith, p, r);
    })
  ];
  named = λ id i h.
      let o = v.named id i h in
      record {
        state = o.state;
        found = append-found m.states t o.state i o.found;
        of_account = o.of_account;
      };
}

renew-Sound :
    (m : Refreshes) (id : Text) (r : AccountRecord) (b : Bool)
    → r.account.identity.id ≡ id
    → Sound m
    → Sound (renew m id r b)
unfolding renew new_state
renew-Sound m id r b e v =
    let n = invalidate_locked m id in
    insert-Sound (record n { states = n.states ++ new_state r b ∷ [] }) id (length n.states)
      (invalidate_locked-none m id)
      (record {
        state = new_state r b;
        found = append-last n.states (new_state r b);
        of_account = e;
      })
      (append-Sound n (new_state r b) refl (invalidate_locked-Sound m id v))

reuse-Sound :
    (m : Refreshes) (id : Text) (r : AccountRecord) (p : Option ℕ)
    → r.account.identity.id ≡ id
    → Sound m
    → Sound (reuse m id r p).0
unfolding reuse
reuse-Sound m id r none e v = renew-Sound m id r false e v
reuse-Sound m id r (some i) e v =
    if_elim (λ (x : Refreshes × Taken). Sound x.0) (is_about (get_elem? m.states i) r) _ _ (λ h. v)
      (λ h. renew-Sound m id r _ e v)

take-Sound :
    (m : Refreshes) (id : Text) (seen : Seen) (a : AccountRecord ⊎ Sentinel)
    → ((r : AccountRecord) → a ≡ inl r → r.account.identity.id ≡ id)
    → Sound m
    → Sound (take m id seen a).0
unfolding take
take-Sound m id seen (inr e) k v =
    if_elim Sound (is_not_found e && is_unchanged m id seen) _ _
      (λ h. invalidate_locked-Sound m id v) (λ h. v)
take-Sound m id seen (inl r) k v =
    if_elim (λ (x : Refreshes × Taken). Sound x.0) m.closed _ _ (λ h. v)
      (λ h1.
        if_elim (λ (x : Refreshes × Taken). Sound x.0) (not (is_unchanged m id seen)) _ _ (λ h. v)
          (λ h2.
            if_elim (λ (x : Refreshes × Taken). Sound x.0) (not r.enabled) _ _
              (λ h.
                if_elim Sound (needs_sign_in_for (pointee m seen.before) r) _ _ (λ g. v)
                  (λ g. invalidate_locked-Sound m id v))
              (λ h3. reuse-Sound m id r seen.before (k r refl) v)))

start_job-Good :
    (cur : Map ℕ) (i : ℕ) (s : RefreshState)
    → s.needs_sign_in ≡ false
    → lookup (owner s) cur ≡ some i
    → Good cur i s
    → Good cur i (start_job s)
start_job-Good cur i s n c g =
    if_elim (Good cur i) s.running _ _ (λ h. g)
      (λ h. record {
        live_current = λ p. c;
        idle = λ p. absurd (ground (arith, p, n));
        cancelable = λ p. refl;
      })

decide_state-Sound :
    (m : Refreshes) (r : AccountRecord) (i : ℕ) (o : Option RefreshState) (waited : Bool)
    (t : Clock)
    → get_elem? m.states i ≡ o
    → ((s : RefreshState) → o ≡ some s → lookup (owner s) m.current ≡ some i)
    → Sound m
    → Sound (decide_state m r i o waited t).0
unfolding decide_state
decide_state-Sound m r i none waited t e c v = v
decide_state-Sound m r i (some s) waited t e c v =
    if_elim (λ (x : Refreshes × Decision). Sound x.0) s.needs_sign_in _ _ (λ h. v)
      (λ n.
        if_elim (λ (x : Refreshes × Decision). Sound x.0)
          (is_settled s r.account.credentials waited t) _ _ (λ h. v)
          (λ h.
            update-Sound m i start_job
              (λ u g.
                let q : s ≡ u = ground (arith, e, g) in
                start_job-Good m.current i u
                  (subst (λ (w : RefreshState). w.needs_sign_in ≡ false) q n) (c u (ap some q))
                  (v.good i u g))
              (λ u. ground arith) v))

pub points_to : (p : Option ℕ) (i : ℕ) → not (same_pointer p (some i)) ≡ false → p ≡ some i
points_to none i h = absurd (ground (arith, h))
points_to (some j) i h = ground (arith, h)

-- The state that the map has for an account is of the account.
current_owner :
    (m : Refreshes) (id : Text) (i : ℕ) (s : RefreshState)
    → Sound m
    → lookup id m.current ≡ some i
    → get_elem? m.states i ≡ some s
    → lookup (owner s) m.current ≡ some i
current_owner m id i s v c g =
    let o = v.named id i c in
    let q : o.state ≡ s = ground (arith, g, o.found) in
    subst (λ k. lookup k m.current ≡ some i) (sym o.of_account ∙ ap owner q) c

decide-Sound :
    (m : Refreshes) (id : Text) (r : AccountRecord) (i : ℕ) (waited : Bool) (t : Clock)
    → Sound m
    → Sound (decide m id r i waited t).0
unfolding decide
decide-Sound m id r i waited t v =
    if_elim (λ (x : Refreshes × Decision). Sound x.0) m.closed _ _ (λ h. v)
      (λ h1.
        if_elim (λ (x : Refreshes × Decision). Sound x.0)
          (not (same_pointer (lookup id m.current) (some i))) _ _ (λ h. v)
          (λ h2.
            decide_state-Sound m r i (get_elem? m.states i) waited t refl
              (λ s g. current_owner m id i s v (points_to (lookup id m.current) i h2) g) v))

stop_job-Good : (cur : Map ℕ) (i : ℕ) (s : RefreshState) → Good cur i (stop_job s)
stop_job-Good cur i s = record {
  live_current = λ p. absurd (ground (arith, p));
  idle = λ p. refl;
  cancelable = λ p. absurd (ground (arith, p));
}

stopped-Sound :
    (m : Refreshes) (i : ℕ) → Sound m → Sound (record m { states = update m.states i stop_job })
stopped-Sound m i v = update-Sound m i stop_job (λ s g. stop_job-Good m.current i s) (λ s. refl) v

failed_state-Good :
    (cur : Map ℕ) (i : ℕ) (e : RefreshError) (c : Option OAuthCredentials) (now : Time)
    (s : RefreshState)
    → s.running ≡ false
    → Good cur i (failed_state e c now s)
unfolding failed_state
failed_state-Good cur i e c now s r = record {
  live_current = λ p. absurd (ground (arith, p, r));
  idle = λ p. r;
  cancelable = λ p. absurd (ground (arith, p, r));
}

stopped-idle :
    (ss : List RefreshState) (i : ℕ) (t : RefreshState)
    → get_elem? (update ss i stop_job) i ≡ some t
    → t.running ≡ false
stopped-idle ss i t h = elim (update-Updated ss i i stop_job t h) [
  | here s g p q ↦ ap (λ (u : RefreshState). u.running) p
  | elsewhere n g ↦ absurd (ground (arith, n))
]

finish-Sound :
    (m : Refreshes) (id : Text) (i : ℕ) (o : Outcome) (now : Time)
    → Sound m
    → Sound (finish m id i o now)
unfolding finish
finish-Sound m id i stored now v =
    if_elim Sound (not (same_pointer (lookup id m.current) (some i))) _ _ (λ h. stopped-Sound m i v)
      (λ h. invalidate_locked-Sound _ id (stopped-Sound m i v))
finish-Sound m id i (failed e c) now v =
    if_elim Sound (not (same_pointer (lookup id m.current) (some i))) _ _ (λ h. stopped-Sound m i v)
      (λ h.
        update-Sound (record m { states = update m.states i stop_job }) i (failed_state e c now)
          (λ s g. failed_state-Good m.current i e c now s (stopped-idle m.states i s g))
          (λ s. unfold failed_state in refl) (stopped-Sound m i v))

put_back-Sound :
    (m n : Refreshes) (id : Text) (p : Option ℕ) (b : Bool)
    → lookup id n.current ≡ none
    → ((i : ℕ) → p ≡ some i → Owned n.states id i)
    → Sound n
    → Sound (put_back n id p b)
put_back-Sound m n id none b e o v = v
put_back-Sound m n id (some i) b e o v =
    if_elim Sound b _ _ (λ h. insert-Sound n id i e (o i refl) v) (λ h. v)

invalidate-Sound :
    (m : Refreshes) (id : Text) (preserve : Bool) → Sound m → Sound (invalidate m id preserve)
unfolding invalidate invalidate_locked canceled_at
invalidate-Sound m id preserve v =
    put_back-Sound m (invalidate_locked m id) id (lookup id m.current) _
      (invalidate_locked-none m id)
      (λ i e. canceled_at-Owned m.states (lookup id m.current) id i (v.named id i e))
      (invalidate_locked-Sound m id v)

module _ (decrypt : Text → Text → Option OAuthCredentials) where
  pub step-Sound : (m : Refreshes) (e : Event) → Sound m → Sound (step decrypt m e)
  unfolding step
  step-Sound m (takes id seen row) v =
      take-Sound m id seen (read_row decrypt id row) (λ r h. read_row-id decrypt id row r h) v
  step-Sound m (decides id r i waited t) v = decide-Sound m id r i waited t v
  step-Sound m (finishes id i o now) v =
      if_elim Sound (is_running (get_elem? m.states i)) _ _ (λ h. finish-Sound m id i o now v)
        (λ h. v)
  step-Sound m (invalidates id preserve) v = invalidate-Sound m id preserve v
  step-Sound m closes v = record { good = v.good; named = v.named }

  pub run-Sound : (m : Refreshes) (es : List Event) → Sound m → Sound (run decrypt m es)
  unfolding run
  run-Sound m [] v = v
  run-Sound m (e ∷ es) v = run-Sound (step decrypt m e) es (step-Sound m e v)

  pub no_refreshes-Sound : Sound no_refreshes
  unfolding no_refreshes lookup
  no_refreshes-Sound = record { good = λ i s h. cc; named = λ id i h. cc }

  -- After any sequence of critical sections and events, two states of one account that both have a running job whose context was
  -- not canceled are the same state.
  pub run-is_live :
      (es : List Event) (i j : ℕ) (s t : RefreshState)
      → get_elem? (run decrypt no_refreshes es).states i ≡ some s
      → get_elem? (run decrypt no_refreshes es).states j ≡ some t
      → is_live s ≡ true
      → is_live t ≡ true
      → owner s ≡ owner t
      → i ≡ j
  run-is_live es i j s t gi gj ls lt e =
      let v = run-Sound no_refreshes es no_refreshes-Sound in
      ground (arith, e, (v.good i s gi).live_current ls, (v.good j t gj).live_current lt)
