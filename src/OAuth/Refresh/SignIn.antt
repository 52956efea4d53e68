-- ===== src/OAuth/Refresh/SignIn.antt =====
-- An account that has to sign in again is not refreshed or served (internal/codexoauth/manager.go).
use clan.Prelude.{
  ℕ, ◌≡◌, refl, sym, ap, ◌∙◌, subst, ◌≢◌, ◌⊎◌, inl, inr, Bool, true, false, not, ◌&&◌, Option, none,
  some, List, [], ◌∷◌, arith, Bool-cases, Option-cases, if_elim, get_elem?, Text, text_eq,
  text_eq_iff, text_eq_refl, lookup, insert, lookup-insert,
}
use clan.Retry.{Time}
use clan.Errors.{Sentinel}
use clan.Account.{Account, OAuthCredentials}
use clan.Storage.{AccountRecord}
use clan.Storage.Accounts.{read_row}
use clan.OAuth.Refresh.{
  RefreshState, Refreshes, ManagerError, no_refreshes, needs_sign_in_for, update, pointee,
  same_pointer, invalidate_locked, needs_it, put_back, invalidate, Seen, is_unchanged, Taken,
  is_not_found, renew, is_about, reuse, take, manager_closed, sign_in_needed,
}
use clan.OAuth.Refresh.Jobs.{
  Decision, Clock, start_job, is_settled, decide_state, decide, Outcome, failed_state, stop_job,
  finish, asks_again, refuses, answers, waits_for, stored, failed,
}
use clan.OAuth.Refresh.Steps.{
  Event, takes, decides, finishes, invalidates, closes, is_running, step, run,
}
use clan.OAuth.Refresh.Sound.{Sound}
use clan.OAuth.Refresh.Single.{step-Sound, run-Sound, no_refreshes-Sound, points_to}
use clan.OAuth.Refresh.SignedOut.{
  SignedOut, IsKept, update-SignedOut, canceled_at-SignedOut, with_current,
  invalidate_locked-SignedOut, insert-SignedOut, renew-SignedOut, renewed-SignedOut, needs_it_for,
}

unchanged_pointer :
    (m : Refreshes) (id : Text) (seen : Seen) (i : ℕ)
    → lookup id m.current ≡ some i
    → not (is_unchanged m id seen) ≡ false
    → seen.before ≡ some i
unchanged_pointer m id seen i e h = elim (Option-cases seen.before) [
  | inl n ↦ absurd (ground (arith, h, e, n))
  | inr (j, n) ↦ ground (arith, h, e, n)
]

reuse-SignedOut :
    (m : Refreshes) (id : Text) (c : OAuthCredentials) (r : AccountRecord) (p : Option ℕ)
    (o : SignedOut m id c)
    → p ≡ some o.place
    → r.account.credentials ≡ c
    → SignedOut (reuse m id r p).0 id c
unfolding reuse
reuse-SignedOut m id c r none o e h = absurd (ground (arith, e))
reuse-SignedOut m id c r (some i) o e h =
    if_elim (λ (x : Refreshes × Taken). SignedOut x.0 id c) (is_about (get_elem? m.states i) r) _ _
      (λ q. o)
      (λ q.
        subst (λ b. SignedOut (renew m id r b) id c) (sym (needs_it_for m id c o (some i) r e h))
          (renewed-SignedOut m id c r h))

other_reuse-SignedOut :
    (m : Refreshes) (id k : Text) (c : OAuthCredentials) (r : AccountRecord) (p : Option ℕ)
    → text_eq k id ≡ false
    → SignedOut m id c
    → SignedOut (reuse m k r p).0 id c
unfolding reuse
other_reuse-SignedOut m id k c r none n o = renew-SignedOut m id k c r false n o
other_reuse-SignedOut m id k c r (some i) n o =
    if_elim (λ (x : Refreshes × Taken). SignedOut x.0 id c) (is_about (get_elem? m.states i) r) _ _
      (λ q. o) (λ q. renew-SignedOut m id k c r _ n o)

other_take-SignedOut :
    (m : Refreshes) (id k : Text) (c : OAuthCredentials) (seen : Seen)
    (a : AccountRecord ⊎ Sentinel)
    → text_eq k id ≡ false
    → SignedOut m id c
    → SignedOut (take m k seen a).0 id c
unfolding take
other_take-SignedOut m id k c seen (inr e) n o =
    if_elim (λ x. SignedOut x id c) (is_not_found e && is_unchanged m k seen) _ _
      (λ h. invalidate_locked-SignedOut m id k c n o) (λ h. o)
other_take-SignedOut m id k c seen (inl r) n o =
    if_elim (λ (x : Refreshes × Taken). SignedOut x.0 id c) m.closed _ _ (λ h. o)
      (λ h1.
        if_elim (λ (x : Refreshes × Taken). SignedOut x.0 id c) (not (is_unchanged m k seen)) _ _
          (λ h. o)
          (λ h2.
            if_elim (λ (x : Refreshes × Taken). SignedOut x.0 id c) (not r.enabled) _ _
              (λ h.
                if_elim (λ x. SignedOut x id c) (needs_sign_in_for (pointee m seen.before) r) _ _
                  (λ g. o) (λ g. invalidate_locked-SignedOut m id k c n o))
              (λ h3. other_reuse-SignedOut m id k c r seen.before n o)))

take-SignedOut :
    (m : Refreshes) (id : Text) (c : OAuthCredentials) (seen : Seen) (r : AccountRecord)
    → r.account.credentials ≡ c
    → SignedOut m id c
    → SignedOut (take m id seen (inl r)).0 id c
unfolding take
take-SignedOut m id c seen r e o =
    if_elim (λ (x : Refreshes × Taken). SignedOut x.0 id c) m.closed _ _ (λ h. o)
      (λ h1.
        if_elim (λ (x : Refreshes × Taken). SignedOut x.0 id c) (not (is_unchanged m id seen)) _ _
          (λ h. o)
          (λ h2.
            let p = unchanged_pointer m id seen o.place o.registered h2 in
            if_elim (λ (x : Refreshes × Taken). SignedOut x.0 id c) (not r.enabled) _ _
              (λ h.
                if_elim (λ x. SignedOut x id c) (needs_sign_in_for (pointee m seen.before) r) _ _
                  (λ g. o)
                  (λ g. absurd (ground (arith, g, needs_it_for m id c o seen.before r p e))))
              (λ h3. reuse-SignedOut m id c r seen.before o p e)))

start_job-IsKept : (s : RefreshState) → IsKept start_job s
start_job-IsKept s = record { needs = ground arith; same = ground arith }

decide_state-SignedOut :
    (m : Refreshes) (id : Text) (c : OAuthCredentials) (r : AccountRecord) (i : ℕ)
    (q : Option RefreshState) (waited : Bool) (t : Clock)
    → SignedOut m id c
    → SignedOut (decide_state m r i q waited t).0 id c
unfolding decide_state
decide_state-SignedOut m id c r i none waited t o = o
decide_state-SignedOut m id c r i (some s) waited t o =
    if_elim (λ (x : Refreshes × Decision). SignedOut x.0 id c) s.needs_sign_in _ _ (λ h. o)
      (λ n.
        if_elim (λ (x : Refreshes × Decision). SignedOut x.0 id c)
          (is_settled s r.account.credentials waited t) _ _ (λ h. o)
          (λ h. update-SignedOut m id c i start_job o (λ e. start_job-IsKept o.state)))

decide-SignedOut :
    (m : Refreshes) (id k : Text) (c : OAuthCredentials) (r : AccountRecord) (i : ℕ) (waited : Bool)
    (t : Clock)
    → SignedOut m id c
    → SignedOut (decide m k r i waited t).0 id c
unfolding decide
decide-SignedOut m id k c r i waited t o =
    if_elim (λ (x : Refreshes × Decision). SignedOut x.0 id c) m.closed _ _ (λ h. o)
      (λ h1.
        if_elim (λ (x : Refreshes × Decision). SignedOut x.0 id c)
          (not (same_pointer (lookup k m.current) (some i))) _ _ (λ h. o)
          (λ h2. decide_state-SignedOut m id c r i (get_elem? m.states i) waited t o))

-- The account's state has no running job.
not_running :
    (m : Refreshes) (id : Text) (c : OAuthCredentials) (i : ℕ) (o : SignedOut m id c)
    → Sound m
    → is_running (get_elem? m.states i) ≡ true
    → o.place ≢ i
not_running m id c i o v h e = ground (
  arith,
  h,
  (v.good o.place o.state o.found).idle o.needs,
  ap is_running (ap (get_elem? m.states) (sym e) ∙ o.found),
)

stop_job-SignedOut :
    (m : Refreshes) (id : Text) (c : OAuthCredentials) (i : ℕ)
    → SignedOut m id c
    → SignedOut (record m { states = update m.states i stop_job }) id c
stop_job-SignedOut m id c i o =
    update-SignedOut m id c i stop_job o (λ e. record { needs = refl; same = refl })

finish-SignedOut :
    (m : Refreshes) (id k : Text) (c : OAuthCredentials) (i : ℕ) (x : Outcome) (now : Time)
    (o : SignedOut m id c)
    → o.place ≢ i
    → SignedOut (finish m k i x now) id c
unfolding finish
finish-SignedOut m id k c i stored now o n =
    if_elim (λ y. SignedOut y id c) (not (same_pointer (lookup k m.current) (some i))) _ _
      (λ h. stop_job-SignedOut m id c i o)
      (λ h. elim (Bool-cases (text_eq k id)) [
        | inl e ↦ absurd (
            n (
              ground (
                arith,
                o.registered,
                points_to (lookup k m.current) i h,
                ap (λ j. lookup j m.current) ((text_eq_iff k id).0 e),
              )))
        | inr f ↦
            invalidate_locked-SignedOut (record m { states = update m.states i stop_job }) id k c f
              (stop_job-SignedOut m id c i o)
      ])
finish-SignedOut m id k c i (failed e r) now o n =
    if_elim (λ y. SignedOut y id c) (not (same_pointer (lookup k m.current) (some i))) _ _
      (λ h. stop_job-SignedOut m id c i o)
      (λ h.
        let p = stop_job-SignedOut m id c i o in
        update-SignedOut (record m { states = update m.states i stop_job }) id c i
          (failed_state e r now) p
          (λ q. absurd (n (ground (arith, o.registered, p.registered, q)))))

invalidate-SignedOut :
    (m : Refreshes) (id : Text) (c : OAuthCredentials)
    → SignedOut m id c
    → SignedOut (invalidate m id true) id c
unfolding invalidate invalidate_locked
invalidate-SignedOut m id c o =
    back (lookup id m.current) _ o.registered
      (ap needs_it (ap (pointee m) o.registered ∙ o.found) ∙ o.needs)
  where
    n : Refreshes
    n = invalidate_locked m id

    placed :
        (i : ℕ)
        → some i ≡ some o.place
        → SignedOut (record n { current = insert id i n.current }) id c
    placed i e =
        let q = canceled_at-SignedOut m id c (lookup id m.current) o in
        with_current _ id c (record n { current = insert id i n.current }) q refl
          (ground (
            arith,
            e,
            q.registered,
            o.registered,
            lookup-insert id id i n.current,
            text_eq_refl id,
          ))

    back :
        (p : Option ℕ) (b : Bool) → p ≡ some o.place → b ≡ true → SignedOut (put_back n id p b) id c
    back none b e h = absurd (ground (arith, e))
    back (some i) b e h =
        if_elim (λ y. SignedOut y id c) b _ _ (λ t. placed i e) (λ f. absurd (ground (arith, f, h)))

other_invalidate-SignedOut :
    (m : Refreshes) (id k : Text) (c : OAuthCredentials) (b : Bool)
    → text_eq k id ≡ false
    → SignedOut m id c
    → SignedOut (invalidate m k b) id c
unfolding invalidate
other_invalidate-SignedOut m id k c b n o = put_back-SignedOut (lookup k m.current) _
  where
    put_back-SignedOut :
        (p : Option ℕ) (x : Bool) → SignedOut (put_back (invalidate_locked m k) k p x) id c
    put_back-SignedOut none x = invalidate_locked-SignedOut m id k c n o
    put_back-SignedOut (some i) x =
        if_elim (λ y. SignedOut y id c) x _ _
          (λ h. insert-SignedOut _ id k c i n (invalidate_locked-SignedOut m id k c n o))
          (λ h. invalidate_locked-SignedOut m id k c n o)

-- What leaves the need of a sign-in for the credentials `c` of an account: reads of the account find these
-- credentials, and it is disabled rather than deleted.
unfoldable pub Keeps :
    (Text → Text → Option OAuthCredentials) → Text → OAuthCredentials → Event → Type 0
Keeps decrypt id c (takes k seen row) =
    text_eq k id ≡ true
    → (r : AccountRecord) × (read_row decrypt k row ≡ inl r) × (r.account.credentials ≡ c)
Keeps decrypt id c (invalidates k preserve) = text_eq k id ≡ true → preserve ≡ true
Keeps decrypt id c _ = Unit

unfoldable pub KeepsAll :
    (Text → Text → Option OAuthCredentials) → Text → OAuthCredentials → List Event → Type 0
unfolding Keeps
KeepsAll decrypt id c [] = Unit
KeepsAll decrypt id c (e ∷ es) = Keeps decrypt id c e × KeepsAll decrypt id c es

module _ (decrypt : Text → Text → Option OAuthCredentials) where
  step-SignedOut :
      (m : Refreshes) (id : Text) (c : OAuthCredentials) (e : Event)
      → Keeps decrypt id c e
      → Sound m
      → SignedOut m id c
      → SignedOut (step decrypt m e) id c
  unfolding step Keeps
  step-SignedOut m id c (takes k seen row) h v o = elim (Bool-cases (text_eq k id)) [
    | inl e ↦
        let (r, read, same) = h e in
        subst (λ k'. SignedOut (take m k' seen (read_row decrypt k row)).0 id c)
          (sym ((text_eq_iff k id).0 e))
          (subst (λ a. SignedOut (take m id seen a).0 id c) (sym read)
            (take-SignedOut m id c seen r same o))
    | inr n ↦ other_take-SignedOut m id k c seen _ n o
  ]
  step-SignedOut m id c (decides k r i waited t) h v o = decide-SignedOut m id k c r i waited t o
  step-SignedOut m id c (finishes k i x now) h v o =
      if_elim (λ y. SignedOut y id c) (is_running (get_elem? m.states i)) _ _
        (λ g. finish-SignedOut m id k c i x now o (not_running m id c i o v g)) (λ g. o)
  step-SignedOut m id c (invalidates k preserve) h v o = elim (Bool-cases (text_eq k id)) [
    | inl e ↦
        subst (λ k'. SignedOut (invalidate m k' preserve) id c) (sym ((text_eq_iff k id).0 e))
          (subst (λ b. SignedOut (invalidate m id b) id c) (sym (h e))
            (invalidate-SignedOut m id c o))
    | inr n ↦ other_invalidate-SignedOut m id k c preserve n o
  ]
  step-SignedOut m id c closes h v o = with_current m id c _ o refl o.registered

  run-SignedOut :
      (m : Refreshes) (id : Text) (c : OAuthCredentials) (es : List Event)
      → KeepsAll decrypt id c es
      → Sound m
      → SignedOut m id c
      → SignedOut (run decrypt m es) id c
  unfolding run KeepsAll
  run-SignedOut m id c [] h v o = o
  run-SignedOut m id c (e ∷ es) h v o =
      run-SignedOut (step decrypt m e) id c es h.1 (step-Sound decrypt m e v)
        (step-SignedOut m id c e h.0 v o)

-- A decision that neither serves an account nor starts or awaits a refresh.
record IsRefusal (m : Refreshes) (x : Refreshes × Decision) : Type 0 where
  kept : x.0 ≡ m
  unserved : (a : Account) → x.1 ≢ answers a
  unawaited : (j : ℕ) → x.1 ≢ waits_for j

asking_again : (m : Refreshes) → IsRefusal m (m, asks_again)
asking_again m = record {
  kept = refl;
  unserved = λ a h. ground (arith, h);
  unawaited = λ j h. ground (arith, h);
}

refusing : (m : Refreshes) (e : ManagerError) → IsRefusal m (m, refuses e)
refusing m e = record {
  kept = refl;
  unserved = λ a h. ground (arith, h);
  unawaited = λ j h. ground (arith, h);
}

decide_state-IsRefusal :
    (m : Refreshes) (r : AccountRecord) (i : ℕ) (s : RefreshState) (waited : Bool) (t : Clock)
    → s.needs_sign_in ≡ true
    → IsRefusal m (decide_state m r i (some s) waited t)
unfolding decide_state
decide_state-IsRefusal m r i s waited t h =
    if_elim (IsRefusal m) s.needs_sign_in _ _ (λ g. refusing m sign_in_needed)
      (λ g. absurd (ground (arith, g, h)))

decide-IsRefusal :
    (m : Refreshes) (id : Text) (c : OAuthCredentials) (r : AccountRecord) (i : ℕ) (waited : Bool)
    (t : Clock)
    → SignedOut m id c
    → IsRefusal m (decide m id r i waited t)
unfolding decide
decide-IsRefusal m id c r i waited t o =
    if_elim (IsRefusal m) m.closed _ _ (λ h. refusing m manager_closed)
      (λ h1.
        if_elim (IsRefusal m) (not (same_pointer (lookup id m.current) (some i))) _ _
          (λ h. asking_again m)
          (λ h2.
            let q : o.place ≡ i =
              ground (arith, o.registered, points_to (lookup id m.current) i h2) in
            subst (λ x. IsRefusal m (decide_state m r i x waited t))
              (sym o.found ∙ ap (get_elem? m.states) q)
              (decide_state-IsRefusal m r i o.state waited t o.needs)))

-- If an account's state says that its credentials need a sign-in, then, after any events in which reads of the
-- account find these credentials and it is not deleted, CurrentAccount neither serves it nor starts nor
-- awaits a refresh of it.
pub run-decide :
    (decrypt : Text → Text → Option OAuthCredentials) (start es : List Event) (id : Text)
    (c : OAuthCredentials) (r : AccountRecord) (i : ℕ) (waited : Bool) (t : Clock)
    → SignedOut (run decrypt no_refreshes start) id c
    → KeepsAll decrypt id c es
    → let m = run decrypt (run decrypt no_refreshes start) es in
      ((decide m id r i waited t).0 ≡ m)
      × ((a : Account) → (decide m id r i waited t).1 ≢ answers a)
      × ((j : ℕ) → (decide m id r i waited t).1 ≢ waits_for j)
run-decide decrypt start es id c r i waited t o h =
    let v = run-Sound decrypt no_refreshes start (no_refreshes-Sound decrypt) in
    let x = decide-IsRefusal _ id c r i waited t (run-SignedOut decrypt _ id c es h v o) in
    (x.kept, x.unserved, x.unawaited)
