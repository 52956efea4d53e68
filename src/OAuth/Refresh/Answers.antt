-- ===== src/OAuth/Refresh/Answers.antt =====
-- What CurrentAccount answers, and what its refreshes leave (internal/codexoauth/manager.go).
use clan.Prelude.{
  ℕ, ◌<◌, ◌≡◌, refl, sym, ap, subst, ◌⊎◌, inl, inr, Bool, true, false, not, Option, none, some,
  arith, if◌then◌else◌, if_elim, get_elem?, Text, text_eq_iff, lookup,
}
use clan.Retry.{Time}
use clan.Errors.{is, Error, Sentinel, conflict}
use clan.Account.{Account, OAuthCredentials}
use clan.Storage.{AccountRecord}
use clan.OAuth.{Failure}
use clan.OAuth.Refresh.{
  RefreshState, Refreshes, ManagerError, update, same_pointer, Seen, is_unchanged, Taken, reuse,
  take, manager_closed, account_disabled, account_unavailable, refused, taken,
}
use clan.OAuth.Refresh.Jobs.{
  Clock, served, decide_state, decide, RefreshError, chosen, candidate, outcome, failed_state,
  stop_job, finish, refuses, answers, not_stored, failed,
}
use clan.Storage.Accounts.{Store, get_account}
use clan.OAuth.Refresh.Sound.{update_self}

-- What a pass that takes a record tells of it.
record IsTaken (m : Refreshes) (a : AccountRecord ⊎ Sentinel) (x : Refreshes × Taken) : Type 0 where
  of_record : (r : AccountRecord) (i : ℕ) → x.1 ≡ taken r i → (a ≡ inl r) × (r.enabled ≡ true)

refused-IsTaken :
    (m n : Refreshes) (a : AccountRecord ⊎ Sentinel) (e : ManagerError) → IsTaken m a (n, refused e)
refused-IsTaken m n a e = record { of_record = λ r i h. absurd (ground (arith, h)) }

reuse-record :
    (m : Refreshes) (id : Text) (r q : AccountRecord) (p : Option ℕ) (i : ℕ)
    → (reuse m id r p).1 ≡ taken q i
    → r ≡ q
unfolding reuse
reuse-record m id r q none i h = ground (arith, h)
reuse-record m id r q (some j) i h = ground (arith, h)

take-IsTaken :
    (m : Refreshes) (id : Text) (seen : Seen) (a : AccountRecord ⊎ Sentinel)
    → IsTaken m a (take m id seen a)
unfolding take
take-IsTaken m id seen (inr e) = refused-IsTaken m _ (inr e) _
take-IsTaken m id seen (inl r) =
    if_elim (IsTaken m (inl r)) m.closed _ _ (λ h. refused-IsTaken m m (inl r) manager_closed)
      (λ h1.
        if_elim (IsTaken m (inl r)) (not (is_unchanged m id seen)) _ _
          (λ h. record { of_record = λ q i e. absurd (ground (arith, e)) })
          (λ h2.
            if_elim (IsTaken m (inl r)) (not r.enabled) _ _
              (λ h. refused-IsTaken m _ (inl r) account_disabled)
              (λ h3. record {
                of_record = λ q i e.
                    let s = reuse-record m id r q seen.before i e in
                    (
                      ap inl s,
                      subst (λ (u : AccountRecord). u.enabled ≡ true) s (ground (arith, h3)),
                    );
              })))

served-account :
    (s : RefreshState) (r : AccountRecord) (t : Clock) (x : Account)
    → served s r t ≡ answers x
    → (x ≡ r.account) × (t.third < r.account.credentials.expires_at)
served-account s r t x h = (ground (arith, h), ground (arith, h))

decide_state-account :
    (m : Refreshes) (r : AccountRecord) (i : ℕ) (o : Option RefreshState) (waited : Bool)
    (t : Clock) (x : Account)
    → (decide_state m r i o waited t).1 ≡ answers x
    → (x ≡ r.account) × (t.third < r.account.credentials.expires_at)
unfolding decide_state
decide_state-account m r i none waited t x h = absurd (ground (arith, h))
decide_state-account m r i (some s) waited t x h = served-account s r t x (ground (arith, h))

decide-account :
    (m : Refreshes) (id : Text) (r : AccountRecord) (i : ℕ) (waited : Bool) (t : Clock)
    (x : Account)
    → (decide m id r i waited t).1 ≡ answers x
    → (x ≡ r.account) × (t.third < r.account.credentials.expires_at)
unfolding decide
decide-account m id r i waited t x h =
    decide_state-account m r i (get_elem? m.states i) waited t x (ground (arith, h))

-- An account that CurrentAccount answers is what the store held when this pass read it, it was enabled,
-- and its credentials expire after the last reading of the clock, whatever happened to the manager between
-- the critical sections.
pub take-decide :
    (decrypt : Text → Text → Option OAuthCredentials) (store : Store) (m n : Refreshes) (id : Text)
    (seen : Seen) (r : AccountRecord) (i : ℕ) (waited : Bool) (t : Clock) (x : Account)
    → (take m id seen (get_account decrypt store id)).1 ≡ taken r i
    → (decide n id r i waited t).1 ≡ answers x
    → (get_account decrypt store id ≡ inl r)
      × (r.enabled ≡ true)
      × (x ≡ r.account)
      × (t.third < x.credentials.expires_at)
take-decide decrypt store m n id seen r i waited t x h k =
    let (found, enabled) =
      (take-IsTaken m id seen (get_account decrypt store id)).of_record r i h in
    let (same, later) = decide-account n id r i waited t x k in
    (
      found,
      enabled,
      same,
      subst (λ (a : Account). t.third < a.credentials.expires_at) (sym same) later,
    )

-- What a failed job of the account's state leaves.
finish-failed :
    (m : Refreshes) (id : Text) (i : ℕ) (s : RefreshState) (e : RefreshError)
    (c : Option OAuthCredentials) (now : Time)
    → lookup id m.current ≡ some i
    → get_elem? m.states i ≡ some s
    → get_elem? (finish m id i (failed e c) now).states i ≡ some (failed_state e c now (stop_job s))
unfolding finish
finish-failed m id i s e c now g f =
    if_elim (λ (n : Refreshes). get_elem? n.states i ≡ some (failed_state e c now (stop_job s)))
      (not (same_pointer (lookup id m.current) (some i))) _ _ (λ h. absurd (ground (arith, h, g)))
      (λ h.
        update_self (update m.states i stop_job) i (failed_state e c now) (stop_job s)
          (update_self m.states i stop_job s f))

-- Credentials that could not be stored after a refresh, but for a conflict, are not lost: the account is not served with the old
-- ones, and the next job does not ask the provider again but stores them, if they have not expired by then.
pub finish-candidate :
    (m : Refreshes) (id : Text) (i : ℕ) (s : RefreshState) (c : OAuthCredentials) (e : Error)
    (now later : Time) (r : AccountRecord) (t : Clock) (answer : OAuthCredentials ⊎ Failure)
    → lookup id m.current ≡ some i
    → get_elem? m.states i ≡ some s
    → is conflict e ≡ false
    → c.chatgpt_account_id ≡ s.previous.account.credentials.chatgpt_account_id
    → later < c.expires_at
    → (u : RefreshState) × (get_elem? (finish m id i (outcome (inl c) (some e)) now).states i
        ≡ some u)
      × (served u r t ≡ refuses account_unavailable)
      × (candidate u later answer ≡ inl c)
unfolding outcome failed_state candidate chosen
finish-candidate m id i s c e now later r t answer g f n a l = (
  failed_state (not_stored e) (some c) now (stop_job s),
  subst
      (λ x.
        get_elem? (finish m id i x now).states i
        ≡ some (failed_state (not_stored e) (some c) now (stop_job s)))
      (ap (λ b. failed (not_stored e) (if b then none else some c)) (sym n))
      (finish-failed m id i s (not_stored e) (some c) now g f),
  refl,
  ground (
    arith,
    l,
    text_eq_iff c.chatgpt_account_id s.previous.account.credentials.chatgpt_account_id,
    a,
  ),
)
