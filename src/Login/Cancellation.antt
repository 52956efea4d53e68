-- ===== src/Login/Cancellation.antt =====
-- What a successful CancelLogin guarantees (internal/codexoauth/login.go).
use clan.Prelude.{
  ℕ, zero, suc, ◌≡◌, refl, sym, ap, ◌∙◌, subst, true, false, not, ◌&&◌, Option, none, some, List,
  [], ◌∷◌, arith, ltb, if_elim, length, get_elem?, Text, text_eq, text_eq_iff,
}
use clan.Retry.{Time}
use clan.Login.{
  LoginState, PendingLogin, Manager, answers, is_waiting, is_pending, on_last, last, expired,
  expire_login, canceled_if_pending, cancel_check, is_committing, cancel_commit, Event, run,
}
use clan.Login.Ended.{HasEnded, run-HasEnded}

latest_changed :
    (f : PendingLogin → PendingLogin) (ps : List PendingLogin) (i : ℕ)
    → suc i ≡ length ps
    → (p : PendingLogin) × (get_elem? ps i ≡ some p) × (get_elem? (on_last f ps) i ≡ some (f p))
unfolding on_last
latest_changed f [] i k = absurd (omega arith)
latest_changed f (p ∷ []) zero k = (p, refl, refl)
latest_changed f (p ∷ []) (suc i) k = absurd (omega arith)
latest_changed f (p ∷ (q ∷ ps)) zero k = absurd (omega arith)
latest_changed f (p ∷ (q ∷ ps)) (suc i) k = latest_changed f (q ∷ ps) i (omega arith)

canceled_ends :
    (now : Time) (p : PendingLogin)
    → p.committing ≡ false
    → HasEnded true
        (canceled_if_pending (expired now p)).status.state
        (some (canceled_if_pending (expired now p)))
canceled_ends now p k = (over (expired now p), kept, refl)
  where
    over : (q : PendingLogin) → is_pending (canceled_if_pending q).status.state ≡ false
    over q =
        if_elim (λ (x : PendingLogin). is_pending x.status.state ≡ false)
          (is_pending q.status.state) _ _ (λ e. refl) (λ e. e)

    same : (expired now p).committing ≡ false
    same =
        if_elim (λ (x : PendingLogin). x.committing ≡ false)
          (is_waiting p.status.state && not (ltb now p.status.expires_at)) _ _ (λ e. k) (λ e. k)

    kept : (canceled_if_pending (expired now p)).committing ≡ false
    kept =
        if_elim (λ (x : PendingLogin). x.committing ≡ false)
          (is_pending (expired now p).status.state) _ _ (λ e. same) (λ e. same)

-- A cancellation that answers success was let in, and was about the last login.
cancel_steps :
    (m : Manager) (now : Time) (i : ℕ)
    → (cancel_commit m none now i).1 ≡ answers none
    → (is_committing (get_elem? m.logins i) ≡ false)
      × (suc i ≡ length m.logins)
      × ((cancel_commit m none now i).0.logins
          ≡ on_last (λ p. canceled_if_pending (expired now p)) m.logins)
unfolding cancel_commit
cancel_steps m now i h = ground (arith, h)

-- When the second critical section of CancelLogin, where a login that the first one found pending
-- is canceled, answers success, the login has ended and stays as it is in every later history: its
-- state never changes, and no credentials are being stored for it.
pub cancel-run :
    (m : Manager) (now : Time) (i : ℕ) (es : List Event)
    → (cancel_commit m none now i).1 ≡ answers none
    → (s : LoginState) × HasEnded true s (get_elem? (cancel_commit m none now i).0.logins i)
      × HasEnded true s (get_elem? (run (cancel_commit m none now i).0 es).logins i)
cancel-run m now i es h =
    let (free, latest, logins) = cancel_steps m now i h in
    let f = λ (p : PendingLogin). canceled_if_pending (expired now p) in
    let (p, at, after_) = latest_changed f m.logins i latest in
    let k : p.committing ≡ false = sym (ap is_committing at) ∙ free in
    let s = (f p).status.state in
    let m' = (cancel_commit m none now i).0 in
    let ended =
      subst (HasEnded true s) (sym (ap (λ ps. get_elem? ps i) logins ∙ after_))
        (canceled_ends now p k) in
    (s, ended, run-HasEnded true m' es s i ended)

last_elem :
    (ps : List PendingLogin) (p : PendingLogin)
    → last ps ≡ some p
    → (i : ℕ) × (suc i ≡ length ps) × (get_elem? ps i ≡ some p)
unfolding last
last_elem [] p h = absurd (ground (arith, h))
last_elem (q ∷ []) p h = (zero, refl, h)
last_elem (q ∷ (r ∷ ps)) p h =
    let (i, latest, at) = last_elem (r ∷ ps) p h in (suc i, ap suc latest, at)

-- An answer of success without a wait is about the last login, which has ended.
check_steps :
    (m : Manager) (now : Time) (login_id : Text)
    → (cancel_check m none now login_id).1 ≡ answers none
    → (p : PendingLogin) × (last (cancel_check m none now login_id).0.logins ≡ some p)
      × (text_eq p.status.login_id login_id ≡ true)
      × (is_pending p.status.state ≡ false)
unfolding cancel_check
check_steps m now login_id h = go (last (expire_login m now).logins) refl
  where
    go :
        (o : Option PendingLogin)
        → last (expire_login m now).logins ≡ o
        → (p : PendingLogin) × (last (expire_login m now).logins ≡ some p)
          × (text_eq p.status.login_id login_id ≡ true)
          × (is_pending p.status.state ≡ false)
    go none e = absurd (ground (arith, h, e))
    go (some p) e = (p, e, ground (arith, h, e), ground (arith, h, e))

-- When the first critical section of CancelLogin answers success, the login that it was asked for is
-- the last one and had ended already, and its state never changes in any later history. A save that
-- had begun before its account was invalidated may still be running then.
pub cancel_check-run :
    (m : Manager) (now : Time) (login_id : Text) (es : List Event)
    → (cancel_check m none now login_id).1 ≡ answers none
    → let m' = (cancel_check m none now login_id).0 in
      (i : ℕ) × (p : PendingLogin) × (suc i ≡ length m'.logins)
      × (get_elem? m'.logins i ≡ some p)
      × (p.status.login_id ≡ login_id)
      × HasEnded false p.status.state (get_elem? m'.logins i)
      × HasEnded false p.status.state (get_elem? (run m' es).logins i)
cancel_check-run m now login_id es h =
    let m' = (cancel_check m none now login_id).0 in
    let (p, found, named, over) = check_steps m now login_id h in
    let (i, latest, at) = last_elem m'.logins p found in
    let ended = subst (HasEnded false p.status.state) (sym at) (over, tt, refl) in
    (
      i,
      p,
      latest,
      at,
      (text_eq_iff p.status.login_id login_id).0 named,
      ended,
      run-HasEnded false m' es p.status.state i ended,
    )
