-- ===== src/Login/Ended.antt =====
-- Logins that have ended stay so in every history (internal/codexoauth/login.go).
use clan.Prelude.{
  ℕ, zero, suc, ◌≡◌, refl, ◌⊎◌, Bool, true, false, not, ◌&&◌, ◌||◌, Option, none, some, List, [],
  ◌∷◌, ◌++◌, arith, ltb, if◌then◌else◌, subst_some, if_elim, get_elem?, set, Text, is_blank,
}
use clan.Retry.{Time}
use clan.Account.{Identity}
use clan.Errors.{CtxError}
use clan.Storage.{AccountRecord}
use clan.Login.{
  login_canceled, login_succeeded, login_failed, no_authorization, LoginState, LoginError,
  PendingLogin, Manager, Authorization, LoginInstructions, CancelPass, in_state, is_waiting,
  is_exchanging, is_pending, on_last, last, expired, expire_login, is_pending_login, pending_login,
  start_pending, start_login, start_reconnect, is_latest, canceled_if_pending, cancel_check,
  is_committing, cancel_commit, claimed, claim, begin_commit, settled, settle, invalidate_login,
  previous_is, update_login, has_state, Event, starts, reconnects, checks_cancel, commits_cancel,
  claims, begins_commit, settles, invalidates, step, run,
}

-- Not storing, where that is asked for.
abbrev pub IsFree : Bool → Bool → Type 0
IsFree true committing = committing ≡ false
IsFree false committing = Unit

idle-IsFree : (strict : Bool) → IsFree strict false
idle-IsFree true = refl
idle-IsFree false = tt

module _ (strict : Bool) where
  -- A login that has ended in the state `s`; a `strict` one has nothing being stored for it either.
  abbrev pub HasEnded : LoginState → Option PendingLogin → Type 0
  HasEnded s none = ⊥
  HasEnded s (some p) =
      (is_pending p.status.state ≡ false) × IsFree strict p.committing × (p.status.state ≡ s)

  -- A change that leaves ended logins ended, in their states.
  abbrev IsFixed : (PendingLogin → PendingLogin) → Type 0
  IsFixed f = (s : LoginState) (p : PendingLogin) → HasEnded s (some p) → HasEnded s (some (f p))

  on_last-HasEnded :
      (f : PendingLogin → PendingLogin) (s : LoginState) (ps : List PendingLogin) (i : ℕ)
      → IsFixed f
      → HasEnded s (get_elem? ps i)
      → HasEnded s (get_elem? (on_last f ps) i)
  unfolding on_last
  on_last-HasEnded f s [] i k h = h
  on_last-HasEnded f s (p ∷ []) zero k h = k s p h
  on_last-HasEnded f s (p ∷ []) (suc i) k h = h
  on_last-HasEnded f s (p ∷ (q ∷ ps)) zero k h = h
  on_last-HasEnded f s (p ∷ (q ∷ ps)) (suc i) k h = on_last-HasEnded f s (q ∷ ps) i k h

  append-HasEnded :
      (s : LoginState) (ps : List PendingLogin) (x : PendingLogin) (i : ℕ)
      → HasEnded s (get_elem? ps i)
      → HasEnded s (get_elem? (ps ++ x ∷ []) i)
  append-HasEnded s [] x i h = absurd h
  append-HasEnded s (p ∷ ps) x zero h = h
  append-HasEnded s (p ∷ ps) x (suc i) h = append-HasEnded s ps x i h

  set-HasEnded :
      (f : PendingLogin → PendingLogin) (s : LoginState) (ps : List PendingLogin) (i j : ℕ)
      (p : PendingLogin)
      → IsFixed f
      → get_elem? ps j ≡ some p
      → HasEnded s (get_elem? ps i)
      → HasEnded s (get_elem? (set ps j (f p)) i)
  set-HasEnded f s [] i j p k e h = absurd h
  set-HasEnded f s (q ∷ ps) zero zero p k e h =
      subst_some (λ x. HasEnded s (some (f x))) e (k s q h)
  set-HasEnded f s (q ∷ ps) (suc i) zero p k e h = h
  set-HasEnded f s (q ∷ ps) zero (suc j) p k e h = h
  set-HasEnded f s (q ∷ ps) (suc i) (suc j) p k e h = set-HasEnded f s ps i j p k e h

  update-HasEnded :
      (m : Manager) (f : PendingLogin → PendingLogin) (s : LoginState) (i j : ℕ)
      (x : Option PendingLogin)
      → IsFixed f
      → get_elem? m.logins j ≡ x
      → HasEnded s (get_elem? m.logins i)
      → HasEnded s (get_elem? (update_login m j f x).logins i)
  update-HasEnded m f s i j none k e h = h
  update-HasEnded m f s i j (some p) k e h = set-HasEnded f s m.logins i j p k e h

  expired-IsFixed : (now : Time) → IsFixed (expired now)
  expired-IsFixed now s p h =
      if_elim (λ (q : PendingLogin). HasEnded s (some q))
        (is_waiting p.status.state && not (ltb now p.status.expires_at)) _ _
        (λ e. absurd (ground (arith, e, h))) (λ e. h)

  canceled-IsFixed : (now : Time) → IsFixed (λ p. canceled_if_pending (expired now p))
  canceled-IsFixed now s p h =
      let g = expired-IsFixed now s p h in
      if_elim (λ (q : PendingLogin). HasEnded s (some q)) (is_pending (expired now p).status.state)
        _ _ (λ e. absurd (ground (arith, e, g.0))) (λ e. g)

  commit-IsFixed :
      (b : Bool)
      → IsFixed (λ p.
        if not p.committing && b && is_exchanging p.status.state
        then record p { committing = true }
        else p)
  commit-IsFixed b s p h =
      if_elim (λ (q : PendingLogin). HasEnded s (some q))
        (not p.committing && b && is_exchanging p.status.state) _ _
        (λ e. absurd (ground (arith, e, h.0))) (λ e. h)

  settled-IsFixed : (ok : Bool) → IsFixed (settled ok)
  settled-IsFixed ok s p h =
      if_elim (λ (q : PendingLogin). HasEnded s (some q)) (not p.committing) _ _ (λ e. h)
        (λ e. (over, idle-IsFree strict, kept))
    where
      over :
          is_pending
            (if is_exchanging p.status.state
              then in_state (if ok then login_succeeded else login_failed) p
              else p).status.state
          ≡ false
      over =
          if_elim (λ (q : PendingLogin). is_pending q.status.state ≡ false)
            (is_exchanging p.status.state) _ _ (λ x. absurd (ground (arith, x, h.0))) (λ x. h.0)

      kept :
          (if is_exchanging p.status.state
            then in_state (if ok then login_succeeded else login_failed) p
            else p).status.state
          ≡ s
      kept =
          if_elim (λ (q : PendingLogin). q.status.state ≡ s) (is_exchanging p.status.state) _ _
            (λ x. absurd (ground (arith, x, h.0))) (λ x. h.2)

  invalidated-IsFixed :
      (id : Text)
      → IsFixed (λ p.
        if previous_is id p.previous && is_pending p.status.state
        then in_state login_canceled (record p { authorization = no_authorization })
        else p)
  invalidated-IsFixed id s p h =
      if_elim (λ (q : PendingLogin). HasEnded s (some q))
        (previous_is id p.previous && is_pending p.status.state) _ _
        (λ e. absurd (ground (arith, e, h.0))) (λ e. h)

  waiting_last :
      (f : PendingLogin → PendingLogin) (s : LoginState) (ps : List PendingLogin) (i : ℕ)
      (state : Text)
      → has_state state (last ps) ≡ true
      → HasEnded s (get_elem? ps i)
      → HasEnded s (get_elem? (on_last f ps) i)
  unfolding on_last last
  waiting_last f s [] i state w h = h
  waiting_last f s (p ∷ []) zero state w h = absurd (ground (arith, w, h.0))
  waiting_last f s (p ∷ []) (suc i) state w h = h
  waiting_last f s (p ∷ (q ∷ ps)) zero state w h = h
  waiting_last f s (p ∷ (q ∷ ps)) (suc i) state w h = waiting_last f s (q ∷ ps) i state w h

  expire-HasEnded :
      (m : Manager) (now : Time) (s : LoginState) (i : ℕ)
      → HasEnded s (get_elem? m.logins i)
      → HasEnded s (get_elem? (expire_login m now).logins i)
  unfolding expire_login
  expire-HasEnded m now s i h = on_last-HasEnded (expired now) s m.logins i (expired-IsFixed now) h

  start-HasEnded :
      (m : Manager) (c : Option CtxError) (now : Time) (a : Identity) (r : Option AccountRecord)
      (auth : Authorization) (login_id : Text) (s : LoginState) (i : ℕ)
      → HasEnded s (get_elem? m.logins i)
      → HasEnded s (get_elem? (start_pending m c now a r auth login_id).0.logins i)
  unfolding start_pending
  start-HasEnded m (some c) now a r auth login_id s i h = h
  start-HasEnded m none now a r auth login_id s i h =
      let g = expire-HasEnded m now s i h in
      if_elim
        (λ (x : Manager × (LoginInstructions ⊎ LoginError)). HasEnded s (get_elem? x.0.logins i))
        m.closed _ _ (λ shut. h)
        (λ open_.
          if_elim
            (λ (x : Manager × (LoginInstructions ⊎ LoginError)).
              HasEnded s (get_elem? x.0.logins i))
            (is_pending_login (last (expire_login m now).logins)) _ _ (λ busy. g)
            (λ free.
              append-HasEnded s (expire_login m now).logins (pending_login now a r auth login_id) i
                g))

  commit-HasEnded :
      (m : Manager) (c : Option CtxError) (now : Time) (j : ℕ) (s : LoginState) (i : ℕ)
      → HasEnded s (get_elem? m.logins i)
      → HasEnded s (get_elem? (cancel_commit m c now j).0.logins i)
  unfolding cancel_commit
  commit-HasEnded m (some e) now j s i h =
      if_elim (λ (x : Manager × CancelPass). HasEnded s (get_elem? x.0.logins i))
        (is_committing (get_elem? m.logins j)) _ _ (λ held. h) (λ free. h)
  commit-HasEnded m none now j s i h =
      if_elim (λ (x : Manager × CancelPass). HasEnded s (get_elem? x.0.logins i))
        (is_committing (get_elem? m.logins j)) _ _ (λ held. h)
        (λ free.
          if_elim (λ (x : Manager × CancelPass). HasEnded s (get_elem? x.0.logins i))
            (not (is_latest m j)) _ _ (λ other. h)
            (λ latest.
              on_last-HasEnded (λ p. canceled_if_pending (expired now p)) s m.logins i
                (canceled-IsFixed now) h))

  claim-HasEnded :
      (m : Manager) (now : Time) (state : Text) (s : LoginState) (i : ℕ)
      → HasEnded s (get_elem? m.logins i)
      → HasEnded s (get_elem? (claim m now state).0.logins i)
  unfolding claim
  claim-HasEnded m now state s i h =
      let g = expire-HasEnded m now s i h in
      if_elim (λ (x : Manager × Bool). HasEnded s (get_elem? x.0.logins i))
        (m.closed || not (has_state state (last (expire_login m now).logins))) _ _ (λ refused. g)
        (λ found.
          waiting_last claimed s (expire_login m now).logins i state (ground (arith, found)) g)

  step-HasEnded :
      (m : Manager) (e : Event) (s : LoginState) (i : ℕ)
      → HasEnded s (get_elem? m.logins i)
      → HasEnded s (get_elem? (step m e).logins i)
  unfolding step start_login start_reconnect cancel_check begin_commit settle invalidate_login
  step-HasEnded m (starts c now a auth login_id) s i h =
      if_elim
        (λ (x : Manager × (LoginInstructions ⊎ LoginError)). HasEnded s (get_elem? x.0.logins i))
        (is_blank a.name) _ _ (λ bad. h) (λ ok. start-HasEnded m c now a none auth login_id s i h)
  step-HasEnded m (reconnects c now r auth login_id) s i h =
      if_elim
        (λ (x : Manager × (LoginInstructions ⊎ LoginError)). HasEnded s (get_elem? x.0.logins i))
        m.closed _ _ (λ shut. h)
        (λ open_.
          if_elim
            (λ (x : Manager × (LoginInstructions ⊎ LoginError)).
              HasEnded s (get_elem? x.0.logins i))
            (not r.enabled) _ _ (λ off. h)
            (λ on. start-HasEnded m c now r.account.identity (some r) auth login_id s i h))
  step-HasEnded m (checks_cancel (some c) now login_id) s i h = h
  step-HasEnded m (checks_cancel none now login_id) s i h = expire-HasEnded m now s i h
  step-HasEnded m (commits_cancel c now j) s i h = commit-HasEnded m c now j s i h
  step-HasEnded m (claims now state) s i h = claim-HasEnded m now state s i h
  step-HasEnded m (begins_commit j) s i h =
      update-HasEnded m _ s i j (get_elem? m.logins j) (commit-IsFixed (is_latest m j)) refl h
  step-HasEnded m (settles j ok) s i h =
      update-HasEnded m _ s i j (get_elem? m.logins j) (settled-IsFixed ok) refl h
  step-HasEnded m (invalidates id) s i h =
      on_last-HasEnded _ s m.logins i (invalidated-IsFixed id) h

  pub run-HasEnded :
      (m : Manager) (es : List Event) (s : LoginState) (i : ℕ)
      → HasEnded s (get_elem? m.logins i)
      → HasEnded s (get_elem? (run m es).logins i)
  unfolding run
  run-HasEnded m [] s i h = h
  run-HasEnded m (e ∷ es) s i h = run-HasEnded (step m e) es s i (step-HasEnded m e s i h)
