-- ===== src/Execution/Revoked.antt =====
-- What holds for good after a revocation or a shutdown (internal/execution/management.go).
use clan.Prelude.{
  ℕ, ◌≡◌, refl, ap, ◌∙◌, subst, ◌⊎◌, inl, inr, Bool, true, false, Option, none, some, List, [], ◌∷◌,
  arith, if◌then◌else◌, Bool-cases, Option-cases, is_some, if_elim, All, get_elem?, Text, text_eq,
  text_eq_iff, Map, lookup, insert, erase, pos,
}
use clan.Errors.{Sentinel, closed, Error, sentinel}
use clan.Storage.Keys.{KeyRow, revoke_key, update_concurrency, is_enabled, revoke_key_lem}
use clan.Execution.Requests.{
  Request, State, Admission, Outcome, Event, admits, registers, attempts, responds, cancels,
  finishes, revokes, sets_concurrency, disables, enables, deletes, connects, closes, admit,
  admitted, authenticate, registered, locked, under_lock, register, finish, finished, conclude,
  concluded, concludes, changed, on_account, revoke, set_concurrency, disable_account,
  enable_account, delete_account, close, step, run, new,
}
use clan.Execution.Revocation.{IsGuarded, Checked, IsGuarded-new, run-IsGuarded, step-IsGuarded}
use clan.Storage.{AccessKeyRecord}
use clan.Concurrency.{Limiter, Slot, LimitError}

-- Which steps leave the keys and the shutdown mark alone.
abbrev Same : State → State → Type 0
Same s t = (t.keys ≡ s.keys) × (t.closed ≡ s.closed)

admit-Same :
    (sha256 : Text → Text) (s : State) (a : Admission) → Same s (admitted s (admit sha256 s a))
unfolding admit
admit-Same sha256 s a =
    if_elim (λ r. Same s (admitted s r)) s.closed _ _ (λ e. (refl, refl))
      (λ e. go (authenticate sha256 s.keys a))
  where
    slot :
        (k : Text) (x : Limiter × Slot × Option LimitError)
        → Same s (admitted s (registered s a k x))
    slot k (l, i, some e) = (refl, refl)
    slot k (l, i, none) = (refl, refl)

    go : (x : AccessKeyRecord ⊎ Error) → Same s (admitted s (locked s a x))
    go (inr e) = (refl, refl)
    go (inl k) = elim a.ctx_lock as (λ c. Same s (admitted s (under_lock s a k c))) [
      | some c ↦ (refl, refl)
      | none ↦ slot k.key.identity.id _
    ]

-- A key that no row enables.
abbrev pub IsRevoked : Text → State → Type 0
IsRevoked id s = is_enabled id s.keys ≡ false

changed-keys :
    (s : State) (x : List KeyRow × Option Sentinel) (p : Request → Bool)
    → (id : Text) → is_enabled id x.0 ≡ false
    → is_enabled id s.keys ≡ false
    → IsRevoked id (changed s x p).0
changed-keys s (keys, some e) p id h g = g
changed-keys s (keys, none) p id h g = h

still_revoked :
    (rows : List KeyRow) (id j : Text)
    → is_enabled j rows ≡ false
    → is_enabled j (revoke_key rows id).0 ≡ false
still_revoked rows id j h = elim (Option-cases (revoke_key rows id).1) [
  | inr (e, f) ↦ rw ((revoke_key_lem rows id j (pos 0)).2 (λ n. cc)) h
  | inl n ↦ elim (Bool-cases (text_eq id j)) [
    | inl same ↦
        subst (λ t. is_enabled t (revoke_key rows id).0 ≡ false) ((text_eq_iff id j).0 same)
          ((revoke_key_lem rows id j (pos 0)).0 n)
    | inr d ↦ (revoke_key_lem rows id j (pos 0)).1 d ∙ h
  ]
]

on_account-keys :
    (s : State) (id : Text) (m : Map Bool) (p : Request → Bool) (sync : Option Error)
    → Same s (on_account s id m p sync).0
on_account-keys s id m p sync = (ground arith, ground arith)

register-Same : (s : State) (i : ℕ) (account : Text) → Same s (register s i account)
unfolding register
register-Same s i account = (ground arith, ground arith)

concluded-Same : (s : State) (i : ℕ) (o : Outcome) (x : Option Request) → Same s (concluded s i o x)
concluded-Same s i o none = (refl, refl)
concluded-Same s i o (some r) = (ground arith, ground arith)

finished-Same : (s : State) (i : ℕ) (x : Option Request) → Same s (finished s i x)
finished-Same s i none = (refl, refl)
finished-Same s i (some r) = (ground arith, ground arith)

connect-Same :
    (s : State) (id : Text)
    → Same s (
        if is_some (lookup id s.accounts)
        then s
        else record s { accounts = insert id true s.accounts })
connect-Same s id = (ground arith, ground arith)

step-IsRevoked :
    (sha256 : Text → Text) (s : State) (e : Event) (id : Text)
    → IsRevoked id s
    → IsRevoked id (step sha256 s e)
unfolding step disable_account enable_account delete_account
step-IsRevoked sha256 s (admits a) id h = rw (admit-Same sha256 s a).0 h
step-IsRevoked sha256 s (registers i account) id h = rw (register-Same s i account).0 h
step-IsRevoked sha256 s (attempts i account) id h = h
step-IsRevoked sha256 s (responds i) id h = h
step-IsRevoked sha256 s (cancels i) id h = h
step-IsRevoked sha256 s (concludes i o) id h =
    unfold conclude in rw (concluded-Same s i o (get_elem? s.requests i)).0 h
step-IsRevoked sha256 s (finishes i) id h =
    unfold finish in rw (finished-Same s i (get_elem? s.requests i)).0 h
step-IsRevoked sha256 s (revokes j) id h =
    unfold revoke in
    if_elim (λ (r : State × Option Error). IsRevoked id r.0) s.closed _ _ (λ e. h)
      (λ e. changed-keys s (revoke_key s.keys j) _ id (still_revoked s.keys j id h) h)
step-IsRevoked sha256 s (sets_concurrency j limit) id h =
    unfold set_concurrency in
    if_elim (λ (r : State × Option Error). IsRevoked id r.0) s.closed _ _ (λ e. h)
      (λ e.
        changed-keys s (update_concurrency s.keys j limit) _ id
          ((revoke_key_lem s.keys j id limit).3 ∙ h) h)
step-IsRevoked sha256 s (disables j sync) id h =
    rw (on_account-keys s j (insert j false s.accounts) (λ r. text_eq r.account_id j) sync).0 h
step-IsRevoked sha256 s (enables j sync) id h =
    rw (on_account-keys s j (insert j true s.accounts) (λ r. false) sync).0 h
step-IsRevoked sha256 s (deletes j sync) id h =
    rw (on_account-keys s j (erase j s.accounts) (λ r. text_eq r.account_id j) sync).0 h
step-IsRevoked sha256 s (connects j) id h = rw (connect-Same s j).0 h
step-IsRevoked sha256 s closes id h = unfold close in h

run-IsRevoked :
    (sha256 : Text → Text) (s : State) (es : List Event) (id : Text)
    → IsRevoked id s
    → IsRevoked id (run sha256 s es)
unfolding run
run-IsRevoked sha256 s [] id h = h
run-IsRevoked sha256 s (e ∷ es) id h =
    run-IsRevoked sha256 (step sha256 s e) es id (step-IsRevoked sha256 s e id h)

changed-closed :
    (s : State) (x : List KeyRow × Option Sentinel) (p : Request → Bool)
    → (changed s x p).0.closed ≡ s.closed
changed-closed s (keys, some e) p = refl
changed-closed s (keys, none) p = refl

-- The executor never opens again.
step-closed :
    (sha256 : Text → Text) (s : State) (e : Event)
    → s.closed ≡ true
    → (step sha256 s e).closed ≡ true
unfolding step disable_account enable_account delete_account
step-closed sha256 s (admits a) h = (admit-Same sha256 s a).1 ∙ h
step-closed sha256 s (registers i account) h = (register-Same s i account).1 ∙ h
step-closed sha256 s (attempts i account) h = h
step-closed sha256 s (responds i) h = h
step-closed sha256 s (cancels i) h = h
step-closed sha256 s (concludes i o) h =
    unfold conclude in (concluded-Same s i o (get_elem? s.requests i)).1 ∙ h
step-closed sha256 s (finishes i) h =
    unfold finish in (finished-Same s i (get_elem? s.requests i)).1 ∙ h
step-closed sha256 s (revokes j) h = unfold revoke in ground (arith, h)
step-closed sha256 s (sets_concurrency j limit) h = unfold set_concurrency in ground (arith, h)
step-closed sha256 s (disables j sync) h =
    (on_account-keys s j (insert j false s.accounts) (λ r. text_eq r.account_id j) sync).1 ∙ h
step-closed sha256 s (enables j sync) h =
    (on_account-keys s j (insert j true s.accounts) (λ r. false) sync).1 ∙ h
step-closed sha256 s (deletes j sync) h =
    (on_account-keys s j (erase j s.accounts) (λ r. text_eq r.account_id j) sync).1 ∙ h
step-closed sha256 s (connects j) h = (connect-Same s j).1 ∙ h
step-closed sha256 s closes h = unfold close in refl

run-closed :
    (sha256 : Text → Text) (s : State) (es : List Event)
    → s.closed ≡ true
    → (run sha256 s es).closed ≡ true
unfolding run
run-closed sha256 s [] h = h
run-closed sha256 s (e ∷ es) h = run-closed sha256 (step sha256 s e) es (step-closed sha256 s e h)

-- Every unfinished request of the key is canceled.
abbrev pub AllCanceled : Text → List Request → Type 0
AllCanceled id = All (λ r. text_eq r.key_id id ≡ true → r.done ≡ false → r.canceled ≡ true)

guarded-canceled :
    (c : Bool) (keys : List KeyRow) (m : Map Bool) (id : Text) (rs : List Request)
    → is_enabled id keys ≡ false
    → All (Checked c keys m) rs
    → AllCanceled id rs
guarded-canceled c keys m id [] n h = tt
guarded-canceled c keys m id (r ∷ rs) n h = (one r h.0, guarded-canceled c keys m id rs n h.1)
  where
    one :
        (r : Request)
        → Checked c keys m r
        → text_eq r.key_id id ≡ true
        → r.done ≡ false
        → r.canceled ≡ true
    one r k same d = elim (Bool-cases r.canceled) [
      | inl y ↦ y
      | inr live ↦
          absurd (cc ((k d live).1, ap (λ t. is_enabled t keys) ((text_eq_iff r.key_id id).0 same)))
    ]

step_stays_so : (s : State) (id : Text) → (revoke s id).1 ≡ none → IsRevoked id (revoke s id).0
unfolding revoke
step_stays_so s id h = go s.closed (revoke_key s.keys id) (revoke_key_lem s.keys id id (pos 0)).0 h
  where
    go :
        (c : Bool) (x : List KeyRow × Option Sentinel)
        → (x.1 ≡ none → is_enabled id x.0 ≡ false)
        → (if c then (s, some (sentinel closed)) else changed s x (λ r. text_eq r.key_id id)).1
          ≡ none
        → IsRevoked id
            (if c then (s, some (sentinel closed)) else changed s x (λ r. text_eq r.key_id id)).0
    go true x k h = cc
    go false (keys, some e) k h = cc
    go false (keys, none) k h = k refl

-- After a revocation that succeeded, at any time of any history, every unfinished request of the
-- key is canceled, and stays so: nothing that happens later lets a request of the key run, were it
-- running before or admitted after.
pub revoke-run :
    (sha256 : Text → Text) (keys : List KeyRow) (accounts : Map Bool) (es fs : List Event)
    (id : Text)
    → let s = run sha256 (new keys accounts) es in
      (revoke s id).1 ≡ none → AllCanceled id (run sha256 (revoke s id).0 fs).requests
revoke-run sha256 keys accounts es fs id h =
    let s = run sha256 (new keys accounts) es in
    let g : IsGuarded s =
      run-IsGuarded sha256 (new keys accounts) es (IsGuarded-new keys accounts) in
    let t = (revoke s id).0 in
    let g' : IsGuarded t = unfold step in step-IsGuarded sha256 s (revokes id) g in
    let u = run sha256 t fs in
    guarded-canceled u.closed u.keys u.accounts id u.requests
      (run-IsRevoked sha256 t fs id (step_stays_so s id h)) (run-IsGuarded sha256 t fs g')

stopped_one :
    (c : Bool) (keys : List KeyRow) (m : Map Bool) (r : Request)
    → c ≡ true
    → Checked c keys m r
    → r.done ≡ false
    → r.canceled ≡ true
stopped_one c keys m r e k d = elim (Bool-cases r.canceled) [
  | inl y ↦ y
  | inr live ↦ absurd (cc ((k d live).0, e))
]

closed_stopped :
    (c : Bool) (keys : List KeyRow) (m : Map Bool) (rs : List Request)
    → c ≡ true
    → All (Checked c keys m) rs
    → All (λ r. r.done ≡ false → r.canceled ≡ true) rs
closed_stopped c keys m [] e h = tt
closed_stopped c keys m (r ∷ rs) e h =
    (stopped_one c keys m r e h.0, closed_stopped c keys m rs e h.1)

-- After a shutdown no request is admitted any more, and every unfinished request is canceled.
pub close-run :
    (sha256 : Text → Text) (keys : List KeyRow) (accounts : Map Bool) (es fs : List Event)
    (a : Admission)
    → let t = run sha256 (close (run sha256 (new keys accounts) es)) fs in
      (admit sha256 t a ≡ inr (sentinel closed))
      × All (λ r. r.done ≡ false → r.canceled ≡ true) t.requests
close-run sha256 keys accounts es fs a =
    let s = run sha256 (new keys accounts) es in
    let g : IsGuarded s =
      run-IsGuarded sha256 (new keys accounts) es (IsGuarded-new keys accounts) in
    let g' : IsGuarded (close s) = unfold step in step-IsGuarded sha256 s closes g in
    let t = run sha256 (close s) fs in
    let shut : t.closed ≡ true = run-closed sha256 (close s) fs (unfold close in refl) in
    (
      refused t shut,
      closed_stopped t.closed t.keys t.accounts t.requests shut
          (run-IsGuarded sha256 (close s) fs g'),
    )
  where
    refused : (t : State) → t.closed ≡ true → admit sha256 t a ≡ inr (sentinel closed)
    refused t h = unfold admit in ground (arith, h)
