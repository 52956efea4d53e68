-- ===== src/Execution/Revocation.antt =====
-- Revocation, disablement and shutdown reach every request (internal/execution/management.go).
use clan.Prelude.{
  ◌||◌, ℕ, zero, suc, ◌≡◌, refl, sym, ◌∙◌, subst, ◌⊎◌, inl, inr, Bool, true, false, not, ◌&&◌,
  Option, none, some, List, [], ◌∷◌, ◌++◌, arith, if◌then◌else◌, Bool-cases, Option-cases, is_some,
  if_elim, All, get_elem?, Text, text_eq, text_eq_iff, is_blank, Map, lookup, insert, erase,
  lookup-insert, lookup-erase, get_or, ℤ, pos,
}
use clan.AccessKey.{hash}
use clan.Storage.{AccessKeyRecord}
use clan.Storage.Keys.{
  KeyRow, find_key, revoke_key, update_concurrency, is_enabled, revoke_key_lem, find_key-enabled,
}
use clan.Concurrency.{Limiter, Slot, LimitError}
use clan.Errors.{Sentinel, Error, CtxError}
use clan.Execution.Requests.{
  Request, State, Admission, Outcome, Event, admits, registers, attempts, responds, cancels,
  concludes, concluded, conclude, finishes, revokes, sets_concurrency, disables, enables, deletes,
  connects, closes, finished, changed, on_account, authenticate, store_answer, registered,
  new_request, locked, under_lock, admit, admitted, update_at, register, finish, cancel_where,
  revoke, set_concurrency, disable_account, enable_account, delete_account, close, step, run, new,
}

-- A request that may go on: the executor is open, its key enabled, and its account, once it has
-- one, stored and enabled.
abbrev pub Permitted : Bool → List KeyRow → Map Bool → Request → Type 0
Permitted closed keys accounts r =
    (closed ≡ false)
    × (is_enabled r.key_id keys ≡ true)
    × ((r.account_id ≡ []) ⊎ (lookup r.account_id accounts ≡ some true))

-- An unfinished request that nobody canceled is permitted.
abbrev pub Checked : Bool → List KeyRow → Map Bool → Request → Type 0
Checked closed keys accounts r =
    r.done ≡ false → r.canceled ≡ false → Permitted closed keys accounts r

abbrev pub IsGuarded : State → Type 0
IsGuarded s = All (Checked s.closed s.keys s.accounts) s.requests

All-update_at :
    (P : Request → Type 0) (i : ℕ) (f : Request → Request) (rs : List Request)
    → ((r : Request) → P r → P (f r))
    → All P rs
    → All P (update_at i f rs)
All-update_at P i f [] k h = tt
All-update_at P zero f (r ∷ rs) k h = (k r h.0, h.1)
All-update_at P (suc i) f (r ∷ rs) k h = (h.0, All-update_at P i f rs k h.1)

All-push :
    (P : Request → Type 0) (rs : List Request) (r : Request) → All P rs → P r → All P (rs ++ r ∷ [])
All-push P [] r h p = (p, tt)
All-push P (x ∷ rs) r h p = (h.0, All-push P rs r h.1 p)

-- Canceling leaves to check only the requests that are not canceled.
Checked-cancel_where :
    (c d : Bool) (keys keys' : List KeyRow) (m m' : Map Bool) (p : Request → Bool)
    (rs : List Request)
    → ((r : Request) → p r ≡ false → Permitted c keys m r → Permitted d keys' m' r)
    → All (Checked c keys m) rs
    → All (Checked d keys' m') (cancel_where p rs)
unfolding cancel_where
Checked-cancel_where c d keys keys' m m' p [] k h = tt
Checked-cancel_where c d keys keys' m m' p (r ∷ rs) k h =
    (one (Bool-cases (p r)), Checked-cancel_where c d keys keys' m m' p rs k h.1)
  where
    to_checked :
        (r : Request)
        → (Permitted c keys m r → Permitted d keys' m' r)
        → Checked c keys m r
        → Checked d keys' m' r
    to_checked r k h = λ x y. k (h x y)

    one :
        (p r ≡ true) ⊎ (p r ≡ false)
        → Checked d keys' m' (if not r.done && p r then record r { canceled = true } else r)
    one (inl hit) = λ x y. absurd (ground (arith, hit))
    one (inr miss) = λ x y. ground (arith, miss, to_checked r (k r miss) h.0)

pub IsGuarded-new : (keys : List KeyRow) (accounts : Map Bool) → IsGuarded (new keys accounts)
unfolding new
IsGuarded-new keys accounts = tt

answer-enabled :
    (keys : List KeyRow) (h : Text) (c : Option CtxError) (k : AccessKeyRecord)
    (x : AccessKeyRecord ⊎ Sentinel)
    → find_key keys h ≡ x
    → store_answer c x ≡ inl k
    → is_enabled k.key.identity.id keys ≡ true
answer-enabled keys h c k (inl r) f e = elim (Bool-cases r.key.enabled) [
  | inl on ↦
      let same : r ≡ k = ground (arith, e, on) in
      subst (λ (x : AccessKeyRecord). is_enabled x.key.identity.id keys ≡ true) same
        (find_key-enabled keys h r f on)
  | inr off ↦ absurd (ground (arith, e, off))
]
answer-enabled keys h c k (inr x) f e = absurd (ground (arith, e))

-- Whoever is authenticated has an enabled key.
authenticate-enabled :
    (sha256 : Text → Text) (keys : List KeyRow) (a : Admission) (k : AccessKeyRecord)
    → authenticate sha256 keys a ≡ inl k
    → is_enabled k.key.identity.id keys ≡ true
authenticate-enabled sha256 keys a k e = elim (Option-cases (hash sha256 a.raw_key)) [
  | inl n ↦ absurd (unfold authenticate in ground (arith, e, n))
  | inr (h, g) ↦ elim (Option-cases a.store_err) [
    | inr (x, f) ↦ absurd (unfold authenticate in ground (arith, e, g, f))
    | inl f ↦
        answer-enabled keys h a.ctx_auth k (find_key keys h) refl
          (unfold authenticate in ground (arith, e, g, f))
  ]
]

-- What an admission does: nothing, or one more request of an enabled key.
abbrev Admits : State → State → Type 0
Admits s t =
    (t ≡ s)
    ⊎ ((l : Limiter) × (r : Request) × (t
          ≡ record s { limiter = l; requests = s.requests ++ r ∷ [] })
        × (is_enabled r.key_id s.keys ≡ true)
        × (r.account_id ≡ []))

registered-Admits :
    (s : State) (a : Admission) (key_id : Text) (x : Limiter × Slot × Option LimitError)
    → is_enabled key_id s.keys ≡ true
    → Admits s (admitted s (registered s a key_id x))
registered-Admits s a key_id (l, slot, some e) h = inl refl
registered-Admits s a key_id (l, slot, none) h = inr (l, new_request a key_id slot, refl, h, refl)

locked-Admits :
    (s : State) (a : Admission) (x : AccessKeyRecord ⊎ Error)
    → ((k : AccessKeyRecord) → x ≡ inl k → is_enabled k.key.identity.id s.keys ≡ true)
    → Admits s (admitted s (locked s a x))
locked-Admits s a (inr e) h = inl refl
locked-Admits s a (inl k) h = under a.ctx_lock
  where
    under : (c : Option CtxError) → Admits s (admitted s (under_lock s a k c))
    under (some c) = inl refl
    under none = registered-Admits s a k.key.identity.id _ (h k refl)

admit-IsGuarded :
    (sha256 : Text → Text) (s : State) (a : Admission)
    → IsGuarded s
    → IsGuarded (admitted s (admit sha256 s a))
unfolding admit
admit-IsGuarded sha256 s a g =
    if_elim (λ r. IsGuarded (admitted s r)) s.closed _ _ (λ shut. g)
      (guard (admitted s (locked s a (authenticate sha256 s.keys a)))
        (locked-Admits s a (authenticate sha256 s.keys a) (authenticate-enabled sha256 s.keys a)))
  where
    guard : (t : State) → Admits s t → s.closed ≡ false → IsGuarded t
    guard t (inl e) o = subst IsGuarded (sym e) g
    guard t (inr (l, r, e, on, fresh)) o =
        subst IsGuarded (sym e)
          (All-push (Checked s.closed s.keys s.accounts) s.requests r g (λ x y. (o, on, inl fresh)))

update-IsGuarded :
    (s : State) (i : ℕ) (f : Request → Request)
    → ((r : Request)
        → Checked s.closed s.keys s.accounts r
        → Checked s.closed s.keys s.accounts (f r))
    → IsGuarded s
    → All (Checked s.closed s.keys s.accounts) (update_at i f s.requests)
update-IsGuarded s i f k g = All-update_at (Checked s.closed s.keys s.accounts) i f s.requests k g

register-IsGuarded :
    (s : State) (i : ℕ) (account : Text) → IsGuarded s → IsGuarded (register s i account)
unfolding register
register-IsGuarded s i account g = elim (Bool-cases (get_or false (lookup account s.accounts))) [
  | inr off ↦ rw (off, register) g
  | inl on ↦ rw (on, register) (update-IsGuarded s i _ (λ r h x y. ground (arith, h, on)) g)
]

conclude-IsGuarded : (s : State) (i : ℕ) (o : Outcome) → IsGuarded s → IsGuarded (conclude s i o)
unfolding conclude
conclude-IsGuarded s i o g = go (get_elem? s.requests i)
  where
    go : (x : Option Request) → IsGuarded (concluded s i o x)
    go none = g
    go (some r) =
        if_elim IsGuarded r.recorded _ _ (λ e. g) (λ e. update-IsGuarded s i _ (λ r h x y. cc) g)

finish-IsGuarded : (s : State) (i : ℕ) → IsGuarded s → IsGuarded (finish s i)
unfolding finish
finish-IsGuarded s i g = go (get_elem? s.requests i)
  where
    go : (x : Option Request) → IsGuarded (finished s i x)
    go none = g
    go (some r) =
        if_elim IsGuarded (r.done || not r.recorded) _ _ (λ e. g)
          (λ e. update-IsGuarded s i _ (λ r h x y. cc) g)

changed-IsGuarded :
    (s : State) (x : List KeyRow × Option Sentinel) (p : Request → Bool)
    → (x.1 ≡ none
        → (r : Request) → p r ≡ false
        → is_enabled r.key_id s.keys ≡ true
        → is_enabled r.key_id x.0 ≡ true)
    → IsGuarded s
    → IsGuarded (changed s x p).0
changed-IsGuarded s (keys, some e) p k g = g
changed-IsGuarded s (keys, none) p k g =
    Checked-cancel_where s.closed s.closed s.keys keys s.accounts s.accounts p s.requests
      (λ r miss h. (h.0, k refl r miss h.1, h.2)) g

revoke-IsGuarded : (s : State) (id : Text) → IsGuarded s → IsGuarded (revoke s id).0
unfolding revoke
revoke-IsGuarded s id g =
    if_elim (λ (r : State × Option Error). IsGuarded r.0) s.closed _ _ (λ shut. g)
      (λ up.
        changed-IsGuarded s (revoke_key s.keys id) (λ r. text_eq r.key_id id)
          (λ n r miss h. (revoke_key_lem s.keys id r.key_id (pos 0)).1 (apart r miss) ∙ h) g)
  where
    apart : (r : Request) → text_eq r.key_id id ≡ false → text_eq id r.key_id ≡ false
    apart r miss = ground (arith, text_eq_iff id r.key_id, text_eq_iff r.key_id id)

set_concurrency-IsGuarded :
    (s : State) (id : Text) (limit : ℤ) → IsGuarded s → IsGuarded (set_concurrency s id limit).0
unfolding set_concurrency
set_concurrency-IsGuarded s id limit g =
    if_elim (λ (r : State × Option Error). IsGuarded r.0) s.closed _ _ (λ shut. g)
      (λ up.
        changed-IsGuarded s (update_concurrency s.keys id limit) (λ r. false)
          (λ n r miss h. (revoke_key_lem s.keys id r.key_id limit).3 ∙ h) g)

-- A management call on an account.
on_account-IsGuarded :
    (s : State) (id : Text) (accounts : Map Bool) (p : Request → Bool) (sync : Option Error)
    → ((r : Request)
        → is_blank id ≡ false
        → p r ≡ false
        → (r.account_id ≡ []) ⊎ (lookup r.account_id s.accounts ≡ some true)
        → (r.account_id ≡ []) ⊎ (lookup r.account_id accounts ≡ some true))
    → IsGuarded s
    → IsGuarded (on_account s id accounts p sync).0
on_account-IsGuarded s id accounts p sync k g =
    let G = λ (r : State × Option Error). IsGuarded r.0 in
    if_elim G s.closed _ _ (λ shut. g)
      λ up.
        if_elim G (is_blank id) _ _ (λ blank. g)
          λ b.
            if_elim G (not (is_some (lookup id s.accounts))) _ _ (λ missing. g)
              λ y.
                Checked-cancel_where s.closed s.closed s.keys s.keys s.accounts accounts p
                  s.requests (λ r miss h. (h.0, h.1, k r b miss h.2)) g

disable-IsGuarded :
    (s : State) (id : Text) (sync : Option Error)
    → IsGuarded s
    → IsGuarded (disable_account s id sync).0
unfolding disable_account
disable-IsGuarded s id sync g =
    on_account-IsGuarded s id (insert id false s.accounts) (λ r. text_eq r.account_id id) sync
      (λ r b miss h. ground (
        arith,
        h,
        lookup-insert id r.account_id false s.accounts,
        text_eq_iff id r.account_id,
        text_eq_iff r.account_id id,
      ))
      g

delete-IsGuarded :
    (s : State) (id : Text) (sync : Option Error)
    → IsGuarded s
    → IsGuarded (delete_account s id sync).0
unfolding delete_account
delete-IsGuarded s id sync g =
    on_account-IsGuarded s id (erase id s.accounts) (λ r. text_eq r.account_id id) sync
      (λ r b miss h. ground (
        arith,
        h,
        lookup-erase id r.account_id s.accounts,
        text_eq_iff id r.account_id,
        text_eq_iff r.account_id id,
      ))
      g

kept_enabled :
    (m : Map Bool) (id j : Text)
    → (j ≡ []) ⊎ (lookup j m ≡ some true)
    → (j ≡ []) ⊎ (lookup j (insert id true m) ≡ some true)
kept_enabled m id j h = ground (arith, h, lookup-insert id j true m)

enable-IsGuarded :
    (s : State) (id : Text) (sync : Option Error)
    → IsGuarded s
    → IsGuarded (enable_account s id sync).0
unfolding enable_account
enable-IsGuarded s id sync g =
    on_account-IsGuarded s id (insert id true s.accounts) (λ r. false) sync
      (λ r b miss h. kept_enabled s.accounts id r.account_id h) g

connect-IsGuarded :
    (s : State) (id : Text)
    → IsGuarded s
    → IsGuarded (
        if is_some (lookup id s.accounts)
        then s
        else record s { accounts = insert id true s.accounts })
connect-IsGuarded s id g = elim (Bool-cases (is_some (lookup id s.accounts))) [
  | inl y ↦ rw y g
  | inr n ↦ rw n (widen s.requests g)
]
  where
    widen :
        (rs : List Request)
        → All (Checked s.closed s.keys s.accounts) rs
        → All (Checked s.closed s.keys (insert id true s.accounts)) rs
    widen [] h = tt
    widen (r ∷ rs) h = (
      λ x y. let q = h.0 x y in (q.0, q.1, kept_enabled s.accounts id r.account_id q.2),
      widen rs h.1,
    )

pub step-IsGuarded :
    (sha256 : Text → Text) (s : State) (e : Event) → IsGuarded s → IsGuarded (step sha256 s e)
unfolding step close
step-IsGuarded sha256 s (admits a) g = admit-IsGuarded sha256 s a g
step-IsGuarded sha256 s (registers i account) g = register-IsGuarded s i account g
step-IsGuarded sha256 s (attempts i account) g = update-IsGuarded s i _ (λ r h. h) g
step-IsGuarded sha256 s (responds i) g = update-IsGuarded s i _ (λ r h. h) g
step-IsGuarded sha256 s (cancels i) g = update-IsGuarded s i _ (λ r h x y. cc) g
step-IsGuarded sha256 s (concludes i o) g = conclude-IsGuarded s i o g
step-IsGuarded sha256 s (finishes i) g = finish-IsGuarded s i g
step-IsGuarded sha256 s (revokes id) g = revoke-IsGuarded s id g
step-IsGuarded sha256 s (sets_concurrency id limit) g = set_concurrency-IsGuarded s id limit g
step-IsGuarded sha256 s (disables id sync) g = disable-IsGuarded s id sync g
step-IsGuarded sha256 s (enables id sync) g = enable-IsGuarded s id sync g
step-IsGuarded sha256 s (deletes id sync) g = delete-IsGuarded s id sync g
step-IsGuarded sha256 s (connects id) g = connect-IsGuarded s id g
step-IsGuarded sha256 s closes g =
    Checked-cancel_where s.closed true s.keys s.keys s.accounts s.accounts (λ r. true) s.requests
      (λ r miss h. cc) g

pub run-IsGuarded :
    (sha256 : Text → Text) (s : State) (es : List Event) → IsGuarded s → IsGuarded (run sha256 s es)
unfolding run
run-IsGuarded sha256 s [] g = g
run-IsGuarded sha256 s (e ∷ es) g =
    run-IsGuarded sha256 (step sha256 s e) es (step-IsGuarded sha256 s e g)

-- From a new executor, in any order of admissions, attempts, cancellations, completions, management
-- calls and shutdown: a request that is neither finished nor canceled belongs to an enabled key
-- and to an account that is stored and enabled, or to none yet, and the executor is open.
pub run-new-IsGuarded :
    (sha256 : Text → Text) (keys : List KeyRow) (accounts : Map Bool) (es : List Event)
    → IsGuarded (run sha256 (new keys accounts) es)
run-new-IsGuarded sha256 keys accounts es =
    run-IsGuarded sha256 (new keys accounts) es (IsGuarded-new keys accounts)
