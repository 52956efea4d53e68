-- ===== src/Login.antt =====
-- internal/codexoauth/login.go: the browser login of an account, as a state machine.
--
-- `logins` has every pendingLogin that was made, oldest first; `m.login` is the last one. Each critical
-- section under the manager's mutex is one function. `committing` is the channel `commit` while
-- finishLogin holds it; CancelLogin holds it only during its own critical section. Random texts,
-- the clock and the answers of the store and the provider are arguments.
use clan.Prelude.{
  ℕ, zero, suc, ◌+◌, ◌-◌, ◌*◌, ◌/◌, ◌%◌, ◌^◌, ◌≤◌, ◌<◌, max, min, String, ◌≡◌, refl, sym, ap, ◌∙◌,
  subst, ◌≢◌, ◌↔◌, ◌⊎◌, inl, inr, Bool, true, false, not, ◌&&◌, ◌||◌, Option, none, some, List, [],
  ◌∷◌, ◌++◌, map, arith, ltb, leb, ◌==◌, if◌then◌else◌, Bool-cases, Option-cases, is_some,
  subst_some, if_elim, all_below, all_below_sound, length, length-append, replicate, count, filter,
  count-le-length, count-append, count-set, count-strict, count_mono, count-pos, In, All, All-In,
  get_elem?, set, get_elem?-set_self, Text, codes, text_eq, text_eq_iff, text_eq_refl, text_lt,
  text_lt_irrefl, text_lt_trans, text_lt_total, text_lt_of_ge, is_blank, Map, lookup, insert, erase,
  lookup-insert, lookup-erase, get_or, ℤ, pos, negsuc, incr, decr, int_lt, is_zero, ltb→lt, lt→ltb,
  leb→le, le→leb, ==_iff, tests,
}
use clan.Retry.{Time, nanos_per_second}
use clan.Account.{Identity}
use clan.Errors.{CtxError}
use clan.Storage.{AccountRecord}
pub mod Ended
pub mod Cancellation

pub data LoginState : Type 0 where
  login_waiting login_exchanging login_succeeded login_failed login_canceled login_expired :
      LoginState

pub data LoginError : Type 0 where
  manager_closed invalid_login login_pending login_mismatch account_disabled : LoginError
  login_ctx : CtxError → LoginError

pub record LoginStatus : Type 0 where
  pub login_id : Text
  pub account_id : Text
  pub state : LoginState
  pub expires_at : Time

pub record Authorization : Type 0 where
  pub url : Text
  pub callback_state : Text
  pub verifier : Text

pub record PendingLogin : Type 0 where
  pub authorization : Authorization
  pub identity : Identity
  pub previous : Option AccountRecord
  pub status : LoginStatus
  pub committing : Bool

pub record LoginInstructions : Type 0 where
  pub login_id : Text
  pub url : Text
  pub account_id : Text
  pub expires_at : Time

-- `closed` is `m.closed || m.lifetime.Err() != nil`.
pub record Manager : Type 0 where
  pub closed : Bool
  pub logins : List PendingLogin

abbrev pub no_authorization : Authorization
no_authorization = record { url = []; callback_state = []; verifier = [] }

-- `clearSensitive`
abbrev pub clear_sensitive : PendingLogin → PendingLogin
clear_sensitive p = record {
  authorization = no_authorization;
  identity = record { id = []; name = [] };
  previous = none;
  status = p.status;
  committing = p.committing;
}

abbrev pub in_state : LoginState → PendingLogin → PendingLogin
in_state s p = record p {
  status = record {
    login_id = p.status.login_id;
    account_id = p.status.account_id;
    state = s;
    expires_at = p.status.expires_at;
  };
}

abbrev pub is_waiting : LoginState → Bool
is_waiting login_waiting = true
is_waiting _ = false

abbrev pub is_exchanging : LoginState → Bool
is_exchanging login_exchanging = true
is_exchanging _ = false

abbrev pub is_pending : LoginState → Bool
is_pending s = is_waiting s || is_exchanging s

-- A change of the last login.
unfoldable pub on_last : (PendingLogin → PendingLogin) → List PendingLogin → List PendingLogin
on_last f [] = []
on_last f (p ∷ []) = f p ∷ []
on_last f (p ∷ (q ∷ ps)) = p ∷ on_last f (q ∷ ps)

unfoldable pub last : List PendingLogin → Option PendingLogin
last [] = none
last (p ∷ []) = some p
last (p ∷ (q ∷ ps)) = last (q ∷ ps)

abbrev pub expired : Time → PendingLogin → PendingLogin
expired now p =
    if is_waiting p.status.state && not (ltb now p.status.expires_at)
    then clear_sensitive (in_state login_expired p)
    else p

-- `expireLoginLocked`
unfoldable pub expire_login : Manager → Time → Manager
expire_login m now = record m { logins = on_last (expired now) m.logins }

abbrev pub is_pending_login : Option PendingLogin → Bool
is_pending_login none = false
is_pending_login (some p) = is_pending p.status.state

abbrev login_lifetime : Time
login_lifetime = 600 * nanos_per_second

abbrev pub pending_login :
    Time → Identity → Option AccountRecord → Authorization → Text → PendingLogin
pending_login now i previous auth login_id = record {
  authorization = auth;
  identity = i;
  previous = previous;
  status = record {
    login_id = login_id;
    account_id = i.id;
    state = login_waiting;
    expires_at = now + login_lifetime;
  };
  committing = false;
}

abbrev pub opened :
    Manager
    → Time
    → Identity
    → Option AccountRecord
    → Authorization
    → Text
    → Manager × (LoginInstructions ⊎ LoginError)
opened m now i previous auth login_id =
    if is_pending_login (last m.logins) then (m, inr login_pending) else (
      record m { logins = m.logins ++ pending_login now i previous auth login_id ∷ [] },
      inl (record {
        login_id = login_id;
        url = auth.url;
        account_id = i.id;
        expires_at = now + login_lifetime;
      }),
    )

-- `startLogin`
unfoldable pub start_pending :
    Manager
    → Option CtxError
    → Time
    → Identity
    → Option AccountRecord
    → Authorization
    → Text
    → Manager × (LoginInstructions ⊎ LoginError)
start_pending m (some c) now i previous auth login_id = (m, inr (login_ctx c))
start_pending m none now i previous auth login_id =
    if m.closed
    then (m, inr manager_closed)
    else opened (expire_login m now) now i previous auth login_id

-- `StartLogin`
unfoldable pub start_login :
    Manager
    → Option CtxError
    → Time
    → Identity
    → Authorization
    → Text
    → Manager × (LoginInstructions ⊎ LoginError)
start_login m c now i auth login_id =
    if is_blank i.name then (m, inr invalid_login) else start_pending m c now i none auth login_id

-- `StartReconnect`, from the record that the store gives.
unfoldable pub start_reconnect :
    Manager
    → Option CtxError
    → Time
    → AccountRecord
    → Authorization
    → Text
    → Manager × (LoginInstructions ⊎ LoginError)
start_reconnect m c now r auth login_id =
    if m.closed
    then (m, inr manager_closed)
    else if not r.enabled
    then (m, inr account_disabled)
    else start_pending m c now r.account.identity (some r) auth login_id

abbrev pub is_latest : Manager → ℕ → Bool
is_latest m i = suc i == length m.logins

-- How a critical section of `CancelLogin` ends: with a result, or waiting for `commit`.
pub data CancelPass : Type 0 where
  answers : Option LoginError → CancelPass
  waits_commit : CancelPass

abbrev pub canceled_if_pending : PendingLogin → PendingLogin
canceled_if_pending p =
    if is_pending p.status.state then clear_sensitive (in_state login_canceled p) else p

abbrev checked : Text → Option PendingLogin → CancelPass
checked login_id none = answers (some login_mismatch)
checked login_id (some p) =
    if not (text_eq p.status.login_id login_id)
    then answers (some login_mismatch)
    else if is_pending p.status.state
    then waits_commit
    else answers none

-- The first critical section of `CancelLogin`.
unfoldable pub cancel_check : Manager → Option CtxError → Time → Text → Manager × CancelPass
cancel_check m (some c) now login_id = (m, answers (some (login_ctx c)))
cancel_check m none now login_id =
    let m' = expire_login m now in (m', checked login_id (last m'.logins))

abbrev pub is_committing : Option PendingLogin → Bool
is_committing none = false
is_committing (some p) = p.committing

-- The second one, for the login `i` that the first one found.
unfoldable pub cancel_commit : Manager → Option CtxError → Time → ℕ → Manager × CancelPass
cancel_commit m c now i =
    if is_committing (get_elem? m.logins i) then (m, waits_commit) else elim c [
      | some e ↦ (m, answers (some (login_ctx e)))
      | none ↦ if not (is_latest m i) then (m, answers (some login_mismatch)) else (
        record m { logins = on_last (λ p. canceled_if_pending (expired now p)) m.logins },
        answers none,
      )
    ]

abbrev pub claimed : PendingLogin → PendingLogin
claimed p = in_state login_exchanging (record p { authorization = no_authorization })

abbrev has_state : Text → Option PendingLogin → Bool
has_state state none = false
has_state state (some p) = is_waiting p.status.state && text_eq state p.authorization.callback_state

-- The critical section of `callback`; the flag says that the code goes to the provider.
unfoldable pub claim : Manager → Time → Text → Manager × Bool
claim m now state =
    let m' = expire_login m now in
    if m.closed || not (has_state state (last m'.logins))
    then (m', false)
    else (record m' { logins = on_last claimed m'.logins }, true)

abbrev update_login : Manager → ℕ → (PendingLogin → PendingLogin) → Option PendingLogin → Manager
update_login m i f none = m
update_login m i f (some p) = record m { logins = set m.logins i (f p) }

-- `finishLogin` takes `commit` and goes on if its login is still exchanging; a login that is not
-- keeps its fields here, which the source clears.
unfoldable pub begin_commit : Manager → ℕ → Manager
begin_commit m i =
    update_login m i
      (λ p.
        if not p.committing && is_latest m i && is_exchanging p.status.state
        then record p { committing = true }
        else p)
      (get_elem? m.logins i)

abbrev pub settled : Bool → PendingLogin → PendingLogin
settled ok p =
    if not p.committing
    then p
    else record (clear_sensitive (
        if is_exchanging p.status.state
        then in_state (if ok then login_succeeded else login_failed) p
        else p)) { committing = false }

-- Its end, after the store answered; the credentials are stored only between the two.
unfoldable pub settle : Manager → ℕ → Bool → Manager
settle m i ok = update_login m i (settled ok) (get_elem? m.logins i)

abbrev pub previous_is : Text → Option AccountRecord → Bool
previous_is id none = false
previous_is id (some r) = text_eq r.account.identity.id id

-- What `Manager.invalidate` does to the login of a disabled or deleted account.
unfoldable pub invalidate_login : Manager → Text → Manager
invalidate_login m id = record m {
  logins =
      on_last
        (λ p.
          if previous_is id p.previous && is_pending p.status.state
          then in_state login_canceled (record p { authorization = no_authorization })
          else p)
        m.logins;
}

pub data Event : Type 0 where
  starts : Option CtxError → Time → Identity → Authorization → Text → Event
  reconnects : Option CtxError → Time → AccountRecord → Authorization → Text → Event
  checks_cancel : Option CtxError → Time → Text → Event
  commits_cancel : Option CtxError → Time → ℕ → Event
  claims : Time → Text → Event
  begins_commit : ℕ → Event
  settles : ℕ → Bool → Event
  invalidates : Text → Event

unfoldable pub step : Manager → Event → Manager
step m (starts c now i auth login_id) = (start_login m c now i auth login_id).0
step m (reconnects c now r auth login_id) = (start_reconnect m c now r auth login_id).0
step m (checks_cancel c now login_id) = (cancel_check m c now login_id).0
step m (commits_cancel c now i) = (cancel_commit m c now i).0
step m (claims now state) = (claim m now state).0
step m (begins_commit i) = begin_commit m i
step m (settles i ok) = settle m i ok
step m (invalidates id) = invalidate_login m id

unfoldable pub run : Manager → List Event → Manager
run m [] = m
run m (e ∷ es) = run (step m e) es
