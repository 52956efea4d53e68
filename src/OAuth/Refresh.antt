-- ===== src/OAuth/Refresh.antt =====
-- internal/codexoauth/manager.go: the refresh states of the accounts.
--
-- `states` has every refreshState that was made, oldest first; a pointer to one is its index. Each
-- critical section under the manager's mutex is one function, and the answers of the store and of the
-- provider and the readings of the clock are arguments. `running` is a non-nil `done`, `has_cancel` a
-- non-nil `cancel`, and `canceled` tells that the context of the last job was canceled.
use clan.Prelude.{
  ℕ, zero, suc, ◌+◌, ◌-◌, ◌*◌, ◌/◌, ◌%◌, ◌^◌, ◌≤◌, ◌<◌, max, min, String, ◌≡◌, refl, sym, ap, ◌∙◌,
  subst, ◌≢◌, ◌↔◌, ◌⊎◌, inl, inr, Bool, true, false, not, ◌&&◌, ◌||◌, Option, none, some, List, [],
  ◌∷◌, ◌++◌, map, arith, ltb, leb, ◌==◌, if◌then◌else◌, Bool-cases, Option-cases, is_some,
  subst_some, if_elim, all_below, all_below_sound, length, length-append, replicate, count, filter,
  count-le-length, count-append, count-set, count-strict, count_mono, count-pos, In, All, All-In,
  get_elem?, set, get_elem?-set_self, Text, codes, text_eq, text_eq_iff, text_eq_refl, text_lt,
  text_lt_irrefl, text_lt_trans, text_lt_total, text_lt_of_ge, is_blank, Map, lookup, insert, erase,
  lookup-insert, lookup-erase, get_or, ℤ, pos, negsuc, incr, decr, int_lt, is_zero, ltb→lt, lt→ltb,
  leb→le, le→leb, ==_iff, tests,
}
use clan.Retry.{Time, Cooldown, retry_at, retry_blocked, nanos_per_second}
use clan.Errors.{CtxError, Sentinel, not_found, conflict}
use clan.Account.{Account, Identity, OAuthCredentials, credentials_eq}
use clan.Storage.{AccountRecord}
use clan.Storage.Accounts.{AccountRow, read_row}
use clan.OAuth.{FailureKind, failure_rejected, failure_transient, failure_invalid_response, Failure}
pub mod Jobs
pub mod Status
pub mod Steps
pub mod Sound
pub mod Single
pub mod SignedOut
pub mod SignIn
pub mod Answers
pub mod Progress

pub record RefreshState : Type 0 where
  pub previous : AccountRecord
  pub running : Bool
  pub has_cancel : Bool
  pub canceled : Bool
  pub replacement : Option OAuthCredentials
  pub needs_sign_in : Bool
  pub retry_time : Time
  pub is_blocked : Bool

-- `closed` is `m.closed || m.lifetime.Err() != nil`; `revision` is a uint64.
pub record Refreshes : Type 0 where
  pub closed : Bool
  pub revision : ℕ
  pub current : Map ℕ
  pub states : List RefreshState

pub data ManagerError : Type 0 where
  manager_closed account_disabled sign_in_needed account_unavailable : ManagerError
  ctx_error : CtxError → ManagerError
  store_error : Sentinel → ManagerError

unfoldable pub no_refreshes : Refreshes
no_refreshes = record { closed = false; revision = 0; current = []; states = [] }

-- `==` on the Go struct.
unfoldable pub record_eq : AccountRecord → AccountRecord → Bool
record_eq a b =
    text_eq a.account.identity.id b.account.identity.id
    && text_eq a.account.identity.name b.account.identity.name
    && credentials_eq a.account.credentials b.account.credentials
    && (if a.enabled then b.enabled else not b.enabled)
    && text_eq a.revision b.revision

-- `needsSignInFor`
unfoldable pub needs_sign_in_for : Option RefreshState → AccountRecord → Bool
needs_sign_in_for none r = false
needs_sign_in_for (some s) r =
    s.needs_sign_in && credentials_eq s.previous.account.credentials r.account.credentials

unfoldable pub update : List RefreshState → ℕ → (RefreshState → RefreshState) → List RefreshState
update [] i f = []
update (s ∷ ss) zero f = f s ∷ ss
update (s ∷ ss) (suc i) f = s ∷ update ss i f

abbrev pub pointee : Refreshes → Option ℕ → Option RefreshState
pointee m none = none
pointee m (some i) = get_elem? m.states i

abbrev pub same_pointer : Option ℕ → Option ℕ → Bool
same_pointer none none = true
same_pointer (some i) (some j) = i == j
same_pointer _ _ = false

abbrev pub cancel_job : RefreshState → RefreshState
cancel_job s = if s.has_cancel then record s { canceled = true } else s

unfoldable pub canceled_at : List RefreshState → Option ℕ → List RefreshState
canceled_at ss none = ss
canceled_at ss (some i) = update ss i cancel_job

-- `invalidateLocked`
unfoldable pub invalidate_locked : Refreshes → Text → Refreshes
invalidate_locked m id = record m {
  revision = suc m.revision % 2 ^ 64;
  current = erase id m.current;
  states = canceled_at m.states (lookup id m.current);
}

abbrev pub needs_it : Option RefreshState → Bool
needs_it none = false
needs_it (some s) = s.needs_sign_in

abbrev pub put_back : Refreshes → Text → Option ℕ → Bool → Refreshes
put_back m id none b = m
put_back m id (some i) b = if b then record m { current = insert id i m.current } else m

-- What `invalidate` does to the refreshes; the flag is `preserveSignIn`.
unfoldable pub invalidate : Refreshes → Text → Bool → Refreshes
invalidate m id preserve =
    let p = lookup id m.current in
    put_back (invalidate_locked m id) id p (preserve && needs_it (pointee m p))

-- What `current` has seen before it asks the store.
pub record Seen : Type 0 where
  pub before : Option ℕ
  pub at_revision : ℕ

-- The first critical section of `current`.
unfoldable pub look : Refreshes → Option CtxError → Text → Seen ⊎ ManagerError
look m (some c) id = inr (ctx_error c)
look m none id =
    if m.closed
    then inr manager_closed
    else inl (record { before = lookup id m.current; at_revision = m.revision })

abbrev pub is_unchanged : Refreshes → Text → Seen → Bool
is_unchanged m id seen =
    same_pointer (lookup id m.current) seen.before && m.revision == seen.at_revision

pub data Taken : Type 0 where
  looks_again : Taken
  refused : ManagerError → Taken
  taken : AccountRecord → ℕ → Taken

abbrev pub is_not_found : Sentinel → Bool
is_not_found not_found = true
is_not_found _ = false

unfoldable pub new_state : AccountRecord → Bool → RefreshState
new_state r needs = record {
  previous = r;
  running = false;
  has_cancel = false;
  canceled = false;
  replacement = none;
  needs_sign_in = needs;
  retry_time = 0;
  is_blocked = false;
}

-- A new state for a record that the account's state is not about.
unfoldable pub renew : Refreshes → Text → AccountRecord → Bool → Refreshes
renew m id r needs =
    let n = invalidate_locked m id in
    record n {
      current = insert id (length n.states) n.current;
      states = n.states ++ new_state r needs ∷ [];
    }

abbrev pub is_about : Option RefreshState → AccountRecord → Bool
is_about none r = false
is_about (some s) r = record_eq s.previous r

unfoldable pub reuse : Refreshes → Text → AccountRecord → Option ℕ → Refreshes × Taken
reuse m id r none = (renew m id r false, taken r (length m.states))
reuse m id r (some i) =
    if is_about (get_elem? m.states i) r
    then (m, taken r i)
    else (renew m id r (needs_sign_in_for (get_elem? m.states i) r), taken r (length m.states))

-- The second critical section of `current`, with what GetAccount answered.
unfoldable pub take : Refreshes → Text → Seen → AccountRecord ⊎ Sentinel → Refreshes × Taken
take m id seen (inr e) = (
  if is_not_found e && is_unchanged m id seen then invalidate_locked m id else m,
  refused (store_error e),
)
take m id seen (inl r) =
    if m.closed
    then (m, refused manager_closed)
    else if not (is_unchanged m id seen)
    then (m, looks_again)
    else if not r.enabled
    then (
      if needs_sign_in_for (pointee m seen.before) r then m else invalidate_locked m id,
      refused account_disabled,
    )
    else reuse m id r seen.before
