-- ===== src/OAuth/Refresh/Jobs.antt =====
-- internal/codexoauth/manager.go: CurrentAccount and the jobs that it starts (`refresh`).
use clan.Prelude.{
  ℕ, ◌+◌, ◌*◌, ◌⊎◌, inl, inr, Bool, true, false, not, ◌||◌, Option, none, some, ltb, if◌then◌else◌,
  is_some, get_elem?, Text, text_eq, lookup,
}
use clan.Retry.{Time, Cooldown, retry_at, retry_blocked, nanos_per_second}
use clan.Errors.{is, Error, oauth_needs_sign_in, conflict}
use clan.Account.{Account, OAuthCredentials}
use clan.Storage.{AccountRecord}
use clan.OAuth.{FailureKind, failure_transient, Failure}
use clan.OAuth.Refresh.{
  RefreshState, Refreshes, ManagerError, update, same_pointer, invalidate_locked, manager_closed,
  sign_in_needed, account_unavailable,
}

pub data Decision : Type 0 where
  asks_again : Decision
  refuses : ManagerError → Decision
  answers : Account → Decision
  waits_for : ℕ → Decision

-- The three readings of the clock, in their order.
pub record Clock : Type 0 where
  pub first : Time
  pub second : Time
  pub third : Time

abbrev pub refresh_margin : Time
refresh_margin = 300 * nanos_per_second

abbrev pub start_job : RefreshState → RefreshState
start_job s =
    if s.running then s else record s { running = true; has_cancel = true; canceled = false }

-- Whether the credentials are served without a refresh, for better or worse.
unfoldable pub is_settled : RefreshState → OAuthCredentials → Bool → Clock → Bool
is_settled s c waited t =
    ltb (t.first + refresh_margin) c.expires_at
    || waited
    || s.is_blocked
    || ltb t.second s.retry_time

abbrev pub served : RefreshState → AccountRecord → Clock → Decision
served s r t =
    if is_some s.replacement || not (ltb t.third r.account.credentials.expires_at)
    then refuses account_unavailable
    else answers r.account

unfoldable pub decide_state :
    Refreshes → AccountRecord → ℕ → Option RefreshState → Bool → Clock → Refreshes × Decision
decide_state m r i none waited t = (m, asks_again)
decide_state m r i (some s) waited t =
    if s.needs_sign_in
    then (m, refuses sign_in_needed)
    else if is_settled s r.account.credentials waited t
    then (m, served s r t)
    else (record m { states = update m.states i start_job }, waits_for i)

-- The critical section of `CurrentAccount`, and what it does with it.
unfoldable pub decide : Refreshes → Text → AccountRecord → ℕ → Bool → Clock → Refreshes × Decision
decide m id r i waited t =
    if m.closed
    then (m, refuses manager_closed)
    else if not (same_pointer (lookup id m.current) (some i))
    then (m, asks_again)
    else decide_state m r i (get_elem? m.states i) waited t

pub data RefreshError : Type 0 where
  must_sign_in : RefreshError
  token_failure : Failure → RefreshError
  not_stored : Error → RefreshError

abbrev pub of_client : OAuthCredentials ⊎ Failure → OAuthCredentials ⊎ RefreshError
of_client (inl c) = inl c
of_client (inr f) = inr (token_failure f)

-- The credentials of a job: those that could not be stored before, or new ones.
unfoldable pub chosen :
    RefreshState → Time → OAuthCredentials ⊎ Failure → OAuthCredentials ⊎ RefreshError
chosen s now answer = elim s.replacement [
  | some c ↦ if ltb now c.expires_at then inl c else inr must_sign_in
  | none ↦ of_client answer
]

abbrev pub for_account :
    OAuthCredentials → OAuthCredentials ⊎ RefreshError → OAuthCredentials ⊎ RefreshError
for_account previous (inr e) = inr e
for_account previous (inl c) =
    if text_eq c.chatgpt_account_id previous.chatgpt_account_id then inl c else inr must_sign_in

unfoldable pub candidate :
    RefreshState → Time → OAuthCredentials ⊎ Failure → OAuthCredentials ⊎ RefreshError
candidate s now answer = for_account s.previous.account.credentials (chosen s now answer)

-- How a job ends: stored, or with an error and the credentials that are still to be stored.
pub data Outcome : Type 0 where
  stored : Outcome
  failed : RefreshError → Option OAuthCredentials → Outcome

-- The outcome, with what ReplaceAccountCredentialsIfUnchanged answers for a candidate.
unfoldable pub outcome : OAuthCredentials ⊎ RefreshError → Option Error → Outcome
outcome (inr e) answer = failed e none
outcome (inl c) none = stored
outcome (inl c) (some e) = failed (not_stored e) (if is conflict e then none else some c)

abbrev pub is_transient : FailureKind → Bool
is_transient failure_transient = true
is_transient _ = false

unfoldable pub asks_sign_in : RefreshError → Bool
asks_sign_in must_sign_in = true
asks_sign_in (token_failure f) = not (is_transient f.kind)
asks_sign_in (not_stored e) = is oauth_needs_sign_in e

abbrev pub cooldown_end : Cooldown → Time → Time
cooldown_end c t = elim c.kind [ retry_at ↦ (if ltb t c.until then c.until else t) | _ ↦ t ]

abbrev pub is_blocking : Cooldown → Bool
is_blocking c = elim c.kind [ retry_blocked ↦ true | _ ↦ false ]

abbrev pub retry_gap : Time
retry_gap = 60 * nanos_per_second

abbrev pub retry_after_error : RefreshError → Time → Time
retry_after_error (token_failure f) now = cooldown_end f.retry_after (now + retry_gap)
retry_after_error e now = now + retry_gap

abbrev pub blocked_by : RefreshError → Bool
blocked_by (token_failure f) = is_blocking f.retry_after
blocked_by e = false

-- What a job that failed leaves in its state.
unfoldable pub failed_state :
    RefreshError → Option OAuthCredentials → Time → RefreshState → RefreshState
failed_state e replacement now s =
    let sign_in = asks_sign_in e in
    record s {
      replacement = replacement;
      needs_sign_in = sign_in;
      retry_time = if sign_in then 0 else retry_after_error e now;
      is_blocked = if sign_in then false else blocked_by e;
    }

abbrev pub stop_job : RefreshState → RefreshState
stop_job s = record s { running = false }

-- The critical section of `refresh`.
unfoldable pub finish : Refreshes → Text → ℕ → Outcome → Time → Refreshes
finish m id i o now =
    let n = record m { states = update m.states i stop_job } in
    if not (same_pointer (lookup id m.current) (some i)) then n else elim o [
      | stored ↦ invalidate_locked n id
      | failed e replacement ↦ record n {
        states = update n.states i (failed_state e replacement now);
      }
    ]
