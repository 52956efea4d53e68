-- ===== src/OAuth/Refresh/Status.antt =====
-- internal/codexoauth/manager.go: the status of an account.
use clan.Prelude.{not, Option, none, some, ltb, if◌then◌else◌, is_some, lookup}
use clan.Retry.{Time}
use clan.Account.{Identity}
use clan.Storage.{AccountRecord}
use clan.OAuth.Refresh.{RefreshState, Refreshes, record_eq, needs_sign_in_for, pointee}

pub data AccountState : Type 0 where
  state_connected state_refreshing state_unavailable state_needs_sign_in state_disabled :
      AccountState

pub record AccountStatus : Type 0 where
  pub identity : Identity
  pub state : AccountState
  pub expires_at : Time
  pub retry_time : Time

abbrev pub by_expiry : AccountRecord → Time → AccountState
by_expiry r now =
    if ltb now r.account.credentials.expires_at then state_connected else state_unavailable

abbrev pub job_state : RefreshState → AccountState → AccountState
job_state s d =
    if s.running then state_refreshing else if is_some s.replacement then state_unavailable else d

abbrev pub status_with : AccountRecord → AccountState → Time → AccountStatus
status_with r s t = record {
  identity = r.account.identity;
  state = s;
  expires_at = r.account.credentials.expires_at;
  retry_time = t;
}

abbrev pub state_status : AccountRecord → Option RefreshState → AccountState → AccountStatus
state_status r none d = status_with r d 0
state_status r (some s) d =
    if record_eq s.previous r then status_with r (job_state s d) s.retry_time else status_with r d 0

-- `statusLocked`
unfoldable pub status_locked : Refreshes → AccountRecord → Time → AccountStatus
status_locked m r now =
    let p = pointee m (lookup r.account.identity.id m.current) in
    if not r.enabled
    then status_with r state_disabled 0
    else if needs_sign_in_for p r
    then status_with r state_needs_sign_in 0
    else state_status r p (by_expiry r now)
