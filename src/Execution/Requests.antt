-- ===== src/Execution/Requests.antt =====
-- internal/execution: admission, completion, management and shutdown (execution.go, stream.go,
-- management.go), as steps of one state.
--
-- The executor's gate and mutex make each function below one step. `requests` is the heap of
-- request states, a request being its index; the set `e.active` is the requests that are not
-- `done`, since `finish` takes a request out of it exactly when it closes `done`; `recorded` says
-- that its `once` has run. `keys` and
-- `accounts` are the store's tables, of an account what registration reads: whether its row is
-- there and enabled. Contexts, the clock and database errors are arguments of the steps. Waiting
-- for `done` channels changes no state.
use clan.Prelude.{
  ℕ, zero, suc, ◌-◌, ◌⊎◌, inl, inr, Bool, true, false, not, ◌&&◌, ◌||◌, Option, none, some, List,
  [], ◌∷◌, ◌++◌, ◌==◌, if◌then◌else◌, is_some, length, get_elem?, Text, codes, text_eq, is_blank,
  Map, lookup, insert, erase, get_or, ℤ,
}
use clan.Retry.{Time}
use clan.Concurrency.{Limiter, LimitError, Slot, try_acquire, release}
use clan.Concurrency
use clan.AccessKey.{hash}
use clan.Storage.{AccessKeyRecord}
use clan.Storage.Keys.{KeyRow, find_key, revoke_key, update_concurrency}
use clan.Errors.{
  CtxError, Sentinel, unauthorized, closed, limit_reached, delivery, not_found, invalid, Error, ctx,
  sentinel, other, is,
}
use clan.Execution.Codes.{operation_error, result_code}
use clan.Account.{Snapshot}

pub record Request : Type 0 where
  pub canceled : Bool
  pub done : Bool
  pub recorded : Bool
  pub key_id : Text
  pub account_id : Text
  pub last_attempt : Text
  pub id : Text
  pub model : Text
  pub started : Time
  pub slot : Slot
  pub response_started : Bool

-- storage.RequestRecord
pub record RequestRecord : Type 0 where
  pub id : Text
  pub finished_at : Time
  pub key_id : Text
  pub account_id : Text
  pub model : Text
  pub result : Text
  pub duration : Time
  pub response_started : Bool
  pub usage : Snapshot

pub record State : Type 0 where
  pub closed : Bool
  pub limiter : Limiter
  pub requests : List Request
  pub keys : List KeyRow
  pub accounts : Map Bool
  pub records : List RequestRecord

-- What `admit` is called with and reads from outside.
pub record Admission : Type 0 where
  pub raw_key : Text
  pub id : Text
  pub started : Time
  pub model : Text
  pub now : Time
  pub ctx_auth : Option CtxError
  pub store_err : Option Error
  pub ctx_lock : Option CtxError

-- `time.Now()` for a zero start time.
abbrev start_time : Admission → Time
start_time a = if a.started == 0 then a.now else a.started

abbrev pub new_request : Admission → Text → Slot → Request
new_request a key_id slot = record {
  canceled = false;
  done = false;
  recorded = false;
  key_id = key_id;
  account_id = [];
  last_attempt = [];
  id = a.id;
  model = a.model;
  started = start_time a;
  slot = slot;
  response_started = false;
}

abbrev pub limit_error : LimitError → Error
limit_error Concurrency.limit_reached = sentinel limit_reached
limit_error Concurrency.key_id_required = other (codes "access key id is required")
limit_error Concurrency.invalid_limit = other (codes "limit must be Unlimited or nonnegative")

abbrev pub enabled_record : AccessKeyRecord → AccessKeyRecord ⊎ Error
enabled_record r = if r.key.enabled then inl r else inr (sentinel unauthorized)

-- How `authenticate` reads the store's answer.
abbrev pub store_answer : Option CtxError → AccessKeyRecord ⊎ Sentinel → AccessKeyRecord ⊎ Error
store_answer c (inl r) = enabled_record r
store_answer c (inr not_found) = inr (sentinel unauthorized)
store_answer c (inr e) = inr (operation_error c (sentinel e))

abbrev pub registered :
    State → Admission → Text → Limiter × Slot × Option LimitError → State × ℕ ⊎ Error
registered s a key_id (l, slot, some e) = inr (limit_error e)
registered s a key_id (l, slot, none) = inl (
  record s { limiter = l; requests = s.requests ++ new_request a key_id slot ∷ [] },
  length s.requests,
)

-- Under the mutex, after authentication.
abbrev pub under_lock : State → Admission → AccessKeyRecord → Option CtxError → State × ℕ ⊎ Error
under_lock s a r (some c) = inr (ctx c)
under_lock s a r none =
    registered s a r.key.identity.id (try_acquire s.limiter r.key.identity.id r.concurrency_limit)

abbrev pub locked : State → Admission → AccessKeyRecord ⊎ Error → State × ℕ ⊎ Error
locked s a (inr e) = inr e
locked s a (inl r) = under_lock s a r a.ctx_lock

module _ (sha256 : Text → Text) where
  -- `authenticate`; `store_err` is a failure of the database.
  unfoldable pub authenticate : List KeyRow → Admission → AccessKeyRecord ⊎ Error
  authenticate keys a = elim (hash sha256 a.raw_key) [
    | none ↦ inr (sentinel unauthorized)
    | some h ↦ elim a.store_err [
      | some e ↦
          inr (if is not_found e then sentinel unauthorized else operation_error a.ctx_auth e)
      | none ↦ store_answer a.ctx_auth (find_key keys h)
    ]
  ]

  -- `admit`: the new state and the request, or an error and no change.
  unfoldable pub admit : State → Admission → State × ℕ ⊎ Error
  admit s a = if s.closed then inr (sentinel closed) else locked s a (authenticate s.keys a)

-- The state after an admission that may have failed.
abbrev pub admitted : State → State × ℕ ⊎ Error → State
admitted s (inl (t, i)) = t
admitted s (inr e) = s

abbrev pub update_at : ℕ → (Request → Request) → List Request → List Request
update_at i f [] = []
update_at zero f (r ∷ rs) = f r ∷ rs
update_at (suc i) f (r ∷ rs) = r ∷ update_at i f rs

-- `registerAccount` succeeding for a request: its row is there and enabled, its context lives.
unfoldable pub register : State → ℕ → Text → State
register s i account =
    if get_or false (lookup account s.accounts)
    then record s {
      requests =
          update_at i (λ r. if r.canceled || r.done then r else record r { account_id = account })
            s.requests;
    }
    else s

-- What an attempt that ends tells `Stream.finish`, and whether `InsertRequest` stores its record.
pub record Outcome : Type 0 where
  pub now : Time
  pub status : Text
  pub usage : Snapshot
  pub err : Option Error
  pub delivery_failed : Bool
  pub ctx_err : Option CtxError
  pub stored : Bool

-- The error that `Stream.finish` reports: cancellation before delivery before the attempt's own.
unfoldable pub final_error : Outcome → Option Error
final_error o = elim o.ctx_err [
  | some c ↦ some (ctx c)
  | none ↦ if o.delivery_failed then some (sentinel delivery) else o.err
]

abbrev record_of : Request → Outcome → RequestRecord
record_of r o = record {
  id = r.id;
  finished_at = o.now;
  key_id = r.key_id;
  account_id = r.last_attempt;
  model = r.model;
  result = result_code o.status (final_error o);
  duration = o.now - r.started;
  response_started = r.response_started;
  usage = o.usage;
}

abbrev pub concluded : State → ℕ → Outcome → Option Request → State
concluded s i o none = s
concluded s i o (some r) = if r.recorded then s else record s {
  requests = update_at i (λ r. record r { canceled = true; recorded = true }) s.requests;
  records = if o.stored then record_of r o ∷ s.records else s.records;
}

-- `Stream.finish` with the first half of `Executor.finish`: the request is canceled and its record
-- is written; a record that cannot be stored is dropped. `once` lets this happen only once.
unfoldable pub conclude : State → ℕ → Outcome → State
conclude s i o = concluded s i o (get_elem? s.requests i)

abbrev pub finished : State → ℕ → Option Request → State
finished s i none = s
finished s i (some r) = if r.done || not r.recorded then s else record s {
  limiter = release s.limiter r.slot;
  requests = update_at i (λ r. record r { done = true }) s.requests;
}

-- The second critical section of `Executor.finish`, which follows the first half once.
unfoldable pub finish : State → ℕ → State
finish s i = finished s i (get_elem? s.requests i)

-- The loop of `change` over the active requests.
unfoldable pub cancel_where : (Request → Bool) → List Request → List Request
cancel_where p [] = []
cancel_where p (r ∷ rs) =
    (if not r.done && p r then record r { canceled = true } else r) ∷ cancel_where p rs

abbrev pub changed : State → List KeyRow × Option Sentinel → (Request → Bool) → State × Option Error
changed s (keys, some e) p = (s, some (sentinel e))
changed s (keys, none) p = (record s { keys = keys; requests = cancel_where p s.requests }, none)

-- `RevokeKey` and `SetConcurrency`, through `change`.
unfoldable pub revoke : State → Text → State × Option Error
revoke s id =
    if s.closed
    then (s, some (sentinel closed))
    else changed s (revoke_key s.keys id) (λ r. text_eq r.key_id id)

unfoldable pub set_concurrency : State → Text → ℤ → State × Option Error
set_concurrency s id limit =
    if s.closed
    then (s, some (sentinel closed))
    else changed s (update_concurrency s.keys id limit) (λ r. false)

-- A management call on an account that is not stored fails and changes nothing. What syncCatalog
-- answers after the change is the answer of a call that went through.
abbrev pub on_account :
    State → Text → Map Bool → (Request → Bool) → Option Error → State × Option Error
on_account s id accounts p sync =
    if s.closed
    then (s, some (sentinel closed))
    else if is_blank id
    then (s, some (sentinel invalid))
    else if not (is_some (lookup id s.accounts))
    then (s, some (sentinel not_found))
    else (record s { accounts = accounts; requests = cancel_where p s.requests }, sync)

unfoldable pub disable_account : State → Text → Option Error → State × Option Error
disable_account s id sync =
    on_account s id (insert id false s.accounts) (λ r. text_eq r.account_id id) sync

unfoldable pub enable_account : State → Text → Option Error → State × Option Error
enable_account s id sync = on_account s id (insert id true s.accounts) (λ r. false) sync

unfoldable pub delete_account : State → Text → Option Error → State × Option Error
delete_account s id sync = on_account s id (erase id s.accounts) (λ r. text_eq r.account_id id) sync

-- `Close`
unfoldable pub close : State → State
close s = record s { closed = true; requests = cancel_where (λ r. true) s.requests }

-- Everything that can happen to the state. `connects` is a login that stores a new account;
-- `cancels` is a client that goes away; `attempts` and `responds` are the request's own marks.
pub data Event : Type 0 where
  admits : Admission → Event
  registers : ℕ → Text → Event
  attempts : ℕ → Text → Event
  responds cancels : ℕ → Event
  concludes : ℕ → Outcome → Event
  finishes : ℕ → Event
  revokes : Text → Event
  sets_concurrency : Text → ℤ → Event
  disables enables deletes : Text → Option Error → Event
  connects : Text → Event
  closes : Event

module _ (sha256 : Text → Text) where
  unfoldable pub step : State → Event → State
  step s (admits a) = admitted s (admit sha256 s a)
  step s (registers i account) = register s i account
  step s (attempts i account) = record s {
    requests = update_at i (λ r. record r { last_attempt = account }) s.requests;
  }
  step s (responds i) = record s {
    requests = update_at i (λ r. record r { response_started = true }) s.requests;
  }
  step s (cancels i) = record s {
    requests = update_at i (λ r. record r { canceled = true }) s.requests;
  }
  step s (concludes i o) = conclude s i o
  step s (finishes i) = finish s i
  step s (revokes id) = (revoke s id).0
  step s (sets_concurrency id limit) = (set_concurrency s id limit).0
  step s (disables id sync) = (disable_account s id sync).0
  step s (enables id sync) = (enable_account s id sync).0
  step s (deletes id sync) = (delete_account s id sync).0
  step s (connects id) =
      if is_some (lookup id s.accounts)
      then s
      else record s { accounts = insert id true s.accounts }
  step s closes = close s

  unfoldable pub run : State → List Event → State
  run s [] = s
  run s (e ∷ es) = run (step s e) es

-- A new executor over stored keys and accounts.
unfoldable pub new : List KeyRow → Map Bool → State
new keys accounts = record {
  closed = false;
  limiter = Concurrency.new;
  requests = [];
  keys = keys;
  accounts = accounts;
  records = [];
}
