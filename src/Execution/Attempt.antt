-- ===== src/Execution/Attempt.antt =====
-- internal/execution/attempt.go: up to three accounts for one request.
--
-- The executor's two maps are `cooldowns` and the selector's positions. What the rest of the world
-- answers during one round of the loop is a `Round`: the clock, the store, the OAuth manager, the
-- upstream client, and whether the request's context has ended by the end of the attempt. `tried` is the loop's map, newest first; `failed` is the log of
-- `noteFailure`, newest first.
use clan.Prelude.{
  ℕ, zero, suc, ◌+◌, ◌*◌, ◌⊎◌, inl, inr, Bool, false, not, ◌&&◌, ◌||◌, Option, none, some, List, [],
  ◌∷◌, ◌++◌, ltb, if◌then◌else◌, Text, codes, text_eq, Map, lookup, insert, erase, get_or,
}
use clan.Retry.{Time, Cooldown, retry_at, no_cooldown, retry_blocked, nanos_per_second}
use clan.Account.{Account}
use clan.Storage.{AccountRecord}
use clan.Codex.Request.{Model, Request, validate_model}
use clan.Codex.Catalog.{AccountCatalog}
use clan.Selection.{RoundRobin, select}
use clan.Errors.{
  CtxError, provider_limit, Failure, no_accounts, not_found, Error, ctx, sentinel, validation, is,
  as_failure, category_eq,
}
use clan.Execution.Codes.{safe_retry, operation_error, oauth_failure, account_failure}

pub record Candidate : Type 0 where
  pub id : Text
  pub identity : Text

-- One account's models: the candidates that serve the request, and the last validation error.
unfoldable pub scan_models :
    Request → AccountCatalog → List Model → List Candidate × Text → List Candidate × Text
scan_models input c [] acc = acc
scan_models input c (m ∷ ms) (found, field) =
    let rest = λ (a : List Candidate × Text). scan_models input c ms a in
    if not (text_eq m.id input.model) then rest (found, field) else elim (validate_model input m) [
      | some f ↦ rest (found, f)
      | none ↦
          rest (found ++ record { id = c.account_id; identity = c.chatgpt_account_id } ∷ [], field)
    ]

unfoldable pub scan_accounts :
    Request → List AccountCatalog → List Candidate × Text → List Candidate × Text
scan_accounts input [] acc = acc
scan_accounts input (c ∷ cs) acc = scan_accounts input cs (scan_models input c c.models acc)

abbrev pub chosen_candidates : List AccountCatalog → List Candidate × Text → List Candidate ⊎ Error
chosen_candidates accounts (c ∷ cs, field) = inl (c ∷ cs)
chosen_candidates [] ([], field) = inr (sentinel no_accounts)
chosen_candidates (a ∷ as') ([], field) = inr (validation field)

unfoldable pub request_candidates : List AccountCatalog → Request → List Candidate ⊎ Error
request_candidates accounts input =
    chosen_candidates accounts (scan_accounts input accounts ([], codes "model"))

abbrev pub mem : Text → List Text → Bool
mem t [] = false
mem t (s ∷ ss) = text_eq s t || mem t ss

-- `time.Now().Before(e.cooldowns[id])`
abbrev pub is_cooling : Map Time → Time → Text → Bool
is_cooling cooldowns now id = ltb now (get_or 0 (lookup id cooldowns))

-- The loop of `selectAccount`: the IDs that may be tried now; their cooldowns are dropped.
unfoldable pub eligible : List Candidate → List Text → Time → Map Time → Map Time × List Text
eligible [] tried now cooldowns = (cooldowns, [])
eligible (c ∷ cs) tried now cooldowns =
    let skip = mem c.id tried || is_cooling cooldowns now c.id in
    let (left, ids) = eligible cs tried now (if skip then cooldowns else erase c.id cooldowns) in
    (left, if skip then ids else c.id ∷ ids)

unfoldable pub find_candidate : Text → List Candidate → Option Candidate
find_candidate id [] = none
find_candidate id (c ∷ cs) = if text_eq c.id id then some c else find_candidate id cs

pub record Executor : Type 0 where
  pub selector : RoundRobin
  pub cooldowns : Map Time

abbrev found : Option Text → List Candidate → Option Candidate
found none cs = none
found (some id) cs = find_candidate id cs

-- `selectAccount`, with one reading of the clock for all candidates where the source reads it for each.
unfoldable pub select_account :
    Executor → Text → List Candidate → List Text → Time → Executor × Option Candidate
select_account e model cs tried now =
    let (left, ids) = eligible cs tried now e.cooldowns in
    let (selector, id) = select e.selector model ids in
    (record { selector = selector; cooldowns = left }, found id cs)

-- One read of the stored account, with `r.ctx.Err()` at that time.
pub record Read : Type 0 where
  pub stored : AccountRecord ⊎ Error
  pub ctx_err : Option CtxError

-- `registerAccount`; `none` is nil, and then the request's account is the candidate.
unfoldable pub register_account : Candidate → Read → Option Error
register_account c r = elim r.stored [
  | inr e ↦ some (if is not_found e then account_failure else operation_error r.ctx_err e)
  | inl a ↦ elim r.ctx_err [
    | some err ↦ some (ctx err)
    | none ↦
        if not a.enabled || not (text_eq a.account.credentials.chatgpt_account_id c.identity)
        then some account_failure
        else none
  ]
]

-- `meanwhile` is what other requests do to the executor before the round.
pub record Round : Type 0 where
  pub meanwhile : Executor → Executor
  pub now : Time
  pub first : Read
  pub current : Account ⊎ Error
  pub current_ctx : Option CtxError
  pub second : Read
  pub stream : Option Error
  pub ctx_after : Option CtxError

-- `prepare`
unfoldable pub prepare : Candidate → Round → Account ⊎ Error
prepare c w = elim (register_account c w.first) [
  | some e ↦ inr e
  | none ↦ elim w.current [
    | inr e ↦ inr (oauth_failure w.current_ctx e)
    | inl a ↦
        if not (text_eq a.credentials.chatgpt_account_id c.identity)
        then inr account_failure
        else elim (register_account c w.second) [ some e ↦ inr e | none ↦ inl a ]
  ]
]

-- `prepare`, then `Client.Stream`; `none` is an open stream.
unfoldable pub attempt : Candidate → Round → Option Error
attempt c w = elim (prepare c w) [ inr e ↦ some e | inl a ↦ w.stream ]

abbrev pub minute : Time
minute = 60 * nanos_per_second

abbrev pub retry_until : Time → Cooldown → Time
retry_until now c = elim c.kind [
  | retry_at ↦ if ltb now c.until then c.until else now + minute
  | no_cooldown ↦ now + minute
  | retry_blocked ↦ now + minute
]

abbrev cool : Map Time → Time → Text → Option CtxError → Option Failure → Map Time
cool cooldowns now id (some c) f = cooldowns
cool cooldowns now id none none = cooldowns
cool cooldowns now id none (some f) =
    let until = retry_until now f.retry_after in
    if category_eq f.category provider_limit && ltb (get_or 0 (lookup id cooldowns)) until
    then insert id until cooldowns
    else cooldowns

-- `noteFailure`, less its log record.
unfoldable pub note_failure : Map Time → Time → Option CtxError → Text → Error → Map Time
note_failure cooldowns now ctx_err id e = cool cooldowns now id ctx_err (as_failure e)

-- How `open` ends: a stream on a candidate, or an error.
pub data Opened : Type 0 where
  streaming : Candidate → Opened
  failed_with : Error → Opened

pub record Loop : Type 0 where
  pub executor : Executor
  pub tried : List Text
  pub failures : List (Text × Error)
  pub last_err : Option Error

abbrev pub last_or : Option Error → Error → Error
last_or none e = e
last_or (some l) e = l

-- What the loop does after a failed attempt, given the rest of its rounds.
abbrev pub after_failure : Loop → Error → Option CtxError → Loop × Opened → Loop × Opened
after_failure l e (some c) rest = (l, failed_with (ctx c))
after_failure l e none rest = if safe_retry e then rest else (l, failed_with e)

abbrev pub failed : Loop → Candidate → Round → Error → Loop
failed l c w e = record l {
  executor = record {
    selector = l.executor.selector;
    cooldowns = note_failure l.executor.cooldowns w.now w.ctx_after c.id e;
  };
  failures = (c.id, e) ∷ l.failures;
  last_err = some e;
}

abbrev pub dispatched : Loop → Executor → Candidate → Loop
dispatched l ex c = record l { executor = ex; tried = c.id ∷ l.tried }

-- The end of a round, given what `Client.Stream` answered and the rest of the loop.
unfoldable pub attempted :
    Loop → Candidate → Round → (Loop → Loop × Opened) → Option Error → Loop × Opened
attempted l c w rest none = (l, streaming c)
attempted l c w rest (some e) = let l' = failed l c w e in after_failure l' e w.ctx_after (rest l')

unfoldable pub selected :
    Loop → Executor → Round → (Loop → Loop × Opened) → Option Candidate → Loop × Opened
selected l ex w rest none =
    (record l { executor = ex }, failed_with (last_or l.last_err (sentinel no_accounts)))
selected l ex w rest (some c) = attempted (dispatched l ex c) c w rest (attempt c w)

-- `for range 3` from the round `i` on; `rounds` says what the world answers in each.
unfoldable pub open_loop : ℕ → (ℕ → Round) → ℕ → Text → List Candidate → Loop → Loop × Opened
open_loop zero rounds i model cs l = (l, failed_with (last_or l.last_err (sentinel no_accounts)))
open_loop (suc n) rounds i model cs l =
    let w = rounds i in
    let (ex, choice) = select_account (w.meanwhile l.executor) model cs l.tried w.now in
    selected l ex w (λ l'. open_loop n rounds (i + 1) model cs l') choice

abbrev pub start : Executor → Loop
start e = record { executor = e; tried = []; failures = []; last_err = none }

-- `open`, from the catalog snapshot on.
unfoldable pub open_request : Executor → List AccountCatalog → Request → (ℕ → Round) → Loop × Opened
open_request e accounts input rounds = elim (request_candidates accounts input) [
  | inr err ↦ (start e, failed_with err)
  | inl cs ↦ open_loop 3 rounds 0 input.model cs (start e)
]
