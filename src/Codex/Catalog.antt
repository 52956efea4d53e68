-- ===== src/Codex/Catalog.antt =====
-- internal/codex/catalog.go: which models the enabled accounts serve, and when they are fetched again.
--
-- An entry of the map is the Go object that a refresh holds a pointer to: `born` counts the call of
-- SetAccounts that made it, so two entries for one ID are told apart. A refresh job is its place in
-- `jobs`, which keeps what its goroutine captured. `canceled` lists the jobs whose context was
-- cancelled. What a fetch answers is a parameter, with a number that tells fetches apart.
use clan.Prelude.{
  ℕ, zero, suc, ◌+◌, ◌-◌, ◌*◌, ◌/◌, ◌%◌, ◌^◌, ◌≤◌, ◌<◌, max, min, String, ◌≡◌, refl, sym, ap, ◌∙◌,
  subst, ◌≢◌, ◌↔◌, ◌⊎◌, inl, inr, Bool, true, false, not, ◌&&◌, ◌||◌, Option, none, some, List, [],
  ◌∷◌, ◌++◌, map, arith, ltb, leb, ◌==◌, if◌then◌else◌, Bool-cases, Option-cases, is_some,
  subst_some, if_elim, all_below, all_below_sound, length, length-append, replicate, count, filter,
  count-le-length, count-append, count-set, count-strict, count_mono, count-pos, In, All, All-In,
  get_elem?, set, get_elem?-set_self, Text, codes, text_eq, text_eq_iff, text_eq_refl, text_lt,
  text_lt_irrefl, text_lt_trans, text_lt_total, text_lt_of_ge, is_blank, Map, lookup, insert, erase,
  lookup-insert, lookup-erase, get_or, ℤ, pos, negsuc, incr, decr, int_lt, is_zero, ltb→lt, lt→ltb,
  leb→le, le→leb, ==_iff, tests,
}
use clan.Retry.{Time, nanos_per_second, unrestricted}
use clan.Account.{Account, credentials_eq, validate_credentials}
use clan.Codex.Request.{Model, is_empty}
use clan.Errors.{
  CtxError, Category, transport_failure, provider_limit, category_eq, Failure, plain_failure, Error,
  ctx, sentinel, other, catalog_closed, catalog_unavailable, as_failure,
}
pub mod Refresh
pub mod Gaps
pub mod Entries
pub mod Identities
pub mod Members

abbrev pub catalog_ttl : Time
catalog_ttl = 300 * nanos_per_second

abbrev pub catalog_initial_retry : Time
catalog_initial_retry = nanos_per_second

-- `retryGap`
unfoldable pub retry_gap : ℕ → Time
retry_gap failures =
    if leb failures 1
    then catalog_initial_retry
    else if ltb 9 failures
    then catalog_ttl
    else (let gap = catalog_initial_retry * 2 ^ (failures - 1) in
        if ltb catalog_ttl gap then catalog_ttl else gap)

pub record Entry : Type 0 where
  pub born : ℕ
  pub account : Account
  pub models : List Model
  pub loaded : Bool
  pub ever_loaded : Bool
  pub failure : Option Failure
  pub failures : ℕ
  pub next_refresh : Time
  pub refresh : Option ℕ

pub record Job : Type 0 where
  pub id : Text
  pub born : ℕ
  pub account : Account

pub record Catalog : Type 0 where
  pub closed : Bool
  pub entries : Map Entry
  pub calls : ℕ
  pub jobs : List Job
  pub canceled : List ℕ

pub record AccountCatalog : Type 0 where
  pub account_id : Text
  pub chatgpt_account_id : Text
  pub models : List Model
  pub loaded : Bool
  pub failure : Option Failure

pub record CatalogSnapshot : Type 0 where
  pub accounts : List AccountCatalog
  pub listed : List Model

-- `NewCatalog`
unfoldable pub new : Catalog
new = record { closed = false; entries = []; calls = 0; jobs = []; canceled = [] }

-- The map `active` of `SetAccounts`, or its refusal.
unfoldable pub activate : List Account → Map Account → Map Account ⊎ Error
activate [] active = inl active
activate (a ∷ accounts) active =
    if is_empty a.identity.id || is_some (validate_credentials a.credentials)
    then inr (other (codes "invalid catalog account"))
    else if is_some (lookup a.identity.id active)
    then inr (other (codes "duplicate catalog account"))
    else activate accounts (insert a.identity.id a active)

abbrev pub chatgpt_id : Account → Text
chatgpt_id a = a.credentials.chatgpt_account_id

abbrev pub job_list : Option ℕ → List ℕ
job_list none = []
job_list (some i) = i ∷ []

-- What `SetAccounts` does to an entry whose account stays.
unfoldable pub updated : Entry → Account → Entry
updated e a =
    if credentials_eq e.account.credentials a.credentials
    then record e { account = a }
    else (let same = text_eq (chatgpt_id e.account) (chatgpt_id a) in
        record {
          born = e.born;
          account = a;
          models = if same then e.models else [];
          loaded = if same then e.loaded else false;
          ever_loaded = if same then e.ever_loaded else false;
          failure = none;
          failures = 0;
          next_refresh = 0;
          refresh = none;
        })

-- The first loop over the entries, with the jobs that it cancels.
unfoldable pub retained : Map Account → Map Entry → Map Entry × List ℕ
retained active [] = ([], [])
retained active ((id, e) ∷ es) =
    let (rest, canceled) = retained active es in
    elim (lookup id active) [
      | none ↦ (rest, job_list e.refresh ++ canceled)
      | some a ↦ (
        (id, updated e a) ∷ rest,
        (if credentials_eq e.account.credentials a.credentials
            then canceled
            else job_list e.refresh ++ canceled),
      )
    ]

abbrev pub entry_of : ℕ → Account → Entry
entry_of born a = record {
  born = born;
  account = a;
  models = [];
  loaded = false;
  ever_loaded = false;
  failure = none;
  failures = 0;
  next_refresh = 0;
  refresh = none;
}

-- The second loop: entries for the accounts that have none.
unfoldable pub added : ℕ → Map Account → Map Entry → Map Entry
added born [] entries = entries
added born ((id, a) ∷ active) entries =
    let rest = added born active entries in
    if is_some (lookup id rest) then rest else insert id (entry_of born a) rest

abbrev pub with_accounts : Catalog → Map Account ⊎ Error → Catalog × Option Error
with_accounts c (inr e) = (c, some e)
with_accounts c (inl active) =
    let (kept, canceled) = retained active c.entries in
    (
      record c {
        entries = added c.calls active kept;
        calls = suc c.calls;
        canceled = canceled ++ c.canceled;
      },
      none,
    )

-- `SetAccounts`
unfoldable pub set_accounts : Catalog → List Account → Catalog × Option Error
set_accounts c accounts =
    if c.closed then (c, some (sentinel catalog_closed)) else with_accounts c (activate accounts [])
