-- ===== src/Codex/Catalog/Refresh.antt =====
-- internal/codex/catalog.go: Snapshot, refresh and Close, and histories of them.
use clan.Prelude.{
  ℕ, suc, ◌+◌, ◌⊎◌, inl, inr, Bool, true, false, not, ◌&&◌, ◌||◌, Option, none, some, List, [], ◌∷◌,
  ◌++◌, map, ltb, leb, ◌==◌, if◌then◌else◌, is_some, length, get_elem?, Text, text_eq, text_lt, Map,
  lookup, insert,
}
use clan.Retry.{Time}
use clan.Account.{Account}
use clan.Codex.Request.{Model}
use clan.Errors.{
  CtxError, transport_failure, provider_limit, category_eq, Failure, plain_failure, Error, ctx,
  sentinel, catalog_closed, catalog_unavailable, as_failure,
}
use clan.Codex.Catalog.{
  Entry, Job, Catalog, AccountCatalog, CatalogSnapshot, catalog_ttl, retry_gap, set_accounts,
  chatgpt_id, job_list,
}

abbrev pub is_due : Entry → Time → Bool
is_due e now = not (is_some e.refresh) && not (ltb now e.next_refresh)

abbrev pub started : Catalog → Text → Time → Option Entry → Catalog
started c id now none = c
started c id now (some e) =
    if is_due e now
    then record c {
      entries =
          insert id (record e { refresh = some (length c.jobs); next_refresh = now + catalog_ttl })
            c.entries;
      jobs = c.jobs ++ record { id = id; born = e.born; account = e.account } ∷ [];
    }
    else c

-- One round of `Snapshot`'s loop over the entries: a refresh that is due starts.
unfoldable pub start_refresh : Catalog → Text → Time → Catalog
start_refresh c id now = started c id now (lookup id c.entries)

-- The loop, with a reading of the clock for each entry.
unfoldable pub start_due : (Text → Time) → List Text → Catalog → Catalog
start_due clock [] c = c
start_due clock (id ∷ ids) c = start_due clock ids (start_refresh c id (clock id))

abbrev pub keys_of : Map Entry → List Text
keys_of m = map (λ p. p.0) m

-- The jobs that the snapshot waits for.
unfoldable pub waits : Map Entry → List ℕ
waits [] = []
waits ((id, e) ∷ es) = job_list e.refresh ++ waits es

-- `slices.Sorted`, and `sort.Slice` by the models' IDs.
unfoldable pub insert_id : Text → List Text → List Text
insert_id t [] = t ∷ []
insert_id t (s ∷ ss) = if text_lt s t then s ∷ insert_id t ss else t ∷ s ∷ ss

unfoldable pub sort_ids : List Text → List Text
sort_ids [] = []
sort_ids (t ∷ ts) = insert_id t (sort_ids ts)

unfoldable pub insert_model : Model → List Model → List Model
insert_model m [] = m ∷ []
insert_model m (n ∷ ns) = if text_lt n.id m.id then n ∷ insert_model m ns else m ∷ n ∷ ns

unfoldable pub sort_models : List Model → List Model
sort_models [] = []
sort_models (m ∷ ms) = insert_model m (sort_models ms)

abbrev pub account_catalog : Text → Entry → AccountCatalog
account_catalog id e = record {
  account_id = id;
  chatgpt_account_id = chatgpt_id e.account;
  models = e.models;
  loaded = e.loaded;
  failure = e.failure;
}

abbrev pub catalog_at : Text → Option Entry → List AccountCatalog
catalog_at id none = []
catalog_at id (some e) = account_catalog id e ∷ []

unfoldable pub catalogs : List Text → Map Entry → List AccountCatalog
catalogs [] es = []
catalogs (id ∷ ids) es = catalog_at id (lookup id es) ++ catalogs ids es

unfoldable pub has_model : Text → List Model → Bool
has_model id [] = false
has_model id (m ∷ ms) = text_eq m.id id || has_model id ms

-- The visible models of one account that are not listed yet.
unfoldable pub union : List Model → List Model → List Model
union seen [] = seen
union seen (m ∷ ms) =
    let more = m.listed && not (has_model m.id seen) in
    union (if more then seen ++ m ∷ [] else seen) ms

unfoldable pub union_all : List Model → List AccountCatalog → List Model
union_all seen [] = seen
union_all seen (a ∷ as') = union_all (union seen a.models) as'

unfoldable pub any_loaded : List AccountCatalog → Bool
any_loaded [] = false
any_loaded (a ∷ as') = a.loaded || any_loaded as'

unfoldable pub any_failed : List AccountCatalog → Bool
any_failed [] = false
any_failed (a ∷ as') = is_some a.failure || any_failed as'

-- What `Snapshot` returns when it waits for nothing.
unfoldable pub view : Map Entry → CatalogSnapshot × Option Error
view es =
    let accounts = catalogs (sort_ids (keys_of es)) es in
    (
      record { accounts = accounts; listed = sort_models (union_all [] accounts) },
      if any_failed accounts && not (any_loaded accounts)
          then some (sentinel catalog_unavailable)
          else none,
    )

-- One pass of `Snapshot`: it fails, it waits for jobs before the next pass, or it returns.
pub data Pass : Type 0 where
  fails : Error → Pass
  waits_for : List ℕ → Pass
  returns : CatalogSnapshot → Option Error → Pass

abbrev pub pass_of : Map Entry → List ℕ → Pass
pass_of es (j ∷ js) = waits_for (j ∷ js)
pass_of es [] = let (s, e) = view es in returns s e

abbrev pub open_pass : Catalog → Catalog × Pass
open_pass c = (c, pass_of c.entries (waits c.entries))

unfoldable pub snapshot_pass : Catalog → Option CtxError → (Text → Time) → Catalog × Pass
snapshot_pass c (some e) clock = (c, fails (ctx e))
snapshot_pass c none clock =
    if c.closed
    then (c, fails (sentinel catalog_closed))
    else open_pass (start_due clock (keys_of c.entries) c)

-- The failure that an error stands for.
abbrev failure_of : Option Failure → Failure
failure_of none = plain_failure transport_failure false
failure_of (some f) = f

abbrev is_transient : Failure → Bool
is_transient f =
    category_eq f.category transport_failure
    || category_eq f.category provider_limit
    || leb 500 f.http_status

-- What a refresh makes of its entry.
unfoldable pub refreshed : Entry → Time → List Model ⊎ Error → Entry
refreshed e now (inl models) = record {
  born = e.born;
  account = e.account;
  models = models;
  loaded = true;
  ever_loaded = true;
  failure = none;
  failures = 0;
  next_refresh = now + catalog_ttl;
  refresh = none;
}
refreshed e now (inr err) =
    let f = failure_of (as_failure err) in
    record {
      born = e.born;
      account = e.account;
      models = if is_transient f then e.models else [];
      loaded = if is_transient f then e.loaded else false;
      ever_loaded = e.ever_loaded;
      failure = some f;
      failures = if e.ever_loaded then e.failures else suc e.failures;
      next_refresh = now + (if e.ever_loaded then catalog_ttl else retry_gap (suc e.failures));
      refresh = none;
    }

-- `c.accounts[id] == entry && entry.refresh == job`
abbrev is_current : ℕ → Job → Entry → Bool
is_current i j e = e.born == j.born && elim e.refresh [ none ↦ false | some k ↦ k == i ]

abbrev pub completed_at : Catalog → ℕ → Job → Time → List Model ⊎ Error → Option Entry → Catalog
completed_at c i j now answer none = c
completed_at c i j now answer (some e) =
    if is_current i j e
    then record c { entries = insert j.id (refreshed e now answer) c.entries }
    else c

abbrev pub completed :
    (Account → ℕ → List Model ⊎ Error) → Catalog → ℕ → Time → ℕ → Option Job → Catalog
completed fetch c i now n none = c
completed fetch c i now n (some j) =
    completed_at c i j now (fetch j.account n) (lookup j.id c.entries)

-- `Close`, less its waiting.
unfoldable pub close : Catalog → Catalog
close c = record c { closed = true; canceled = waits c.entries ++ c.canceled }

pub data Event : Type 0 where
  sets : List Account → Event
  snapshots : Option CtxError → (Text → Time) → Event
  completes : ℕ → Time → ℕ → Event
  closes : Event

module _ (fetch : Account → ℕ → List Model ⊎ Error) where
  -- `refresh` of the job `i`, which fetches for the account that it captured.
  unfoldable pub refresh : Catalog → ℕ → Time → ℕ → Catalog
  refresh c i now n = completed fetch c i now n (get_elem? c.jobs i)

  unfoldable pub step : Catalog → Event → Catalog
  step c (sets accounts) = (set_accounts c accounts).0
  step c (snapshots e clock) = (snapshot_pass c e clock).0
  step c (completes i now n) = refresh c i now n
  step c closes = close c

  unfoldable pub run : Catalog → List Event → Catalog
  run c [] = c
  run c (e ∷ es) = run (step c e) es
