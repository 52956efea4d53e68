-- ===== src/Codex/Catalog/Members.antt =====
-- Which accounts the catalog has (catalog.go): those of the last SetAccounts.
use clan.Prelude.{
  ℕ, ◌≡◌, refl, ap, ◌∙◌, ◌⊎◌, inl, inr, Bool, false, ◌||◌, Option, none, some, List, [], ◌∷◌, arith,
  is_some, if_elim, All, get_elem?, Text, text_eq, text_eq_iff, Map, lookup, insert, lookup-insert,
}
use clan.Retry.{Time}
use clan.Account.{Account}
use clan.Codex.Request.{Model}
use clan.Errors.{Error}
use clan.Codex.Catalog.{Entry, Job, Catalog, activate, retained, set_accounts, with_accounts}
use clan.Codex.Catalog.Refresh.{
  Pass, Event, sets, snapshots, completes, closes, started, start_refresh, start_due, completed_at,
  completed, refreshed, refresh, is_due, snapshot_pass, step, run, keys_of, close,
}
use clan.Codex.Catalog.Entries.{kept_entry, lookup-retained, lookup-added}

abbrev pub has_account : Text → List Account → Bool
has_account id [] = false
has_account id (a ∷ accounts) = text_eq a.identity.id id || has_account id accounts

abbrev has_entry : Catalog → Text → Bool
has_entry c id = is_some (lookup id c.entries)

lookup-activate :
    (accounts : List Account) (active m : Map Account) (id : Text)
    → activate accounts active ≡ inl m
    → is_some (lookup id m) ≡ (has_account id accounts || is_some (lookup id active))
unfolding activate
lookup-activate [] active m id h = ground (arith, h)
lookup-activate (a ∷ accounts) active m id h = ground (
  arith,
  h,
  lookup-activate accounts (insert a.identity.id a active) m id,
  lookup-insert a.identity.id id a active,
)

is_some-kept_entry :
    (x : Option Account) (y : Option Entry) → (is_some x || is_some (kept_entry x y)) ≡ is_some x
is_some-kept_entry none y = refl
is_some-kept_entry (some a) none = refl
is_some-kept_entry (some a) (some e) = refl

active_members :
    (accounts : List Account) (active : Map Account) (id : Text)
    → activate accounts [] ≡ inl active
    → is_some (lookup id active) ≡ has_account id accounts
unfolding lookup
active_members accounts active id h = ground (arith, lookup-activate accounts [] active id h)

with_accounts-members :
    (c : Catalog) (accounts : List Account) (x : Map Account ⊎ Error) (id : Text)
    → activate accounts [] ≡ x
    → (with_accounts c x).1 ≡ none
    → has_entry (with_accounts c x).0 id ≡ has_account id accounts
with_accounts-members c accounts (inr e) id h k = cc
with_accounts-members c accounts (inl active) id h k =
    lookup-added c.calls active (retained active c.entries).0 id
    ∙ (ap (λ (y : Option Entry). is_some (lookup id active) || is_some y)
          (lookup-retained active c.entries id)
        ∙ (is_some-kept_entry (lookup id active) (lookup id c.entries)
            ∙ active_members accounts active id h))

set_accounts-members :
    (c : Catalog) (accounts : List Account) (id : Text)
    → (set_accounts c accounts).1 ≡ none
    → has_entry (set_accounts c accounts).0 id ≡ has_account id accounts
unfolding set_accounts
set_accounts-members c accounts id =
    if_elim
      (λ (r : Catalog × Option Error). r.1 ≡ none → has_entry r.0 id ≡ has_account id accounts)
      c.closed _ _ (λ shut k. cc)
      (λ open_. with_accounts-members c accounts (activate accounts []) id refl)

-- An event other than a successful call of `SetAccounts`.
abbrev pub IsQuiet : Event → Type 0
IsQuiet (sets accounts) = ⊥
IsQuiet (snapshots x clock) = Unit
IsQuiet (completes i now n) = Unit
IsQuiet closes = Unit

insert-members :
    (m : Map Entry) (i id : Text) (x e : Entry)
    → lookup i m ≡ some e
    → is_some (lookup id (insert i x m)) ≡ is_some (lookup id m)
insert-members m i id x e h = ground (arith, h, lookup-insert i id x m, text_eq_iff i id)

started-members :
    (c : Catalog) (i id : Text) (now : Time) (x : Option Entry)
    → lookup i c.entries ≡ x
    → has_entry (started c i now x) id ≡ has_entry c id
started-members c i id now none h = refl
started-members c i id now (some e) h =
    if_elim (λ (d : Catalog). has_entry d id ≡ has_entry c id) (is_due e now) _ _
      (λ due. insert-members c.entries i id _ e h) (λ idle. refl)

start_due-members :
    (clock : Text → Time) (ids : List Text) (c : Catalog) (id : Text)
    → has_entry (start_due clock ids c) id ≡ has_entry c id
unfolding start_due start_refresh
start_due-members clock [] c id = refl
start_due-members clock (i ∷ ids) c id =
    start_due-members clock ids (start_refresh c i (clock i)) id
    ∙ started-members c i id (clock i) (lookup i c.entries) refl

module _ (fetch : Account → ℕ → List Model ⊎ Error) where
  completed-members :
      (c : Catalog) (i now n : ℕ) (x : Option Job) (id : Text)
      → has_entry (completed fetch c i now n x) id ≡ has_entry c id
  completed-members c i now n none id = refl
  completed-members c i now n (some j) id = at (lookup j.id c.entries) refl
    where
      at :
          (x : Option Entry)
          → lookup j.id c.entries ≡ x
          → has_entry (completed_at c i j now (fetch j.account n) x) id ≡ has_entry c id
      at none k = refl
      at (some e) k =
          if_elim (λ (d : Catalog). has_entry d id ≡ has_entry c id) _ _ _
            (λ cur. insert-members c.entries j.id id (refreshed e now (fetch j.account n)) e k)
            (λ stale. refl)

  step-members :
      (c : Catalog) (e : Event) (id : Text)
      → IsQuiet e
      → has_entry (step fetch c e) id ≡ has_entry c id
  unfolding step refresh close snapshot_pass
  step-members c (sets accounts) id q = absurd q
  step-members c (snapshots (some x) clock) id q = refl
  step-members c (snapshots none clock) id q =
      if_elim (λ (r : Catalog × Pass). has_entry r.0 id ≡ has_entry c id) c.closed _ _
        (λ shut. refl) (λ open_. start_due-members clock (keys_of c.entries) c id)
  step-members c (completes i now n) id q = completed-members c i now n (get_elem? c.jobs i) id
  step-members c closes id q = refl

  run-members :
      (c : Catalog) (es : List Event) (id : Text)
      → All IsQuiet es
      → has_entry (run fetch c es) id ≡ has_entry c id
  unfolding run
  run-members c [] id q = refl
  run-members c (e ∷ es) id q = run-members (step fetch c e) es id q.1 ∙ step-members c e id q.0

-- A successful SetAccounts decides the membership until the next one: whatever snapshots and
-- refreshes follow, the catalog has an entry exactly for the accounts that were passed, so a removed
-- account does not come back.
pub run-set_accounts :
    (fetch : Account → ℕ → List Model ⊎ Error) (c : Catalog) (accounts : List Account)
    (es : List Event) (id : Text)
    → (set_accounts c accounts).1 ≡ none
    → All IsQuiet es
    → is_some (lookup id (run fetch (set_accounts c accounts).0 es).entries)
      ≡ has_account id accounts
run-set_accounts fetch c accounts es id k q =
    run-members fetch (set_accounts c accounts).0 es id q ∙ set_accounts-members c accounts id k
