-- ===== src/Codex/Catalog/Identities.antt =====
-- The models of an account come from a fetch for its ChatGPT identity (catalog.go).
use clan.Prelude.{
  ℕ, zero, suc, ◌+◌, ◌≡◌, refl, sym, ap, ◌∙◌, subst, ◌⊎◌, inl, inr, Bool, true, false, Option, none,
  some, List, [], ◌∷◌, ◌++◌, arith, ◌==◌, if◌then◌else◌, Bool-cases, subst_some, if_elim, length,
  In, get_elem?, Text, text_eq, text_eq_iff, Map, lookup, insert, lookup-insert,
}
use clan.Retry.{Time}
use clan.Account.{Account, credentials_eq, credentials_eq→eq}
use clan.Codex.Request.{Model}
use clan.Errors.{CtxError, Error}
use clan.Codex.Catalog.{
  Entry, Job, Catalog, AccountCatalog, activate, updated, retained, added, chatgpt_id, set_accounts,
  with_accounts, new, catalog_ttl,
}
use clan.Codex.Catalog.Refresh.{
  Pass, Event, sets, snapshots, completes, closes, started, start_refresh, start_due, completed_at,
  completed, refreshed, refresh, is_due, snapshot_pass, step, run, keys_of, view, catalogs,
  catalog_at, sort_ids, close,
}
use clan.Codex.Catalog.Entries.{kept_entry, lookup-retained, added-entry}

module _ (fetch : Account → ℕ → List Model ⊎ Error) where
  -- Models that some fetch for the identity answered, or none at all.
  abbrev pub IsServed : Text → List Model → Type 0
  IsServed identity models =
      (models ≡ [])
      ⊎ ((a : Account) × (n : ℕ) × (chatgpt_id a ≡ identity) × (fetch a n ≡ inl models))

  abbrev OwnJob : List Job → Text → Option ℕ → Type 0
  OwnJob jobs identity none = Unit
  OwnJob jobs identity (some i) =
      (j : Job) × (get_elem? jobs i ≡ some j) × (chatgpt_id j.account ≡ identity)

  abbrev Tied : List Job → Entry → Type 0
  Tied jobs e =
      IsServed (chatgpt_id e.account) e.models × OwnJob jobs (chatgpt_id e.account) e.refresh

  abbrev Inv : Catalog → Type 0
  Inv c = (id : Text) (e : Entry) → lookup id c.entries ≡ some e → Tied c.jobs e

  get_elem?-append :
      (js : List Job) (i : ℕ) (j k : Job)
      → get_elem? js i ≡ some j
      → get_elem? (js ++ k ∷ []) i ≡ some j
  get_elem?-append [] i j k h = cc
  get_elem?-append (x ∷ js) zero j k h = h
  get_elem?-append (x ∷ js) (suc i) j k h = get_elem?-append js i j k h

  get_elem?-last : (js : List Job) (k : Job) → get_elem? (js ++ k ∷ []) (length js) ≡ some k
  get_elem?-last [] k = refl
  get_elem?-last (x ∷ js) k = get_elem?-last js k

  OwnJob-grows :
      (js : List Job) (k : Job) (identity : Text) (r : Option ℕ)
      → OwnJob js identity r
      → OwnJob (js ++ k ∷ []) identity r
  OwnJob-grows js k identity none h = tt
  OwnJob-grows js k identity (some i) (j, at, same) = (j, get_elem?-append js i j k at, same)

  -- Writing one entry keeps the invariant of the others.
  insert-Tied :
      (jobs : List Job) (m : Map Entry) (id : Text) (x : Entry)
      → Tied jobs x
      → ((i : Text) (e : Entry) → lookup i m ≡ some e → Tied jobs e)
      → (i : Text) (e : Entry) → lookup i (insert id x m) ≡ some e
      → Tied jobs e
  insert-Tied jobs m id x t h i e k = go (text_eq id i) (sym (lookup-insert id i x m) ∙ k)
    where
      go : (b : Bool) → (if b then some x else lookup i m) ≡ some e → Tied jobs e
      go true k = subst_some (Tied jobs) k t
      go false k = h i e k

  started-Inv :
      (c : Catalog) (id : Text) (now : Time) (x : Option Entry)
      → lookup id c.entries ≡ x
      → Inv c
      → Inv (started c id now x)
  started-Inv c id now none h g = g
  started-Inv c id now (some e) h g = if_elim Inv (is_due e now) _ _ (λ due. fresh) (λ idle. g)
    where
      job : Job
      job = record { id = id; born = e.born; account = e.account }

      fresh : Inv (record c {
        entries =
            insert id
              (record e { refresh = some (length c.jobs); next_refresh = now + catalog_ttl })
              c.entries;
        jobs = c.jobs ++ job ∷ [];
      })
      fresh =
          insert-Tied (c.jobs ++ job ∷ []) c.entries id _
            ((g id e h).0, (job, get_elem?-last c.jobs job, refl))
            (λ i e k.
              ((g i e k).0, OwnJob-grows c.jobs job (chatgpt_id e.account) e.refresh (g i e k).1))

  start_due-Inv :
      (clock : Text → Time) (ids : List Text) (c : Catalog) → Inv c → Inv (start_due clock ids c)
  unfolding start_due start_refresh
  start_due-Inv clock [] c g = g
  start_due-Inv clock (id ∷ ids) c g =
      start_due-Inv clock ids (start_refresh c id (clock id))
        (started-Inv c id (clock id) (lookup id c.entries) refl g)

  updated-Tied : (jobs : List Job) (e : Entry) (a : Account) → Tied jobs e → Tied jobs (updated e a)
  unfolding updated
  updated-Tied jobs e a t =
      if_elim (Tied jobs) (credentials_eq e.account.credentials a.credentials) _ _
        (λ same. moved (
          ap (λ c. c.chatgpt_account_id)
            (credentials_eq→eq e.account.credentials a.credentials same)))
        (λ other. (models (Bool-cases (text_eq (chatgpt_id e.account) (chatgpt_id a))), tt))
    where
      moved : chatgpt_id e.account ≡ chatgpt_id a → Tied jobs (record e { account = a })
      moved s = subst (λ i. IsServed i e.models × OwnJob jobs i e.refresh) s t

      models :
          (text_eq (chatgpt_id e.account) (chatgpt_id a) ≡ true)
            ⊎ (text_eq (chatgpt_id e.account) (chatgpt_id a) ≡ false)
          → IsServed
              (chatgpt_id a)
              (if text_eq (chatgpt_id e.account) (chatgpt_id a) then e.models else [])
      models (inl s) = rw s (
          subst (λ i. IsServed i e.models) ((text_eq_iff (chatgpt_id e.account) (chatgpt_id a)).0 s)
            t.0)
      models (inr s) = rw s (inl refl)

  kept_entry-Tied :
      (jobs : List Job) (x : Option Account) (y : Option Entry)
      → ((e : Entry) → y ≡ some e → Tied jobs e)
      → (e : Entry) → kept_entry x y ≡ some e
      → Tied jobs e
  kept_entry-Tied jobs none y h e k = cc
  kept_entry-Tied jobs (some a) none h e k = cc
  kept_entry-Tied jobs (some a) (some f) h e k =
      subst_some (Tied jobs) k (updated-Tied jobs f a (h f refl))

  added-Tied :
      (jobs : List Job) (born : ℕ) (active : Map Account) (es : Map Entry)
      → ((i : Text) (e : Entry) → lookup i es ≡ some e → Tied jobs e)
      → (i : Text) (e : Entry) → lookup i (added born active (retained active es).0) ≡ some e
      → Tied jobs e
  added-Tied jobs born active es h i e k =
      elim (added-entry born active (retained active es).0 i e k) [
        | inl old ↦
            kept_entry-Tied jobs (lookup i active) (lookup i es) (h i) e
              (sym (lookup-retained active es i) ∙ old)
        | inr (a, same) ↦ subst (Tied jobs) (sym same) (inl refl, tt)
      ]

  set_accounts-Inv :
      (c : Catalog) (accounts : List Account) → Inv c → Inv (set_accounts c accounts).0
  unfolding set_accounts
  set_accounts-Inv c accounts g =
      if_elim (λ (r : Catalog × Option Error). Inv r.0) c.closed _ _ (λ shut. g)
        (λ open_. taken (activate accounts []))
    where
      taken : (x : Map Account ⊎ Error) → Inv (with_accounts c x).0
      taken (inr e) = g
      taken (inl active) = added-Tied c.jobs c.calls active c.entries g

  refreshed-Tied :
      (jobs : List Job) (e : Entry) (now : Time) (x : List Model ⊎ Error) (j : Job) (n : ℕ)
      → Tied jobs e
      → chatgpt_id j.account ≡ chatgpt_id e.account
      → fetch j.account n ≡ x
      → Tied jobs (refreshed e now x)
  unfolding refreshed
  refreshed-Tied jobs e now (inl models) j n t same k = (inr (j.account, n, same, k), tt)
  refreshed-Tied jobs e now (inr err) j n t same k =
      (if_elim (IsServed (chatgpt_id e.account)) _ _ _ (λ b. t.0) (λ b. inl refl), tt)

  own_identity :
      (jobs : List Job) (i : ℕ) (j : Job) (identity : Text) (r : Option ℕ)
      → OwnJob jobs identity r
      → get_elem? jobs i ≡ some j
      → elim r [ none ↦ false | some k ↦ k == i ] ≡ true
      → chatgpt_id j.account ≡ identity
  own_identity jobs i j identity none o at k = cc
  own_identity jobs i j identity (some m) (own, found, same) at k =
      let e : m ≡ i = ground arith in
      subst_some (λ (x : Job). chatgpt_id x.account ≡ identity)
        (sym found ∙ (ap (get_elem? jobs) e ∙ at)) same

  completed-Inv :
      (c : Catalog) (i now n : ℕ) (x : Option Job)
      → get_elem? c.jobs i ≡ x
      → Inv c
      → Inv (completed fetch c i now n x)
  completed-Inv c i now n none h g = g
  completed-Inv c i now n (some j) h g = at (lookup j.id c.entries) refl
    where
      at :
          (x : Option Entry)
          → lookup j.id c.entries ≡ x
          → Inv (completed_at c i j now (fetch j.account n) x)
      at none k = g
      at (some e) k =
          if_elim Inv _ _ _
            (λ cur.
              insert-Tied c.jobs c.entries j.id _
                (refreshed-Tied c.jobs e now (fetch j.account n) j n (g j.id e k)
                  (own_identity c.jobs i j (chatgpt_id e.account) e.refresh (g j.id e k).1 h
                    (ground (arith, cur)))
                  refl)
                g)
            (λ stale. g)

  snapshot-Inv :
      (c : Catalog) (x : Option CtxError) (clock : Text → Time)
      → Inv c
      → Inv (snapshot_pass c x clock).0
  unfolding snapshot_pass
  snapshot-Inv c (some e) clock g = g
  snapshot-Inv c none clock g =
      if_elim (λ (r : Catalog × Pass). Inv r.0) c.closed _ _ (λ shut. g)
        (λ open_. start_due-Inv clock (keys_of c.entries) c g)

  step-Inv : (c : Catalog) (e : Event) → Inv c → Inv (step fetch c e)
  unfolding step refresh close
  step-Inv c (sets accounts) g = set_accounts-Inv c accounts g
  step-Inv c (snapshots x clock) g = snapshot-Inv c x clock g
  step-Inv c (completes i now n) g = completed-Inv c i now n (get_elem? c.jobs i) refl g
  step-Inv c closes g = g

  run-Inv : (c : Catalog) (es : List Event) → Inv c → Inv (run fetch c es)
  unfolding run
  run-Inv c [] g = g
  run-Inv c (e ∷ es) g = run-Inv (step fetch c e) es (step-Inv c e g)

  In-append-or :
      (a : AccountCatalog) (xs ys : List AccountCatalog) → In a (xs ++ ys) → In a xs ⊎ In a ys
  In-append-or a [] ys i = inr i
  In-append-or a (x ∷ xs) ys (inl e) = inl (inl e)
  In-append-or a (x ∷ xs) ys (inr i) = ground (arith, In-append-or a xs ys i)

  catalogs-IsServed :
      (jobs : List Job) (es : Map Entry) (ids : List Text)
      → ((id : Text) (e : Entry) → lookup id es ≡ some e → Tied jobs e)
      → (a : AccountCatalog) → In a (catalogs ids es)
      → IsServed a.chatgpt_account_id a.models
  unfolding catalogs
  catalogs-IsServed jobs es [] h a i = absurd i
  catalogs-IsServed jobs es (id ∷ ids) h a i =
      elim (In-append-or a (catalog_at id (lookup id es)) (catalogs ids es) i) [
        | inl here ↦ at (lookup id es) refl here
        | inr later ↦ catalogs-IsServed jobs es ids h a later
      ]
    where
      at :
          (x : Option Entry)
          → lookup id es ≡ x
          → In a (catalog_at id x)
          → IsServed a.chatgpt_account_id a.models
      at none k here = absurd here
      at (some e) k (inl same) =
          subst (λ (b : AccountCatalog). IsServed b.chatgpt_account_id b.models) same (h id e k).0
      at (some e) k (inr more) = absurd more

new-Inv : (fetch : Account → ℕ → List Model ⊎ Error) → Inv fetch new
unfolding new lookup
new-Inv fetch id e k = absurd (ground (arith, k))

-- In every history, whatever a snapshot shows as an account's models was fetched for the ChatGPT
-- identity that the snapshot names, or is empty: a refresh that ends after its account was replaced
-- or signed in as somebody else shows nothing.
pub view-IsServed :
    (fetch : Account → ℕ → List Model ⊎ Error) (es : List Event) (a : AccountCatalog)
    → In a (view (run fetch new es).entries).0.accounts
    → IsServed fetch a.chatgpt_account_id a.models
unfolding view
view-IsServed fetch es a i =
    let c = run fetch new es in
    catalogs-IsServed fetch c.jobs c.entries (sort_ids (keys_of c.entries))
      (run-Inv fetch new es (new-Inv fetch)) a i
