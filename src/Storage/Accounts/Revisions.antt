-- ===== src/Storage/Accounts/Revisions.antt =====
-- Ciphertexts as revisions of an account's row (internal/storage/account.go).
use clan.Prelude.{
  ℕ, suc, ◌≤◌, ◌<◌, ◌≡◌, refl, sym, ap, ◌∙◌, subst, ◌⊎◌, inl, inr, Bool, true, false, ◌||◌, Option,
  none, some, List, [], ◌∷◌, ◌++◌, arith, if◌then◌else◌, Bool-cases, is_some, subst_some, if_elim,
  Text, text_eq, text_eq_iff, is_blank, lookup, insert, erase, lookup-insert, lookup-erase,
}
use clan.Account.{Account, Identity, OAuthCredentials, AccountError, validate_credentials}
use clan.Account
use clan.Errors.{Sentinel}
use clan.Storage.{AccountRecord}
use clan.Storage.Accounts.{
  AccountRow, Store, empty_store, is_nil, row_matches, write, created, create_account, name_of,
  replace_if_unchanged, enable_round, switched_off, disable_row, delete_row, Event, creates,
  replaces, enables, disables, deletes, step, run, account_record, decoded_account, read_row,
  get_account,
}

module _ (encrypt : Text → OAuthCredentials → ℕ → Text)
    (distinct : (i j : Text) (c d : OAuthCredentials) (m n : ℕ)
      → encrypt i c m ≡ encrypt j d n
      → m ≡ n) where
  -- A ciphertext of one of the first n calls.
  abbrev IsOld : Text → ℕ → Type 0
  IsOld t n = (i : Text) × (c : OAuthCredentials) × (m : ℕ) × (t ≡ encrypt i c m) × (m < n)

  IsOld-later : (t : Text) (m n : ℕ) → m ≤ n → IsOld t m → IsOld t n
  IsOld-later t m n l (i, c, k, e, h) = (i, c, k, e, omega arith)

  fresh_differs :
      (t : Text) (n : ℕ) (i : Text) (c : OAuthCredentials)
      → IsOld t n
      → text_eq (encrypt i c n) t ≡ false
  fresh_differs t n i c (j, d, m, e, h) = elim (Bool-cases (text_eq (encrypt i c n) t)) [
    | inl same ↦
        absurd (omega (arith, h, distinct i j c d n m ((text_eq_iff (encrypt i c n) t).0 same ∙ e)))
    | inr other ↦ other
  ]

  abbrev Gone : Text → Text → Store → Type 0
  Gone id rev s = row_matches true rev (lookup id s.rows) ≡ false

  -- The row stays gone, and the counter does not go back.
  abbrev Stays : Text → Text → Store → Store → Type 0
  Stays id rev s t = (s.nonces ≤ t.nonces) × (Gone id rev s → Gone id rev t)

  same_rows :
      (id rev : Text) (s : Store) (n : ℕ) → s.nonces ≤ n → Stays id rev s (record s { nonces = n })
  same_rows id rev s n l = (l, λ g. g)

  write-Stays :
      (id rev : Text) (s : Store) (j name : Text) (c : OAuthCredentials) (enabled : Bool)
      → IsOld rev s.nonces
      → Stays id rev s (write encrypt s j name c enabled)
  write-Stays id rev s j name c enabled old = (
    omega arith,
    λ g. go (text_eq j id) g (
        lookup-insert j id
          (record { name = name; enabled = enabled; credentials = encrypt j c s.nonces }) s.rows),
  )
    where
      row : AccountRow
      row = record { name = name; enabled = enabled; credentials = encrypt j c s.nonces }

      go :
          (b : Bool)
          → Gone id rev s
          → lookup id (insert j row s.rows) ≡ (if b then some row else lookup id s.rows)
          → row_matches true rev (lookup id (insert j row s.rows)) ≡ false
      go true g e = ap (row_matches true rev) e ∙ ground (arith, fresh_differs rev s.nonces j c old)
      go false g e = ap (row_matches true rev) e ∙ g

  create-Stays :
      (id rev : Text) (s : Store) (enabled : Bool) (x : Account ⊎ AccountError)
      → IsOld rev s.nonces
      → Stays id rev s (created encrypt s enabled x).0
  create-Stays id rev s enabled (inr e) old = (omega arith, λ g. g)
  create-Stays id rev s enabled (inl a) old =
      if_elim (λ (r : Store × Option Sentinel). Stays id rev s r.0)
        (is_some (lookup a.identity.id s.rows)) _ _
        (λ taken. same_rows id rev s (suc s.nonces) (omega arith))
        (λ free. write-Stays id rev s a.identity.id a.identity.name a.credentials enabled old)

  switched_off-Stays :
      (id rev : Text) (s : Store) (j : Text) (x : Option AccountRow)
      → lookup j s.rows ≡ x
      → Stays id rev s (switched_off s j x).0
  switched_off-Stays id rev s j none k = (omega arith, λ g. g)
  switched_off-Stays id rev s j (some r) k = (
    omega arith,
    λ g. go (text_eq j id) g (lookup-insert j id (record r { enabled = false }) s.rows),
  )
    where
      go :
          (b : Bool)
          → Gone id rev s
          → lookup id (insert j (record r { enabled = false }) s.rows)
            ≡ (if b then some (record r { enabled = false }) else lookup id s.rows)
          → row_matches true rev (lookup id (insert j (record r { enabled = false }) s.rows))
            ≡ false
      go true g e = ap (row_matches true rev) e
      go false g e = ap (row_matches true rev) e ∙ g

  erase-Gone :
      (id rev : Text) (s : Store) (j : Text)
      → Gone id rev s
      → Gone id rev (record s { rows = erase j s.rows })
  erase-Gone id rev s j g = ground (arith, g, lookup-erase j id s.rows)

  step-Stays :
      (id rev : Text) (s : Store) (e : Event)
      → IsOld rev s.nonces
      → Stays id rev s (step encrypt s e)
  unfolding step create_account replace_if_unchanged enable_round disable_row delete_row
  step-Stays id rev s (creates a enabled) old =
      create-Stays id rev s enabled (Account.new a.identity a.credentials) old
  step-Stays id rev s (replaces p c) old =
      if_elim (λ (r : Store × Option Sentinel). Stays id rev s r.0)
        (is_blank p.account.identity.id || is_nil p.revision || is_some (validate_credentials c)) _
        _ (λ bad. (omega arith, λ g. g))
        (λ ok.
          if_elim (λ (r : Store × Option Sentinel). Stays id rev s r.0)
            (row_matches true p.revision (lookup p.account.identity.id s.rows)) _ _
            (λ hit.
              write-Stays id rev s p.account.identity.id
                (name_of (lookup p.account.identity.id s.rows)) c true old)
            (λ miss. same_rows id rev s (suc s.nonces) (omega arith)))
  step-Stays id rev s (enables p) old =
      if_elim (λ (r : Store × Bool). Stays id rev s r.0) p.enabled _ _ (λ on. (omega arith, λ g. g))
        (λ off.
          if_elim (λ (r : Store × Bool). Stays id rev s r.0)
            (row_matches false p.revision (lookup p.account.identity.id s.rows)) _ _
            (λ hit.
              write-Stays id rev s p.account.identity.id
                (name_of (lookup p.account.identity.id s.rows)) p.account.credentials true old)
            (λ miss. same_rows id rev s (suc s.nonces) (omega arith)))
  step-Stays id rev s (disables j) old =
      if_elim (λ (r : Store × Option Sentinel). Stays id rev s r.0) (is_blank j) _ _
        (λ bad. (omega arith, λ g. g)) (λ ok. switched_off-Stays id rev s j (lookup j s.rows) refl)
  step-Stays id rev s (deletes j) old =
      if_elim (λ (r : Store × Option Sentinel). Stays id rev s r.0) (is_blank j) _ _
        (λ bad. (omega arith, λ g. g))
        (λ ok.
          if_elim (λ (r : Store × Option Sentinel). Stays id rev s r.0) (is_some (lookup j s.rows))
            _ _ (λ hit. (omega arith, erase-Gone id rev s j)) (λ miss. (omega arith, λ g. g)))

  run-Stays :
      (id rev : Text) (s : Store) (es : List Event)
      → IsOld rev s.nonces
      → Stays id rev s (run encrypt s es)
  unfolding run
  run-Stays id rev s [] old = (omega arith, λ g. g)
  run-Stays id rev s (e ∷ es) old =
      let (l, k) = step-Stays id rev s e old in
      let (l', k') = run-Stays id rev (step encrypt s e) es (IsOld-later rev s.nonces _ l old) in
      (omega arith, λ g. k' (k g))

  run-append :
      (s : Store) (xs ys : List Event)
      → run encrypt s (xs ++ ys) ≡ run encrypt (run encrypt s xs) ys
  unfolding run
  run-append s [] ys = refl
  run-append s (x ∷ xs) ys = run-append (step encrypt s x) xs ys

  abbrev AllOld : Store → Type 0
  AllOld s = (id : Text) (r : AccountRow) → lookup id s.rows ≡ some r → IsOld r.credentials s.nonces

  later-AllOld : (s : Store) (n : ℕ) → s.nonces ≤ n → AllOld s → AllOld (record s { nonces = n })
  later-AllOld s n l h id r k = IsOld-later r.credentials s.nonces n l (h id r k)

  insert-AllOld :
      (s : Store) (n : ℕ) (j : Text) (row : AccountRow)
      → s.nonces ≤ n
      → IsOld row.credentials n
      → AllOld s
      → AllOld (record { rows = insert j row s.rows; nonces = n })
  insert-AllOld s n j row l old h id r k =
      go (text_eq j id) (sym (lookup-insert j id row s.rows) ∙ k)
    where
      go : (b : Bool) → (if b then some row else lookup id s.rows) ≡ some r → IsOld r.credentials n
      go true e = subst_some (λ (x : AccountRow). IsOld x.credentials n) e old
      go false e = IsOld-later r.credentials s.nonces n l (h id r e)

  write-AllOld :
      (s : Store) (j name : Text) (c : OAuthCredentials) (enabled : Bool)
      → AllOld s
      → AllOld (write encrypt s j name c enabled)
  write-AllOld s j name c enabled h =
      insert-AllOld s (suc s.nonces) j _ (omega arith) (j, c, s.nonces, refl, omega arith) h

  create-AllOld :
      (s : Store) (enabled : Bool) (x : Account ⊎ AccountError)
      → AllOld s
      → AllOld (created encrypt s enabled x).0
  create-AllOld s enabled (inr e) h = h
  create-AllOld s enabled (inl a) h =
      if_elim (λ (r : Store × Option Sentinel). AllOld r.0) (is_some (lookup a.identity.id s.rows))
        _ _ (λ taken. later-AllOld s (suc s.nonces) (omega arith) h)
        (λ free. write-AllOld s a.identity.id a.identity.name a.credentials enabled h)

  switched_off-AllOld :
      (s : Store) (j : Text) (x : Option AccountRow)
      → lookup j s.rows ≡ x
      → AllOld s
      → AllOld (switched_off s j x).0
  switched_off-AllOld s j none k h = h
  switched_off-AllOld s j (some r) k h = insert-AllOld s s.nonces j _ (omega arith) (h j r k) h

  erase-AllOld : (s : Store) (j : Text) → AllOld s → AllOld (record s { rows = erase j s.rows })
  erase-AllOld s j h id r k = go (text_eq j id) (sym (lookup-erase j id s.rows) ∙ k)
    where
      go :
          (b : Bool)
          → (if b then none else lookup id s.rows) ≡ some r
          → IsOld r.credentials s.nonces
      go true e = absurd (ground (arith, e))
      go false e = h id r e

  step-AllOld : (s : Store) (e : Event) → AllOld s → AllOld (step encrypt s e)
  unfolding step create_account replace_if_unchanged enable_round disable_row delete_row
  step-AllOld s (creates a enabled) h =
      create-AllOld s enabled (Account.new a.identity a.credentials) h
  step-AllOld s (replaces p c) h =
      if_elim (λ (r : Store × Option Sentinel). AllOld r.0)
        (is_blank p.account.identity.id || is_nil p.revision || is_some (validate_credentials c)) _
        _ (λ bad. h)
        (λ ok.
          if_elim (λ (r : Store × Option Sentinel). AllOld r.0)
            (row_matches true p.revision (lookup p.account.identity.id s.rows)) _ _
            (λ hit.
              write-AllOld s p.account.identity.id (name_of (lookup p.account.identity.id s.rows)) c
                true h)
            (λ miss. later-AllOld s (suc s.nonces) (omega arith) h))
  step-AllOld s (enables p) h =
      if_elim (λ (r : Store × Bool). AllOld r.0) p.enabled _ _ (λ on. h)
        (λ off.
          if_elim (λ (r : Store × Bool). AllOld r.0)
            (row_matches false p.revision (lookup p.account.identity.id s.rows)) _ _
            (λ hit.
              write-AllOld s p.account.identity.id (name_of (lookup p.account.identity.id s.rows))
                p.account.credentials true h)
            (λ miss. later-AllOld s (suc s.nonces) (omega arith) h))
  step-AllOld s (disables j) h =
      if_elim (λ (r : Store × Option Sentinel). AllOld r.0) (is_blank j) _ _ (λ bad. h)
        (λ ok. switched_off-AllOld s j (lookup j s.rows) refl h)
  step-AllOld s (deletes j) h =
      if_elim (λ (r : Store × Option Sentinel). AllOld r.0) (is_blank j) _ _ (λ bad. h)
        (λ ok.
          if_elim (λ (r : Store × Option Sentinel). AllOld r.0) (is_some (lookup j s.rows)) _ _
            (λ hit. erase-AllOld s j h) (λ miss. h))

  run-AllOld : (s : Store) (es : List Event) → AllOld s → AllOld (run encrypt s es)
  unfolding run
  run-AllOld s [] h = h
  run-AllOld s (e ∷ es) h = run-AllOld (step encrypt s e) es (step-AllOld s e h)

  empty-AllOld : AllOld empty_store
  unfolding empty_store lookup
  empty-AllOld id r k = absurd (ground (arith, k))

  replaced_row :
      (s : Store) (p : AccountRecord) (c : OAuthCredentials)
      → (replace_if_unchanged encrypt s p c).1 ≡ none
      → row_matches true p.revision (lookup p.account.identity.id s.rows) ≡ true
  unfolding replace_if_unchanged
  replaced_row s p c h = ground (arith, h)

-- A new account has the identity that it was made with.
new_identity :
    (i : Identity) (c : OAuthCredentials) (a : Account) → Account.new i c ≡ inl a → a.identity ≡ i
unfolding Account.new
new_identity i c a h = ground (arith, h)

-- What a record that was read tells of the row.
read_account :
    (id : Text) (r : AccountRow) (x : Account ⊎ AccountError) (p : AccountRecord)
    → ((a : Account) → x ≡ inl a → a.identity.id ≡ id)
    → account_record r x ≡ inl p
    → (r.credentials ≡ p.revision) × (p.account.identity.id ≡ id)
read_account id r (inr e) p i h = absurd (ground (arith, h))
read_account id r (inl a) p i h =
    let k : record { account = a; enabled = r.enabled; revision = r.credentials } ≡ p =
      ground (arith, h) in
    (
      ap (λ (q : AccountRecord). q.revision) k,
      sym (ap (λ (q : AccountRecord). q.account.identity.id) k) ∙ i a refl,
    )

pub read_row-id :
    (decrypt : Text → Text → Option OAuthCredentials) (id : Text) (row : Option AccountRow)
    (p : AccountRecord)
    → read_row decrypt id row ≡ inl p
    → p.account.identity.id ≡ id
read_row-id decrypt id none p h = absurd (ground (arith, h))
read_row-id decrypt id (some r) p h = decoded (decrypt id r.credentials) h
  where
    decoded :
        (c : Option OAuthCredentials)
        → decoded_account decrypt id r c ≡ inl p
        → p.account.identity.id ≡ id
    decoded none h = absurd (ground (arith, h))
    decoded (some c) h =
        let i : Identity = record { id = id; name = r.name } in
        (read_account id r (Account.new i c) p
          (λ a e. ap (λ (j : Identity). j.id) (new_identity i c a e)) h).1

get_account-row :
    (decrypt : Text → Text → Option OAuthCredentials) (s : Store) (id : Text) (p : AccountRecord)
    → get_account decrypt s id ≡ inl p
    → (r : AccountRow) × (lookup id s.rows ≡ some r)
      × (r.credentials ≡ p.revision)
      × (p.account.identity.id ≡ id)
unfolding get_account
get_account-row decrypt s id p h = row (lookup id s.rows) refl (read h)
  where
    read : get_account decrypt s id ≡ inl p → read_row decrypt id (lookup id s.rows) ≡ inl p
    read h = ground (arith, h)

    decoded :
        (r : AccountRow) (c : Option OAuthCredentials)
        → decoded_account decrypt id r c ≡ inl p
        → (r.credentials ≡ p.revision) × (p.account.identity.id ≡ id)
    decoded r none k = absurd (ground (arith, k))
    decoded r (some c) k =
        let i : Identity = record { id = id; name = r.name } in
        read_account id r (Account.new i c) p
          (λ a e. ap (λ (x : Identity). x.id) (new_identity i c a e)) k

    row :
        (x : Option AccountRow)
        → lookup id s.rows ≡ x
        → read_row decrypt id x ≡ inl p
        → (r : AccountRow) × (lookup id s.rows ≡ some r)
          × (r.credentials ≡ p.revision)
          × (p.account.identity.id ≡ id)
    row none e k = absurd (ground (arith, k))
    row (some r) e k = let (rev, same) = decoded r (decrypt id r.credentials) k in (r, e, rev, same)

-- Credentials are replaced on the strength of a record that was read only if, at every moment since
-- that read, the account was enabled with the same stored credentials: deleting it, disabling it
-- (even if it was enabled again) or writing other credentials makes the replacement fail. This
-- takes every encryption to give a new ciphertext.
pub replace_if_unchanged-run :
    (encrypt : Text → OAuthCredentials → ℕ → Text) (decrypt : Text → Text → Option OAuthCredentials)
    (distinct : (i j : Text) (c d : OAuthCredentials) (m n : ℕ)
      → encrypt i c m ≡ encrypt j d n
      → m ≡ n)
    (hs xs ys : List Event) (id : Text) (p : AccountRecord) (c : OAuthCredentials)
    → let s = run encrypt empty_store hs in
      get_account decrypt s id ≡ inl p
      → (replace_if_unchanged encrypt (run encrypt s (xs ++ ys)) p c).1 ≡ none
      → row_matches true p.revision (lookup id (run encrypt s xs).rows) ≡ true
replace_if_unchanged-run encrypt decrypt distinct hs xs ys id p c got done =
    let s = run encrypt empty_store hs in
    let (r, at, rev, same) = get_account-row decrypt s id p got in
    let old =
      subst (λ t. IsOld encrypt distinct t s.nonces) rev
        (run-AllOld encrypt distinct empty_store hs (empty-AllOld encrypt distinct) id r at) in
    let (l, k) = run-Stays encrypt distinct id p.revision s xs old in
    let u = run encrypt s xs in
    let (l', k') =
      run-Stays encrypt distinct id p.revision u ys
        (IsOld-later encrypt distinct p.revision s.nonces u.nonces l old) in
    let now = replaced_row encrypt distinct (run encrypt s (xs ++ ys)) p c done in
    elim (Bool-cases (row_matches true p.revision (lookup id u.rows))) [
      | inl hit ↦ hit
      | inr gone ↦
          let end =
            subst (λ (v : Store). row_matches true p.revision (lookup id v.rows) ≡ true)
              (run-append encrypt distinct s xs ys)
              (subst
                (λ j. row_matches true p.revision (lookup j (run encrypt s (xs ++ ys)).rows) ≡ true)
                same now) in
          absurd (ground (arith, end, k' gone))
    ]
