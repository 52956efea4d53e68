-- ===== src/Storage/Keys.antt =====
-- internal/storage/accesskey.go: the table of access keys.
--
-- The SQL statements are written out over the rows of `access_keys`: a primary key on `id`, a
-- unique `verification_hash`, and `enabled` as a Boolean, since its CHECK admits 0 and 1 only. A
-- database error leaves the table as it was and is left out; each call is one statement.
use clan.Prelude.{
  ◌≡◌, refl, ◌∙◌, subst, ◌≢◌, ◌⊎◌, inl, inr, Bool, true, false, not, ◌&&◌, ◌||◌, Option, none, some,
  List, [], ◌∷◌, ◌++◌, arith, ◌==◌, if◌then◌else◌, Bool-cases, Option-cases, subst_some, length,
  Text, text_eq, text_eq_iff, text_eq_refl, is_blank, ℤ, negsuc, int_lt,
}
use clan.AccessKey.{Identity, AccessKey, Result, ok, err, KeyError}
use clan.AccessKey
use clan.Storage.{AccessKeyRecord}
use clan.Errors.{Sentinel, not_found, conflict, invalid, corrupt}

pub record KeyRow : Type 0 where
  pub id : Text
  pub name : Text
  pub verification_hash : Text
  pub enabled : Bool
  pub concurrency_limit : ℤ

abbrev pub unlimited : ℤ
unlimited = negsuc 0

abbrev taken : KeyRow → KeyRow → Bool
taken r s = text_eq s.id r.id || text_eq s.verification_hash r.verification_hash

unfoldable pub conflicts : KeyRow → List KeyRow → Bool
conflicts r [] = false
conflicts r (s ∷ rows) = taken r s || conflicts r rows

abbrev insert_row : KeyRow → List KeyRow → List KeyRow × Option Sentinel
insert_row r rows = if conflicts r rows then (rows, some conflict) else (rows ++ r ∷ [], none)

abbrev validated : List KeyRow → KeyRow → Result AccessKey → List KeyRow × Option Sentinel
validated rows r (ok k) =
    if int_lt r.concurrency_limit unlimited then (rows, some invalid) else insert_row r rows
validated rows r (err e) = (rows, some invalid)

-- `CreateAccessKey`
unfoldable pub create_key : List KeyRow → AccessKey → Text → ℤ → List KeyRow × Option Sentinel
create_key rows k hash limit =
    validated rows
      (record {
        id = k.identity.id;
        name = k.identity.name;
        verification_hash = hash;
        enabled = k.enabled;
        concurrency_limit = limit;
      })
      (AccessKey.new k.identity k.enabled)

abbrev decoded : KeyRow → Result AccessKey → AccessKeyRecord ⊎ Sentinel
decoded r (err e) = inr corrupt
decoded r (ok k) = inl (record {
  key = k;
  verification_hash = r.verification_hash;
  concurrency_limit = r.concurrency_limit;
})

-- `decodeAccessKey`
unfoldable pub decode_key : KeyRow → AccessKeyRecord ⊎ Sentinel
decode_key r =
    if not (length r.verification_hash == 32)
    then inr corrupt
    else if int_lt r.concurrency_limit unlimited
    then inr corrupt
    else decoded r (AccessKey.new (record { id = r.id; name = r.name }) r.enabled)

-- `SELECT … WHERE verification_hash = ?`
unfoldable pub row_by_hash : Text → List KeyRow → Option KeyRow
row_by_hash h [] = none
row_by_hash h (r ∷ rows) = if text_eq r.verification_hash h then some r else row_by_hash h rows

-- `FindAccessKeyByHash`
unfoldable pub find_key : List KeyRow → Text → AccessKeyRecord ⊎ Sentinel
find_key rows h = elim (row_by_hash h rows) [ none ↦ inr not_found | some r ↦ decode_key r ]

-- `UPDATE … WHERE id = ?`, and whether a row was affected.
unfoldable pub update_rows : Text → (KeyRow → KeyRow) → List KeyRow → List KeyRow
update_rows id f [] = []
update_rows id f (r ∷ rows) = (if text_eq r.id id then f r else r) ∷ update_rows id f rows

unfoldable pub has_row : Text → List KeyRow → Bool
has_row id [] = false
has_row id (r ∷ rows) = text_eq r.id id || has_row id rows

-- `RevokeAccessKey`
unfoldable pub revoke_key : List KeyRow → Text → List KeyRow × Option Sentinel
revoke_key rows id =
    if is_blank id
    then (rows, some invalid)
    else if has_row id rows
    then (update_rows id (λ r. record r { enabled = false }) rows, none)
    else (rows, some not_found)

-- `UpdateAccessKeyConcurrency`
unfoldable pub update_concurrency : List KeyRow → Text → ℤ → List KeyRow × Option Sentinel
update_concurrency rows id limit =
    if is_blank id
    then (rows, some invalid)
    else if int_lt limit unlimited
    then (rows, some invalid)
    else if has_row id rows
    then (update_rows id (λ r. record r { concurrency_limit = limit }) rows, none)
    else (rows, some not_found)

-- Whether some row gives the key leave to be used.
abbrev pub is_enabled : Text → List KeyRow → Bool
is_enabled id [] = false
is_enabled id (r ∷ rows) = (text_eq r.id id && r.enabled) || is_enabled id rows

pub enabled_row :
    (h : Text) (rows : List KeyRow) (r : KeyRow)
    → row_by_hash h rows ≡ some r
    → r.enabled ≡ true
    → is_enabled r.id rows ≡ true
unfolding row_by_hash
enabled_row h [] r e n = cc
enabled_row h (s ∷ rows) r e n = elim (Bool-cases (text_eq s.verification_hash h)) [
  | inl t ↦
      subst_some (λ x. x.enabled ≡ true → is_enabled x.id (s ∷ rows) ≡ true) (rw t at e)
        (λ k. ground (arith, text_eq_refl s.id)) n
  | inr t ↦ ground (arith, enabled_row h rows r (rw t at e) n)
]

revoked_rows :
    (id : Text) (rows : List KeyRow)
    → is_enabled id (update_rows id (λ r. record r { enabled = false }) rows) ≡ false
unfolding update_rows
revoked_rows id [] = refl
revoked_rows id (r ∷ rows) = ground (arith, revoked_rows id rows)

others_rows :
    (id j : Text) (f : KeyRow → KeyRow) (rows : List KeyRow)
    → ((r : KeyRow) → (f r).id ≡ r.id)
    → text_eq id j ≡ false
    → is_enabled j (update_rows id f rows) ≡ is_enabled j rows
unfolding update_rows
others_rows id j f [] k d = refl
others_rows id j f (r ∷ rows) k d = ground (
  arith,
  others_rows id j f rows k d,
  k r,
  text_eq_iff r.id id,
  text_eq_iff r.id j,
  text_eq_iff id j,
)

limit_rows :
    (id j : Text) (limit : ℤ) (rows : List KeyRow)
    → is_enabled j (update_rows id (λ r. record r { concurrency_limit = limit }) rows)
      ≡ is_enabled j rows
unfolding update_rows
limit_rows id j limit [] = refl
limit_rows id j limit (r ∷ rows) = ground (arith, limit_rows id j limit rows)

-- A successful revocation leaves no enabled row of the key and touches no other key; a refused one
-- changes nothing; and a change of the limit never enables or disables a key.
pub revoke_key_lem :
    (rows : List KeyRow) (id j : Text) (limit : ℤ)
    → ((revoke_key rows id).1 ≡ none → is_enabled id (revoke_key rows id).0 ≡ false)
      × (text_eq id j ≡ false → is_enabled j (revoke_key rows id).0 ≡ is_enabled j rows)
      × ((revoke_key rows id).1 ≢ none → (revoke_key rows id).0 ≡ rows)
      × (is_enabled j (update_concurrency rows id limit).0 ≡ is_enabled j rows)
unfolding revoke_key update_concurrency
revoke_key_lem rows id j limit = (
  λ h. ground (arith, revoked_rows id rows),
  λ d. ground (arith, others_rows id j (λ r. record r { enabled = false }) rows (λ r. refl) d),
  λ h. ground arith,
  ground (arith, limit_rows id j limit rows),
)

-- A key that is found and enabled stands in an enabled row.
pub find_key-enabled :
    (rows : List KeyRow) (h : Text) (k : AccessKeyRecord)
    → find_key rows h ≡ inl k
    → k.key.enabled ≡ true
    → is_enabled k.key.identity.id rows ≡ true
unfolding find_key
find_key-enabled rows h k e n = elim (Option-cases (row_by_hash h rows)) [
  | inl f ↦ absurd (ground (arith, f))
  | inr (r, f) ↦
      let (same, on) = decode_key-same r k (rw (f, find_key) at e) in
      subst (λ t. is_enabled t rows ≡ true) same (enabled_row h rows r f (on ∙ n))
]
  where
    decode_key-same :
        (r : KeyRow) (k : AccessKeyRecord)
        → decode_key r ≡ inl k
        → (r.id ≡ k.key.identity.id) × (r.enabled ≡ k.key.enabled)
    decode_key-same r k e = unfold decode_key AccessKey.new in ground (arith, e)
