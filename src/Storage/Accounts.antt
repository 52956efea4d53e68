-- ===== src/Storage/Accounts.antt =====
-- internal/storage/account.go: the account table, as a map from IDs to rows.
--
-- Encoding and encryption are parameters: `encrypt` takes the credentials and a number for the random
-- nonce of the call, and `nonces` counts the calls. Failures of the database itself are left out.
use clan.Prelude.{
  ℕ, zero, suc, ◌+◌, ◌-◌, ◌*◌, ◌/◌, ◌%◌, ◌^◌, ◌≤◌, ◌<◌, max, min, String, ◌≡◌, refl, sym, ap, ◌∙◌,
  subst, ◌≢◌, ◌↔◌, ◌⊎◌, inl, inr, Bool, true, false, not, ◌&&◌, ◌||◌, Option, none, some, List, [],
  ◌∷◌, ◌++◌, map, arith, ltb, leb, ◌==◌, if◌then◌else◌, Bool-cases, Option-cases, is_some,
  subst_some, if_elim, all_below, all_below_sound, length, length-append, replicate, count, filter,
  count-le-length, count-append, count-set, count-strict, count_mono, count-pos, In, All, All-In,
  get_elem?, set, get_elem?-set_self, Text, codes, text_eq, text_eq_iff, text_eq_refl, text_lt,
  text_lt_irrefl, text_lt_trans, text_lt_total, text_lt_of_ge, is_blank, Map, lookup, insert, erase,
  lookup-insert, lookup-erase, get_or, ℤ, pos, negsuc, incr, decr, int_lt, is_zero, ltb→lt, lt→ltb,
  leb→le, le→leb, ==_iff, tests,
}
use clan.Account.{Account, Identity, OAuthCredentials, AccountError, validate_credentials}
use clan.Account
use clan.Errors.{Sentinel, not_found, conflict, corrupt, invalid}
use clan.Storage.{AccountRecord}
pub mod Revisions

pub record AccountRow : Type 0 where
  pub name : Text
  pub enabled : Bool
  pub credentials : Text

pub record Store : Type 0 where
  pub rows : Map AccountRow
  pub nonces : ℕ

unfoldable pub empty_store : Store
empty_store = record { rows = []; nonces = 0 }

abbrev pub is_nil : Text → Bool
is_nil [] = true
is_nil (c ∷ s) = false

-- The WHERE clause on an ID, the enabled flag and the ciphertext.
abbrev pub row_matches : Bool → Text → Option AccountRow → Bool
row_matches enabled revision none = false
row_matches enabled revision (some r) =
    (if enabled then r.enabled else not r.enabled) && text_eq r.credentials revision

abbrev pub name_of : Option AccountRow → Text
name_of none = []
name_of (some r) = r.name

abbrev pub switched_off : Store → Text → Option AccountRow → Store × Option Sentinel
switched_off s id none = (s, some not_found)
switched_off s id (some r) =
    (record s { rows = insert id (record r { enabled = false }) s.rows }, none)

-- `DisableAccount`
unfoldable pub disable_row : Store → Text → Store × Option Sentinel
disable_row s id = if is_blank id then (s, some invalid) else switched_off s id (lookup id s.rows)

-- `DeleteAccount`
unfoldable pub delete_row : Store → Text → Store × Option Sentinel
delete_row s id =
    if is_blank id
    then (s, some invalid)
    else if is_some (lookup id s.rows)
    then (record s { rows = erase id s.rows }, none)
    else (s, some not_found)

pub data Event : Type 0 where
  creates : Account → Bool → Event
  replaces : AccountRecord → OAuthCredentials → Event
  enables : AccountRecord → Event
  disables deletes : Text → Event

module _ (encrypt : Text → OAuthCredentials → ℕ → Text) where
  abbrev pub write : Store → Text → Text → OAuthCredentials → Bool → Store
  write s id name c enabled = record {
    rows =
        insert id (record { name = name; enabled = enabled; credentials = encrypt id c s.nonces })
          s.rows;
    nonces = suc s.nonces;
  }

  abbrev pub created : Store → Bool → Account ⊎ AccountError → Store × Option Sentinel
  created s enabled (inr e) = (s, some invalid)
  created s enabled (inl a) =
      if is_some (lookup a.identity.id s.rows)
      then (record s { nonces = suc s.nonces }, some conflict)
      else (write s a.identity.id a.identity.name a.credentials enabled, none)

  -- `CreateAccount`
  unfoldable pub create_account : Store → Account → Bool → Store × Option Sentinel
  create_account s a enabled = created s enabled (Account.new a.identity a.credentials)

  -- `ReplaceAccountCredentialsIfUnchanged`
  unfoldable pub replace_if_unchanged :
      Store → AccountRecord → OAuthCredentials → Store × Option Sentinel
  replace_if_unchanged s previous c =
      let id = previous.account.identity.id in
      if is_blank id || is_nil previous.revision || is_some (validate_credentials c)
      then (s, some invalid)
      else if row_matches true previous.revision (lookup id s.rows)
      then (write s id (name_of (lookup id s.rows)) c true, none)
      else (record s { nonces = suc s.nonces }, some conflict)

  -- One round of `EnableAccount`'s loop on the record that it read; the flag asks for another one.
  unfoldable pub enable_round : Store → AccountRecord → Store × Bool
  enable_round s previous =
      let id = previous.account.identity.id in
      if previous.enabled
      then (s, false)
      else if row_matches false previous.revision (lookup id s.rows)
      then (write s id (name_of (lookup id s.rows)) previous.account.credentials true, false)
      else (record s { nonces = suc s.nonces }, true)

  unfoldable pub step : Store → Event → Store
  step s (creates a enabled) = (create_account s a enabled).0
  step s (replaces previous c) = (replace_if_unchanged s previous c).0
  step s (enables previous) = (enable_round s previous).0
  step s (disables id) = (disable_row s id).0
  step s (deletes id) = (delete_row s id).0

  unfoldable pub run : Store → List Event → Store
  run s [] = s
  run s (e ∷ es) = run (step s e) es

abbrev pub account_record : AccountRow → Account ⊎ AccountError → AccountRecord ⊎ Sentinel
account_record r (inr e) = inr corrupt
account_record r (inl a) =
    inl (record { account = a; enabled = r.enabled; revision = r.credentials })

module _ (decrypt : Text → Text → Option OAuthCredentials) where
  abbrev pub decoded_account :
      Text → AccountRow → Option OAuthCredentials → AccountRecord ⊎ Sentinel
  decoded_account id r none = inr corrupt
  decoded_account id r (some c) =
      account_record r (Account.new (record { id = id; name = r.name }) c)

  -- `decodeAccount` of a row, for a row that is there.
  abbrev pub read_row : Text → Option AccountRow → AccountRecord ⊎ Sentinel
  read_row id none = inr not_found
  read_row id (some r) = decoded_account id r (decrypt id r.credentials)

  -- `GetAccount`
  unfoldable pub get_account : Store → Text → AccountRecord ⊎ Sentinel
  get_account s id = if is_blank id then inr invalid else read_row id (lookup id s.rows)
