-- ===== src/Tests/Accounts.antt =====
-- A concrete history of the account table.
use clan.Prelude.{
  ℕ, suc, ◌≡◌, refl, true, false, Option, some, [], ◌∷◌, arith, Text, codes, text_eq, is_blank,
  lookup, insert,
}
use clan.Account.{Account, OAuthCredentials, validate_credentials}
use clan.Account
use clan.Storage.{AccountRecord}
use clan.Storage.Accounts.{
  empty_store, creates, disables, enables, run, step, replace_if_unchanged, get_account,
  row_matches, create_account, disable_row, enable_round,
}
use clan.Storage.Accounts.Revisions.{replace_if_unchanged-run}
use clan.Errors.{conflict}

abbrev tokens : OAuthCredentials
tokens = record {
  chatgpt_account_id = codes "x";
  access_token = codes "t";
  refresh_token = [];
  expires_at = 0;
}

abbrev ada : Account
ada = record { identity = record { id = codes "a"; name = codes "Ada" }; credentials = tokens }

abbrev encrypt : Text → OAuthCredentials → ℕ → Text
encrypt id c n = suc n ∷ []

abbrev decrypt : Text → Text → Option OAuthCredentials
decrypt id t = some tokens

encrypt_distinct :
    (i j : Text) (c d : OAuthCredentials) (m n : ℕ) → encrypt i c m ≡ encrypt j d n → m ≡ n
encrypt_distinct i j c d m n e = ground (arith, e)

abbrev seen : AccountRecord
seen = record { account = ada; enabled = true; revision = 1 ∷ [] }

abbrev off : AccountRecord
off = record { account = ada; enabled = false; revision = 1 ∷ [] }

-- Disabled and enabled again, the account has a new revision.
stale_after_enabling :
    (replace_if_unchanged encrypt
      (run encrypt empty_store (creates ada true ∷ disables (codes "a") ∷ enables off ∷ []))
      seen
      tokens).1
    ≡ some conflict
unfolding replace_if_unchanged run step create_account disable_row enable_round empty_store
    Account.new validate_credentials is_blank lookup insert text_eq
stale_after_enabling = refl

replace_if_unchanged-run_example :
    row_matches true (1 ∷ []) (
      lookup
        (codes "a")
        (run encrypt
          (run encrypt empty_store (creates ada true ∷ []))
          (disables (codes "b") ∷ [])).rows)
    ≡ true
unfolding replace_if_unchanged run step create_account disable_row enable_round empty_store
    Account.new validate_credentials is_blank lookup insert text_eq get_account
replace_if_unchanged-run_example =
    replace_if_unchanged-run encrypt decrypt encrypt_distinct (creates ada true ∷ [])
      (disables (codes "b") ∷ []) (disables (codes "c") ∷ []) (codes "a") seen tokens refl refl
