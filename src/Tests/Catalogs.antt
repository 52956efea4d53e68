-- ===== src/Tests/Catalogs.antt =====
-- A concrete history of the model catalog.
use clan.Prelude.{
  ℕ, ◌≡◌, refl, ◌⊎◌, inl, true, false, none, List, [], ◌∷◌, is_some, Text, codes, text_eq, is_blank,
  lookup, insert,
}
use clan.Account.{Account, validate_credentials}
use clan.Codex.Request.{Model}
use clan.Codex.Catalog.{AccountCatalog, new, activate, set_accounts, added, retained}
use clan.Codex.Catalog.Refresh.{Event, sets, snapshots, completes, closes, run, view}
use clan.Codex.Catalog.Refresh
use clan.Codex.Catalog.Identities.{IsServed, view-IsServed}
use clan.Codex.Catalog.Members.{has_account, run-set_accounts}
use clan.Errors.{Error}

abbrev ada : Text → Account
ada chatgpt = record {
  identity = record { id = codes "a"; name = codes "Ada" };
  credentials = record {
    chatgpt_account_id = chatgpt;
    access_token = codes "t";
    refresh_token = [];
    expires_at = 0;
  };
}

abbrev model : Model
model = record {
  id = codes "m";
  name = codes "M";
  listed = true;
  reasoning_efforts = [];
  input_modalities = [];
  supports_reasoning_summary = false;
  supports_verbosity = false;
  supports_image_detail_original = false;
}

abbrev fetch : Account → ℕ → List Model ⊎ Error
fetch a n = inl (model ∷ [])

abbrev clock : Text → ℕ
clock id = 5

abbrev first_refresh : List Event
first_refresh = sets (ada (codes "x") ∷ []) ∷ snapshots none clock ∷ completes 0 6 0 ∷ []

abbrev shown : AccountCatalog
shown = record {
  account_id = codes "a";
  chatgpt_account_id = codes "x";
  models = model ∷ [];
  loaded = true;
  failure = none;
}

view-IsServed_example : IsServed fetch (codes "x") (model ∷ [])
unfolding view run Refresh.step set_accounts Refresh.catalogs Refresh.sort_ids Refresh.refresh
    Refresh.snapshot_pass new activate validate_credentials is_blank lookup Refresh.start_due added
    insert retained Refresh.start_refresh text_eq Refresh.insert_id Refresh.refreshed
view-IsServed_example = view-IsServed fetch first_refresh shown (inl refl)

run-set_accounts_example :
    is_some (
      lookup
        (codes "a")
        (run fetch
          (set_accounts new (ada (codes "x") ∷ [])).0
          (snapshots none clock ∷ completes 0 6 0 ∷ [])).entries)
    ≡ has_account (codes "a") (ada (codes "x") ∷ [])
unfolding set_accounts activate validate_credentials new is_blank lookup
run-set_accounts_example =
    run-set_accounts fetch new (ada (codes "x") ∷ []) (snapshots none clock ∷ completes 0 6 0 ∷ [])
      (codes "a") refl (tt, (tt, tt))
