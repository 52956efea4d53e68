-- ===== src/Tests/Refreshes.antt =====
-- A concrete account whose credentials are refreshed.
use clan.Prelude.{
  ℕ, ◌<◌, ◌≡◌, refl, ◌≢◌, inl, inr, true, false, Option, none, some, List, [], ◌∷◌, arith,
  get_elem?, Text, codes, text_eq, is_blank, lookup, insert, erase,
}
use clan.Errors.{is, other, not_found}
use clan.Account
use clan.Account.{validate_credentials, Account, Identity, OAuthCredentials, credentials_eq}
use clan.Storage.{AccountRecord}
use clan.Storage.Accounts.{AccountRow}
use clan.OAuth.Refresh.{
  RefreshState, Refreshes, no_refreshes, record_eq, needs_sign_in_for, update, canceled_at,
  invalidate_locked, invalidate, Seen, look, new_state, renew, reuse, take, account_unavailable,
  looks_again,
}
use clan.OAuth.Refresh.Jobs.{
  Clock, is_settled, served, decide_state, decide, chosen, candidate, outcome, asks_sign_in,
  failed_state, finish, asks_again, refuses, answers, waits_for, must_sign_in, failed,
}
use clan.Storage.Accounts.{Store, get_account}
use clan.OAuth.Refresh.Steps.{Event, takes, decides, finishes, invalidates, step, run}
use clan.OAuth.Refresh.Single.{run-is_live}
use clan.OAuth.Refresh.SignIn.{Keeps, KeepsAll, run-decide}
use clan.OAuth.Refresh.Answers.{take-decide, finish-candidate}
use clan.OAuth.Refresh.Progress.{look-take}

abbrev ada : Account
ada = record {
  identity = record { id = codes "a"; name = codes "Ada" };
  credentials = record {
    chatgpt_account_id = codes "g";
    access_token = codes "t";
    refresh_token = codes "r";
    expires_at = 1000;
  };
}

abbrev ada_record : AccountRecord
ada_record = record { account = ada; enabled = true; revision = codes "x" }

abbrev ada_row : AccountRow
ada_row = record { name = codes "Ada"; enabled = true; credentials = codes "x" }

abbrev decrypt : Text → Text → Option OAuthCredentials
decrypt id t = some ada.credentials

abbrev ada_store : Store
ada_store = record { rows = (codes "a", ada_row) ∷ []; nonces = 1 }

abbrev early : Clock
early = record { first = 1; second = 2; third = 3 }

abbrev unseen : Seen
unseen = record { before = none; at_revision = 0 }

abbrev seen_first : Seen
seen_first = record { before = some 0; at_revision = 1 }

-- The account is read and a refresh of it starts.
abbrev refreshing : List Event
refreshing =
    takes (codes "a") unseen (some ada_row) ∷ decides (codes "a") ada_record 0 false early ∷ []

abbrev rejected : List Event
rejected =
    takes (codes "a") unseen (some ada_row)
    ∷ decides (codes "a") ada_record 0 false early
    ∷ finishes (codes "a") 0 (failed must_sign_in none) 5
    ∷ []

abbrev job : RefreshState
job = record {
  previous = ada_record;
  running = true;
  has_cancel = true;
  canceled = false;
  replacement = none;
  needs_sign_in = false;
  retry_time = 0;
  is_blocked = false;
}

abbrev first_place : ℕ
first_place = 0

run-is_live_example : first_place ≡ 0
unfolding lookup run step look decide take Account.new is_blank no_refreshes reuse renew
    invalidate_locked insert erase text_eq canceled_at decide_state new_state credentials_eq
    validate_credentials is asks_sign_in failed_state finish is_settled invalidate needs_sign_in_for
    record_eq update
run-is_live_example = run-is_live decrypt refreshing first_place 0 job job refl refl refl refl refl

abbrev signed_out : RefreshState
signed_out = record job { running = false; needs_sign_in = true }

run-decide_example :
    let m = run decrypt (run decrypt no_refreshes rejected) (invalidates (codes "a") true ∷ []) in
    ((decide m (codes "a") ada_record 0 false early).0 ≡ m)
    × ((a : Account) → (decide m (codes "a") ada_record 0 false early).1 ≢ answers a)
    × ((j : ℕ) → (decide m (codes "a") ada_record 0 false early).1 ≢ waits_for j)
unfolding lookup run step look decide take Account.new is_blank no_refreshes reuse renew
    invalidate_locked insert erase text_eq canceled_at decide_state new_state credentials_eq
    validate_credentials is asks_sign_in failed_state finish is_settled invalidate needs_sign_in_for
    record_eq update Keeps KeepsAll
run-decide_example =
    run-decide decrypt rejected (invalidates (codes "a") true ∷ []) (codes "a") ada.credentials
      ada_record 0 false early
      (record {
        place = 0;
        state = signed_out;
        registered = refl;
        found = refl;
        needs = refl;
        same = refl;
      })
      (λ h. refl, tt)

abbrev with_ada : Refreshes
with_ada = record {
  closed = false;
  revision = 1;
  current = (codes "a", 0) ∷ [];
  states = record job { running = false; has_cancel = false } ∷ [];
}

take-decide_example :
    (get_account decrypt ada_store (codes "a") ≡ inl ada_record)
    × (true ≡ true)
    × (ada ≡ ada)
    × (3 < 1000)
unfolding lookup run step look decide take Account.new is_blank no_refreshes reuse renew
    invalidate_locked insert erase text_eq canceled_at decide_state new_state credentials_eq
    validate_credentials is asks_sign_in failed_state finish is_settled invalidate needs_sign_in_for
    record_eq update get_account
take-decide_example =
    take-decide decrypt ada_store no_refreshes with_ada (codes "a") unseen ada_record 0 true early
      ada refl refl

finish-candidate_example :
    (u : RefreshState) × (get_elem?
        (finish
          (run decrypt no_refreshes refreshing)
          (codes "a")
          0
          (outcome (inl ada.credentials) (some (other (codes "disk"))))
          9).states
        0
      ≡ some u)
    × (served u ada_record early ≡ refuses account_unavailable)
    × (candidate u 10 (inl ada.credentials) ≡ inl ada.credentials)
unfolding lookup run step look decide take Account.new is_blank no_refreshes reuse renew
    invalidate_locked insert erase text_eq canceled_at decide_state new_state credentials_eq
    validate_credentials is asks_sign_in failed_state finish is_settled invalidate needs_sign_in_for
    record_eq update outcome candidate chosen
finish-candidate_example =
    finish-candidate (run decrypt no_refreshes refreshing) (codes "a") 0 job ada.credentials
      (other (codes "disk")) 9 10 ada_record early (inl ada.credentials) refl refl refl refl
      (omega arith)

look-take_example :
    ((take (run decrypt no_refreshes refreshing) (codes "a") seen_first (inr not_found)).1
      ≢ looks_again)
    × ((decide
          (take (run decrypt no_refreshes refreshing) (codes "a") seen_first (inl ada_record)).0
          (codes "a")
          ada_record
          0
          false
          early).1
        ≢ asks_again)
    × ((j : ℕ)
        → (decide
            (take (run decrypt no_refreshes refreshing) (codes "a") seen_first (inl ada_record)).0
            (codes "a")
            ada_record
            0
            true
            early).1
          ≢ waits_for j)
unfolding lookup run step look decide take Account.new is_blank no_refreshes reuse renew
    invalidate_locked insert erase text_eq canceled_at decide_state new_state credentials_eq
    validate_credentials is asks_sign_in failed_state finish is_settled invalidate needs_sign_in_for
    record_eq update
look-take_example =
    look-take decrypt refreshing (codes "a") seen_first (inr not_found) ada_record 0 false early
      refl refl
