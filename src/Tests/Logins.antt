-- ===== src/Tests/Logins.antt =====
-- A concrete browser login.
use clan.Prelude.{
  ℕ, suc, ◌≡◌, some, length, refl, true, false, none, List, [], ◌∷◌, ◌++◌, get_elem?, codes,
  text_eq, is_blank,
}
use clan.Storage.{AccountRecord}
use clan.Login.{
  PendingLogin, reconnects, invalidates, start_reconnect, invalidate_login, cancel_check,
  LoginState, Manager, Authorization, cancel_commit, Event, starts, claims, begins_commit, settles,
  run, step, start_login, start_pending, expire_login, last, on_last, claim, settle, begin_commit,
  login_succeeded,
}
use clan.Login.Ended.{HasEnded}
use clan.Login.Cancellation.{cancel-run, cancel_check-run}

abbrev idle : Manager
idle = record { closed = false; logins = [] }

abbrev authorization : Authorization
authorization = record { url = codes "u"; callback_state = codes "s"; verifier = codes "v" }

abbrev begun : List Event
begun =
    starts none 5 (record { id = codes "a"; name = codes "Ada" }) authorization (codes "l")
    ∷ claims 6 (codes "s")
    ∷ []

saved :
    HasEnded true login_succeeded
      (get_elem? (run idle (begun ++ (begins_commit 0 ∷ settles 0 true ∷ []))).logins 0)
unfolding run step start_login start_pending expire_login last on_last claim settle begin_commit
    is_blank text_eq
saved = (refl, refl, refl)

-- A reconnection that is canceled by the loss of its account while its credentials are stored.
abbrev old : AccountRecord
old = record {
  account = record {
    identity = record { id = codes "a"; name = codes "Ada" };
    credentials = record {
      chatgpt_account_id = codes "x";
      access_token = codes "t";
      refresh_token = [];
      expires_at = 0;
    };
  };
  enabled = true;
  revision = [];
}

abbrev lost : List Event
lost =
    reconnects none 5 old authorization (codes "l")
    ∷ claims 6 (codes "s")
    ∷ begins_commit 0
    ∷ invalidates (codes "a")
    ∷ []

cancel_check-run_example :
    let m' = (cancel_check (run idle lost) none 7 (codes "l")).0 in
    (i : ℕ) × (p : PendingLogin) × (suc i ≡ length m'.logins)
    × (get_elem? m'.logins i ≡ some p)
    × (p.status.login_id ≡ codes "l")
    × HasEnded false p.status.state (get_elem? m'.logins i)
    × HasEnded false p.status.state (get_elem? (run m' (settles 0 true ∷ [])).logins i)
unfolding run step start_reconnect start_pending expire_login last on_last claim begin_commit
    invalidate_login is_blank text_eq cancel_check
cancel_check-run_example = cancel_check-run (run idle lost) 7 (codes "l") (settles 0 true ∷ []) refl

cancel-run_example :
    let m = run idle begun in
    (s : LoginState) × HasEnded true s (get_elem? (cancel_commit m none 7 0).0.logins 0)
    × HasEnded true s (
        get_elem?
          (run (cancel_commit m none 7 0).0 (begins_commit 0 ∷ settles 0 true ∷ [])).logins
          0)
unfolding run step start_login start_pending expire_login last on_last claim is_blank text_eq
    cancel_commit
cancel-run_example = cancel-run (run idle begun) 7 0 (begins_commit 0 ∷ settles 0 true ∷ []) refl
