-- ===== src/Tests/Requests.antt =====
-- A concrete history of requests, revocation and shutdown.
use clan.Prelude.{
  ◌≡◌, refl, inr, Bool, true, false, none, List, [], ◌∷◌, replicate, All, Text, codes, text_eq,
  is_blank, Map, lookup, insert, erase, pos,
}
use clan.Storage.Keys.{KeyRow, find_key, row_by_hash, decode_key, has_row, revoke_key, update_rows}
use clan.AccessKey.{hash, decode, decode_chars, skip_newlines, unsextets}
use clan.AccessKey
use clan.Concurrency.{release, release_key, try_acquire}
use clan.Concurrency
use clan.Execution.Codes.{error_code, operation_error, result_code}
use mathlib.Core.Option.{bind}
use clan.Storage.{AccessKeyRecord}
use clan.Errors.{as_failure, as_validation, is, is_ctx, sentinel, closed}
use clan.Account.{no_usage}
use clan.Concurrency.Invariant.{stored}
use clan.Concurrency.Bounds.{Permits}
use clan.Execution.Requests.{
  admitted, step, finish, register, cancel_where, final_error, Admission, Outcome, Event, admits,
  registers, concludes, conclude, finishes, admit, authenticate, close, revoke, run, new,
}
use clan.Execution.Revocation.{IsGuarded, run-new-IsGuarded}
use clan.Execution.Revoked.{AllCanceled, revoke-run, close-run}
use clan.Execution.Slots.{unfinished, lookup-active, admit_within_limit}

abbrev toy_sha : Text → Text
toy_sha s = replicate 32 7

abbrev raw : Text
raw = codes "clan_AQEBAQEBAQEBAQEBAQEBAQEBAQEBAQEBAQEBAQEBAQE"

abbrev row : KeyRow
row = record {
  id = codes "k";
  name = codes "K";
  verification_hash = replicate 32 7;
  enabled = true;
  concurrency_limit = pos 2;
}

abbrev admission : Admission
admission = record {
  raw_key = raw;
  id = codes "r";
  started = 1;
  model = codes "m";
  now = 1;
  ctx_auth = none;
  store_err = none;
  ctx_lock = none;
}

abbrev outcome : Outcome
outcome = record {
  now = 9;
  status = codes "completed";
  usage = no_usage;
  err = none;
  delivery_failed = false;
  ctx_err = none;
  stored = true;
}

abbrev accounts : Map Bool
accounts = (codes "a", true) ∷ []

abbrev history : List Event
history =
    admits admission
    ∷ registers 0 (codes "a")
    ∷ admits admission
    ∷ concludes 0 outcome
    ∷ finishes 0
    ∷ []

-- Two requests were admitted, and one of them has finished.
one_left : unfinished (codes "k") (run toy_sha (new (row ∷ []) accounts) history).requests ≡ 1
unfolding run step conclude finish admit register lookup new authenticate hash decode bind
    decode_chars skip_newlines unsextets find_key row_by_hash text_eq AccessKey.new Concurrency.new
    release release_key try_acquire as_failure as_validation is is_ctx error_code operation_error
    result_code cancel_where final_error revoke erase insert is_blank decode_key has_row revoke_key
    update_rows
one_left = refl

run-new-IsGuarded_example : IsGuarded (run toy_sha (new (row ∷ []) accounts) history)
run-new-IsGuarded_example = run-new-IsGuarded toy_sha (row ∷ []) accounts history

lookup-active_example :
    let t = run toy_sha (new (row ∷ []) accounts) history in
    lookup (codes "k") t.limiter.active ≡ stored (unfinished (codes "k") t.requests)
lookup-active_example = lookup-active toy_sha (row ∷ []) accounts history (codes "k")

close-run_example :
    let t =
      run toy_sha (close (run toy_sha (new (row ∷ []) accounts) history)) (admits admission ∷ []) in
    (admit toy_sha t admission ≡ inr (sentinel closed))
    × All (λ r. r.done ≡ false → r.canceled ≡ true) t.requests
close-run_example = close-run toy_sha (row ∷ []) accounts history (admits admission ∷ []) admission

revoke-run_example :
    AllCanceled
      (codes "k")
      (run toy_sha
        (revoke (run toy_sha (new (row ∷ []) accounts) history) (codes "k")).0
        (admits admission ∷ [])).requests
unfolding run step conclude finish admit register lookup new authenticate hash decode bind
    decode_chars skip_newlines unsextets find_key row_by_hash text_eq AccessKey.new Concurrency.new
    release release_key try_acquire as_failure as_validation is is_ctx error_code operation_error
    result_code cancel_where final_error revoke erase insert is_blank decode_key has_row revoke_key
    update_rows
revoke-run_example =
    revoke-run toy_sha (row ∷ []) accounts history (admits admission ∷ []) (codes "k") refl

abbrev key_record : AccessKeyRecord
key_record = record {
  key = record { identity = record { id = codes "k"; name = codes "K" }; enabled = true };
  verification_hash = replicate 32 7;
  concurrency_limit = pos 2;
}

admit_within_limit_example : Permits (pos 2) 0
unfolding run new authenticate admit hash decode bind decode_chars skip_newlines unsextets find_key
    row_by_hash text_eq AccessKey.new Concurrency.new try_acquire is_blank decode_key lookup
admit_within_limit_example =
    admit_within_limit toy_sha (row ∷ []) accounts [] admission key_record
      (admitted (new (row ∷ []) accounts) (admit toy_sha (new (row ∷ []) accounts) admission), 0)
      refl refl refl
