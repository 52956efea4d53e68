-- ===== src/Tests/Attempts.antt =====
-- Concrete rounds of the retry loop.
use clan.Prelude.{
  ℕ, zero, suc, ◌≤◌, ◌≡◌, refl, ◌⊎◌, inl, true, false, Option, none, some, List, [], ◌∷◌, length,
  In, codes, text_eq, text_lt, lookup, insert, erase, get_or,
}
use clan.Errors.{is_ctx, CtxError, provider_limit, Failure, Error, failure, as_failure}
use clan.Retry.{at}
use clan.Account.{Account}
use clan.Selection
use clan.Execution.Codes.{safe_retry}
use clan.Execution.Attempt.{
  Candidate, Executor, Read, Round, streaming, mem, is_cooling, select_account, prepare,
  note_failure, open_loop, start, register_account, eligible, find_candidate, attempted, selected,
  attempt,
}
use clan.Selection.{select, scan, scan_one}
use clan.Execution.Choice.{is_free, select_account_lem, note_failure_lem}
use clan.Execution.Retries.{Distinct, AreCandidates, AreAttempts, Ends, open_loop_sound}
use clan.Execution.Prepared.{IsPrepared, open_loop-IsPrepared}

abbrev pool : List Candidate
pool =
    record { id = codes "a"; identity = codes "x" }
    ∷ record { id = codes "b"; identity = codes "x" }
    ∷ []

abbrev owner : Account
owner = record {
  identity = record { id = codes "a"; name = codes "Ada" };
  credentials = record {
    chatgpt_account_id = codes "x";
    access_token = codes "t";
    refresh_token = [];
    expires_at = 0;
  };
}

abbrev stored : Read
stored = record {
  stored = inl (record { account = owner; enabled = true; revision = [] });
  ctx_err = none;
}

abbrev limited : Failure
limited = record {
  category = provider_limit;
  http_status = 429;
  safe_to_retry = true;
  retry_after = at 70;
  cause = none;
}

abbrev round : Option Error → Round
round answer = record {
  meanwhile = λ e. e;
  now = 10;
  first = stored;
  current = inl owner;
  current_ctx = none;
  second = stored;
  stream = answer;
  ctx_after = none;
}

-- The first account is over its limit; the second one streams.
abbrev rounds : ℕ → Round
rounds zero = round (some (failure limited))
rounds (suc i) = round none

abbrev idle : Executor
idle = record { selector = Selection.new; cooldowns = [] }

abbrev cooling : Executor
cooling = record { selector = Selection.new; cooldowns = (codes "a", 70) ∷ [] }

second_account :
    (open_loop 3 rounds 0 (codes "m") pool (start idle)).1
    ≡ streaming (record { id = codes "b"; identity = codes "x" })
unfolding open_loop select_account eligible select Selection.new lookup scan scan_one selected
    find_candidate text_eq erase text_lt attempted attempt prepare register_account safe_retry
    is_ctx as_failure note_failure insert
second_account = refl

open_loop_sound_example :
    let (l, o) = open_loop 3 rounds 0 (codes "m") pool (start idle) in
    (length l.tried ≤ 3)
    × Distinct l.tried
    × AreCandidates pool l.tried
    × AreAttempts pool rounds l.failures
    × Ends pool rounds l o
open_loop_sound_example = open_loop_sound rounds idle (codes "m") pool

open_loop-IsPrepared_example :
    let c : Candidate = record { id = codes "b"; identity = codes "x" } in
    In c pool
    × IsPrepared c (rounds (length (open_loop 3 rounds 0 (codes "m") pool (start idle)).0.failures))
open_loop-IsPrepared_example =
    open_loop-IsPrepared rounds idle (codes "m") pool
      (record { id = codes "b"; identity = codes "x" }) second_account

select_account_lem_example :
    (((select_account cooling (codes "m") pool [] 10).1 ≡ none)
      × ((c : Candidate) → In c pool → is_free [] 10 cooling.cooldowns c.id ≡ false))
    ⊎ ((c : Candidate) × ((select_account cooling (codes "m") pool [] 10).1 ≡ some c)
        × In c pool
        × (mem c.id [] ≡ false)
        × (is_cooling cooling.cooldowns 10 c.id ≡ false))
select_account_lem_example = select_account_lem cooling (codes "m") pool [] 10

note_failure_lem_example :
    let n = note_failure [] 10 none (codes "a") (failure limited) in
    (get_or 0 (lookup (codes "b") []) ≤ get_or 0 (lookup (codes "b") n))
    × (text_eq (codes "a") (codes "b") ≡ false → lookup (codes "b") n ≡ lookup (codes "b") [])
    × ((f : Failure)
        → Path (Option CtxError) none none
        → as_failure (failure limited) ≡ some f
        → f.category ≡ provider_limit
        → is_cooling n 10 (codes "a") ≡ true)
note_failure_lem_example = note_failure_lem [] 10 none (codes "a") (codes "b") (failure limited)
