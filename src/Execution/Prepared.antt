-- ===== src/Execution/Prepared.antt =====
-- What a request has checked when its stream is open (internal/execution/attempt.go, prepare).
use clan.Prelude.{
  ℕ, ◌≡◌, refl, subst, ◌⊎◌, inl, inr, true, Option, none, some, List, arith, length, In, Text,
  text_eq, text_eq_iff,
}
use clan.Errors.{CtxError, Error}
use clan.Account.{Account}
use clan.Storage.{AccountRecord}
use clan.Execution.Attempt.{
  Candidate, Executor, Round, Read, streaming, register_account, prepare, attempt, open_loop, start,
}
use clan.Execution.Retries.{Ends, open_loop_sound}

-- A read of the store, under a live request, that found the candidate enabled and with the ChatGPT
-- identity that the catalog knew.
pub record IsUsable (c : Candidate) (r : Read) : Type 0 where
  account : AccountRecord
  stored : r.stored ≡ inl account
  enabled : account.enabled ≡ true
  identity : account.account.credentials.chatgpt_account_id ≡ c.identity
  live : r.ctx_err ≡ none

register_account-IsUsable : (c : Candidate) (r : Read) → register_account c r ≡ none → IsUsable c r
register_account-IsUsable c r h = go r.stored r.ctx_err refl refl
  where
    go :
        (s : AccountRecord ⊎ Error) (x : Option CtxError)
        → r.stored ≡ s
        → r.ctx_err ≡ x
        → IsUsable c r
    go (inr e) x p q = absurd (unfold register_account in ground (arith, h))
    go (inl a) (some x) p q = absurd (unfold register_account in ground (arith, h))
    go (inl a) none p q =
        unfold register_account in
        record {
          account = a;
          stored = p;
          enabled = ground (arith, h);
          identity =
              ground (arith, h, text_eq_iff a.account.credentials.chatgpt_account_id c.identity);
          live = q;
        }

-- What stands behind an open stream.
pub record IsPrepared (c : Candidate) (w : Round) : Type 0 where
  before : IsUsable c w.first
  tokens : Account
  current : w.current ≡ inl tokens
  identity : tokens.credentials.chatgpt_account_id ≡ c.identity
  after : IsUsable c w.second
  stream : w.stream ≡ none

attempt_steps :
    (c : Candidate) (w : Round)
    → attempt c w ≡ none
    → (a : Account) × (register_account c w.first ≡ none)
      × (w.current ≡ inl a)
      × (text_eq a.credentials.chatgpt_account_id c.identity ≡ true)
      × (register_account c w.second ≡ none)
      × (w.stream ≡ none)
unfolding attempt prepare
attempt_steps c w h = go w.current refl
  where
    go :
        (o : Account ⊎ Error)
        → w.current ≡ o
        → (a : Account) × (register_account c w.first ≡ none)
          × (w.current ≡ inl a)
          × (text_eq a.credentials.chatgpt_account_id c.identity ≡ true)
          × (register_account c w.second ≡ none)
          × (w.stream ≡ none)
    go (inr e) p = absurd (ground (arith, h))
    go (inl a) p =
        (a, ground (arith, h), p, ground (arith, h), ground (arith, h), ground (arith, h))

attempt-IsPrepared : (c : Candidate) (w : Round) → attempt c w ≡ none → IsPrepared c w
attempt-IsPrepared c w h =
    let (a, first, current, same, second, stream) = attempt_steps c w h in
    record {
      before = register_account-IsUsable c w.first first;
      tokens = a;
      current = current;
      identity = (text_eq_iff a.credentials.chatgpt_account_id c.identity).0 same;
      after = register_account-IsUsable c w.second second;
      stream = stream;
    }

-- Whatever happened before, a stream that a request opens is on a candidate whose account, in the
-- round after the logged failures, the store held enabled and with the ChatGPT identity that the
-- catalog knew, both before its tokens were obtained and after, under a live request both times; and
-- the tokens that were obtained are that identity's.
pub open_loop-IsPrepared :
    (rounds : ℕ → Round) (e : Executor) (model : Text) (cs : List Candidate) (c : Candidate)
    → (open_loop 3 rounds 0 model cs (start e)).1 ≡ streaming c
    → In c cs × IsPrepared c (rounds (length (open_loop 3 rounds 0 model cs (start e)).0.failures))
open_loop-IsPrepared rounds e model cs c h =
    let l = (open_loop 3 rounds 0 model cs (start e)).0 in
    let ends = subst (Ends cs rounds l) h (open_loop_sound rounds e model cs).4 in
    (ends.0, attempt-IsPrepared c (rounds (length l.failures)) ends.3)
