-- ===== src/Execution/Retries.antt =====
-- The retry loop of internal/execution/attempt.go: how often, where, and after which failures.
use clan.Prelude.{
  ℕ, zero, suc, ◌+◌, ◌≤◌, ◌<◌, ◌≡◌, refl, sym, ap, subst, ◌⊎◌, inl, inr, true, false, Option, none,
  some, List, [], ◌∷◌, arith, Bool-cases, subst_some, length, In, Text,
}
use clan.Errors.{CtxError, Error, ctx, sentinel, no_accounts}
use clan.Retry
use clan.Execution.Codes.{safe_retry}
use clan.Execution.Attempt.{
  Candidate, Executor, Round, Loop, Opened, streaming, failed_with, mem, select_account, attempt,
  dispatched, failed, after_failure, attempted, selected, open_loop, start, last_or,
}
use clan.Execution.Choice.{select_account_lem}

-- No account twice.
abbrev pub Distinct : List Text → Type 0
Distinct [] = Unit
Distinct (t ∷ ts) = (mem t ts ≡ false) × Distinct ts

-- The accounts of a log of failures.
abbrev pub accounts_of : List (Text × Error) → List Text
accounts_of [] = []
accounts_of ((id, e) ∷ fs) = id ∷ accounts_of fs

-- Each entry is what the attempt of its own round answered for a candidate.
abbrev pub AreAttempts : List Candidate → (ℕ → Round) → List (Text × Error) → Type 0
AreAttempts cs rounds [] = Unit
AreAttempts cs rounds ((id, e) ∷ fs) =
    ((c : Candidate) × In c cs × (c.id ≡ id) × (attempt c (rounds (length fs)) ≡ some e))
    × AreAttempts cs rounds fs

-- Failures that are safe to retry, each under a live request.
abbrev pub AllSafe : (ℕ → Round) → List (Text × Error) → Type 0
AllSafe rounds [] = Unit
AllSafe rounds ((id, e) ∷ fs) =
    (safe_retry e ≡ true) × ((rounds (length fs)).ctx_after ≡ none) × AllSafe rounds fs

-- Every failure but the newest.
abbrev pub EarlierSafe : (ℕ → Round) → List (Text × Error) → Type 0
EarlierSafe rounds [] = Unit
EarlierSafe rounds (f ∷ fs) = AllSafe rounds fs

-- The error that stands for a log of failures: the newest, or the end of the request seen after it.
abbrev pub IsAnswer : (ℕ → Round) → List (Text × Error) → Error → Type 0
IsAnswer rounds [] e = e ≡ sentinel no_accounts
IsAnswer rounds ((id, f) ∷ fs) e =
    (e ≡ f) ⊎ ((c : CtxError) × ((rounds (length fs)).ctx_after ≡ some c) × (e ≡ ctx c))

abbrev pub AreCandidates : List Candidate → List Text → Type 0
AreCandidates cs [] = Unit
AreCandidates cs (t ∷ ts) = ((c : Candidate) × In c cs × (c.id ≡ t)) × AreCandidates cs ts

-- How the loop may end.
abbrev pub Ends : List Candidate → (ℕ → Round) → Loop → Opened → Type 0
Ends cs rounds l (streaming c) =
    In c cs
    × AllSafe rounds l.failures
    × (l.tried ≡ c.id ∷ accounts_of l.failures)
    × (attempt c (rounds (length l.failures)) ≡ none)
Ends cs rounds l (failed_with e) =
    EarlierSafe rounds l.failures
    × (l.tried ≡ accounts_of l.failures)
    × IsAnswer rounds l.failures e

abbrev Good : List Candidate → (ℕ → Round) → ℕ → Loop × Opened → Type 0
Good cs rounds n (l, o) =
    (length l.tried ≤ n)
    × Distinct l.tried
    × AreCandidates cs l.tried
    × AreAttempts cs rounds l.failures
    × Ends cs rounds l o

-- The loop before the round `i`, if its failures are safe.
record Logged (cs : List Candidate) (rounds : ℕ → Round) (i : ℕ) (l : Loop) : Type 0 where
  few : length l.tried ≡ i
  count : length l.failures ≡ i
  distinct : Distinct l.tried
  candidates : AreCandidates cs l.tried
  attempts : AreAttempts cs rounds l.failures
  same : l.tried ≡ accounts_of l.failures
  answer : IsAnswer rounds l.failures (last_or l.last_err (sentinel no_accounts))

all_earlier :
    (rounds : ℕ → Round) (fs : List (Text × Error)) → AllSafe rounds fs → EarlierSafe rounds fs
all_earlier rounds [] h = tt
all_earlier rounds ((id, e) ∷ fs) h = h.2

failed-Logged :
    (cs : List Candidate) (rounds : ℕ → Round) (i : ℕ) (l : Loop) (ex : Executor) (c : Candidate)
    (e : Error)
    → Logged cs rounds i l
    → In c cs
    → mem c.id l.tried ≡ false
    → attempt c (rounds i) ≡ some e
    → Logged cs rounds (suc i) (failed (dispatched l ex c) c (rounds i) e)
failed-Logged cs rounds i l ex c e g m new a = record {
  few = ap suc g.few;
  count = ap suc g.count;
  distinct = (new, g.distinct);
  candidates = ((c, m, refl), g.candidates);
  attempts = ((c, m, refl, subst (λ j. attempt c (rounds j) ≡ some e) (sym g.count) a), g.attempts);
  same = ap (λ ts. c.id ∷ ts) g.same;
  answer = inl refl;
}

ended-Good :
    (cs : List Candidate) (rounds : ℕ → Round) (i n : ℕ) (l : Loop) (e : Error)
    → i ≤ n
    → Logged cs rounds i l
    → EarlierSafe rounds l.failures
    → IsAnswer rounds l.failures e
    → Good cs rounds n (l, failed_with e)
ended-Good cs rounds i n l e le g f a =
    (omega (arith, g.few), g.distinct, g.candidates, g.attempts, (f, g.same, a))

after-Good :
    (cs : List Candidate) (rounds : ℕ → Round) (i n : ℕ) (l : Loop) (e : Error) (id : Text)
    (fs : List (Text × Error)) (ctx_err : Option CtxError) (rest : Loop × Opened)
    → i ≤ n
    → Logged cs rounds i l
    → l.failures ≡ (id, e) ∷ fs
    → (rounds (length fs)).ctx_after ≡ ctx_err
    → AllSafe rounds fs
    → (AllSafe rounds l.failures → Good cs rounds n rest)
    → Good cs rounds n (after_failure l e ctx_err rest)
after-Good cs rounds i n l e id fs (some c) rest le s g x f r =
    ended-Good cs rounds i n l (ctx c) le s (subst (EarlierSafe rounds) (sym g) f)
      (subst (λ log. IsAnswer rounds log (ctx c)) (sym g) (inr (c, x, refl)))
after-Good cs rounds i n l e id fs none rest le s g x f r = elim (Bool-cases (safe_retry e)) [
  | inl h ↦ rw h (r (subst (AllSafe rounds) (sym g) (h, x, f)))
  | inr h ↦ rw h (
      ended-Good cs rounds i n l e le s (subst (EarlierSafe rounds) (sym g) f)
        (subst (λ log. IsAnswer rounds log e) (sym g) (inl refl)))
]

attempted-Good :
    (cs : List Candidate) (rounds : ℕ → Round) (i n : ℕ) (l : Loop) (ex : Executor) (c : Candidate)
    (rest : Loop → Loop × Opened) (o : Option Error)
    → i < n
    → Logged cs rounds i l
    → AllSafe rounds l.failures
    → In c cs
    → mem c.id l.tried ≡ false
    → attempt c (rounds i) ≡ o
    → ((l' : Loop)
        → Logged cs rounds (suc i) l'
        → AllSafe rounds l'.failures
        → Good cs rounds n (rest l'))
    → Good cs rounds n (attempted (dispatched l ex c) c (rounds i) rest o)
unfolding attempted
attempted-Good cs rounds i n l ex c rest none lt g f m new a r = (
  omega (arith, g.few),
  (new, g.distinct),
  ((c, m, refl), g.candidates),
  g.attempts,
  (m, f, ap (λ ts. c.id ∷ ts) g.same, subst (λ j. attempt c (rounds j) ≡ none) (sym g.count) a),
)
attempted-Good cs rounds i n l ex c rest (some e) lt g f m new a r =
    let l' = failed (dispatched l ex c) c (rounds i) e in
    let g' = failed-Logged cs rounds i l ex c e g m new a in
    after-Good cs rounds (suc i) n l' e c.id l.failures (rounds i).ctx_after (rest l') (omega arith)
      g' refl (ap (λ j. (rounds j).ctx_after) g.count) f (r l' g')

selected-Good :
    (cs : List Candidate) (rounds : ℕ → Round) (i n : ℕ) (l : Loop) (ex : Executor)
    (rest : Loop → Loop × Opened) (o : Option Candidate)
    → i < n
    → ((o ≡ none) ⊎ ((c : Candidate) × (o ≡ some c) × In c cs × (mem c.id l.tried ≡ false)))
    → Logged cs rounds i l
    → AllSafe rounds l.failures
    → ((l' : Loop)
        → Logged cs rounds (suc i) l'
        → AllSafe rounds l'.failures
        → Good cs rounds n (rest l'))
    → Good cs rounds n (selected l ex (rounds i) rest o)
unfolding selected
selected-Good cs rounds i n l ex rest none lt h g f r = (
  omega (arith, g.few),
  g.distinct,
  g.candidates,
  g.attempts,
  (all_earlier rounds l.failures f, g.same, g.answer),
)
selected-Good cs rounds i n l ex rest (some c) lt (inl e) g f r = cc
selected-Good cs rounds i n l ex rest (some c) lt (inr (d, e, m, new)) g f r =
    let same : d ≡ c = sym (subst_some (λ x. c ≡ x) e refl) in
    attempted-Good cs rounds i n l ex c rest (attempt c (rounds i)) lt g f
      (subst (λ x. In x cs) same m) (subst (λ (x : Candidate). mem x.id l.tried ≡ false) same new)
      refl r

choice-cases :
    (e : Executor) (model : Text) (cs : List Candidate) (tried : List Text) (now : Retry.Time)
    → let o = (select_account e model cs tried now).1 in
      (o ≡ none) ⊎ ((c : Candidate) × (o ≡ some c) × In c cs × (mem c.id tried ≡ false))
choice-cases e model cs tried now = elim (select_account_lem e model cs tried now) [
  | inl (n, all) ↦ inl n
  | inr (c, o, i, m, cooling) ↦ inr (c, o, i, m)
]

open_loop-Good :
    (n i top : ℕ) (rounds : ℕ → Round) (model : Text) (cs : List Candidate) (l : Loop)
    → n + i ≤ top
    → Logged cs rounds i l
    → AllSafe rounds l.failures
    → Good cs rounds top (open_loop n rounds i model cs l)
unfolding open_loop
open_loop-Good zero i top rounds model cs l le g f =
    ended-Good cs rounds i top l (last_or l.last_err (sentinel no_accounts)) (omega arith) g
      (all_earlier rounds l.failures f) g.answer
open_loop-Good (suc n) i top rounds model cs l le g f =
    let w = rounds i in
    let ex = w.meanwhile l.executor in
    selected-Good cs rounds i top l (select_account ex model cs l.tried w.now).0
      (λ l'. open_loop n rounds (i + 1) model cs l') (select_account ex model cs l.tried w.now).1
      (omega arith) (choice-cases ex model cs l.tried w.now) g f
      (λ l' g' f'.
        subst (λ j. Good cs rounds top (open_loop n rounds j model cs l')) next
          (open_loop-Good n (suc i) top rounds model cs l' (omega arith) g' f'))
  where
    next : suc i ≡ i + 1
    next = omega arith

-- Whatever the world answers and whatever other requests do meanwhile: a request tries at most
-- three accounts, all of them candidates and no account twice. Each failure of the log is what the
-- attempt of its round answered for a candidate, and the log leaves no tried account out: if a
-- stream is opened, its account is the last one tried, its attempt succeeded, and every account
-- before it failed, each with a failure that is safe to retry, under a live request; if none is,
-- every tried account failed, all but the last one in that way, and the answer is the last failure,
-- or the end of the request that was seen right after it, or, with no account tried, that there is
-- none.
pub open_loop_sound :
    (rounds : ℕ → Round) (e : Executor) (model : Text) (cs : List Candidate)
    → let (l, o) = open_loop 3 rounds 0 model cs (start e) in
      (length l.tried ≤ 3)
      × Distinct l.tried
      × AreCandidates cs l.tried
      × AreAttempts cs rounds l.failures
      × Ends cs rounds l o
open_loop_sound rounds e model cs =
    open_loop-Good 3 0 3 rounds model cs (start e) (omega arith)
      (record {
        few = refl;
        count = refl;
        distinct = tt;
        candidates = tt;
        attempts = tt;
        same = refl;
        answer = refl;
      })
      tt
