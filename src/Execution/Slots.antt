-- ===== src/Execution/Slots.antt =====
-- Requests and concurrency slots (internal/execution with internal/concurrency): each unfinished
-- request holds exactly one slot of its key, and finishing gives it back.
use clan.Prelude.{
  ◌||◌, ℕ, zero, suc, ◌+◌, ◌≡◌, refl, sym, ap, ◌∙◌, subst, ◌⊎◌, inl, inr, Bool, true, false, not,
  ◌&&◌, Option, none, some, List, [], ◌∷◌, ◌++◌, arith, if◌then◌else◌, is_some, subst_some, if_elim,
  length, count, get_elem?, set, Text, text_eq, is_blank, Map, lookup, insert, erase, get_or,
}
use clan.Concurrency.{Limiter, Once, Slot, LimitError, try_acquire, release}
use clan.Concurrency
use clan.Concurrency.Invariant.{
  IsValid, stored, live, try_acquire-IsValid, release-IsValid, new-IsValid,
}
use clan.Concurrency.Bounds.{Permits, take_shape, fresh, try_acquire_succeeds}
use clan.Errors.{Sentinel, Error, CtxError}
use clan.Storage.{AccessKeyRecord}
use clan.Storage.Keys.{KeyRow, revoke_key, update_concurrency}
use clan.Execution.Requests.{
  Request, State, Admission, Outcome, Event, admits, registers, attempts, responds, cancels,
  finishes, revokes, sets_concurrency, disables, enables, deletes, connects, closes, authenticate,
  admit, admitted, registered, new_request, locked, under_lock, update_at, register, finish,
  finished, conclude, concluded, concludes, cancel_where, changed, on_account, revoke,
  set_concurrency, disable_account, enable_account, delete_account, close, step, run, new,
}

-- The `n`-th request and what it shares with the `n`-th slot.
abbrev Holds : ℕ → Request → Once → Type 0
Holds n r o = (r.slot ≡ some n) × (r.key_id ≡ o.key_id) × (r.done ≡ o.done)

abbrev Aligned : ℕ → List Request → List Once → Type 0
Aligned n [] [] = Unit
Aligned n (r ∷ rs) (o ∷ os) = Holds n r o × Aligned (suc n) rs os
Aligned n _ _ = ⊥

-- The unfinished requests of a key.
abbrev pub unfinished : Text → List Request → ℕ
unfinished k rs = count (λ r. not r.done && text_eq r.key_id k) rs

Aligned-live :
    (k : Text) (n : ℕ) (rs : List Request) (os : List Once)
    → Aligned n rs os
    → unfinished k rs ≡ live k os
Aligned-live k n [] [] a = refl
Aligned-live k n [] (o ∷ os) a = absurd a
Aligned-live k n (r ∷ rs) [] a = absurd a
Aligned-live k n (r ∷ rs) (o ∷ os) a = ground (arith, Aligned-live k (suc n) rs os a.1)

-- A change of a request that leaves slot, key and completion alone.
abbrev Keeps : (Request → Request) → Type 0
Keeps f = (r : Request) → ((f r).slot ≡ r.slot) × ((f r).key_id ≡ r.key_id) × ((f r).done ≡ r.done)

Aligned-update_at :
    (f : Request → Request) (i n : ℕ) (rs : List Request) (os : List Once)
    → Keeps f
    → Aligned n rs os
    → Aligned n (update_at i f rs) os
Aligned-update_at f i n [] os k a = a
Aligned-update_at f zero n (r ∷ rs) [] k a = absurd a
Aligned-update_at f zero n (r ∷ rs) (o ∷ os) k a =
    let (s, t, d) = k r in ((s ∙ a.0.0, t ∙ a.0.1, d ∙ a.0.2), a.1)
Aligned-update_at f (suc i) n (r ∷ rs) [] k a = absurd a
Aligned-update_at f (suc i) n (r ∷ rs) (o ∷ os) k a =
    (a.0, Aligned-update_at f i (suc n) rs os k a.1)

Aligned-cancel_where :
    (p : Request → Bool) (n : ℕ) (rs : List Request) (os : List Once)
    → Aligned n rs os
    → Aligned n (cancel_where p rs) os
unfolding cancel_where
Aligned-cancel_where p n [] os a = a
Aligned-cancel_where p n (r ∷ rs) [] a = absurd a
Aligned-cancel_where p n (r ∷ rs) (o ∷ os) a = (one, Aligned-cancel_where p (suc n) rs os a.1)
  where
    one : Holds n (if not r.done && p r then record r { canceled = true } else r) o
    one = if_elim (λ x. Holds n x o) (not r.done && p r) _ _ (λ e. a.0) (λ e. a.0)

Aligned-push :
    (n : ℕ) (rs : List Request) (os : List Once) (r : Request) (o : Once)
    → Aligned n rs os
    → r.slot ≡ some (n + length os)
    → r.key_id ≡ o.key_id
    → r.done ≡ o.done
    → Aligned n (rs ++ r ∷ []) (os ++ o ∷ [])
Aligned-push n [] [] r o a s k d = ((s ∙ ap some (omega arith), k, d), tt)
Aligned-push n [] (x ∷ os) r o a s k d = absurd a
Aligned-push n (x ∷ rs) [] r o a s k d = absurd a
Aligned-push n (x ∷ rs) (y ∷ os) r o a s k d =
    (a.0, Aligned-push (suc n) rs os r o a.1 (s ∙ ap some (omega arith)) k d)

Aligned-at :
    (n i : ℕ) (rs : List Request) (os : List Once) (r : Request)
    → Aligned n rs os
    → get_elem? rs i ≡ some r
    → (o : Once) × (get_elem? os i ≡ some o) × (r.slot ≡ some (n + i)) × (r.done ≡ o.done)
Aligned-at n i [] os r a e = cc
Aligned-at n zero (x ∷ rs) [] r a e = absurd a
Aligned-at n (suc i) (x ∷ rs) [] r a e = absurd a
Aligned-at n zero (x ∷ rs) (o ∷ os) r a e =
    subst_some
      (λ y. (p : Once) × (some o ≡ some p) × (y.slot ≡ some (n + zero)) × (y.done ≡ p.done)) e
      (o, refl, a.0.0 ∙ ap some (omega arith), a.0.2)
Aligned-at n (suc i) (x ∷ rs) (o ∷ os) r a e =
    let (p, f, s, d) = Aligned-at (suc n) i rs os r a.1 e in (p, f, s ∙ ap some (omega arith), d)

Aligned-done :
    (n i : ℕ) (rs : List Request) (os : List Once) (o : Once)
    → Aligned n rs os
    → get_elem? os i ≡ some o
    → Aligned n
        (update_at i (λ r. record r { done = true }) rs)
        (set os i (record o { done = true }))
Aligned-done n i [] [] o a e = cc
Aligned-done n i [] (x ∷ os) o a e = absurd a
Aligned-done n zero (r ∷ rs) [] o a e = absurd a
Aligned-done n (suc i) (r ∷ rs) [] o a e = absurd a
Aligned-done n zero (r ∷ rs) (x ∷ os) o a e =
    ((a.0.0, a.0.1 ∙ subst_some (λ y. x.key_id ≡ y.key_id) e refl, refl), a.1)
Aligned-done n (suc i) (r ∷ rs) (x ∷ os) o a e = (a.0, Aligned-done (suc n) i rs os o a.1 e)

-- The limiter counts truly, and its slots are those of the requests.
abbrev pub Inv : Limiter → List Request → Type 0
Inv l rs = IsValid l × Aligned 0 rs l.onces

registered-Inv :
    (s : State) (a : Admission) (k : Text) (x : Limiter × Slot × Option LimitError)
    → IsValid x.0
    → (x.2 ≡ none
        → (x.0.onces ≡ s.limiter.onces ++ fresh k ∷ []) × (x.1 ≡ some (length s.limiter.onces)))
    → Inv s.limiter s.requests
    → let t = admitted s (registered s a k x) in Inv t.limiter t.requests
registered-Inv s a k (l, slot, some e) v f i = i
registered-Inv s a k (l, slot, none) v f i =
    let (grown, new_slot) = f refl in
    (
      v,
      subst (Aligned 0 (s.requests ++ new_request a k slot ∷ [])) (sym grown) (
          Aligned-push 0 s.requests s.limiter.onces (new_request a k slot) (fresh k) i.1
            (new_slot ∙ ap some (omega arith)) refl refl),
    )

locked-Inv :
    (s : State) (a : Admission) (x : AccessKeyRecord ⊎ Error)
    → Inv s.limiter s.requests
    → let t = admitted s (locked s a x) in Inv t.limiter t.requests
locked-Inv s a (inr e) i = i
locked-Inv s a (inl k) i =
    elim a.ctx_lock as (λ c. let t = admitted s (under_lock s a k c) in Inv t.limiter t.requests) [
      | some c ↦ i
      | none ↦
          let id = k.key.identity.id in
          registered-Inv s a id (try_acquire s.limiter id k.concurrency_limit)
            (try_acquire-IsValid s.limiter id k.concurrency_limit i.0)
            (take_shape s.limiter id k.concurrency_limit) i
    ]

admit-Inv :
    (sha256 : Text → Text) (s : State) (a : Admission)
    → Inv s.limiter s.requests
    → let t = admitted s (admit sha256 s a) in Inv t.limiter t.requests
unfolding admit
admit-Inv sha256 s a i =
    if_elim (λ r. let t = admitted s r in Inv t.limiter t.requests) s.closed _ _ (λ e. i)
      (λ e. locked-Inv s a (authenticate sha256 s.keys a) i)

release-onces :
    (l : Limiter) (s : Slot) (i : ℕ) (o : Once)
    → s ≡ some i
    → get_elem? l.onces i ≡ some o
    → o.done ≡ false
    → (release l s).onces ≡ set l.onces i (record o { done = true })
unfolding release
release-onces l s i o e f d = rw (e, release) (rw (f, release) (rw d refl))

finished-Inv :
    (s : State) (i : ℕ) (x : Option Request)
    → get_elem? s.requests i ≡ x
    → Inv s.limiter s.requests
    → let t = finished s i x in Inv t.limiter t.requests
finished-Inv s i none e v = v
finished-Inv s i (some r) e v =
    if_elim (λ (t : State). Inv t.limiter t.requests) (r.done || not r.recorded) _ _ (λ d. v)
      λ d.
        let (p, f, slot, same) = Aligned-at 0 i s.requests s.limiter.onces r v.1 e in
        let freed : (release s.limiter r.slot).onces
            ≡ set s.limiter.onces i (record p { done = true }) =
          release-onces s.limiter r.slot i p (slot ∙ ap some (omega arith)) f
            (sym same ∙ ground (arith, d)) in
        (
          release-IsValid s.limiter r.slot v.0,
          subst (Aligned 0 (update_at i (λ r. record r { done = true }) s.requests)) (sym freed)
              (Aligned-done 0 i s.requests s.limiter.onces p v.1 f),
        )

updated-Inv :
    (s : State) (i : ℕ) (f : Request → Request)
    → Keeps f
    → Inv s.limiter s.requests
    → Inv s.limiter (update_at i f s.requests)
updated-Inv s i f k v = (v.0, Aligned-update_at f i 0 s.requests s.limiter.onces k v.1)

concluded-Inv :
    (s : State) (i : ℕ) (o : Outcome) (x : Option Request)
    → Inv s.limiter s.requests
    → let t = concluded s i o x in Inv t.limiter t.requests
concluded-Inv s i o none v = v
concluded-Inv s i o (some r) v =
    if_elim (λ (t : State). Inv t.limiter t.requests) r.recorded _ _ (λ e. v)
      (λ e. updated-Inv s i _ (λ r. (refl, refl, refl)) v)

canceled-Inv :
    (s : State) (p : Request → Bool)
    → Inv s.limiter s.requests
    → Inv s.limiter (cancel_where p s.requests)
canceled-Inv s p v = (v.0, Aligned-cancel_where p 0 s.requests s.limiter.onces v.1)

changed-Inv :
    (s : State) (x : List KeyRow × Option Sentinel) (p : Request → Bool)
    → Inv s.limiter s.requests
    → let t = (changed s x p).0 in Inv t.limiter t.requests
changed-Inv s (keys, some e) p v = v
changed-Inv s (keys, none) p v = canceled-Inv s p v

abbrev Ok : State × Option Error → Type 0
Ok r = Inv r.0.limiter r.0.requests

on_account-Inv :
    (s : State) (id : Text) (m : Map Bool) (p : Request → Bool) (sync : Option Error)
    → Inv s.limiter s.requests
    → Ok (on_account s id m p sync)
on_account-Inv s id m p sync v =
    if_elim Ok s.closed _ _ (λ e. v)
      λ e.
        if_elim Ok (is_blank id) _ _ (λ e. v)
          λ e.
            if_elim Ok (not (is_some (lookup id s.accounts))) _ _ (λ e. v) λ e. canceled-Inv s p v

step-Inv :
    (sha256 : Text → Text) (s : State) (e : Event)
    → Inv s.limiter s.requests
    → let t = step sha256 s e in Inv t.limiter t.requests
unfolding step close register finish conclude revoke set_concurrency disable_account enable_account
    delete_account
step-Inv sha256 s (admits a) v = admit-Inv sha256 s a v
step-Inv sha256 s (registers i account) v =
    if_elim (λ (t : State). Inv t.limiter t.requests) (get_or false (lookup account s.accounts)) _ _
      (λ e. updated-Inv s i _ (λ r. (ground arith, ground arith, ground arith)) v) (λ e. v)
step-Inv sha256 s (attempts i account) v = updated-Inv s i _ (λ r. (refl, refl, refl)) v
step-Inv sha256 s (responds i) v = updated-Inv s i _ (λ r. (refl, refl, refl)) v
step-Inv sha256 s (cancels i) v = updated-Inv s i _ (λ r. (refl, refl, refl)) v
step-Inv sha256 s (concludes i o) v = concluded-Inv s i o (get_elem? s.requests i) v
step-Inv sha256 s (finishes i) v = finished-Inv s i (get_elem? s.requests i) refl v
step-Inv sha256 s (revokes id) v =
    if_elim Ok s.closed _ _ (λ e. v) (λ e. changed-Inv s (revoke_key s.keys id) _ v)
step-Inv sha256 s (sets_concurrency id limit) v =
    if_elim Ok s.closed _ _ (λ e. v) (λ e. changed-Inv s (update_concurrency s.keys id limit) _ v)
step-Inv sha256 s (disables id sync) v = on_account-Inv s id (insert id false s.accounts) _ sync v
step-Inv sha256 s (enables id sync) v = on_account-Inv s id (insert id true s.accounts) _ sync v
step-Inv sha256 s (deletes id sync) v = on_account-Inv s id (erase id s.accounts) _ sync v
step-Inv sha256 s (connects id) v =
    if_elim (λ (t : State). Inv t.limiter t.requests) (is_some (lookup id s.accounts)) _ _ (λ e. v)
      (λ e. v)
step-Inv sha256 s closes v = canceled-Inv s (λ r. true) v

run-Inv :
    (sha256 : Text → Text) (s : State) (es : List Event)
    → Inv s.limiter s.requests
    → let t = run sha256 s es in Inv t.limiter t.requests
unfolding run
run-Inv sha256 s [] v = v
run-Inv sha256 s (e ∷ es) v = run-Inv sha256 (step sha256 s e) es (step-Inv sha256 s e v)

reachable-Inv :
    (sha256 : Text → Text) (keys : List KeyRow) (accounts : Map Bool) (es : List Event)
    → let t = run sha256 (new keys accounts) es in Inv t.limiter t.requests
reachable-Inv sha256 keys accounts es =
    run-Inv sha256 (new keys accounts) es (unfold new Concurrency.new in (new-IsValid, tt))

-- In every history the limiter counts for each key its unfinished requests, and keeps no entry for
-- a key without any: every admission takes one slot and every completion gives one back, once.
pub lookup-active :
    (sha256 : Text → Text) (keys : List KeyRow) (accounts : Map Bool) (es : List Event) (k : Text)
    → let t = run sha256 (new keys accounts) es in
      lookup k t.limiter.active ≡ stored (unfinished k t.requests)
lookup-active sha256 keys accounts es k =
    let t = run sha256 (new keys accounts) es in
    let (valid, aligned) = reachable-Inv sha256 keys accounts es in
    valid k ∙ ap stored (sym (Aligned-live k 0 t.requests t.limiter.onces aligned))

took_slot :
    (s : State) (a : Admission) (k : Text) (x : Limiter × Slot × Option LimitError) (r : State × ℕ)
    → registered s a k x ≡ inl r
    → x.2 ≡ none
took_slot s a k (l, slot, none) r e = refl
took_slot s a k (l, slot, some f) r e = cc

locked_slot :
    (s : State) (a : Admission) (k : AccessKeyRecord) (c : Option CtxError) (r : State × ℕ)
    → under_lock s a k c ≡ inl r
    → (try_acquire s.limiter k.key.identity.id k.concurrency_limit).2 ≡ none
locked_slot s a k (some c) r e = cc
locked_slot s a k none r e = took_slot s a k.key.identity.id _ r e

-- In every history a request is admitted only while its key has fewer unfinished requests than the
-- limit that the store gives for the key, unless that limit is the unlimited one.
pub admit_within_limit :
    (sha256 : Text → Text) (keys : List KeyRow) (accounts : Map Bool) (es : List Event)
    (a : Admission) (k : AccessKeyRecord) (r : State × ℕ)
    → let s = run sha256 (new keys accounts) es in
      authenticate sha256 s.keys a ≡ inl k
      → is_blank k.key.identity.id ≡ false
      → admit sha256 s a ≡ inl r
      → Permits k.concurrency_limit (unfinished k.key.identity.id s.requests)
admit_within_limit sha256 keys accounts es a k r auth b e =
    let s = run sha256 (new keys accounts) es in
    let id = k.key.identity.id in
    let (valid, aligned) = reachable-Inv sha256 keys accounts es in
    let took = locked_slot s a k a.ctx_lock r (opened s auth e) in
    subst (Permits k.concurrency_limit) (sym (Aligned-live id 0 s.requests s.limiter.onces aligned))
      ((try_acquire_succeeds s.limiter id k.concurrency_limit valid b).0 took)
  where
    opened :
        (s : State)
        → authenticate sha256 s.keys a ≡ inl k
        → admit sha256 s a ≡ inl r
        → under_lock s a k a.ctx_lock ≡ inl r
    opened s auth e = unfold admit in ground (arith, auth, e)
