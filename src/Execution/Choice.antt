-- ===== src/Execution/Choice.antt =====
-- What selectAccount (internal/execution/attempt.go) may choose, and what limits do to it.
use clan.Prelude.{
  ◌≤◌, ◌<◌, ◌≡◌, refl, sym, ap, ◌∙◌, subst, ◌≢◌, ◌⊎◌, inl, inr, Bool, true, false, not, ◌&&◌, ◌||◌,
  Option, none, some, List, [], ◌∷◌, arith, ltb, if◌then◌else◌, Bool-cases, In, Text, text_eq,
  text_eq_iff, text_eq_refl, Map, lookup, insert, erase, lookup-insert, lookup-erase, get_or,
}
use clan.Retry.{Time, Cooldown}
use clan.Selection.{RoundRobin, select}
use clan.Selection.Order.{select_lem, select-nil}
use clan.Errors.{CtxError, provider_limit, Failure, Error, as_failure, category_eq}
use clan.Execution.Attempt.{
  Candidate, Executor, mem, is_cooling, eligible, find_candidate, select_account, note_failure,
  retry_until,
}

-- `erase` only where it does not matter.
is_cooling-erase :
    (m : Map Time) (now : Time) (k id : Text)
    → is_cooling m now k ≡ false
    → is_cooling (erase k m) now id ≡ is_cooling m now id
is_cooling-erase m now k id h =
    ground (arith, lookup-erase k id m, text_eq_iff k id, ap (is_cooling m now) {x = k} {y = id})

-- A candidate that may be tried now.
abbrev pub is_free : List Text → Time → Map Time → Text → Bool
is_free tried now m id = not (mem id tried || is_cooling m now id)

eligible_skip :
    (c : Candidate) (cs : List Candidate) (tried : List Text) (now : Time) (m : Map Time)
    → is_free tried now m c.id ≡ false
    → eligible (c ∷ cs) tried now m ≡ eligible cs tried now m
unfolding eligible
eligible_skip c cs tried now m h = ground arith

eligible_take :
    (c : Candidate) (cs : List Candidate) (tried : List Text) (now : Time) (m : Map Time)
    → is_free tried now m c.id ≡ true
    → (eligible (c ∷ cs) tried now m).1 ≡ c.id ∷ (eligible cs tried now (erase c.id m)).1
unfolding eligible
eligible_take c cs tried now m h = ground arith

free_rest :
    (tried : List Text) (now : Time) (m : Map Time) (k id : Text)
    → is_free tried now m k ≡ true
    → is_free tried now (erase k m) id ≡ is_free tried now m id
free_rest tried now m k id h =
    ap (λ b. not (mem id tried || b)) (is_cooling-erase m now k id (ground arith))

eligible-free :
    (cs : List Candidate) (tried : List Text) (now : Time) (m : Map Time) (id : Text)
    → In id (eligible cs tried now m).1
    → is_free tried now m id ≡ true
eligible-free [] tried now m id i = absurd (unfold eligible in i)
eligible-free (c ∷ cs) tried now m id i = elim (Bool-cases (is_free tried now m c.id)) [
  | inr e ↦
      eligible-free cs tried now m id (subst (λ r. In id r.1) (eligible_skip c cs tried now m e) i)
  | inl e ↦
      free_head (eligible cs tried now (erase c.id m)).1 e
        (λ j.
          sym (free_rest tried now m c.id id e) ∙ eligible-free cs tried now (erase c.id m) id j)
        (subst (In id) (eligible_take c cs tried now m e) i)
]
  where
    free_head :
        (ids : List Text)
        → is_free tried now m c.id ≡ true
        → (In id ids → is_free tried now m id ≡ true)
        → In id (c.id ∷ ids)
        → is_free tried now m id ≡ true
    free_head ids e rest (inl p) = subst (λ t. is_free tried now m t ≡ true) p e
    free_head ids e rest (inr j) = rest j

free-eligible :
    (cs : List Candidate) (tried : List Text) (now : Time) (m : Map Time) (c : Candidate)
    → In c cs
    → is_free tried now m c.id ≡ true
    → (eligible cs tried now m).1 ≢ []
free-eligible [] tried now m c i h = absurd i
free-eligible (x ∷ cs) tried now m c i h = elim (Bool-cases (is_free tried now m x.id)) [
  | inl e ↦ λ n. cc (eligible_take x cs tried now m e)
  | inr e ↦ λ n.
      skipped e (free-eligible cs tried now m c) i
        (ap (λ r. r.1) (sym (eligible_skip x cs tried now m e)) ∙ n)
]
  where
    skipped :
        is_free tried now m x.id ≡ false
        → (In c cs → is_free tried now m c.id ≡ true → (eligible cs tried now m).1 ≢ [])
        → In c (x ∷ cs)
        → (eligible cs tried now m).1 ≢ []
    skipped e rest (inl p) = absurd (cc (ap (λ (t : Candidate). is_free tried now m t.id) p))
    skipped e rest (inr j) = rest j h

-- An ID that may be tried is a candidate's, also among the later candidates unless it is the first's.
eligible-tail :
    (c : Candidate) (cs : List Candidate) (tried : List Text) (now : Time) (m : Map Time)
    (id : Text)
    → text_eq c.id id ≡ false
    → In id (eligible (c ∷ cs) tried now m).1
    → (m' : Map Time) × In id (eligible cs tried now m').1
eligible-tail c cs tried now m id d i = elim (Bool-cases (is_free tried now m c.id)) [
  | inr e ↦ (m, subst (λ r. In id r.1) (eligible_skip c cs tried now m e) i)
  | inl e ↦ (erase c.id m, later (subst (In id) (eligible_take c cs tried now m e) i))
]
  where
    later :
        In id (c.id ∷ (eligible cs tried now (erase c.id m)).1)
        → In id (eligible cs tried now (erase c.id m)).1
    later (inl p) = absurd (cc ((text_eq_iff c.id id).1 p))
    later (inr j) = j

eligible-candidates :
    (cs : List Candidate) (tried : List Text) (now : Time) (m : Map Time) (id : Text)
    → In id (eligible cs tried now m).1
    → (c : Candidate) × In c cs × (find_candidate id cs ≡ some c) × (c.id ≡ id)
unfolding find_candidate
eligible-candidates [] tried now m id i = absurd (unfold eligible in i)
eligible-candidates (c ∷ cs) tried now m id i = elim (Bool-cases (text_eq c.id id)) [
  | inl e ↦ (c, inl refl, rw e, (text_eq_iff c.id id).0 e)
  | inr e ↦
      let (m', j) = eligible-tail c cs tried now m id e i in
      let (x, k, f, same) = eligible-candidates cs tried now m' id j in (x, inr k, rw e f, same)
]

-- What `selectAccount` hands out, with the eligible IDs named.
choose :
    (r : RoundRobin) (model : Text) (cs : List Candidate) (ids : List Text)
    → ((id : Text)
        → In id ids
        → (c : Candidate) × In c cs × (find_candidate id cs ≡ some c) × (c.id ≡ id))
    → ((ids ≡ []) × ((select r model ids).1 ≡ none))
      ⊎ ((c : Candidate) × In c cs
          × In c.id ids
          × ((select r model ids).1 ≡ some c.id)
          × (find_candidate c.id cs ≡ some c))
choose r model cs [] known = inl (refl, ap (λ p. p.1) (select-nil r model))
choose r model cs (i ∷ ids) known =
    let (next, chosen, is_next, recorded) = select_lem r model i ids in
    let (c, member, at, same) = known next is_next.0 in
    inr (
      c,
      member,
      subst (λ t. In t (i ∷ ids)) (sym same) is_next.0,
      chosen ∙ ap some (sym same),
      ap (λ t. find_candidate t cs) same ∙ at,
    )

-- An account is chosen only from the candidates, never twice for one request, and never while it
-- cools down after a provider limit; and none is chosen only if every candidate was tried or cools
-- down.
pub select_account_lem :
    (e : Executor) (model : Text) (cs : List Candidate) (tried : List Text) (now : Time)
    → (((select_account e model cs tried now).1 ≡ none)
        × ((c : Candidate) → In c cs → is_free tried now e.cooldowns c.id ≡ false))
      ⊎ ((c : Candidate) × ((select_account e model cs tried now).1 ≡ some c)
          × In c cs
          × (mem c.id tried ≡ false)
          × (is_cooling e.cooldowns now c.id ≡ false))
unfolding select_account
select_account_lem e model cs tried now =
    let ids = (eligible cs tried now e.cooldowns).1 in
    elim (choose e.selector model cs ids (eligible-candidates cs tried now e.cooldowns)) [
      | inl (empty, nothing) ↦ inl (
        rw (nothing, select_account) refl,
        λ c i. elim (Bool-cases (is_free tried now e.cooldowns c.id)) [
          | inl f ↦ absurd (free-eligible cs tried now e.cooldowns c i f empty)
          | inr f ↦ f
        ],
      )
      | inr (c, member, i, chosen, at) ↦
          let free = eligible-free cs tried now e.cooldowns c.id i in
          inr (c, rw (chosen, select_account) at, member, ground arith, ground arith)
    ]

retry_until-later : (now : Time) (c : Cooldown) → now < retry_until now c
retry_until-later now c = ground arith

-- What a failure noted under a live request does to the cooldowns.
abbrev Notes : Map Time → Map Time → Time → Text → Text → Option Failure → Type 0
Notes m n now id j o =
    (get_or 0 (lookup j m) ≤ get_or 0 (lookup j n))
    × (text_eq id j ≡ false → lookup j n ≡ lookup j m)
    × ((f : Failure) → o ≡ some f → f.category ≡ provider_limit → is_cooling n now id ≡ true)

raise : Map Time → Time → Text → Failure → Map Time
raise m until id f =
    if category_eq f.category provider_limit && ltb (get_or 0 (lookup id m)) until
    then insert id until m
    else m

cool_lem :
    (m : Map Time) (now until : Time) (id j : Text) (f g : Failure)
    → now < until
    → some f ≡ some g
    → g.category ≡ provider_limit
    → is_cooling (raise m until id f) now id ≡ true
unfolding raise
cool_lem m now until id j f g l s k =
    ground (arith, lookup-insert id id until m, text_eq_refl id, l, k, s)

raise_lem :
    (m : Map Time) (until : Time) (id j : Text) (f : Failure)
    → (get_or 0 (lookup j m) ≤ get_or 0 (lookup j (raise m until id f)))
      × (text_eq id j ≡ false → lookup j (raise m until id f) ≡ lookup j m)
unfolding raise
raise_lem m until id j f = (
  ground (
    arith,
    lookup-insert id j until m,
    text_eq_iff id j,
    ap (λ t. get_or 0 (lookup t m)) {x = id} {y = j},
  ),
  λ d. ground (arith, lookup-insert id j until m),
)

note_failure_live :
    (m : Map Time) (now : Time) (id j : Text) (e : Error) (o : Option Failure)
    → as_failure e ≡ o
    → Notes m (note_failure m now none id e) now id j o
unfolding note_failure raise
note_failure_live m now id j e none s = rw (s, note_failure) (omega arith, λ d. refl, λ f p k. cc)
note_failure_live m now id j e (some f) s =
    let until = retry_until now f.retry_after in
    let (grows, same) = raise_lem m until id j f in
    rw (s, note_failure)
      (
        grows,
        same,
        λ g p k. cool_lem m now until id j f g (retry_until-later now f.retry_after) p k,
      )

-- A provider limit makes its account cool down from now on, under a live request; no failure
-- shortens a cooldown, and none touches another account's.
pub note_failure_lem :
    (m : Map Time) (now : Time) (ctx_err : Option CtxError) (id j : Text) (e : Error)
    → let n = note_failure m now ctx_err id e in
      (get_or 0 (lookup j m) ≤ get_or 0 (lookup j n))
      × (text_eq id j ≡ false → lookup j n ≡ lookup j m)
      × ((f : Failure)
          → ctx_err ≡ none
          → as_failure e ≡ some f
          → f.category ≡ provider_limit
          → is_cooling n now id ≡ true)
note_failure_lem m now (some c) id j e =
    unfold note_failure in (omega arith, λ d. refl, λ f n s k. cc)
note_failure_lem m now none id j e =
    let (grows, same, cools) = note_failure_live m now id j e (as_failure e) refl in
    (grows, same, λ f n s k. cools f s k)
