-- ===== src/Execution/Candidates.antt =====
-- Which accounts may serve a request (internal/execution/attempt.go, requestCandidates).
use clan.Prelude.{
  ◌≡◌, refl, sym, ap, ◌∙◌, subst, ◌↔◌, ◌⊎◌, inl, inr, true, Option, none, some, List, [], ◌∷◌, ◌++◌,
  Bool-cases, In, Text, codes, text_eq, text_eq_iff,
}
use clan.Errors.{Error}
use clan.Codex.Request.{Model, Request, validate_model, IsServed, validate_model_iff}
use clan.Codex.Catalog.{AccountCatalog}
use clan.Execution.Attempt.{
  Candidate, scan_models, scan_accounts, chosen_candidates, request_candidates,
}

-- The candidates of an answer; none where it is an error.
abbrev pub offered : List Candidate ⊎ Error → List Candidate
offered (inl cs) = cs
offered (inr e) = []

abbrev candidate_of : AccountCatalog → Candidate
candidate_of a = record { id = a.account_id; identity = a.chatgpt_account_id }

-- An account of the catalog, under the identity that the catalog knew, with a model for the request.
pub record Serves (accounts : List AccountCatalog) (input : Request) (c : Candidate) : Type 0 where
  pub catalog : AccountCatalog
  pub known : In catalog accounts
  pub model : Model
  pub listed : In model catalog.models
  pub served : IsServed input model
  pub same : record { id = catalog.account_id; identity = catalog.chatgpt_account_id } ≡ c

In-snoc : (x y : Candidate) (xs : List Candidate) → In x (xs ++ y ∷ []) → In x xs ⊎ (y ≡ x)
In-snoc x y [] (inl e) = inr e
In-snoc x y [] (inr i) = absurd i
In-snoc x y (z ∷ xs) (inl e) = inl (inl e)
In-snoc x y (z ∷ xs) (inr i) = elim (In-snoc x y xs i) [ inl j ↦ inl (inr j) | inr e ↦ inr e ]

snoc-In : (x y : Candidate) (xs : List Candidate) → In x xs ⊎ (y ≡ x) → In x (xs ++ y ∷ [])
snoc-In x y [] (inl i) = absurd i
snoc-In x y [] (inr e) = inl e
snoc-In x y (z ∷ xs) (inl (inl e)) = inl e
snoc-In x y (z ∷ xs) (inl (inr j)) = inr (snoc-In x y xs (inl j))
snoc-In x y (z ∷ xs) (inr e) = inr (snoc-In x y xs (inr e))

-- What one model of an account adds.
scan-model :
    (input : Request) (a : AccountCatalog) (m : Model) (ms : List Model) (found : List Candidate)
    (field : Text)
    → (IsServed input m
        × (scan_models input a (m ∷ ms) (found, field)
            ≡ scan_models input a ms (found ++ candidate_of a ∷ [], field)))
      ⊎ ((IsServed input m → ⊥)
          × (f : Text) × (scan_models input a (m ∷ ms) (found, field)
              ≡ scan_models input a ms (found, f)))
unfolding scan_models
scan-model input a m ms found field = go (validate_model input m) refl
  where
    go :
        (o : Option Text)
        → validate_model input m ≡ o
        → (IsServed input m
            × (scan_models input a (m ∷ ms) (found, field)
                ≡ scan_models input a ms (found ++ candidate_of a ∷ [], field)))
          ⊎ ((IsServed input m → ⊥)
              × (f : Text) × (scan_models input a (m ∷ ms) (found, field)
                  ≡ scan_models input a ms (found, f)))
    go none e =
        let s = (validate_model_iff input m).0 e in
        let same : text_eq m.id input.model ≡ true =
          (text_eq_iff m.id input.model).1 (sym s.same_model) in
        inl (s, rw (same, e) refl)
    go (some f) e = elim (Bool-cases (text_eq m.id input.model)) [
      | inl same ↦ inr (λ s. cc ((validate_model_iff input m).1 s), f, rw (same, e) refl)
      | inr other ↦ inr (λ s. cc ((validate_model_iff input m).1 s), field, rw other refl)
    ]

-- A model of the list that serves the request, on the account of `c`.
record Offers (input : Request) (a : AccountCatalog) (ms : List Model) (c : Candidate)
    : Type 0 where
  model : Model
  listed : In model ms
  served : IsServed input model
  same : candidate_of a ≡ c

Offers-later :
    {input : Request} {a : AccountCatalog} {m : Model} {ms : List Model} {c : Candidate}
    → Offers input a ms c
    → Offers input a (m ∷ ms) c
Offers-later o = record { model = o.model; listed = inr o.listed; served = o.served; same = o.same }

scan_models-In :
    (input : Request) (a : AccountCatalog) (c : Candidate) (ms : List Model)
    (found : List Candidate) (field : Text)
    → In c (scan_models input a ms (found, field)).0 ↔ (In c found ⊎ Offers input a ms c)
unfolding scan_models
scan_models-In input a c [] found field = (λ i. inl i, λ i. back i)
  where
    back : In c found ⊎ Offers input a [] c → In c found
    back (inl i) = i
    back (inr o) = absurd o.listed
scan_models-In input a c (m ∷ ms) found field = (
  λ i. elim (scan-model input a m ms found field) [
    | inl (s, step) ↦
        let rec = scan_models-In input a c ms (found ++ candidate_of a ∷ []) field in
        taken s (rec.0 (subst (λ (r : List Candidate × Text). In c r.0) step i))
    | inr (never, f, step) ↦
        let rec = scan_models-In input a c ms found f in
        passed (rec.0 (subst (λ (r : List Candidate × Text). In c r.0) step i))
  ],
  λ i. elim (scan-model input a m ms found field) [
    | inl (s, step) ↦
        let rec = scan_models-In input a c ms (found ++ candidate_of a ∷ []) field in
        subst (λ (r : List Candidate × Text). In c r.0) (sym step) (rec.1 (give i))
    | inr (never, f, step) ↦
        let rec = scan_models-In input a c ms found f in
        subst (λ (r : List Candidate × Text). In c r.0) (sym step) (rec.1 (skip never i))
  ],
)
  where
    taken :
        IsServed input m
        → In c (found ++ candidate_of a ∷ []) ⊎ Offers input a ms c
        → In c found ⊎ Offers input a (m ∷ ms) c
    taken s (inr o) = inr (Offers-later o)
    taken s (inl i) = elim (In-snoc c (candidate_of a) found i) [
      | inl j ↦ inl j
      | inr e ↦ inr (record { model = m; listed = inl refl; served = s; same = e })
    ]

    passed : In c found ⊎ Offers input a ms c → In c found ⊎ Offers input a (m ∷ ms) c
    passed (inl i) = inl i
    passed (inr o) = inr (Offers-later o)

    here_or_later : (o : Offers input a (m ∷ ms) c) → IsServed input m ⊎ Offers input a ms c
    here_or_later o = go o.listed
      where
        go : (m ≡ o.model) ⊎ In o.model ms → IsServed input m ⊎ Offers input a ms c
        go (inl e) = inl (subst (IsServed input) (sym e) o.served)
        go (inr j) = inr (record { model = o.model; listed = j; served = o.served; same = o.same })

    give :
        In c found ⊎ Offers input a (m ∷ ms) c
        → In c (found ++ candidate_of a ∷ []) ⊎ Offers input a ms c
    give (inl i) = inl (snoc-In c (candidate_of a) found (inl i))
    give (inr o) = inl (snoc-In c (candidate_of a) found (inr o.same))

    skip :
        (IsServed input m → ⊥)
        → In c found ⊎ Offers input a (m ∷ ms) c
        → In c found ⊎ Offers input a ms c
    skip never (inl i) = inl i
    skip never (inr o) = elim (here_or_later o) [ inl s ↦ absurd (never s) | inr p ↦ inr p ]

account_step :
    (input : Request) (c : Candidate) (a : AccountCatalog) (as' : List AccountCatalog)
    (acc : List Candidate × Text) (out : List Candidate)
    → (In c out ↔ (In c (scan_models input a a.models acc).0 ⊎ Serves as' input c))
    → In c out ↔ (In c acc.0 ⊎ Serves (a ∷ as') input c)
account_step input c a as' acc out rest = (λ i. forth (rest.0 i), λ i. rest.1 (back i))
  where
    next : List Candidate × Text
    next = scan_models input a a.models acc

    first : In c next.0 ↔ (In c acc.0 ⊎ Offers input a a.models c)
    first = scan_models-In input a c a.models acc.0 acc.1

    of_offer : In c acc.0 ⊎ Offers input a a.models c → In c acc.0 ⊎ Serves (a ∷ as') input c
    of_offer (inl i) = inl i
    of_offer (inr o) = inr (record {
      catalog = a;
      known = inl refl;
      model = o.model;
      listed = o.listed;
      served = o.served;
      same = o.same;
    })

    forth : In c next.0 ⊎ Serves as' input c → In c acc.0 ⊎ Serves (a ∷ as') input c
    forth (inl i) = of_offer (first.0 i)
    forth (inr s) = inr (record {
      catalog = s.catalog;
      known = inr s.known;
      model = s.model;
      listed = s.listed;
      served = s.served;
      same = s.same;
    })

    split : Serves (a ∷ as') input c → Offers input a a.models c ⊎ Serves as' input c
    split s = go s.known
      where
        go : (a ≡ s.catalog) ⊎ In s.catalog as' → Offers input a a.models c ⊎ Serves as' input c
        go (inl e) = inl (record {
          model = s.model;
          listed = subst (λ (b : AccountCatalog). In s.model b.models) (sym e) s.listed;
          served = s.served;
          same = ap candidate_of e ∙ s.same;
        })
        go (inr k) = inr (record {
          catalog = s.catalog;
          known = k;
          model = s.model;
          listed = s.listed;
          served = s.served;
          same = s.same;
        })

    back : In c acc.0 ⊎ Serves (a ∷ as') input c → In c next.0 ⊎ Serves as' input c
    back (inl i) = inl (first.1 (inl i))
    back (inr s) = elim (split s) [ inl o ↦ inl (first.1 (inr o)) | inr k ↦ inr k ]

scan_accounts-In :
    (input : Request) (c : Candidate) (as' : List AccountCatalog) (acc : List Candidate × Text)
    → In c (scan_accounts input as' acc).0 ↔ (In c acc.0 ⊎ Serves as' input c)
unfolding scan_accounts
scan_accounts-In input c [] acc = (λ i. inl i, λ i. back i)
  where
    back : In c acc.0 ⊎ Serves [] input c → In c acc.0
    back (inl i) = i
    back (inr s) = absurd s.known
scan_accounts-In input c (a ∷ as') acc =
    account_step input c a as' acc _
      (scan_accounts-In input c as' (scan_models input a a.models acc))

offered-chosen :
    (accounts : List AccountCatalog) (found : List Candidate) (field : Text)
    → offered (chosen_candidates accounts (found, field)) ≡ found
offered-chosen accounts (c ∷ cs) field = refl
offered-chosen [] [] field = refl
offered-chosen (a ∷ as') [] field = refl

-- A request may go to exactly the accounts of the catalog that list a model which serves it: one
-- with the request's model ID that offers the effort, summary, verbosity, image detail and images
-- that the request uses; and the request must have a body, as one from ParseRequest has. A candidate
-- carries the identity that the catalog knew of its account. Where no account serves, the answer has
-- no candidate.
pub request_candidates_iff :
    (accounts : List AccountCatalog) (input : Request) (c : Candidate)
    → In c (offered (request_candidates accounts input)) ↔ Serves accounts input c
unfolding request_candidates
request_candidates_iff accounts input c =
    let r = scan_accounts input accounts ([], codes "model") in
    let same = offered-chosen accounts r.0 r.1 in
    let found = scan_accounts-In input c accounts ([], codes "model") in
    (
      λ i. elim (found.0 (subst (In c) same i)) [ inl j ↦ absurd j | inr s ↦ s ],
      λ s. subst (In c) (sym same) (found.1 (inr s)),
    )
