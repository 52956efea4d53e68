-- ===== src/Gateway/Statuses.antt =====
-- What a client can learn from an error (internal/gateway/errors.go).
use clan.Prelude.{
  ℕ, zero, suc, String, ◌≡◌, refl, sym, ap, subst, ◌⊎◌, inl, inr, true, Option, none, some, List,
  [], ◌∷◌, arith, subst_some, if_elim, In, get_elem?, Text, codes,
}
use clan.Errors.{
  deadline_exceeded, Category, invalid_request, account_problem, provider_limit, provider_failure,
  transport_failure, invalid_response, Failure, unauthorized, limit_reached, invalid_body, Error,
  is, is_ctx, as_failure, as_validation, as_too_large, as_network,
}
use clan.Gateway.{
  is_unavailable, is_timeout, ClientError, classify, safe_field, before_dot, trim_request, one_of,
  known_fields, invalid_client_request, service_unavailable, of_category, of_failure, of_limits,
  of_validation,
}

safe_field-known :
    (field : Text) → (safe_field field ≡ []) ⊎ (one_of (safe_field field) known_fields ≡ true)
unfolding safe_field
safe_field-known field =
    let root = before_dot (trim_request field) in
    if_elim (λ (f : Text). (f ≡ []) ⊎ (one_of f known_fields ≡ true)) (one_of root known_fields) _ _
      (λ known. inr known) (λ other. inl refl)

abbrev public_answer : ℕ → String → String → String → ClientError
public_answer status type_ code message = record {
  status = status;
  type_ = codes type_;
  code = codes code;
  message = codes message;
  param = none;
}

-- Everything that a client may be told, but for the name of a field.
abbrev pub public_answers : List ClientError
public_answers =
    public_answer 401 "authentication_error" "invalid_api_key"
      "The client key is invalid or revoked."
    ∷ public_answer 400 "invalid_request_error" "invalid_request"
        "The request body is invalid or incomplete."
    ∷ public_answer 400 "invalid_request_error" "invalid_request"
        "Invalid or unsupported request field."
    ∷ public_answer 413 "invalid_request_error" "request_too_large" "The request exceeds 16 MiB."
    ∷ public_answer 429 "rate_limit_error" "concurrency_limit"
        "The client key has no free request slots."
    ∷ public_answer 504 "server_error" "upstream_timeout" "The upstream request timed out."
    ∷ public_answer 400 "invalid_request_error" "invalid_request" "Codex rejected the request."
    ∷ public_answer 429 "rate_limit_error" "rate_limit_exceeded" "The provider limit was reached."
    ∷ public_answer 503 "server_error" "service_unavailable"
        "No account is currently available to serve the request."
    ∷ public_answer 502 "server_error" "upstream_error"
        "The upstream response could not be completed."
    ∷ public_answer 408 "invalid_request_error" "request_timeout"
        "The request body was not received in time."
    ∷ public_answer 500 "server_error" "internal_error" "The request could not be completed."
    ∷ []

-- One of the public answers, with no parameter or, if it is about a field of the request, with one
-- of the documented fields.
pub record IsSafe (c : ClientError) : Type 0 where
  pub fixed : In (record c { param = none }) public_answers
  pub safe :
      (c.param ≡ none)
      ⊎ ((f : Text) × (c.param ≡ some f)
          × (one_of f known_fields ≡ true)
          × (c.message ≡ codes "Invalid or unsupported request field."))

elem-In : (c : ClientError) (cs : List ClientError) (k : ℕ) → get_elem? cs k ≡ some c → In c cs
elem-In c [] k h = absurd (ground (arith, h))
elem-In c (d ∷ cs) zero h = inl (subst_some (λ x. x ≡ c) (sym h) refl)
elem-In c (d ∷ cs) (suc k) h = inr (elem-In c cs k h)

public-IsSafe :
    (c : ClientError) (k : ℕ) → get_elem? public_answers k ≡ some c → c.param ≡ none → IsSafe c
public-IsSafe c k h p = record {
  fixed =
      subst (λ x. In x public_answers) (ap (λ o. record c { param = o }) p)
        (elem-In c public_answers k h);
  safe = inl p;
}

field-IsSafe :
    (field : Text)
    → (field ≡ []) ⊎ (one_of field known_fields ≡ true)
    → IsSafe (invalid_client_request (codes "Invalid or unsupported request field.") field)
unfolding invalid_client_request
field-IsSafe [] h = public-IsSafe _ 2 refl refl
field-IsSafe (c ∷ s) (inl e) = absurd (ground (arith, e))
field-IsSafe (c ∷ s) (inr k) = record {
  fixed = elem-In _ public_answers 2 refl;
  safe = inr (c ∷ s, refl, k, refl);
}

of_category-IsSafe : (c : Category) → IsSafe (of_category c)
unfolding service_unavailable invalid_client_request
of_category-IsSafe invalid_request = public-IsSafe _ 6 refl refl
of_category-IsSafe provider_limit = public-IsSafe _ 7 refl refl
of_category-IsSafe account_problem = public-IsSafe _ 8 refl refl
of_category-IsSafe provider_failure = public-IsSafe _ 9 refl refl
of_category-IsSafe transport_failure = public-IsSafe _ 9 refl refl
of_category-IsSafe invalid_response = public-IsSafe _ 9 refl refl

of_failure-IsSafe : (e : Error) (f : Option Failure) → IsSafe (of_failure e f)
unfolding service_unavailable
of_failure-IsSafe e (some f) = of_category-IsSafe f.category
of_failure-IsSafe e none =
    if_elim IsSafe (is_unavailable e) _ _ (λ u. public-IsSafe _ 8 refl refl)
      (λ n.
        if_elim IsSafe (is_timeout (as_network e)) _ _ (λ t. public-IsSafe _ 10 refl refl)
          (λ o. public-IsSafe _ 11 refl refl))

of_limits-IsSafe : (e : Error) → IsSafe (of_limits e)
of_limits-IsSafe e =
    if_elim IsSafe (as_too_large e) _ _ (λ a. public-IsSafe _ 3 refl refl)
      (λ b.
        if_elim IsSafe (is limit_reached e) _ _ (λ c. public-IsSafe _ 4 refl refl)
          (λ d.
            if_elim IsSafe (is_ctx deadline_exceeded e) _ _ (λ f. public-IsSafe _ 5 refl refl)
              (λ g. of_failure-IsSafe e (as_failure e))))

of_validation-IsSafe : (e : Error) (v : Option Text) → IsSafe (of_validation e v)
of_validation-IsSafe e (some field) = field-IsSafe _ (safe_field-known field)
of_validation-IsSafe e none = of_limits-IsSafe e

-- Whatever the error is, a client is told one of twelve fixed combinations of a status, a type, a
-- code and a message; the only part that may vary is the parameter, which is absent or, where the
-- message is that of an invalid field, one of the documented fields of a request. So a validation
-- error's own text never reaches the client.
pub classify-IsSafe : (e : Error) → IsSafe (classify e)
unfolding classify invalid_client_request
classify-IsSafe e =
    if_elim IsSafe (is unauthorized e) _ _ (λ a. public-IsSafe _ 0 refl refl)
      (λ b.
        if_elim IsSafe (is invalid_body e) _ _ (λ c. public-IsSafe _ 1 refl refl)
          (λ d. of_validation-IsSafe e (as_validation e)))
