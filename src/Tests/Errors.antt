-- ===== src/Tests/Errors.antt =====
-- Concrete errors and what clients are told of them.
use clan.Prelude.{◌≡◌, refl, none, codes, text_eq}
use clan.Errors.{validation}
use clan.Gateway.{classify, safe_field, before_dot, trim_request, one_of, invalid_client_request}
use clan.Gateway.Statuses.{IsSafe, classify-IsSafe}
use clan.Errors.{is, as_validation}

hidden_field : (classify (validation (codes "secret.token"))).param ≡ none
unfolding classify safe_field before_dot trim_request one_of invalid_client_request is text_eq
    as_validation
hidden_field = refl

classify-IsSafe_example : IsSafe (classify (validation (codes "request.tools.name")))
classify-IsSafe_example = classify-IsSafe (validation (codes "request.tools.name"))
