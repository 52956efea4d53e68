-- ===== src/Codex/Request.antt =====
-- internal/codex/catalog.go's Model, and the check of a request against it (request.go).
use clan.Prelude.{
  ◌≡◌, ◌↔◌, Bool, true, false, not, ◌&&◌, ◌||◌, Option, none, some, List, [], ◌∷◌, arith,
  if◌then◌else◌, Text, codes, text_eq, text_eq_iff,
}

pub record Model : Type 0 where
  pub id : Text
  pub name : Text
  pub listed : Bool
  pub reasoning_efforts : List Text
  pub input_modalities : List Text
  pub supports_reasoning_summary : Bool
  pub supports_verbosity : Bool
  pub supports_image_detail_original : Bool

-- A validated request: the facts that the check and the executor read.
pub record Request : Type 0 where
  pub body : Text
  pub model : Text
  pub stream : Bool
  pub omitted_cap : Bool
  pub effort : Text
  pub summary : Bool
  pub verbosity : Bool
  pub original_image : Bool
  pub image : Bool

-- `slices.Contains`
unfoldable pub contains : List Text → Text → Bool
contains [] t = false
contains (s ∷ ss) t = text_eq s t || contains ss t

abbrev pub is_empty : Text → Bool
is_empty [] = true
is_empty (c ∷ s) = false

-- `Request.ValidateModel`; the result is the field of the ValidationError, `none` is nil.
unfoldable pub validate_model : Request → Model → Option Text
validate_model r m =
    if is_empty r.body || not (text_eq r.model m.id)
    then some (codes "model")
    else if not (is_empty r.effort) && not (contains m.reasoning_efforts r.effort)
    then some (codes "reasoning.effort")
    else if r.summary && not m.supports_reasoning_summary
    then some (codes "reasoning.summary")
    else if r.verbosity && not m.supports_verbosity
    then some (codes "text.verbosity")
    else if r.original_image && not m.supports_image_detail_original
    then some (codes "input.image.detail")
    else if r.image && not (contains m.input_modalities (codes "image"))
    then some (codes "input.image")
    else none

-- What a model must offer for a request.
pub record IsServed (r : Request) (m : Model) : Type 0 where
  pub has_body : is_empty r.body ≡ false
  pub same_model : r.model ≡ m.id
  pub has_effort : is_empty r.effort ≡ false → contains m.reasoning_efforts r.effort ≡ true
  pub has_summary : r.summary ≡ true → m.supports_reasoning_summary ≡ true
  pub has_verbosity : r.verbosity ≡ true → m.supports_verbosity ≡ true
  pub has_detail : r.original_image ≡ true → m.supports_image_detail_original ≡ true
  pub has_images : r.image ≡ true → contains m.input_modalities (codes "image") ≡ true

-- The check passes exactly when the model has the request's ID and offers everything that the
-- request uses.
pub validate_model_iff : (r : Request) (m : Model) → (validate_model r m ≡ none) ↔ IsServed r m
unfolding validate_model
validate_model_iff r m =
    (λ e. ground (arith, text_eq_iff r.model m.id), λ h. ground (arith, text_eq_iff r.model m.id))
