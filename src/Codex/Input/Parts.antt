-- ===== src/Codex/Input/Parts.antt =====
-- What validateContent tells of the images in an item's content (input.go).
use clan.Prelude.{
  String, ◌≡◌, refl, sym, ap, ◌∙◌, subst, Bool, true, false, ◌||◌, Option, none, some, List, [],
  ◌∷◌, if◌then◌else◌, if_elim, Text, codes, text_eq, text_eq_iff, Map, lookup,
}
use clan.Codex.Json.{
  Json, null, boolean, integer, number, string, elements, members, list_of, map_of, Checked, dotted,
  text_value, allowed, any_object, array, done, guard, Ensures, Ensures-valid, Ensures-bind,
  Ensures-then, Ensures-invalid, text_value-string,
}
use clan.Codex.Input.{
  original_detail, Url, Images, no_images, both, image_url, image_part, output_part, part_of_kind,
  validate_part, each_part, validate_content,
}

-- The values of a JSON array, if it is one.
abbrev pub values_of : Option Json → List Json
values_of (some (elements js)) = list_of js
values_of _ = []

abbrev pub member_of : String → Json → Option Json
member_of name (members fs) = lookup (codes name) (map_of fs)
member_of name _ = none

abbrev pub is_text : String → Option Json → Bool
is_text t (some (string s)) = text_eq s (codes t)
is_text t _ = false

abbrev pub any : (Json → Bool) → List Json → Bool
any p [] = false
any p (j ∷ js) = p j || any p js

abbrev pub is_image : Json → Bool
is_image part = is_text "input_image" (member_of "type" part)

-- The kind of an item: a message needs no type.
abbrev pub kind_in : Option Json → Text
kind_in none = codes "message"
kind_in (some (string t)) = t
kind_in (some j) = []

-- The content of an item: of a message, or of a function's output.
abbrev pub content_by : Text → Option Json → Option Json → Option Json
content_by kind content output =
    if text_eq kind (codes "message")
    then content
    else if text_eq kind (codes "function_call_output")
    then output
    else none

abbrev pub content_of : Json → Option Json
content_of item =
    content_by (kind_in (member_of "type" item)) (member_of "content" item)
      (member_of "output" item)

abbrev pub has_image : Json → Bool
has_image item = any is_image (values_of (content_of item))

abbrev pub is_system : Json → Bool
is_system item = is_text "system" (member_of "role" item)

module _ (decodes : Text → Bool) (parse_url : Text → Option Url) where
  image_part-image :
      (m : Map Json) (path : Text) (b : Bool)
      → true ≡ b
      → Ensures (λ im. im.image ≡ b) (image_part decodes parse_url m path)
  image_part-image m path b h =
      Ensures-then (allowed m path ("type" ∷ "image_url" ∷ "detail" ∷ [])) (
        Ensures-bind (text_value (lookup (codes "image_url") m) (dotted path "image_url") false) _
          (λ url e.
            Ensures-then (guard (image_url decodes parse_url url) (dotted path "image_url")) (
              Ensures-bind
                (original_detail decodes parse_url (lookup (codes "detail") m)
                  (dotted path "detail"))
                _ (λ o f. Ensures-valid (record { image = true; original = o }) h))))

  part_of_kind-image :
      (kind : Text) (m : Map Json) (path : Text) (out : Bool)
      → Ensures
          (λ im. im.image ≡ text_eq kind (codes "input_image"))
          (part_of_kind decodes parse_url kind m path out)
  unfolding part_of_kind
  part_of_kind-image kind m path out =
      if_elim P (text_eq kind (codes "input_text")) _ _
        (λ h. Ensures-then (allowed m path ("type" ∷ "text" ∷ [])) (
          Ensures-then (done (text_value (lookup (codes "text") m) (dotted path "text") true))
            (Ensures-valid no_images (differs "input_text" (unfold text_eq in refl) h))))
        (λ n1.
          if_elim P (text_eq kind (codes "output_text")) _ _
            (λ h.
              if_elim P out _ _
                (λ o.
                  Ensures-then (output_part decodes parse_url m path)
                    (Ensures-valid no_images (differs "output_text" (unfold text_eq in refl) h)))
                (λ o. Ensures-invalid _))
            (λ n2.
              if_elim P (text_eq kind (codes "refusal")) _ _
                (λ h.
                  if_elim P out _ _
                    (λ o. Ensures-then (allowed m path ("type" ∷ "refusal" ∷ [])) (
                      Ensures-then
                        (done
                          (text_value (lookup (codes "refusal") m) (dotted path "refusal") true))
                        (Ensures-valid no_images (differs "refusal" (unfold text_eq in refl) h))))
                    (λ o. Ensures-invalid _))
                (λ n3.
                  if_elim P (text_eq kind (codes "input_image")) _ _
                    (λ h. image_part-image m path _ (sym h)) (λ n4. Ensures-invalid _))))
    where
      P : Checked Images → Type 0
      P = Ensures (λ im. im.image ≡ text_eq kind (codes "input_image"))

      differs :
          (w : String)
          → text_eq (codes w) (codes "input_image") ≡ false
          → text_eq kind (codes w) ≡ true
          → false ≡ text_eq kind (codes "input_image")
      differs w d h = sym (
          subst (λ k. text_eq k (codes "input_image") ≡ false)
            (sym ((text_eq_iff kind (codes w)).0 h)) d)

  validate_part-image :
      (part : Json) (path : Text) (out : Bool)
      → Ensures (λ im. im.image ≡ is_image part) (validate_part decodes parse_url part path out)
  unfolding validate_part any_object
  validate_part-image (members fs) path out =
      Ensures-bind (text_value (lookup (codes "type") (map_of fs)) (dotted path "type") false) _
        (λ kind e.
          let (found, filled) =
            (text_value-string (lookup (codes "type") (map_of fs)) (dotted path "type")).holds kind
              e in
          record {
            holds = λ im f.
                (part_of_kind-image kind (map_of fs) path out).holds im f
                ∙ sym (ap (is_text "input_image") found);
          })
  validate_part-image null path out = Ensures-invalid _
  validate_part-image (boolean b) path out = Ensures-invalid _
  validate_part-image (integer n) path out = Ensures-invalid _
  validate_part-image (number n) path out = Ensures-invalid _
  validate_part-image (string s) path out = Ensures-invalid _
  validate_part-image (elements js) path out = Ensures-invalid _

  each_part-image :
      (parts : List Json) (path : Text) (out : Bool)
      → Ensures (λ im. im.image ≡ any is_image parts) (each_part decodes parse_url parts path out)
  unfolding each_part
  each_part-image [] path out = Ensures-valid _ refl
  each_part-image (part ∷ parts) path out =
      Ensures-bind (validate_part decodes parse_url part path out) _ (λ a e.
        Ensures-bind (each_part decodes parse_url parts path out) _ (λ b f. Ensures-valid _ (
          both_images a b ((validate_part-image part path out).holds a e)
            ((each_part-image parts path out).holds b f))))
    where
      both_images :
          (a b : Images) {x y : Bool} → a.image ≡ x → b.image ≡ y → (both a b).image ≡ (x || y)
      both_images a b p q = cc

  pub validate_content-image :
      (raw : Option Json) (path : Text) (out : Bool)
      → Ensures
          (λ im. im.image ≡ any is_image (values_of raw))
          (validate_content decodes parse_url raw path out)
  unfolding validate_content array
  validate_content-image (some (elements js)) path out = each_part-image (list_of js) path out
  validate_content-image (some (string s)) path out = Ensures-valid _ refl
  validate_content-image none path out = Ensures-invalid _
  validate_content-image (some null) path out = Ensures-invalid _
  validate_content-image (some (boolean b)) path out = Ensures-invalid _
  validate_content-image (some (integer n)) path out = Ensures-invalid _
  validate_content-image (some (number n)) path out = Ensures-invalid _
  validate_content-image (some (members fs)) path out = Ensures-invalid _
