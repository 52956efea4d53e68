-- ===== src/Codex/Input/Normal.antt =====
-- What validateInput tells of a request's images, and the roles that it sends on (input.go).
use clan.Prelude.{
  ℕ, suc, String, ◌≡◌, refl, sym, ap, ◌∙◌, subst, inl, inr, Bool, true, false, not, ◌||◌, Option,
  none, some, List, [], ◌∷◌, arith, if◌then◌else◌, Option-cases, is_some, if_elim, Text, codes,
  text_eq, text_eq_iff, Map, lookup, lookup-insert,
}
use clan.Codex.Request.{contains}
use clan.Codex.Json.{
  Json, null, boolean, integer, number, string, elements, members, list_of, items_of, map_of,
  fields_of, list_of-items_of, map_of-fields_of, valid, dotted, words, text_value, enum_value,
  allowed, any_object, array, done, Ensures, Ensures-valid, Ensures-bind, Ensures-then,
  Ensures-invalid, allowed-names, text_value-string,
}
use clan.Codex.Input.{
  sent_role, Url, Images, no_images, both, Item, validate_content, message_item, call_item,
  output_item, reasoning_item, item_of_kind, kind_of, unless_null, validate_item, each_item,
  validate_input, item_path, if_set, validate_text_parts,
}
use clan.Codex.Input.Parts.{
  values_of, is_text, any, is_image, kind_in, content_by, has_image, is_system,
  validate_content-image,
}

module _ (decodes : Text → Bool) (parse_url : Text → Option Url) where
  -- What an item of a kind with the members `m` becomes.
  record Normal (kind : Text) (m : Map Json) (item : Item) : Type 0 where
    image_exact :
        item.images.image
        ≡ any is_image
            (values_of (content_by kind (lookup (codes "content") m) (lookup (codes "output") m)))
    not_system : is_text "system" (lookup (codes "role") item.fields) ≡ false

  text_value-found :
      (j : Option Json) (path : Text) (t : Text)
      → text_value j path false ≡ valid t
      → j ≡ some (string t)
  text_value-found j path t e = ((text_value-string j path).holds t e).0

  enum_value-found :
      (j : Option Json) (path : Text) (names : List String)
      → Ensures (λ t. j ≡ some (string t)) (enum_value j path names)
  unfolding enum_value
  enum_value-found j path names = Ensures-bind (text_value j path false) _ (λ t e.
      if_elim (Ensures (λ u. j ≡ some (string u))) (contains (words names) t) _ _
        (λ h. Ensures-valid t (text_value-found j path t e)) (λ h. Ensures-invalid _))

  -- A kind whose members may not include a role.
  no_role :
      (m : Map Json) (path : Text) (names : List String)
      → contains (words names) (codes "role") ≡ false
      → Ensures (λ u. is_text "system" (lookup (codes "role") m) ≡ false) (allowed m path names)
  no_role m path names h = record {
    holds = λ u e. elim (Option-cases (lookup (codes "role") m)) [
      | inl n ↦ ap (is_text "system") n
      | inr (j, s) ↦
          absurd (
            ground (arith, h, (allowed-names m path names (codes "role")).holds u e (ap is_some s)))
    ];
  }

  sent_role-content :
      (role : Text) (m : Map Json)
      → lookup (codes "content") (sent_role role m) ≡ lookup (codes "content") m
  unfolding sent_role
  sent_role-content role m =
      if_elim (λ n. lookup (codes "content") n ≡ lookup (codes "content") m)
        (text_eq role (codes "system")) _ _
        (λ h.
          lookup-insert (codes "role") (codes "content") (string (codes "developer")) m
          ∙ (unfold text_eq in refl))
        (λ h. refl)

  sent_role-system :
      (role : Text) (m : Map Json)
      → lookup (codes "role") m ≡ some (string role)
      → is_text "system" (lookup (codes "role") (sent_role role m)) ≡ false
  unfolding sent_role
  sent_role-system role m e =
      if_elim (λ n. is_text "system" (lookup (codes "role") n) ≡ false)
        (text_eq role (codes "system")) _ _
        (λ h.
          ap (is_text "system")
            (lookup-insert (codes "role") (codes "role") (string (codes "developer")) m)
          ∙ (unfold text_eq in refl))
        (λ h. ap (is_text "system") e ∙ h)

  content_by-message :
      (kind : Text) (c o : Option Json)
      → text_eq kind (codes "message") ≡ true
      → content_by kind c o ≡ c
  content_by-message kind c o h =
      ap (λ b. if b then c else if text_eq kind (codes "function_call_output") then o else none) h

  content_by-output :
      (kind : Text) (c o : Option Json)
      → text_eq kind (codes "message") ≡ false
      → text_eq kind (codes "function_call_output") ≡ true
      → content_by kind c o ≡ o
  content_by-output kind c o n h =
      ap (λ b. if b then c else if text_eq kind (codes "function_call_output") then o else none) n
      ∙ ap (λ b. if b then o else none) h

  content_by-none :
      (kind : Text) (c o : Option Json)
      → text_eq kind (codes "message") ≡ false
      → text_eq kind (codes "function_call_output") ≡ false
      → content_by kind c o ≡ none
  content_by-none kind c o n h =
      ap (λ b. if b then c else if text_eq kind (codes "function_call_output") then o else none) n
      ∙ ap (λ b. if b then o else none) h

  message_item-Normal :
      (kind : Text) (m : Map Json) (path : Text)
      → text_eq kind (codes "message") ≡ true
      → Ensures (Normal kind m) (message_item decodes parse_url m path)
  message_item-Normal kind m path h =
      Ensures-then (allowed m path ("type" ∷ "id" ∷ "role" ∷ "content" ∷ "status" ∷ "phase" ∷ [])) (
        Ensures-bind
          (enum_value (lookup (codes "role") m) (dotted path "role")
            ("user" ∷ "assistant" ∷ "system" ∷ "developer" ∷ []))
          _
          (λ role e.
            Ensures-bind
              (validate_content decodes parse_url (lookup (codes "content") (sent_role role m))
                (dotted path "content") true)
              _
              (λ images f.
                Ensures-then
                  (if_set (lookup (codes "phase") (sent_role role m)) (λ v. done (
                    enum_value (some v) (dotted path "phase")
                      ("commentary" ∷ "final_answer" ∷ []))))
                  (Ensures-valid (record { fields = sent_role role m; images = images })
                    (record {
                      image_exact =
                          (validate_content-image decodes parse_url _ _ _).holds images f
                          ∙ ap (λ c. any is_image (values_of c))
                              (sent_role-content role m ∙ sym (content_by-message kind _ _ h));
                      not_system = sent_role-system role m ((enum_value-found _ _ _).holds role e);
                    })))))

  output_item-Normal :
      (kind : Text) (m : Map Json) (path : Text)
      → text_eq kind (codes "message") ≡ false
      → text_eq kind (codes "function_call_output") ≡ true
      → Ensures (Normal kind m) (output_item decodes parse_url m path)
  output_item-Normal kind m path n h =
      Ensures-bind (allowed m path ("type" ∷ "id" ∷ "call_id" ∷ "output" ∷ "status" ∷ [])) _ (λ u e.
        Ensures-then (done (text_value (lookup (codes "call_id") m) (dotted path "call_id") false))
          (Ensures-bind
            (validate_content decodes parse_url (lookup (codes "output") m) (dotted path "output")
              false)
            _
            (λ images f.
              Ensures-valid (record { fields = m; images = images })
                (record {
                  image_exact =
                      (validate_content-image decodes parse_url _ _ _).holds images f
                      ∙ ap (λ c. any is_image (values_of c)) (sym (content_by-output kind _ _ n h));
                  not_system =
                      (no_role m path ("type" ∷ "id" ∷ "call_id" ∷ "output" ∷ "status" ∷ [])
                          (unfold contains text_eq in refl)).holds
                        u e;
                }))))

  no_content :
      (kind : Text) (m : Map Json)
      → text_eq kind (codes "message") ≡ false
      → text_eq kind (codes "function_call_output") ≡ false
      → is_text "system" (lookup (codes "role") m) ≡ false
      → Normal kind m (record { fields = m; images = no_images })
  no_content kind m n h s = record {
    image_exact = sym (ap (λ c. any is_image (values_of c)) (content_by-none kind _ _ n h));
    not_system = s;
  }

  call_item-Normal :
      (kind : Text) (m : Map Json) (path : Text)
      → text_eq kind (codes "message") ≡ false
      → text_eq kind (codes "function_call_output") ≡ false
      → Ensures (Normal kind m) (call_item decodes parse_url m path)
  call_item-Normal kind m path n h =
      Ensures-bind
        (allowed m path ("type" ∷ "id" ∷ "call_id" ∷ "name" ∷ "arguments" ∷ "status" ∷ [])) _
        (λ u e.
          Ensures-then
            (done (text_value (lookup (codes "call_id") m) (dotted path "call_id") false))
            (Ensures-then (done (text_value (lookup (codes "name") m) (dotted path "name") false)) (
              Ensures-then
                (done (text_value (lookup (codes "arguments") m) (dotted path "arguments") true))
                (Ensures-valid (record { fields = m; images = no_images })
                  (no_content kind m n h (
                    (no_role m path
                        ("type" ∷ "id" ∷ "call_id" ∷ "name" ∷ "arguments" ∷ "status" ∷ [])
                        (unfold contains text_eq in refl)).holds
                      u e))))))

  reasoning_item-Normal :
      (kind : Text) (m : Map Json) (path : Text)
      → text_eq kind (codes "message") ≡ false
      → text_eq kind (codes "function_call_output") ≡ false
      → Ensures (Normal kind m) (reasoning_item decodes parse_url m path)
  reasoning_item-Normal kind m path n h =
      Ensures-bind
        (allowed m path
          ("type" ∷ "id" ∷ "summary" ∷ "encrypted_content" ∷ "content" ∷ "status" ∷ []))
        _
        (λ u e.
          Ensures-then
            (if_set (lookup (codes "encrypted_content") m)
              (λ v. done (text_value (some v) (dotted path "encrypted_content") true)))
            (Ensures-then
              (validate_text_parts (lookup (codes "summary") m) (dotted path "summary")
                "summary_text")
              (Ensures-then
                (if_set (lookup (codes "content") m)
                  (λ v. validate_text_parts (some v) (dotted path "content") "reasoning_text"))
                (Ensures-valid (record { fields = m; images = no_images })
                  (no_content kind m n h (
                    (no_role m path
                        ("type" ∷ "id" ∷ "summary" ∷ "encrypted_content" ∷ "content" ∷ "status"
                          ∷ [])
                        (unfold contains text_eq in refl)).holds
                      u e))))))

  item_of_kind-Normal :
      (kind : Text) (m : Map Json) (path : Text)
      → Ensures (Normal kind m) (item_of_kind decodes parse_url kind m path)
  unfolding item_of_kind
  item_of_kind-Normal kind m path =
      if_elim (Ensures (Normal kind m)) (text_eq kind (codes "message")) _ _
        (λ h. message_item-Normal kind m path h)
        (λ n1.
          if_elim (Ensures (Normal kind m)) (text_eq kind (codes "function_call")) _ _
            (λ h. call_item-Normal kind m path n1 (differs h))
            (λ n2.
              if_elim (Ensures (Normal kind m)) (text_eq kind (codes "function_call_output")) _ _
                (λ h. output_item-Normal kind m path n1 h)
                (λ n3.
                  if_elim (Ensures (Normal kind m)) (text_eq kind (codes "reasoning")) _ _
                    (λ h. reasoning_item-Normal kind m path n1 n3) (λ n4. Ensures-invalid _))))
    where
      differs :
          text_eq kind (codes "function_call") ≡ true
          → text_eq kind (codes "function_call_output") ≡ false
      differs h =
          subst (λ k. text_eq k (codes "function_call_output") ≡ false)
            (sym ((text_eq_iff kind (codes "function_call")).0 h)) (unfold text_eq in refl)

  kind_of-kind_in :
      (j : Option Json) (path : Text) → Ensures (λ kind. kind_in j ≡ kind) (kind_of j path)
  kind_of-kind_in none path = Ensures-valid _ refl
  kind_of-kind_in (some j) path = record {
    holds = λ kind e. ap kind_in (text_value-found (some j) (dotted path "type") kind e);
  }

  -- What an item of the input becomes.
  record NormalItem (raw : Json) (item : Item) : Type 0 where
    image_exact : item.images.image ≡ has_image raw
    not_system : is_system (members (fields_of item.fields)) ≡ false

  validate_item-NormalItem :
      (raw : Json) (path : Text)
      → Ensures (NormalItem raw) (validate_item decodes parse_url raw path)
  unfolding validate_item any_object
  validate_item-NormalItem (members fs) path =
      Ensures-bind (kind_of (lookup (codes "type") (map_of fs)) path) _ (λ kind e.
        Ensures-bind (item_of_kind decodes parse_url kind (map_of fs) path) _ (λ item f.
          let normal = (item_of_kind-Normal kind (map_of fs) path).holds item f in
          Ensures-then
            (unless_null (text_eq kind (codes "function_call_output"))
              (lookup (codes "id") item.fields)
              (λ v. done (text_value (some v) (dotted path "id") false)))
            (Ensures-then
              (unless_null (not (text_eq kind (codes "message")))
                (lookup (codes "status") item.fields)
                (λ v. done (
                  enum_value (some v) (dotted path "status")
                    ("in_progress" ∷ "completed" ∷ "incomplete" ∷ []))))
              (Ensures-valid item (record {
                image_exact =
                    normal.image_exact
                    ∙ ap
                        (λ k. any is_image (
                          values_of (
                            content_by k (lookup (codes "content") (map_of fs))
                              (lookup (codes "output") (map_of fs)))))
                        (sym ((kind_of-kind_in _ path).holds kind e));
                not_system =
                    ap (λ m. is_text "system" (lookup (codes "role") m))
                      (map_of-fields_of item.fields)
                    ∙ normal.not_system;
              })))))
  validate_item-NormalItem null path = Ensures-invalid _
  validate_item-NormalItem (boolean b) path = Ensures-invalid _
  validate_item-NormalItem (integer n) path = Ensures-invalid _
  validate_item-NormalItem (number n) path = Ensures-invalid _
  validate_item-NormalItem (string s) path = Ensures-invalid _
  validate_item-NormalItem (elements js) path = Ensures-invalid _

  -- What the items of an input become.
  record NormalInput (raws sent : List Json) (images : Images) : Type 0 where
    image_exact : images.image ≡ any has_image raws
    not_system : any is_system sent ≡ false

  each_item-NormalInput :
      (i : ℕ) (raws : List Json)
      → Ensures
          (λ (r : List Json × Images). NormalInput raws r.0 r.1)
          (each_item decodes parse_url i raws)
  unfolding each_item
  each_item-NormalInput i [] = Ensures-valid _ (record { image_exact = refl; not_system = refl })
  each_item-NormalInput i (raw ∷ raws) =
      Ensures-bind (validate_item decodes parse_url raw (item_path i)) _ (λ item e.
        Ensures-bind (each_item decodes parse_url (suc i) raws) _ (λ rest f. Ensures-valid _ (
          one_more item rest ((validate_item-NormalItem raw (item_path i)).holds item e)
            ((each_item-NormalInput (suc i) raws).holds rest f))))
    where
      one_more :
          (item : Item) (rest : List Json × Images)
          → NormalItem raw item
          → NormalInput raws rest.0 rest.1
          → NormalInput
              (raw ∷ raws)
              (members (fields_of item.fields) ∷ rest.0)
              (both item.images rest.1)
      one_more item rest a b = record {
        image_exact =
            ap (λ x. x || rest.1.image) a.image_exact ∙ ap (λ x. has_image raw || x) b.image_exact;
        not_system = ap (λ x. x || any is_system rest.0) a.not_system ∙ b.not_system;
      }

  Sound : Option Json → Json × Images → Type 0
  Sound raw r =
      (r.1.image ≡ any has_image (values_of raw)) × (any is_system (values_of (some r.0)) ≡ false)

  validate_input-Sound :
      (raw : Option Json) → Ensures (Sound raw) (validate_input decodes parse_url raw)
  unfolding Sound validate_input array
  validate_input-Sound (some (elements items)) =
      Ensures-bind (each_item decodes parse_url 0 (list_of items)) _ (λ r e.
        let normal = (each_item-NormalInput 0 (list_of items)).holds r e in
        Ensures-valid _
          (normal.image_exact, ap (any is_system) (list_of-items_of r.0) ∙ normal.not_system))
  validate_input-Sound (some (string t)) =
      Ensures-valid _ (refl, unfold fields_of map_of lookup text_eq list_of items_of in refl)
  validate_input-Sound none = Ensures-invalid _
  validate_input-Sound (some null) = Ensures-invalid _
  validate_input-Sound (some (boolean b)) = Ensures-invalid _
  validate_input-Sound (some (integer n)) = Ensures-invalid _
  validate_input-Sound (some (number n)) = Ensures-invalid _
  validate_input-Sound (some (members fs)) = Ensures-invalid _

  -- If validateInput accepts an input, it has set the request's image flag exactly if an item of the
  -- input, a message or a function's output, has a part of type input_image, and no item that it sends on has the role
  -- "system".
  pub validate_input-image :
      (raw : Option Json) (sent : Json) (images : Images)
      → validate_input decodes parse_url raw ≡ valid (sent, images)
      → (images.image ≡ any has_image (values_of raw))
        × (any is_system (values_of (some sent)) ≡ false)
  unfolding Sound
  validate_input-image raw sent images h = (validate_input-Sound raw).holds (sent, images) h
