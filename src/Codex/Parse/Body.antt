-- ===== src/Codex/Parse/Body.antt =====
-- What ParseRequest sends upstream (internal/codex/request.go).
use clan.Prelude.{
  String, ◌≡◌, refl, sym, ap, ◌∙◌, subst, Bool, true, false, not, ◌&&◌, ◌||◌, Option, none, some,
  List, [], ◌∷◌, arith, if◌then◌else◌, is_some, if_elim, Text, codes, text_eq, text_eq_iff,
  is_blank, Map, lookup, insert, erase, lookup-insert, lookup-erase,
}
use clan.Codex.Request.{Request, contains}
use clan.Codex.Json.{
  Json, boolean, string, valid, words, text_value, bool_value, object, is_null, omit_null, guard,
  Ensures, Ensures-valid, Ensures-bind, text_value-string, object-names,
}
use clan.Codex.Controls.{validate_tools, validate_reasoning, validate_text}
use clan.Codex.Input.{Url, validate_input}
use clan.Codex.Parse.{
  is_cap, request_names, nullable_names, switch_field, with_effort, with_stream, check_field,
  check_fields, blank_request, wire_fields, parse_fields, validate_tool_choice, validate_include,
}

-- A checked member and the request after it: the model stays, and so does the model's own member.
abbrev Kept : Text → Json → Request → Json × Request → Type 0
Kept name raw r p = (p.1.model ≡ r.model) × (text_eq name (codes "model") ≡ true → p.0 ≡ raw)

with_stream-model : (named b : Bool) (r : Request) → (with_stream named b r).model ≡ r.model
with_stream-model true b r = refl
with_stream-model false b r = refl

with_effort-model : (e : Option Text) (r : Request) → (with_effort e r).model ≡ r.model
with_effort-model none r = refl
with_effort-model (some e) r = refl

not_model :
    (name : Text) (w : String)
    → text_eq (codes w) (codes "model") ≡ false
    → text_eq name (codes w) ≡ true
    → text_eq name (codes "model") ≡ false
not_model name w d h =
    subst (λ n. text_eq n (codes "model") ≡ false) (sym ((text_eq_iff name (codes w)).0 h)) d

switch_field-Kept :
    (name : Text) (raw : Json) (r : Request) → Ensures (Kept name raw r) (switch_field name raw r)
switch_field-Kept name raw r = Ensures-bind (bool_value (some raw) name) _ (λ b e.
    Ensures-bind
      (guard (not ((text_eq name (codes "store") || text_eq name (codes "background")) && b)) name)
      _ (λ u g. Ensures-valid _ (with_stream-model (text_eq name (codes "stream")) b r, λ m. refl)))

check_field-Kept :
    (name : Text) (raw : Json) (r : Request) → Ensures (Kept name raw r) (check_field name raw r)
unfolding check_field text_eq
check_field-Kept name raw r =
    if_elim (Ensures (Kept name raw r))
      (contains (codes "instructions" ∷ codes "prompt_cache_key" ∷ []) name) _ _
      (λ h.
        Ensures-bind (text_value (some raw) name true) _ (λ t e. Ensures-valid _ (refl, λ m. refl)))
      (λ n1.
        if_elim (Ensures (Kept name raw r))
          (contains
            (codes "stream" ∷ codes "store" ∷ codes "background" ∷ codes "parallel_tool_calls" ∷ [])
            name)
          _ _ (λ h. switch_field-Kept name raw r)
          (λ n2.
            if_elim (Ensures (Kept name raw r)) (text_eq name (codes "max_output_tokens")) _ _
              (λ h.
                Ensures-bind (guard (is_cap raw) name) _ (λ t e. Ensures-valid _ (refl, λ m. refl)))
              (λ n3.
                if_elim (Ensures (Kept name raw r)) (text_eq name (codes "tools")) _ _
                  (λ h. Ensures-bind (validate_tools raw) _ (λ t e.
                    Ensures-valid _
                      (refl, λ m. absurd (ground (arith, m, not_model name "tools" refl h)))))
                  (λ n4.
                    if_elim (Ensures (Kept name raw r)) (text_eq name (codes "tool_choice")) _ _
                      (λ h.
                        Ensures-bind (validate_tool_choice raw) _
                          (λ t e. Ensures-valid _ (refl, λ m. refl)))
                      (λ n5.
                        if_elim (Ensures (Kept name raw r)) (text_eq name (codes "reasoning")) _ _
                          (λ h. Ensures-bind (validate_reasoning raw) _ (λ v e. Ensures-valid _ (
                            with_effort-model v.effort (record r { summary = v.summary }),
                            λ m. absurd (ground (arith, m, not_model name "reasoning" refl h)),
                          )))
                          (λ n6.
                            if_elim (Ensures (Kept name raw r)) (text_eq name (codes "include")) _ _
                              (λ h.
                                Ensures-bind (validate_include raw) _
                                  (λ t e. Ensures-valid _ (refl, λ m. refl)))
                              (λ n7.
                                if_elim (Ensures (Kept name raw r)) (text_eq name (codes "text")) _
                                  _
                                  (λ h. Ensures-bind (validate_text raw) _ (λ v e. Ensures-valid _ (
                                    refl,
                                    λ m. absurd (ground (arith, m, not_model name "text" refl h)),
                                  )))
                                  (λ n8. Ensures-valid _ (refl, λ m. refl)))))))))

-- All the members after the loop: the same names, the same model.
abbrev Aligned : Map Json → Request → Map Json × Request → Type 0
Aligned m r p =
    (p.1.model ≡ r.model)
    × ((k : Text) → is_some (lookup k p.0) ≡ is_some (lookup k m))
    × (lookup (codes "model") p.0 ≡ lookup (codes "model") m)

same_keys :
    (name : Text) (raw j : Json) (m n : Map Json)
    → ((k : Text) → is_some (lookup k n) ≡ is_some (lookup k m))
    → (k : Text) → is_some (lookup k ((name, j) ∷ n)) ≡ is_some (lookup k ((name, raw) ∷ m))
unfolding lookup
same_keys name raw j m n h k = ground (arith, h k)

same_model :
    (name : Text) (raw j : Json) (m n : Map Json)
    → (text_eq name (codes "model") ≡ true → j ≡ raw)
    → lookup (codes "model") n ≡ lookup (codes "model") m
    → lookup (codes "model") ((name, j) ∷ n) ≡ lookup (codes "model") ((name, raw) ∷ m)
unfolding lookup
same_model name raw j m n v h = ground (arith, v, h)

check_fields-Aligned : (m : Map Json) (r : Request) → Ensures (Aligned m r) (check_fields m r)
unfolding check_fields
check_fields-Aligned [] r = Ensures-valid _ (refl, λ k. refl, refl)
check_fields-Aligned ((name, raw) ∷ m) r = Ensures-bind (check_field name raw r) _ (λ a e.
    Ensures-bind (check_fields m a.1) _ (λ b f.
      let (model, value) = (check_field-Kept name raw r).holds a e in
      let (model', names, at) = (check_fields-Aligned m a.1).holds b f in
      Ensures-valid _ (
        model' ∙ model,
        same_keys name raw a.0 m b.0 names,
        same_model name raw a.0 m b.0 value at,
      )))

omit_null-names :
    (ws : List String) (m : Map Json) (k : Text)
    → is_some (lookup k (omit_null m ws)) ≡ true
    → is_some (lookup k m) ≡ true
unfolding omit_null
omit_null-names [] m k h = h
omit_null-names (w ∷ ws) m k h =
    dropped (is_null (lookup (codes w) m))
      (omit_null-names ws (if is_null (lookup (codes w) m) then erase (codes w) m else m) k h)
  where
    dropped :
        (b : Bool)
        → is_some (lookup k (if b then erase (codes w) m else m)) ≡ true
        → is_some (lookup k m) ≡ true
    dropped true e = ground (arith, e, lookup-erase (codes w) k m)
    dropped false e = e

implied : (a b : Bool) → (a ≡ true → b ≡ true) → (not a || b) ≡ true
implied true b f = f refl
implied false b f = refl

-- The members of the body.
abbrev pub IsWire : Map Json × Request → Type 0
IsWire p =
    (lookup (codes "stream") p.0 ≡ some (boolean true))
    × (lookup (codes "store") p.0 ≡ some (boolean false))
    × (lookup (codes "max_output_tokens") p.0 ≡ none)
    × (lookup (codes "model") p.0 ≡ some (string p.1.model))
    × (is_blank p.1.model ≡ false)
    × ((k : Text) → (not (is_some (lookup k p.0)) || contains (words request_names) k) ≡ true)

lookup-wire_fields :
    (m : Map Json) (input : Json) (k : Text)
    → lookup k (wire_fields m input) ≡ (
        if text_eq (codes "max_output_tokens") k
        then none
        else if text_eq (codes "store") k
        then some (boolean false)
        else if text_eq (codes "stream") k
        then some (boolean true)
        else if text_eq (codes "input") k
        then some input
        else lookup k m)
unfolding wire_fields
lookup-wire_fields m input k =
    let a = insert (codes "input") input m in
    let b = insert (codes "stream") (boolean true) a in
    let c = insert (codes "store") (boolean false) b in
    simp (
      lookup-erase (codes "max_output_tokens") k c,
      lookup-insert (codes "store") k (boolean false) b,
      lookup-insert (codes "stream") k (boolean true) a,
      lookup-insert (codes "input") k input m,
    )

known_name :
    (w : String) (k : Text)
    → contains (words request_names) (codes w) ≡ true
    → text_eq (codes w) k ≡ true
    → contains (words request_names) k ≡ true
known_name w k h e =
    subst (λ n. contains (words request_names) n ≡ true) ((text_eq_iff (codes w) k).0 e) h

-- A member of four writes was written or was there.
one_of_writes :
    (a b c d : Bool) (u v w : Json) (x : Option Json) (Q : Type 0)
    → (b ≡ true → Q)
    → (c ≡ true → Q)
    → (d ≡ true → Q)
    → (is_some x ≡ true → Q)
    → is_some
        (if a then none else if b then some u else if c then some v else if d then some w else x)
      ≡ true
    → Q
one_of_writes true b c d u v w x Q p q r s h = absurd (ground (arith, h))
one_of_writes false true c d u v w x Q p q r s h = p refl
one_of_writes false false true d u v w x Q p q r s h = q refl
one_of_writes false false false true u v w x Q p q r s h = r refl
one_of_writes false false false false u v w x Q p q r s h = s h

wire-names :
    (m : Map Json) (input : Json) (k : Text)
    → (is_some (lookup k m) ≡ true → contains (words request_names) k ≡ true)
    → is_some (lookup k (wire_fields m input)) ≡ true
    → contains (words request_names) k ≡ true
unfolding contains text_eq
wire-names m input k h s =
    one_of_writes (text_eq (codes "max_output_tokens") k) (text_eq (codes "store") k)
      (text_eq (codes "stream") k) (text_eq (codes "input") k) (boolean false) (boolean true) input
      (lookup k m) (contains (words request_names) k ≡ true) (known_name "store" k refl)
      (known_name "stream" k refl) (known_name "input" k refl) h
      (subst (λ o. is_some o ≡ true) (lookup-wire_fields m input k) s)

-- An accepted request is sent on with these members and no others: it streams and is not stored,
-- has no cap on its output, names the model that the request record names, which is not blank, and
-- every name is one of those that ParseRequest knows.
pub parse_fields-IsWire :
    (decodes : Text → Bool) (parse_url : Text → Option Url) (raw : Option Json) (m : Map Json)
    (r : Request)
    → parse_fields decodes parse_url raw ≡ valid (m, r)
    → (lookup (codes "stream") m ≡ some (boolean true))
      × (lookup (codes "store") m ≡ some (boolean false))
      × (lookup (codes "max_output_tokens") m ≡ none)
      × (lookup (codes "model") m ≡ some (string r.model))
      × (is_blank r.model ≡ false)
      × ((k : Text) → (not (is_some (lookup k m)) || contains (words request_names) k) ≡ true)
unfolding parse_fields text_eq
parse_fields-IsWire decodes parse_url raw m r h = (all).holds (m, r) h
  where
    all : Ensures IsWire (parse_fields decodes parse_url raw)
    all = Ensures-bind (object raw (codes "request") request_names) _ (λ fields e.
        let n = omit_null fields nullable_names in
        Ensures-bind (text_value (lookup (codes "model") n) (codes "model") false) _ (λ model e2.
          Ensures-bind (check_fields n (blank_request model)) _ (λ checked e3.
            Ensures-bind (validate_input decodes parse_url (lookup (codes "input") checked.0)) _
              (λ input e4.
                let (found, filled) =
                  (text_value-string (lookup (codes "model") n) (codes "model")).holds model e2 in
                let (same, names, at) =
                  (check_fields-Aligned n (blank_request model)).holds checked e3 in
                Ensures-valid _ (
                  lookup-wire_fields checked.0 input.0 (codes "stream"),
                  lookup-wire_fields checked.0 input.0 (codes "store"),
                  lookup-wire_fields checked.0 input.0 (codes "max_output_tokens"),
                  lookup-wire_fields checked.0 input.0 (codes "model")
                      ∙ (at ∙ (found ∙ ap (λ t. some (string t)) (sym same))),
                  ap is_blank same ∙ filled,
                  λ k. implied _ _ (
                      wire-names checked.0 input.0 k (λ s.
                        (object-names raw (codes "request") request_names).holds fields e k
                          (omit_null-names nullable_names fields k (sym (names k) ∙ s)))),
                )))))
