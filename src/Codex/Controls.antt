-- ===== src/Codex/Controls.antt =====
-- internal/codex/controls.go: tools, reasoning and text format.
use clan.Prelude.{
  Bool, true, false, Option, none, some, List, [], ◌∷◌, if◌then◌else◌, is_some, Text, codes,
  text_eq, Map, lookup, insert,
}
use clan.Codex.Json.{
  Json, elements, members, items_of, fields_of, Checked, valid, ◌>>=◌, ◌>>◌, text_value, enum_value,
  bool_value, allowed, any_object, object, array, omit_null, if_present, done,
}

-- One tool of `validateTools`, as it is sent on.
unfoldable pub validate_tool : Json → Checked Json
validate_tool tool = do
  m ←
      object (some tool) (codes "tools")
        ("type" ∷ "name" ∷ "description" ∷ "parameters" ∷ "strict" ∷ [])
  done (enum_value (lookup (codes "type") m) (codes "tools.type") ("function" ∷ []))
  let m' = omit_null m ("description" ∷ "parameters" ∷ "strict" ∷ [])
  done (text_value (lookup (codes "name") m') (codes "tools.name") false)
  if_present (lookup (codes "description") m')
      (λ j. done (text_value (some j) (codes "tools.description") true))
  if_present (lookup (codes "parameters") m')
      (λ j. done (any_object (some j) (codes "tools.parameters")))
  if_present (lookup (codes "strict") m') (λ j. done (bool_value (some j) (codes "tools.strict")))
  valid (members (fields_of m'))

unfoldable pub validate_each : List Json → Checked (List Json)
validate_each [] = valid []
validate_each (tool ∷ tools) = do t ← validate_tool tool; ts ← validate_each tools; valid (t ∷ ts)

-- `validateTools`
unfoldable pub validate_tools : Json → Checked Json
validate_tools raw = do
  tools ← array (some raw) (codes "tools")
  ts ← validate_each tools
  valid (elements (items_of ts))

-- What `validateReasoning` sets in the request.
pub record Reasoning : Type 0 where
  pub value : Json
  pub effort : Option Text
  pub summary : Bool

abbrev effort_of : Option Json → Checked (Option Text)
effort_of none = valid none
effort_of (some j) = do t ← text_value (some j) (codes "reasoning.effort") false; valid (some t)

-- `validateReasoning`
unfoldable pub validate_reasoning : Json → Checked Reasoning
validate_reasoning raw = do
  m ← object (some raw) (codes "reasoning") ("effort" ∷ "summary" ∷ [])
  let m' = omit_null m ("effort" ∷ "summary" ∷ [])
  effort ← effort_of (lookup (codes "effort") m')
  if_present (lookup (codes "summary") m') (λ j.
      done (enum_value (some j) (codes "reasoning.summary") ("auto" ∷ "concise" ∷ "detailed" ∷ [])))
  valid (record {
    value = members (fields_of m');
    effort = effort;
    summary = is_some (lookup (codes "summary") m');
  })

abbrev schema_format : Map Json → Checked Json
schema_format format = do
  let m = omit_null format ("strict" ∷ [])
  done (text_value (lookup (codes "name") m) (codes "text.format.name") false)
  done (any_object (lookup (codes "schema") m) (codes "text.format.schema"))
  if_present (lookup (codes "description") m)
      (λ j. done (text_value (some j) (codes "text.format.description") true))
  if_present (lookup (codes "strict") m)
      (λ j. done (bool_value (some j) (codes "text.format.strict")))
  valid (members (fields_of m))

-- `validateFormat`
unfoldable pub validate_format : Json → Checked Json
validate_format raw = do
  format ←
      object (some raw) (codes "text.format")
        ("type" ∷ "name" ∷ "schema" ∷ "description" ∷ "strict" ∷ [])
  kind ←
      enum_value (lookup (codes "type") format) (codes "text.format.type")
        ("text" ∷ "json_object" ∷ "json_schema" ∷ [])
  if text_eq kind (codes "json_schema")
      then schema_format format
      else (allowed format (codes "text.format") ("type" ∷ []) >> valid raw)

-- What `validateText` sets in the request.
pub record TextControls : Type 0 where
  pub value : Json
  pub verbosity : Bool

abbrev with_format : Map Json → Option Json → Checked (Map Json)
with_format m none = valid m
with_format m (some j) = do format ← validate_format j; valid (insert (codes "format") format m)

-- `validateText`
unfoldable pub validate_text : Json → Checked TextControls
validate_text raw = do
  m ← object (some raw) (codes "text") ("verbosity" ∷ "format" ∷ [])
  let m' = omit_null m ("verbosity" ∷ [])
  if_present (lookup (codes "verbosity") m')
      (λ j. done (enum_value (some j) (codes "text.verbosity") ("low" ∷ "medium" ∷ "high" ∷ [])))
  n ← with_format m' (lookup (codes "format") m')
  valid (record {
    value = members (fields_of n);
    verbosity = is_some (lookup (codes "verbosity") m');
  })
