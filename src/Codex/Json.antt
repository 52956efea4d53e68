-- ===== src/Codex/Json.antt =====
-- internal/codex/request.go: decoded JSON, and the checks that the validators share.
--
-- encoding/json is not modelled: a raw message is the value that it decodes to, with the members of an
-- object in one order and, of members with one name, only the last. `integer` is a number that
-- decodes to a Go integer if it is in range, `number` is any other number.
use mathlib.Core.Option.{Option, none, some}
use clan.Prelude.{
  String, ◌≡◌, refl, ap, subst, Bool, true, false, not, ◌&&◌, List, [], ◌∷◌, ◌++◌, map, arith,
  if◌then◌else◌, is_some, if_elim, Text, codes, text_eq_iff, is_blank, Map, lookup, erase, ℤ,
}
use clan.Codex.Request.{contains}

mutual
  pub data Json : Type 0 where
    null : Json
    boolean : Bool → Json
    integer : ℤ → Json
    number : Text → Json
    string : Text → Json
    elements : Items → Json
    members : Fields → Json

  pub data Items : Type 0 where
    nil : Items
    cons : Json → Items → Items

  pub data Fields : Type 0 where
    end : Fields
    field : Text → Json → Fields → Fields

unfoldable pub list_of : Items → List Json
list_of nil = []
list_of (cons j js) = j ∷ list_of js

unfoldable pub items_of : List Json → Items
items_of [] = nil
items_of (j ∷ js) = cons j (items_of js)

unfoldable pub map_of : Fields → Map Json
map_of end = []
map_of (field k j fs) = (k, j) ∷ map_of fs

unfoldable pub fields_of : Map Json → Fields
fields_of [] = end
fields_of ((k, j) ∷ m) = field k j (fields_of m)

pub list_of-items_of : (js : List Json) → list_of (items_of js) ≡ js
unfolding list_of items_of
list_of-items_of [] = refl
list_of-items_of (j ∷ js) = ap (λ x. j ∷ x) (list_of-items_of js)

pub map_of-fields_of : (m : Map Json) → map_of (fields_of m) ≡ m
unfolding map_of fields_of
map_of-fields_of [] = refl
map_of-fields_of ((k, j) ∷ m) = ap (λ x. (k, j) ∷ x) (map_of-fields_of m)

-- A value, or a ValidationError that names a field.
pub data Checked {ℓ} (A : Type ℓ) : Type ℓ where
  valid : A → Checked A
  invalid_field : Text → Checked A

infixl 5 ◌>>=◌ ◌>>◌
abbrev pub ◌>>=◌ {ℓ κ} : {A : Type ℓ} {B : Type κ} → Checked A → (A → Checked B) → Checked B
valid a >>= f = f a
invalid_field p >>= f = invalid_field p

abbrev pub ◌>>◌ {ℓ κ} : {A : Type ℓ} {B : Type κ} → Checked A → Checked B → Checked B
m >> k = m >>= λ _. k

abbrev pub guard : Bool → Text → Checked (Unit {0})
guard true p = valid tt
guard false p = invalid_field p

-- What a chain of checks that passed has passed.
pub >>=-eq-valid {ℓ κ} :
    {A : Type ℓ} {B : Type κ} (m : Checked A) (f : A → Checked B) {b : B}
    → (m >>= f) ≡ valid b
    → (a : A) × (m ≡ valid a) × (f a ≡ valid b)
>>=-eq-valid (valid a) f h = (a, refl, h)
>>=-eq-valid (invalid_field p) f h = cc

-- `path + "." + name`
abbrev pub dotted : Text → String → Text
dotted path name = path ++ b'.' ∷ codes name

abbrev pub words : List String → List Text
words ws = map codes ws

-- `textValue`; `none` is a missing member.
unfoldable pub text_value : Option Json → Text → Bool → Checked Text
text_value (some (string t)) path empty =
    if not empty && is_blank t then invalid_field path else valid t
text_value _ path empty = invalid_field path

-- `enumValue`
unfoldable pub enum_value : Option Json → Text → List String → Checked Text
enum_value j path names = do
  t ← text_value j path false
  if contains (words names) t then valid t else invalid_field path

-- `boolValue`
unfoldable pub bool_value : Option Json → Text → Checked Bool
bool_value (some (boolean b)) path = valid b
bool_value _ path = invalid_field path

-- `allowed`
unfoldable pub allowed : Map Json → Text → List String → Checked (Unit {0})
allowed [] path names = valid tt
allowed ((k, j) ∷ m) path names =
    if contains (words names) k then allowed m path names else invalid_field (path ++ b'.' ∷ k)

-- `object` with any members.
unfoldable pub any_object : Option Json → Text → Checked (Map Json)
any_object (some (members fs)) path = valid (map_of fs)
any_object _ path = invalid_field path

-- `object` with the names that it may have.
unfoldable pub object : Option Json → Text → List String → Checked (Map Json)
object j path names = do m ← any_object j path; allowed m path names; valid m

-- `array`
unfoldable pub array : Option Json → Text → Checked (List Json)
array (some (elements js)) path = valid (list_of js)
array _ path = invalid_field path

abbrev pub is_null : Option Json → Bool
is_null (some null) = true
is_null _ = false

-- `omitNull`
unfoldable pub omit_null : Map Json → List String → Map Json
omit_null m [] = m
omit_null m (w ∷ ws) = omit_null (if is_null (lookup (codes w) m) then erase (codes w) m else m) ws

-- A check of a member, if it is there.
abbrev pub if_present {ℓ} : {A : Type ℓ} → Option A → (A → Checked (Unit {0})) → Checked (Unit {0})
if_present none f = valid tt
if_present (some a) f = f a

abbrev pub done {ℓ} : {A : Type ℓ} → Checked A → Checked (Unit {0})
done m = m >>= λ _. valid tt

-- Every value that a check lets pass has the property.
pub record Ensures {ℓ} {A : Type ℓ} (P : A → Type 0) (m : Checked A) : Type ℓ where
  pub holds : (a : A) → m ≡ valid a → P a

valid_injective {ℓ} : {A : Type ℓ} {a b : A} → valid a ≡ valid b → a ≡ b
valid_injective e = cc

pub Ensures-valid {ℓ} : {A : Type ℓ} {P : A → Type 0} (a : A) → P a → Ensures P (valid a)
Ensures-valid {P = P} a p = record { holds = λ b e. subst P (valid_injective e) p }

pub Ensures-invalid {ℓ} :
    {A : Type ℓ} {P : A → Type 0} (path : Text) → Ensures P (invalid_field path)
Ensures-invalid path = record { holds = λ b e. absurd (ground (arith, e)) }

pub Ensures-bind {ℓ κ} :
    {A : Type ℓ} {B : Type κ} {P : B → Type 0} (m : Checked A) (f : A → Checked B)
    → ((a : A) → m ≡ valid a → Ensures P (f a))
    → Ensures P (m >>= f)
Ensures-bind (valid a) f k = k a refl
Ensures-bind (invalid_field p) f k = Ensures-invalid p

pub Ensures-then {ℓ κ} :
    {A : Type ℓ} {B : Type κ} {P : B → Type 0} (m : Checked A) {k : Checked B}
    → Ensures P k
    → Ensures P (m >> k)
Ensures-then m {k = k} h = Ensures-bind m (λ _. k) (λ a e. h)

pub allowed-names :
    (m : Map Json) (path : Text) (names : List String) (k : Text)
    → Ensures
        (λ u. is_some (lookup k m) ≡ true → contains (words names) k ≡ true)
        (allowed m path names)
unfolding allowed lookup
allowed-names [] path names k = Ensures-valid _ (λ h. absurd (ground (arith, h)))
allowed-names ((j, v) ∷ m) path names k =
    if_elim
      (Ensures (λ u. is_some (lookup k ((j, v) ∷ m)) ≡ true → contains (words names) k ≡ true))
      (contains (words names) j) _ _
      (λ ok. record {
        holds = λ u e s.
            ground (arith, ok, s, text_eq_iff j k, (allowed-names m path names k).holds u e);
      })
      (λ bad. Ensures-invalid _)

pub text_value-string :
    (j : Option Json) (path : Text)
    → Ensures (λ t. (j ≡ some (string t)) × (is_blank t ≡ false)) (text_value j path false)
unfolding text_value
text_value-string none path = Ensures-invalid _
text_value-string (some null) path = Ensures-invalid _
text_value-string (some (boolean b)) path = Ensures-invalid _
text_value-string (some (integer n)) path = Ensures-invalid _
text_value-string (some (number n)) path = Ensures-invalid _
text_value-string (some (elements js)) path = Ensures-invalid _
text_value-string (some (members fs)) path = Ensures-invalid _
text_value-string (some (string t)) path =
    if_elim (Ensures (λ u. (some (string t) ≡ some (string u)) × (is_blank u ≡ false))) (is_blank t)
      _ _ (λ h. Ensures-invalid _) (λ h. Ensures-valid _ (refl, h))

pub object-names :
    (j : Option Json) (path : Text) (names : List String)
    → Ensures
        (λ m. (k : Text) → is_some (lookup k m) ≡ true → contains (words names) k ≡ true)
        (object j path names)
unfolding object
object-names j path names = Ensures-bind (any_object j path) _ (λ m e.
    Ensures-bind (allowed m path names) _
      (λ u f. Ensures-valid _ (λ k. (allowed-names m path names k).holds u f)))
