-- ===== src/Codex/Catalog/Entries.antt =====
-- What each operation of the catalog does to the entry of one ID (catalog.go).
use clan.Prelude.{
  ℕ, ◌≡◌, refl, ◌⊎◌, inl, inr, ◌||◌, Option, none, some, [], ◌∷◌, arith, is_some, subst_some, Text,
  text_eq_iff, Map, lookup, lookup-insert,
}
use clan.Account.{Account}
use clan.Codex.Catalog.{Entry, updated, retained, added, entry_of}

abbrev pub kept_entry : Option Account → Option Entry → Option Entry
kept_entry (some a) (some e) = some (updated e a)
kept_entry (some a) none = none
kept_entry none e = none

pub lookup-retained :
    (active : Map Account) (es : Map Entry) (id : Text)
    → lookup id (retained active es).0 ≡ kept_entry (lookup id active) (lookup id es)
unfolding lookup retained
lookup-retained active [] id = go (lookup id active)
  where
    go : (x : Option Account) → none ≡ kept_entry x none
    go none = refl
    go (some a) = refl
lookup-retained active ((i, e) ∷ es) id = go (lookup i active) refl (lookup-retained active es id)
  where
    go :
        (x : Option Account)
        → lookup i active ≡ x
        → lookup id (retained active es).0 ≡ kept_entry (lookup id active) (lookup id es)
        → lookup id (retained active ((i, e) ∷ es)).0
          ≡ kept_entry (lookup id active) (lookup id ((i, e) ∷ es))
    go none k r = rw (k, retained) (ground (arith, k, r, text_eq_iff i id))
    go (some a) k r = rw (k, retained) (ground (arith, k, r, text_eq_iff i id))

pub lookup-added :
    (born : ℕ) (active : Map Account) (es : Map Entry) (id : Text)
    → is_some (lookup id (added born active es))
      ≡ (is_some (lookup id active) || is_some (lookup id es))
unfolding lookup added
lookup-added born [] es id = refl
lookup-added born ((i, a) ∷ active) es id = ground (
  arith,
  text_eq_iff i id,
  lookup-added born active es id,
  lookup-insert i id (entry_of born a) (added born active es),
  lookup-added born active es i,
)

-- An entry that `added` has is an old one, or a new one of an account with its ID.
pub added-entry :
    (born : ℕ) (active : Map Account) (es : Map Entry) (id : Text) (e : Entry)
    → lookup id (added born active es) ≡ some e
    → (lookup id es ≡ some e) ⊎ ((a : Account) × (e ≡ entry_of born a))
unfolding lookup added
added-entry born [] es id e h = inl h
added-entry born ((i, a) ∷ active) es id e h = go (added-entry born active es id e) split
  where
    split : (lookup id (added born active es) ≡ some e) ⊎ (some (entry_of born a) ≡ some e)
    split = ground (arith, h, lookup-insert i id (entry_of born a) (added born active es))

    go :
        (lookup id (added born active es) ≡ some e
          → (lookup id es ≡ some e) ⊎ ((b : Account) × (e ≡ entry_of born b)))
        → (lookup id (added born active es) ≡ some e) ⊎ (some (entry_of born a) ≡ some e)
        → (lookup id es ≡ some e) ⊎ ((b : Account) × (e ≡ entry_of born b))
    go f (inl old) = f old
    go f (inr k) = inr (a, subst_some (λ b. b ≡ entry_of born a) k refl)
