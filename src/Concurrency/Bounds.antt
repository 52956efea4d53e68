-- ===== src/Concurrency/Bounds.antt =====
-- What limiter.go promises callers: the cap holds, an error changes nothing, a slot frees once.
use clan.Prelude.{
  ℕ, zero, suc, ◌+◌, ◌≤◌, ◌<◌, ◌≡◌, refl, ap, ◌∙◌, ◌≢◌, ◌↔◌, inl, inr, true, false, none, some,
  List, [], ◌∷◌, ◌++◌, arith, if◌then◌else◌, Bool-cases, Option-cases, length, All, get_elem?,
  get_elem?-set_self, Text, text_eq, text_eq_iff, text_eq_refl, is_blank, Map, lookup, ℤ, pos,
  negsuc,
}
use clan.Concurrency.{
  Limiter, Once, Slot, LimitError, Call, acquires, releases, try_acquire, release, step, run,
}
use clan.Concurrency.Invariant.{
  IsValid, stored, live, live-take, live-release, active_count-live, step-IsValid,
}

-- A cap of `n` slots, or none.
abbrev pub Permits : ℤ → ℕ → Type 0
Permits (pos n) m = m < n
Permits (negsuc zero) m = Unit {0}
Permits (negsuc (suc k)) m = ⊥

-- In a valid limiter an acquisition for a nonblank key succeeds exactly when the limit permits one
-- more live slot of that key.
pub try_acquire_succeeds :
    (l : Limiter) (k : Text) (limit : ℤ)
    → IsValid l
    → is_blank k ≡ false
    → ((try_acquire l k limit).2 ≡ none) ↔ Permits limit (live k l.onces)
unfolding try_acquire
try_acquire_succeeds l k (pos n) v b =
    (λ h. ground (arith, active_count-live l k v), λ h. ground (arith, active_count-live l k v))
try_acquire_succeeds l k (negsuc zero) v b = (λ h. tt, λ h. ground arith)
try_acquire_succeeds l k (negsuc (suc n)) v b = (λ h. ground arith, λ h. absurd h)

-- A refused acquisition leaves the limiter as it was and returns the zero slot.
pub try_acquire_refused :
    (l : Limiter) (k : Text) (limit : ℤ) (e : LimitError)
    → (try_acquire l k limit).2 ≡ some e
    → ((try_acquire l k limit).0 ≡ l) × ((try_acquire l k limit).1 ≡ none)
unfolding try_acquire
try_acquire_refused l k limit e h = ground arith

-- Acquisitions whose limit for the key is at most `n`.
abbrev pub Within : Text → ℕ → Call → Type 0
Within k n (acquires j (pos m)) = (j ≡ k) → m ≤ n
Within k n (acquires j (negsuc m)) = j ≢ k
Within k n (releases s) = Unit {0}

live-try_acquire :
    (l : Limiter) (j k : Text) (limit : ℤ) (n : ℕ)
    → IsValid l
    → Within k n (acquires j limit)
    → live k l.onces ≤ n
    → live k (try_acquire l j limit).0.onces ≤ n
unfolding try_acquire
live-try_acquire l j k (pos m) n v w h = ground (
  arith,
  text_eq_iff j k,
  live-take j k l.onces,
  active_count-live l j v,
  w,
  ap (λ t. live t l.onces) {x = j} {y = k},
)
live-try_acquire l j k (negsuc m) n v w h =
    ground (arith, text_eq_iff j k, live-take j k l.onces, w)

live-release_le : (l : Limiter) (s : Slot) (k : Text) → live k (release l s).onces ≤ live k l.onces
unfolding release
live-release_le l none k = omega arith
live-release_le l (some i) k = elim (Option-cases (get_elem? l.onces i)) [
  | inl e ↦ rw (e, release) (omega arith)
  | inr (o, e) ↦ elim (Bool-cases o.done) [
    | inl d ↦ rw (e, release) (rw d (omega arith))
    | inr d ↦ rw (e, release) (rw d (omega (arith, live-release k l.onces i o e d)))
  ]
]

live-step :
    (l : Limiter) (k : Text) (n : ℕ) (c : Call)
    → IsValid l
    → Within k n c
    → live k l.onces ≤ n
    → live k (step l c).onces ≤ n
unfolding step
live-step l k n (acquires j limit) v w h = live-try_acquire l j k limit n v w h
live-step l k n (releases s) v w h = omega (arith, live-release_le l s k)

-- While every acquisition for a key is made under a cap of at most `n`, the key never holds more
-- than `n` live slots, in any order of acquisitions and releases of all keys.
pub live-run :
    (k : Text) (n : ℕ) (l : Limiter) (cs : List Call)
    → IsValid l
    → All (Within k n) cs
    → live k l.onces ≤ n
    → live k (run l cs).onces ≤ n
unfolding run
live-run k n l [] v w h = h
live-run k n l (c ∷ cs) v w h =
    live-run k n (step l c) cs (step-IsValid l c v) w.1 (live-step l k n c v w.0 h)

-- Releasing through a second copy of a slot changes nothing, whatever the slot.
pub release_idem : (l : Limiter) (s : Slot) → release (release l s) s ≡ release l s
unfolding release
release_idem l none = refl
release_idem l (some i) = elim (Option-cases (get_elem? l.onces i)) [
  | inl e ↦ rw (e, release) (rw (e, release))
  | inr (o, e) ↦ elim (Bool-cases o.done) [
    | inl d ↦ rw (e, release) (rw d (rw (e, release) (rw d)))
    | inr d ↦
        rw (e, release)
          (rw d (rw (get_elem?-set_self l.onces i o (record o { done = true }) e, release)))
  ]
]

stored_zero : (n : ℕ) → n ≡ 0 → stored n ≡ none
stored_zero n e = ground arith

no_entries : (m : Map ℤ) → ((k : Text) → lookup k m ≡ none) → m ≡ []
unfolding lookup
no_entries [] e = refl
no_entries ((k, n) ∷ m) e = ground (arith, e k, text_eq_refl k)

-- Once no slot is live the map is empty: a limiter keeps nothing for the keys it has served.
pub active_empty : (l : Limiter) → IsValid l → ((k : Text) → live k l.onces ≡ 0) → l.active ≡ []
active_empty l v h = no_entries l.active λ k. v k ∙ stored_zero (live k l.onces) (h k)

get_elem?-push : (os : List Once) (o : Once) → get_elem? (os ++ o ∷ []) (length os) ≡ some o
get_elem?-push [] o = refl
get_elem?-push (x ∷ os) o = get_elem?-push os o

abbrev pub fresh : Text → Once
fresh k = record { key_id = k; done = false }

pub take_shape :
    (l : Limiter) (k : Text) (limit : ℤ)
    → (try_acquire l k limit).2 ≡ none
    → ((try_acquire l k limit).0.onces ≡ l.onces ++ fresh k ∷ [])
      × ((try_acquire l k limit).1 ≡ some (length l.onces))
unfolding try_acquire
take_shape l k limit h = ground arith

release-fresh :
    (m : Limiter) (k j : Text) (os : List Once)
    → m.onces ≡ os ++ fresh k ∷ []
    → live j (release m (some (length os))).onces + (if text_eq k j then 1 else 0) ≡ live j m.onces
unfolding release
release-fresh m k j os e =
    let at : get_elem? m.onces (length os) ≡ some (fresh k) =
      ap (λ xs. get_elem? xs (length os)) e ∙ get_elem?-push os (fresh k) in
    rw (at, release) (live-release j m.onces (length os) (fresh k) at refl)

-- A successful acquisition adds one live slot to its key and none to any other, and releasing the
-- slot that it returned gives every key the number of live slots it had before.
pub release-try_acquire :
    (l : Limiter) (k j : Text) (limit : ℤ)
    → (try_acquire l k limit).2 ≡ none
    → let (m, slot, e) = try_acquire l k limit in
      (live j m.onces ≡ live j l.onces + (if text_eq k j then 1 else 0))
      × (live j (release m slot).onces ≡ live j l.onces)
release-try_acquire l k j limit h =
    let (m, slot, e) = try_acquire l k limit in
    let shape = take_shape l k limit h in
    let grown : live j m.onces ≡ live j l.onces + (if text_eq k j then 1 else 0) =
      ap (live j) shape.0 ∙ live-take k j l.onces in
    (grown, rw shape.1 (omega (arith, grown, release-fresh m k j l.onces shape.0)))
