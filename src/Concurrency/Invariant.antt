-- ===== src/Concurrency/Invariant.antt =====
-- What the counts of limiter.go mean: the slots taken and not yet released.
use clan.Prelude.{
  ℕ, zero, suc, ◌+◌, ◌≡◌, refl, Bool, List, Option, none, some, ◌∷◌, ◌++◌, [], Text, text_eq,
  text_eq_iff, Map, lookup, insert, lookup-insert, lookup-erase, ℤ, pos, if◌then◌else◌, ◌==◌, count,
  set, get_elem?, count-append, count-set, Option-cases, inl, inr, Bool-cases, arith, true, false,
  not, ◌&&◌,
}
use clan.Concurrency.{
  Limiter, Once, Slot, Call, acquires, releases, new, try_acquire, release, release_key,
  active_count, step, run,
}

abbrev pub holds : Text → Once → Bool
holds k o = not o.done && text_eq o.key_id k

-- The slots of key `k` that have not been released.
abbrev pub live : Text → List Once → ℕ
live k os = count (holds k) os

abbrev pub stored : ℕ → Option ℤ
stored n = if n == 0 then none else some (pos n)

-- The map holds each key's number of live slots, and no entry for a key without any.
abbrev pub IsValid : Limiter → Type 0
IsValid l = (k : Text) → lookup k l.active ≡ stored (live k l.onces)

pub new-IsValid : IsValid new
unfolding new lookup
new-IsValid k = refl

pub active_count-live :
    (l : Limiter) (k : Text) → IsValid l → active_count l k ≡ pos (live k l.onces)
active_count-live l k v = ground (arith, v k)

pub live-take :
    (k j : Text) (os : List Once)
    → live j (os ++ record { key_id = k; done = false } ∷ [])
      ≡ live j os + (if text_eq k j then 1 else 0)
live-take k j os =
    ground (arith, count-append (holds j) os (record { key_id = k; done = false } ∷ []))

pub try_acquire-IsValid :
    (l : Limiter) (k : Text) (limit : ℤ) → IsValid l → IsValid (try_acquire l k limit).0
unfolding try_acquire
try_acquire-IsValid l k limit v j = ground (
  arith,
  v j,
  v k,
  live-take k j l.onces,
  text_eq_iff k j,
  lookup-insert k j (pos (suc (live k l.onces))) l.active,
  active_count-live l k v,
)

-- One slot of key `k` fewer.
release_key-stored :
    (m : Map ℤ) (k j : Text) (n : ℕ)
    → lookup k m ≡ stored (suc n)
    → lookup j (release_key m k) ≡ (if text_eq k j then stored n else lookup j m)
unfolding release_key
release_key-stored m k j zero h =
    ground (
      arith,
      h,
      text_eq_iff k j,
      lookup-insert k j (pos 0) m,
      lookup-erase k j (insert k (pos 0) m),
    )
release_key-stored m k j (suc n) h =
    ground (arith, h, text_eq_iff k j, lookup-insert k j (pos (suc n)) m)

pub live-release :
    (j : Text) (os : List Once) (i : ℕ) (o : Once)
    → get_elem? os i ≡ some o
    → o.done ≡ false
    → live j (set os i (record o { done = true })) + (if text_eq o.key_id j then 1 else 0)
      ≡ live j os
live-release j os i o h d = ground (arith, count-set (holds j) os i o (record o { done = true }) h)

released-IsValid :
    (l : Limiter) (i : ℕ) (o : Once)
    → IsValid l
    → get_elem? l.onces i ≡ some o
    → o.done ≡ false
    → IsValid (record {
      active = release_key l.active o.key_id;
      onces = set l.onces i (record o { done = true });
    })
released-IsValid l i o v h d j =
    let n = live o.key_id (set l.onces i (record o { done = true })) in
    ground (
      arith,
      v j,
      v o.key_id,
      live-release j l.onces i o h d,
      live-release o.key_id l.onces i o h d,
      text_eq_iff o.key_id j,
      text_eq_iff o.key_id o.key_id,
      release_key-stored l.active o.key_id j n,
    )

pub release-IsValid : (l : Limiter) (s : Slot) → IsValid l → IsValid (release l s)
unfolding release
release-IsValid l none v = v
release-IsValid l (some i) v = elim (Option-cases (get_elem? l.onces i)) [
  | inl e ↦ rw (e, release) v
  | inr (o, e) ↦ elim (Bool-cases o.done) [
    | inl d ↦ rw (e, release) (rw d v)
    | inr d ↦ rw (e, release) (rw d (released-IsValid l i o v e d))
  ]
]

pub step-IsValid : (l : Limiter) (c : Call) → IsValid l → IsValid (step l c)
unfolding step
step-IsValid l (acquires k limit) v = try_acquire-IsValid l k limit v
step-IsValid l (releases s) v = release-IsValid l s v

pub run-IsValid : (l : Limiter) (cs : List Call) → IsValid l → IsValid (run l cs)
unfolding run
run-IsValid l [] v = v
run-IsValid l (c ∷ cs) v = run-IsValid (step l c) cs (step-IsValid l c v)

-- After any sequence of acquisitions and releases from a new limiter, whatever copies of a slot
-- are released and however often, each key's count is its number of unreleased slots, and a key
-- without any has no entry.
pub run-new-IsValid : (cs : List Call) → IsValid (run new cs)
run-new-IsValid cs = run-IsValid new cs new-IsValid
