-- ===== src/Concurrency.antt =====
-- internal/concurrency/limiter.go: active slots per access key, and slots that release once.
--
-- `Limiter.active` is the map of the Go struct. A slot's `release` closure is `sync.OnceFunc`: its
-- state (which key, and whether it has run) is an entry of `onces`, which all copies of the slot
-- share, so a slot is an index into it and `none` is the zero slot. The mutex makes each call one
-- step. Counts are unbounded integers: a slot is a heap object, so fewer than 2^63 exist.
use clan.Prelude.{
  ℕ, Bool, List, Option, none, some, ◌∷◌, ◌++◌, [], Text, is_blank, Map, lookup, insert, erase,
  get_or, ℤ, pos, negsuc, incr, decr, int_lt, is_zero, if◌then◌else◌, length, get_elem?, set, true,
  false,
}
pub mod Invariant
pub mod Bounds

pub data LimitError : Type 0 where
  key_id_required invalid_limit limit_reached : LimitError

pub record Once : Type 0 where
  pub key_id : Text
  pub done : Bool

pub record Limiter : Type 0 where
  pub active : Map ℤ
  pub onces : List Once

abbrev pub Slot : Type 0
Slot = Option ℕ

abbrev pub unlimited : ℤ
unlimited = negsuc 0

unfoldable pub new : Limiter
new = record { active = []; onces = [] }

-- `l.active[keyID]`, zero when missing.
abbrev pub active_count : Limiter → Text → ℤ
active_count l k = get_or (pos 0) (lookup k l.active)

abbrev pub is_unlimited : ℤ → Bool
is_unlimited (pos n) = false
is_unlimited (negsuc ℕ.zero) = true
is_unlimited (negsuc (ℕ.suc n)) = false

take_slot : Limiter → Text → Limiter × Slot × Option LimitError
take_slot l k = (
  record l {
    active = insert k (incr (active_count l k)) l.active;
    onces = l.onces ++ record { key_id = k; done = false } ∷ [];
  },
  some (length l.onces),
  none,
)

admit : Limiter → Text → ℤ → Limiter × Slot × Option LimitError
unfolding take_slot
admit l k limit =
    if is_unlimited limit
    then take_slot l k
    else if int_lt (active_count l k) limit
    then take_slot l k
    else (l, none, some limit_reached)

unfoldable pub try_acquire : Limiter → Text → ℤ → Limiter × Slot × Option LimitError
unfolding admit
try_acquire l k limit =
    if is_blank k
    then (l, none, some key_id_required)
    else if int_lt limit unlimited
    then (l, none, some invalid_limit)
    else admit l k limit

-- `Limiter.release`
unfoldable pub release_key : Map ℤ → Text → Map ℤ
release_key m k =
    let n = decr (get_or (pos 0) (lookup k m)) in
    let m' = insert k n m in if is_zero n then erase k m' else m'

run_once : Limiter → ℕ → Option Once → Limiter
run_once l i none = l
run_once l i (some o) = if o.done then l else record {
  active = release_key l.active o.key_id;
  onces = set l.onces i (record o { done = true });
}

-- `Slot.Release`
unfoldable pub release : Limiter → Slot → Limiter
unfolding run_once
release l none = l
release l (some i) = run_once l i (get_elem? l.onces i)

pub data Call : Type 0 where
  acquires : Text → ℤ → Call
  releases : Slot → Call

unfoldable pub step : Limiter → Call → Limiter
step l (acquires k limit) = (try_acquire l k limit).0
step l (releases s) = release l s

unfoldable pub run : Limiter → List Call → Limiter
run l [] = l
run l (c ∷ cs) = run (step l c) cs
