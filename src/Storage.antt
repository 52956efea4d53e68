-- ===== src/Storage.antt =====
-- internal/storage: the records that the store hands out.
use clan.Prelude.{
  ℕ, zero, suc, ◌+◌, ◌-◌, ◌*◌, ◌/◌, ◌%◌, ◌^◌, ◌≤◌, ◌<◌, max, min, String, ◌≡◌, refl, sym, ap, ◌∙◌,
  subst, ◌≢◌, ◌↔◌, ◌⊎◌, inl, inr, Bool, true, false, not, ◌&&◌, ◌||◌, Option, none, some, List, [],
  ◌∷◌, ◌++◌, map, arith, ltb, leb, ◌==◌, if◌then◌else◌, Bool-cases, Option-cases, is_some,
  subst_some, all_below, all_below_sound, length, length-append, replicate, count, filter,
  count-le-length, count-append, count-set, count-strict, count_mono, count-pos, In, All, All-In,
  get_elem?, set, get_elem?-set_self, Text, codes, text_eq, text_eq_iff, text_eq_refl, text_lt,
  text_lt_irrefl, text_lt_trans, text_lt_total, text_lt_of_ge, is_blank, Map, lookup, insert, erase,
  lookup-insert, lookup-erase, get_or, ℤ, pos, negsuc, incr, decr, int_lt, is_zero, ltb→lt, lt→ltb,
  leb→le, le→leb, ==_iff, tests,
}
use clan.Account.{Account}
use clan.AccessKey.{AccessKey}
pub mod Keys
pub mod Requests
pub mod Accounts

-- storage.AccountRecord; the revision is the ciphertext that the credentials were read from.
pub record AccountRecord : Type 0 where
  pub account : Account
  pub enabled : Bool
  pub revision : Text

-- storage.AccessKeyRecord
pub record AccessKeyRecord : Type 0 where
  pub key : AccessKey
  pub verification_hash : Text
  pub concurrency_limit : ℤ
