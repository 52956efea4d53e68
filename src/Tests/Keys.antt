-- ===== src/Tests/Keys.antt =====
-- Concrete access keys, models and requests.
use clan.Prelude.{
  ℕ, ◌≡◌, refl, ◌↔◌, true, false, none, some, List, [], ◌∷◌, arith, length, replicate, In, Text,
  codes, text_eq, pos,
}
use clan.AccessKey.{
  encode, sextets, encode_chars, decode, decode_chars, skip_newlines, unsextets, generate, hash,
}
use mathlib.Core.Option.{bind}
use clan.AccessKey.Base64.{AreBytes}
use clan.AccessKey.Keys.{hash-generate, generate-hash}
use clan.Codex.Request.{Model, Request, validate_model, contains}
use clan.Codex.Catalog.{AccountCatalog}
use clan.Execution.Attempt.{request_candidates, scan_accounts, scan_models}
use clan.Execution.Candidates.{offered, Serves, request_candidates_iff}
use clan.Storage.Keys.{KeyRow}

abbrev pub toy_sha : Text → Text
toy_sha s = replicate 32 7

abbrev pub secret : List ℕ
secret = replicate 32 1

abbrev pub raw : Text
raw = codes "clan_AQEBAQEBAQEBAQEBAQEBAQEBAQEBAQEBAQEBAQEBAQE"

raw_lem : (generate toy_sha secret).0 ≡ raw
unfolding generate encode sextets encode_chars
raw_lem = refl

hash-generate_example :
    (length (generate toy_sha secret).0 ≡ 48)
    × (hash toy_sha (generate toy_sha secret).0 ≡ some (generate toy_sha secret).1)
hash-generate_example = hash-generate toy_sha secret (omega arith) refl

generate-hash_example :
    (s : List ℕ) × AreBytes s × (length s ≡ 32) × (generate toy_sha s ≡ (raw, replicate 32 7))
unfolding hash decode decode_chars skip_newlines unsextets bind
generate-hash_example = generate-hash toy_sha raw (replicate 32 7) refl

abbrev request : Request
request = record {
  body = codes "{}";
  model = codes "m";
  stream = true;
  omitted_cap = false;
  effort = codes "low";
  summary = false;
  verbosity = false;
  original_image = false;
  image = false;
}

abbrev model : Model
model = record {
  id = codes "m";
  name = codes "M";
  listed = true;
  reasoning_efforts = codes "low" ∷ [];
  input_modalities = [];
  supports_reasoning_summary = false;
  supports_verbosity = false;
  supports_image_detail_original = false;
}

abbrev catalogs : List AccountCatalog
catalogs =
    record {
      account_id = codes "a1";
      chatgpt_account_id = codes "org";
      models = model ∷ [];
      loaded = true;
      failure = none;
    }
    ∷ []

first_candidate :
    offered (request_candidates catalogs request)
    ≡ record { id = codes "a1"; identity = codes "org" } ∷ []
unfolding request_candidates scan_accounts scan_models validate_model contains text_eq
first_candidate = refl

request_candidates_iff_example :
    In
      (record { id = codes "a1"; identity = codes "org" })
      (offered (request_candidates catalogs request))
    ↔ Serves catalogs request (record { id = codes "a1"; identity = codes "org" })
request_candidates_iff_example =
    request_candidates_iff catalogs request (record { id = codes "a1"; identity = codes "org" })

abbrev row : KeyRow
row = record {
  id = codes "k";
  name = codes "K";
  verification_hash = replicate 32 7;
  enabled = true;
  concurrency_limit = pos 2;
}
