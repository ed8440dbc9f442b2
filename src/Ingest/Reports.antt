-- ===== src/Ingest/Reports.antt =====
-- Two reports under one key that is made, used and revoked.
use touchgrass.Base.{
  ℕ, ◌≤◌, ◌≡◌, refl, true, false, ltb, leb, Text, bytes, text_eq, List, [], ◌∷◌, count, find, none,
  some, All, arith,
}
use touchgrass.Base.Results.{Result, ok, err, unauthorized}
use touchgrass.Ingest.{exception, IngestReport}
use touchgrass.Ingest.Keys.{
  Rates, ApiKey, KeyStore, has_hash, create_key, revoke_key, authenticate_key, creating, revoking,
  call_keys,
}
use touchgrass.Ingest.Access.{authenticate-create_key}
use touchgrass.Ingest.Revocation.{authenticate-revoke_key}
use touchgrass.Ingest.Issues.{is_issue, is_of}
use touchgrass.Ingest.Requests.{
  Ingestor, Circumstances, Ingested, ingest, Happening, reported, quiet_issues_trimmed, notified,
  happen_all,
}
use touchgrass.Ingest.Grouping.{is_linked, IsSound}
use touchgrass.Ingest.Histories.{happen_all-single}
use touchgrass.Ingest.Retention.{ingest-capped}

-- Rates in percent, and texts as their own hashes.
abbrev percents : Rates ℕ
percents = record { in_unit = λ r. leb r 100; below = λ draw r. ltb draw r }

abbrev own : Text → Text
own t = t

abbrev any_service : Text → Result (Unit {0})
any_service t = ok tt

abbrev zeros : List ℕ
zeros = 0 ∷ 0 ∷ 0 ∷ 0 ∷ 0 ∷ 0 ∷ 0 ∷ 0 ∷ 0 ∷ 0 ∷ 0 ∷ 0 ∷ 0 ∷ 0 ∷ 0 ∷ 0x2a ∷ []

abbrev plain_key : Text
plain_key = bytes "tg_0000000000000000000000000000002a"

abbrev no_keys : KeyStore ℕ
no_keys = record { rows = []; next_id = 1 }

abbrev key : ApiKey ℕ
key = record {
  id = 1;
  service_id = bytes "web";
  key_hash = plain_key;
  key_prefix = bytes "tg_00000000";
  sample_rate = 100;
  revoked_at = none;
  created_at = 5;
}

made :
    (create_key percents own any_service (some zeros) false 5 (bytes "web") 100 no_keys).0
    ≡ ok (key, plain_key)
unfolding create_key
made = refl

authenticate-create_key_example :
    authenticate_key own false plain_key
      (create_key percents own any_service (some zeros) false 5 (bytes "web") 100 no_keys).1
    ≡ ok key
authenticate-create_key_example =
    authenticate-create_key percents own any_service zeros false 5 (bytes "web") 100 no_keys
      {key = key} {plaintext = plain_key} refl made

abbrev one_key : KeyStore ℕ
one_key = record { rows = key ∷ []; next_id = 2 }

found : find (has_hash plain_key) one_key.rows ≡ some key
unfolding find text_eq
found = refl

revoked : (revoke_key false 8 1 one_key).0 ≡ ok tt
unfolding revoke_key
revoked = refl

authenticate-revoke_key_example :
    authenticate_key own false plain_key (
      call_keys percents own any_service
        (creating (some zeros) false 9 (bytes "web") 100 ∷ revoking false 10 1 ∷ [])
        (revoke_key false 8 1 one_key).1)
    ≡ err unauthorized
authenticate-revoke_key_example =
    authenticate-revoke_key percents own any_service
      (creating (some zeros) false 9 (bytes "web") 100 ∷ revoking false 10 1 ∷ []) false false 8
      plain_key one_key {key = key} found revoked

abbrev keeps_one : Ingestor ℕ
keeps_one = record { rates = percents; hash = own; template = own; max_occurrences = 1 }

abbrev calm : Circumstances
calm = record { now = 20; key_fails = false; draw = none; group_fails = false; trim_fails = false }

abbrev crash : IngestReport
crash = record {
  type = exception;
  message = bytes "boom";
  stack = [];
  breadcrumbs = [];
  release = bytes "v1";
}

abbrev before : Ingested ℕ
before = record {
  keys = one_key;
  grouped = record {
    issues = [];
    releases = [];
    occurrences = [];
    next_issue = 1;
    next_occurrence = 1;
  };
}

before-IsSound : IsSound before.grouped
before-IsSound = record {
  single = λ s f. unfold count in omega arith;
  linked = tt;
  ascending = tt;
  given = tt;
}

abbrev events : List Happening
events =
    reported calm plain_key crash
    ∷ reported (record calm { now = 30 }) plain_key crash
    ∷ notified 31 1
    ∷ quiet_issues_trimmed 40
    ∷ reported (record calm { now = 50 }) plain_key crash
    ∷ []

happen_all-single_example :
    ((service fp : Text)
      → count (is_issue service fp) (happen_all keeps_one events before).grouped.issues ≤ 1)
    × All
        (λ row. is_linked (happen_all keeps_one events before).grouped.issues row ≡ true)
        (happen_all keeps_one events before).grouped.occurrences
happen_all-single_example = happen_all-single keeps_one events before before-IsSound

known : authenticate_key own false plain_key one_key ≡ ok key
unfolding authenticate_key
known = refl

stored : (ingest keeps_one calm plain_key crash before).0 ≡ ok true
unfolding ingest
stored = refl

ingest-capped_example :
    (count
        (is_of (bytes "web"))
        (ingest keeps_one calm plain_key crash before).1.grouped.occurrences
      ≤ 1)
    × ((other : Text)
        → text_eq other (bytes "web") ≡ false
        → count (is_of other) (ingest keeps_one calm plain_key crash before).1.grouped.occurrences
          ≡ count (is_of other) before.grouped.occurrences)
ingest-capped_example =
    ingest-capped keeps_one calm refl plain_key crash before key before-IsSound known stored
