-- ===== src/Ingest/Access.antt =====
-- Which keys let a report in (`CreateKey` and `RevokeKey` of internal/service/ingest.go,
-- `authenticateKey` of internal/service/sdk_logs.go).
use touchgrass.Base.{
  ℕ, ◌+◌, ◌≡◌, refl, sym, ap, ◌∙◌, subst, inl, inr, Bool, true, false, ◌||◌, ltb, Text,
  text_eq_refl, has_prefix, List, [], ◌∷◌, ◌++◌, map, length, count, find, none, some, arith,
  Bool-cases,
}
use touchgrass.Base.Results.{Result, ok, Result-cases}
use touchgrass.Ingest.{take, key_prefix_len}
use touchgrass.Ingest.Keys.{
  key_tag, key_len, key_rand_bytes, Rates, ApiKey, KeyStore, hex, has_hash, create_row, by_hash,
  stamp_revoked, authenticate_key, create_key,
}

length-hex : (bs : List ℕ) → length (hex bs) ≡ length bs + length bs
unfolding hex
length-hex [] = refl
length-hex (b ∷ bs) = omega (arith, length-hex bs)

has_prefix-tag : (t : Text) → has_prefix (key_tag ++ t) key_tag ≡ true
unfolding has_prefix
has_prefix-tag t = refl

module _ {R : Type 0} where
  find-last :
      (p : ApiKey R → Bool) (rows : List (ApiKey R)) (row : ApiKey R)
      → count p rows ≡ 0
      → p row ≡ true
      → find p (rows ++ row ∷ []) ≡ some row
  unfolding find count
  find-last p [] row c h = ground (arith, h)
  find-last p (r ∷ rows) row c h = ground (arith, c, find-last p rows row (ground (arith, c)) h)

  pub find-append :
      (p : ApiKey R → Bool) (rows : List (ApiKey R)) (row : ApiKey R) {key : ApiKey R}
      → find p rows ≡ some key
      → find p (rows ++ row ∷ []) ≡ some key
  unfolding find
  find-append p [] row h = absurd cc
  find-append p (r ∷ rows) row {key} h = ground (arith, h, find-append p rows row {key = key})

  stamp_revoked-hash :
      (h : Text) (id now : ℕ) (key : ApiKey R)
      → has_hash h (stamp_revoked id now key) ≡ has_hash h key
  unfolding stamp_revoked
  stamp_revoked-hash h id now key = ground arith

  pub find-stamp_revoked :
      (h : Text) (id now : ℕ) (rows : List (ApiKey R)) {key : ApiKey R}
      → find (has_hash h) rows ≡ some key
      → find (has_hash h) (map (stamp_revoked id now) rows) ≡ some (stamp_revoked id now key)
  unfolding find
  find-stamp_revoked h id now [] e = absurd cc
  find-stamp_revoked h id now (r ∷ rows) {key} e = elim (Bool-cases (has_hash h r)) [
    | inl here ↦
        let same : r ≡ key = ground (arith, e, here) in
        ground (arith, stamp_revoked-hash h id now r, here, ap (stamp_revoked id now) same)
    | inr elsewhere ↦ ground (
      arith,
      stamp_revoked-hash h id now r,
      elsewhere,
      find-stamp_revoked h id now rows {key = key} (ground (arith, e, elsewhere)),
    )
  ]

  create_row-finds :
      (fails : Bool) (key : ApiKey R) (s : KeyStore R) {stored : ApiKey R}
      → (create_row fails key s).0 ≡ ok stored
      → (find (has_hash key.key_hash) (create_row fails key s).1.rows ≡ some stored)
        × (stored.revoked_at ≡ key.revoked_at)
  create_row-finds fails key s {stored} h =
      let row : ApiKey R = record key { id = s.next_id } in
      let fresh : (fails || ltb 0 (count (has_hash key.key_hash) s.rows)) ≡ false =
        unfold create_row in ground (arith, h) in
      let same : row ≡ stored = unfold create_row in ground (arith, h, fresh) in
      let rows : s.rows ++ row ∷ [] ≡ (create_row fails key s).1.rows =
        unfold create_row in ground (arith, fresh) in
      (
        subst (λ rs. find (has_hash key.key_hash) rs ≡ some stored) rows
            (find-last (has_hash key.key_hash) s.rows row (ground (arith, fresh))
                (text_eq_refl key.key_hash)
              ∙ ap some same),
        ap (λ (k : ApiKey R). k.revoked_at) (sym same),
      )

  -- A live key that is found under the hash of a well formed text lets the text in.
  admits :
      (hash : Text → Text) (presented : Text) (s : KeyStore R) {key : ApiKey R}
      → length presented ≡ key_len
      → has_prefix presented key_tag ≡ true
      → find (has_hash (hash presented)) s.rows ≡ some key
      → key.revoked_at ≡ none
      → authenticate_key hash false presented s ≡ ok key
  unfolding authenticate_key by_hash
  admits hash presented s {key} l p f live = ground (arith, l, p, f, live)

  unfoldable requested :
      (hash : Text → Text) (raw : List ℕ) (now : ℕ) (service : Text) (rate : R) → ApiKey R
  requested hash raw now service rate = record {
    id = 0;
    service_id = service;
    key_hash = hash (key_tag ++ hex raw);
    key_prefix = take key_prefix_len (key_tag ++ hex raw);
    sample_rate = rate;
    revoked_at = none;
    created_at = now;
  }

  created :
      (rates : Rates R) (hash : Text → Text) (get : Text → Result (Unit {0})) (raw : List ℕ)
      (fails : Bool) (now : ℕ) (service : Text) (rate : R) (s : KeyStore R) {key : ApiKey R}
      {plaintext : Text}
      → (create_key rates hash get (some raw) fails now service rate s).0 ≡ ok (key, plaintext)
      → ((create_row fails (requested hash raw now service rate) s).0 ≡ ok key)
        × (key_tag ++ hex raw ≡ plaintext)
        × ((create_row fails (requested hash raw now service rate) s).1
            ≡ (create_key rates hash get (some raw) fails now service rate s).1)
  unfolding create_key requested
  created rates hash get raw fails now service rate s {key} {plaintext} h =
      elim (Result-cases (get service)) [
        | inr (e, missing) ↦ absurd (ground (arith, h, missing))
        | inl (u, found) ↦ elim (Bool-cases (rates.in_unit rate)) [
          | inr outside ↦ absurd (ground (arith, h, found, outside))
          | inl inside ↦
              elim (Result-cases (create_row fails (requested hash raw now service rate) s).0) [
                | inr (e, failed) ↦ absurd (ground (arith, h, found, inside, failed))
                | inl (stored, made) ↦ (
                  ground (arith, h, found, inside, made),
                  ground (arith, h, found, inside, made),
                  ground (arith, found, inside, made),
                )
              ]
        ]
      ]

  -- A key that was made of sixteen random bytes lets its plaintext in, as the stored key, where the
  -- table can be read.
  pub authenticate-create_key :
      (rates : Rates R) (hash : Text → Text) (get : Text → Result (Unit {0})) (raw : List ℕ)
      (fails : Bool) (now : ℕ) (service : Text) (rate : R) (s : KeyStore R) {key : ApiKey R}
      {plaintext : Text}
      → length raw ≡ key_rand_bytes
      → (create_key rates hash get (some raw) fails now service rate s).0 ≡ ok (key, plaintext)
      → authenticate_key hash false plaintext
          (create_key rates hash get (some raw) fails now service rate s).1
        ≡ ok key
  unfolding requested
  authenticate-create_key rates hash get raw fails now service rate s {key} {plaintext} l h =
      let facts =
        created rates hash get raw fails now service rate s {key = key} {plaintext = plaintext} h in
      let ask = requested hash raw now service rate in
      let row = create_row-finds fails ask s {stored = key} facts.0 in
      let after = (create_row fails ask s).1 in
      let live : key.revoked_at ≡ none = row.1 in
      let sized : length (key_tag ++ hex raw) ≡ key_len = omega (arith, l, length-hex raw) in
      let admitted : authenticate_key hash false (key_tag ++ hex raw) after ≡ ok key =
        admits hash (key_tag ++ hex raw) after {key = key} sized (has_prefix-tag (hex raw)) row.0
          live in
      subst
        (λ t.
          authenticate_key hash false t
            (create_key rates hash get (some raw) fails now service rate s).1
          ≡ ok key)
        facts.1
        (subst (λ st. authenticate_key hash false (key_tag ++ hex raw) st ≡ ok key) facts.2
          admitted)
