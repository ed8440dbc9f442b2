-- ===== src/Ingest/Keys.antt =====
-- The keys of reporting services (`CreateKey`, `RevokeKey` and `HashKey` of
-- internal/service/ingest.go, `authenticateKey` of internal/service/sdk_logs.go,
-- internal/store/keys.go). SHA-256 and the random source are arguments; `R` stands for the float64
-- of a sample rate. `Keys` is a read and is left out.
use touchgrass.Base.{
  ℕ, suc, ◌+◌, ◌/◌, ◌%◌, Bool, true, false, not, ◌||◌, ◌==◌, ltb, if◌then◌else◌, Text, bytes,
  text_eq, has_prefix, List, [], ◌∷◌, ◌++◌, map, length, count, find, Option, none, some,
}
use touchgrass.Base.Results.{invalid_input, unauthorized, not_found, database, io, Result, ok, err}
use touchgrass.Ingest.{take, key_prefix_len}

abbrev pub key_tag : Text
key_tag = bytes "tg_"

abbrev pub key_len : ℕ
key_len = 35

abbrev pub key_rand_bytes : ℕ
key_rand_bytes = 16

-- What the code uses of the float64 of a sample rate.
pub record Rates (R : Type 0) : Type 0 where
  -- `!(rate < 0 || rate > 1)`
  pub in_unit : R → Bool
  -- `draw < rate`, for a draw of 64 random bits
  pub below : ℕ → R → Bool

pub record ApiKey (R : Type 0) : Type 0 where
  pub id : ℕ
  pub service_id : Text
  pub key_hash : Text
  pub key_prefix : Text
  pub sample_rate : R
  pub revoked_at : Option ℕ
  pub created_at : ℕ

-- The table api_keys.
pub record KeyStore (R : Type 0) : Type 0 where
  pub rows : List (ApiKey R)
  pub next_id : ℕ

abbrev nibble : ℕ → ℕ
nibble n = if ltb n 10 then 48 + n else 87 + n

-- `hex.EncodeToString`
unfoldable pub hex : List ℕ → Text
hex [] = []
hex (b ∷ bs) = nibble (b / 16) ∷ nibble (b % 16) ∷ hex bs

abbrev pub is_revoked : Option ℕ → Bool
is_revoked none = false
is_revoked (some t) = true

-- A later call on the keys of any service.
pub data KeyCall (R : Type 0) : Type 0 where
  creating :
      (drawn : Option (List ℕ))
      → (fails : Bool) → (now : ℕ) → (service : Text) → (rate : R) → KeyCall R
  revoking : (fails : Bool) → (now id : ℕ) → KeyCall R

module _ {R : Type 0} where
  abbrev pub has_hash : Text → ApiKey R → Bool
  has_hash hash key = text_eq key.key_hash hash

  -- `Create` of the key store; `key_hash` is unique.
  unfoldable pub create_row : Bool → ApiKey R → KeyStore R → Result (ApiKey R) × KeyStore R
  unfolding count text_eq
  create_row fails key s =
      let stored = record key { id = s.next_id } in
      if fails || ltb 0 (count (has_hash key.key_hash) s.rows)
      then (err database, s)
      else (ok stored, record { rows = s.rows ++ stored ∷ []; next_id = suc s.next_id })

  -- `ByHash`
  unfoldable pub by_hash : Bool → Text → KeyStore R → Result (ApiKey R)
  unfolding find text_eq
  by_hash fails hash s = if fails then err database else elim (find (has_hash hash) s.rows) [
    | none ↦ err not_found
    | some key ↦ if is_revoked key.revoked_at then err not_found else ok key
  ]

  unfoldable pub stamp_revoked : ℕ → ℕ → ApiKey R → ApiKey R
  stamp_revoked id now key = if key.id == id then record key { revoked_at = some now } else key

  -- `Revoke`, which the service's `RevokeKey` only calls.
  unfoldable pub revoke_key : Bool → ℕ → ℕ → KeyStore R → Result (Unit {0}) × KeyStore R
  unfolding stamp_revoked count
  revoke_key fails now id s =
      if fails
      then (err database, s)
      else if count (λ (key : ApiKey R). key.id == id) s.rows == 0
      then (err not_found, s)
      else (ok tt, record s { rows = map (stamp_revoked id now) s.rows })

  -- `authenticateKey`
  unfoldable pub authenticate_key : (Text → Text) → Bool → Text → KeyStore R → Result (ApiKey R)
  unfolding has_prefix by_hash
  authenticate_key hash fails presented s =
      if not (length presented == key_len) || not (has_prefix presented key_tag)
      then err unauthorized
      else elim (by_hash fails (hash presented) s) [ ok key ↦ ok key | err e ↦ err unauthorized ]

  -- `CreateKey` at the moment `now`: `get` looks the service up, `drawn` are the random bytes, and
  -- the result is the stored key and its plaintext.
  unfoldable pub create_key :
      Rates R
      → (Text → Text)
      → (Text → Result (Unit {0}))
      → (drawn : Option (List ℕ)) → (fails : Bool) → (now : ℕ) → Text
      → R
      → KeyStore R
      → Result (ApiKey R × Text) × KeyStore R
  unfolding hex take create_row
  create_key rates hash get drawn fails now service rate s = elim (get service) [
    | err e ↦ (err e, s)
    | ok u ↦ if not (rates.in_unit rate) then (err invalid_input, s) else elim drawn [
      | none ↦ (err io, s)
      | some raw ↦
          let plaintext = key_tag ++ hex raw in
          let (r, after) =
            create_row fails
              (record {
                id = 0;
                service_id = service;
                key_hash = hash plaintext;
                key_prefix = take key_prefix_len plaintext;
                sample_rate = rate;
                revoked_at = none;
                created_at = now;
              })
              s in
          elim r [ ok key ↦ (ok (key, plaintext), after) | err e ↦ (err e, after) ]
    ]
  ]

  unfoldable pub call_key :
      Rates R → (Text → Text) → (Text → Result (Unit {0})) → KeyCall R → KeyStore R → KeyStore R
  unfolding create_key revoke_key
  call_key rates hash get (creating drawn fails now service rate) s =
      (create_key rates hash get drawn fails now service rate s).1
  call_key rates hash get (revoking fails now id) s = (revoke_key fails now id s).1

  unfoldable pub call_keys :
      Rates R
      → (Text → Text)
      → (Text → Result (Unit {0}))
      → List (KeyCall R)
      → KeyStore R
      → KeyStore R
  unfolding call_key
  call_keys rates hash get [] s = s
  call_keys rates hash get (c ∷ cs) s = call_keys rates hash get cs (call_key rates hash get c s)
