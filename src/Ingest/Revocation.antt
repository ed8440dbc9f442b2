-- ===== src/Ingest/Revocation.antt =====
-- A revoked key stays revoked (`RevokeKey` of internal/service/ingest.go, internal/store/keys.go).
use touchgrass.Base.{
  ℕ, ◌≡◌, subst, inl, inr, Bool, true, false, ◌||◌, ◌==◌, ltb, Text, List, [], ◌∷◌, ◌++◌, map,
  count, find, Option, none, some, arith, Bool-cases, Option-cases,
}
use touchgrass.Base.Results.{unauthorized, Result, ok, err, Result-cases}
use touchgrass.Ingest.{take, key_prefix_len}
use touchgrass.Ingest.Keys.{
  key_tag, Rates, ApiKey, KeyStore, hex, is_revoked, has_hash, create_row, by_hash, stamp_revoked,
  revoke_key, authenticate_key, create_key, KeyCall, creating, revoking, call_key, call_keys,
}
use touchgrass.Ingest.Access.{find-append, find-stamp_revoked}

module _ {R : Type 0} (h : Text) where
  -- The key of a hash is there, and revoked.
  abbrev IsDead : KeyStore R → Type 0
  IsDead s =
      (key : ApiKey R) × (find (has_hash h) s.rows ≡ some key) × (is_revoked key.revoked_at ≡ true)

  create_row-IsDead :
      (fails : Bool) (key : ApiKey R) (s : KeyStore R)
      → IsDead s
      → IsDead (create_row fails key s).1
  create_row-IsDead fails key s (dead, found, revoked) =
      let row : ApiKey R = record key { id = s.next_id } in
      elim (Bool-cases (fails || ltb 0 (count (has_hash key.key_hash) s.rows))) [
        | inl refused ↦
            let same : s ≡ (create_row fails key s).1 =
              unfold create_row in ground (arith, refused) in
            subst IsDead same (dead, found, revoked)
        | inr made ↦
            let same : s.rows ++ row ∷ [] ≡ (create_row fails key s).1.rows =
              unfold create_row in ground (arith, made) in
            (
              dead,
              subst (λ rs. find (has_hash h) rs ≡ some dead) same
                  (find-append (has_hash h) s.rows row {key = dead} found),
              revoked,
            )
      ]

  create_key-IsDead :
      (rates : Rates R) (hash : Text → Text) (get : Text → Result (Unit {0}))
      (drawn : Option (List ℕ)) (fails : Bool) (now : ℕ) (service : Text) (rate : R)
      (s : KeyStore R)
      → IsDead s
      → IsDead (create_key rates hash get drawn fails now service rate s).1
  create_key-IsDead rates hash get drawn fails now service rate s d =
      let after = (create_key rates hash get drawn fails now service rate s).1 in
      elim (Result-cases (get service)) [
        | inr (e, missing) ↦
            let same : s ≡ after = unfold create_key in ground (arith, missing) in
            subst IsDead same d
        | inl (u, found) ↦ elim (Bool-cases (rates.in_unit rate)) [
          | inr outside ↦
              let same : s ≡ after = unfold create_key in ground (arith, found, outside) in
              subst IsDead same d
          | inl inside ↦ elim (Option-cases drawn) [
            | inl dry ↦
                let same : s ≡ after = unfold create_key in ground (arith, found, inside, dry) in
                subst IsDead same d
            | inr (raw, drew) ↦
                let plaintext = key_tag ++ hex raw in
                let key : ApiKey R = record {
                  id = 0;
                  service_id = service;
                  key_hash = hash plaintext;
                  key_prefix = take key_prefix_len plaintext;
                  sample_rate = rate;
                  revoked_at = none;
                  created_at = now;
                } in
                let made = create_row fails key s in
                let same : made.1 ≡ after = elim (Result-cases made.0) as (λ r. made.1 ≡ after) [
                  | inl (k, fine) ↦ unfold create_key in ground (arith, found, inside, drew, fine)
                  | inr (e, failed) ↦
                      unfold create_key in ground (arith, found, inside, drew, failed)
                ] in
                subst IsDead same (create_row-IsDead fails key s d)
          ]
        ]
      ]

  stamped :
      (id now : ℕ) (key : ApiKey R)
      → is_revoked key.revoked_at ≡ true
      → is_revoked (stamp_revoked id now key).revoked_at ≡ true
  unfolding stamp_revoked
  stamped id now key r = ground (arith, r)

  revoke_key-IsDead :
      (fails : Bool) (now id : ℕ) (s : KeyStore R) → IsDead s → IsDead (revoke_key fails now id s).1
  revoke_key-IsDead fails now id s (dead, found, revoked) =
      let after = (revoke_key fails now id s).1 in
      let there = count (λ (key : ApiKey R). key.id == id) s.rows == 0 in
      elim (Bool-cases (fails || there)) [
        | inl refused ↦
            let same : s ≡ after = unfold revoke_key in ground (arith, refused) in
            subst IsDead same (dead, found, revoked)
        | inr done ↦
            let same : map (stamp_revoked id now) s.rows ≡ after.rows =
              unfold revoke_key in ground (arith, done) in
            (
              stamp_revoked id now dead,
              subst (λ rs. find (has_hash h) rs ≡ some (stamp_revoked id now dead)) same
                  (find-stamp_revoked h id now s.rows {key = dead} found),
              stamped id now dead revoked,
            )
      ]

  call_keys-IsDead :
      (rates : Rates R) (hash : Text → Text) (get : Text → Result (Unit {0}))
      (calls : List (KeyCall R)) (s : KeyStore R)
      → IsDead s
      → IsDead (call_keys rates hash get calls s)
  unfolding call_keys call_key
  call_keys-IsDead rates hash get [] s d = d
  call_keys-IsDead rates hash get (creating drawn fails now service rate ∷ cs) s d =
      call_keys-IsDead rates hash get cs
        (create_key rates hash get drawn fails now service rate s).1
        (create_key-IsDead rates hash get drawn fails now service rate s d)
  call_keys-IsDead rates hash get (revoking fails now id ∷ cs) s d =
      call_keys-IsDead rates hash get cs (revoke_key fails now id s).1
        (revoke_key-IsDead fails now id s d)

module _ {R : Type 0} where
  revoke_key-stamps :
      (h : Text) (fails : Bool) (now : ℕ) (s : KeyStore R) {key : ApiKey R}
      → find (has_hash h) s.rows ≡ some key
      → (revoke_key fails now key.id s).0 ≡ ok tt
      → IsDead h (revoke_key fails now key.id s).1
  revoke_key-stamps h fails now s {key} found done =
      let after = (revoke_key fails now key.id s).1 in
      let there = count (λ (k : ApiKey R). k.id == key.id) s.rows == 0 in
      let went : (fails || there) ≡ false = unfold revoke_key in ground (arith, done) in
      let same : map (stamp_revoked key.id now) s.rows ≡ after.rows =
        unfold revoke_key in ground (arith, went) in
      (
        stamp_revoked key.id now key,
        subst (λ rs. find (has_hash h) rs ≡ some (stamp_revoked key.id now key)) same
            (find-stamp_revoked h key.id now s.rows {key = key} found),
        unfold stamp_revoked in ground arith,
      )

  dead_is_refused :
      (hash : Text → Text) (fails : Bool) (presented : Text) (s : KeyStore R)
      → IsDead (hash presented) s
      → authenticate_key hash fails presented s ≡ err unauthorized
  unfolding authenticate_key by_hash
  dead_is_refused hash fails presented s (key, found, revoked) = ground (arith, found, revoked)

  -- Once the key that is stored under a text's hash has been revoked, the text is refused, whatever
  -- keys are created and revoked later and whatever fails.
  pub authenticate-revoke_key :
      (rates : Rates R) (hash : Text → Text) (get : Text → Result (Unit {0}))
      (calls : List (KeyCall R)) (fails fails_later : Bool) (now : ℕ) (presented : Text)
      (s : KeyStore R) {key : ApiKey R}
      → find (has_hash (hash presented)) s.rows ≡ some key
      → (revoke_key fails now key.id s).0 ≡ ok tt
      → authenticate_key hash fails_later presented
          (call_keys rates hash get calls (revoke_key fails now key.id s).1)
        ≡ err unauthorized
  authenticate-revoke_key rates hash get calls fails fails_later now presented s {key} found done =
      let after = (revoke_key fails now key.id s).1 in
      dead_is_refused hash fails_later presented (call_keys rates hash get calls after) (
        call_keys-IsDead (hash presented) rates hash get calls after
          (revoke_key-stamps (hash presented) fails now s {key = key} found done))
