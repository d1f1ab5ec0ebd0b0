-- ===== src/Auth/Assertion/Window.antt =====
-- How long a verified client assertion of internal/auth/client_assertion.go stays valid.
use codexlink.Prelude.{
  ℕ, none, some, [], Option, List, ◌∷◌, ◌<◌, ◌≡◌, String, ◌≤◌, arith, ◌+◌, ◌*◌, ◌++◌, refl, eq_iff,
  str_eq, false,
}
use codexlink.Prelude.Time.{minute}
use codexlink.Auth.Store.{Client}
use codexlink.Auth.Assertion.{
  absent, malformed, seconds, Number, Claims, Jwt, expiry, claims_expiry, check_signature,
  verify_claims, verify_parts, verify, String, decode_within, split_dots, kid_of, codes, str_eq,
  false,
}

-- A time in the future and at most five minutes ahead.
abbrev pub Ahead : ℕ → ℕ → Type 0
Ahead now e = (now < e) × (e ≤ now + 5 * minute)

expiry-Ahead : (now : ℕ) (n : Number) (e : ℕ) → expiry now n ≡ some e → Ahead now e
unfolding expiry
expiry-Ahead now absent e h = ground arith
expiry-Ahead now malformed e h = ground arith
expiry-Ahead now (seconds n) e h = ground arith

-- The time in `exp` does not depend on when it is read.
expiry_same : (t u : ℕ) (n : Number) (e f : ℕ) → expiry t n ≡ some e → expiry u n ≡ some f → f ≡ e
unfolding expiry
expiry_same t u absent e f g h = ground arith
expiry_same t u malformed e f g h = ground arith
expiry_same t u (seconds n) e f g h = ground arith

module _ (jwt : Jwt) where
  -- The claims that the parts of an assertion hold.
  claims_in : List (List ℕ) → Option Claims
  claims_in (header ∷ payload ∷ signature ∷ []) = elim (decode_within 8192 (jwt.decode payload)) [
    | none ↦ none
    | some bytes ↦ jwt.claims_of bytes
  ]
  claims_in parts = none

module _ (jwt : Jwt) (client : Client) (audience : String) where
  -- Verified at `now` with this identifier and time, from these claims.
  abbrev From : ℕ → Claims → String × ℕ → Type 0
  From now c r = (claims_expiry jwt client audience now c ≡ some r.1) × (c.jwt_id ≡ r.0)

  verify_claims-From :
      (keys : String → Option (List ℕ)) (now : ℕ) (kid : String) (signed signature : List ℕ)
      (c : Claims) (r : String × ℕ)
      → verify_claims jwt keys client audience now kid signed signature (some c) ≡ some r
      → From now c r
  unfolding verify_claims check_signature
  verify_claims-From keys now kid signed signature c r h = ground arith

  verify_found :
      (keys : String → Option (List ℕ)) (now : ℕ) (kid : String) (signed signature : List ℕ)
      (o : Option Claims) (r : String × ℕ)
      → verify_claims jwt keys client audience now kid signed signature o ≡ some r
      → (c : Claims) × (o ≡ some c) × From now c r
  unfolding verify_claims
  verify_found keys now kid signed signature none r h = ground arith
  verify_found keys now kid signed signature (some c) r h =
      (c, refl, verify_claims-From keys now kid signed signature c r h)

  verify_payload :
      (keys : String → Option (List ℕ)) (now : ℕ) (header payload signature : List ℕ)
      (o p : Option (List ℕ)) (r : String × ℕ)
      → decode_within 4096 (jwt.decode header) ≡ o
      → decode_within 8192 (jwt.decode payload) ≡ p
      → verify_parts jwt keys client audience now (header ∷ payload ∷ signature ∷ []) ≡ some r
      → (c : Claims) × (claims_in jwt (header ∷ payload ∷ signature ∷ []) ≡ some c) × From now c r
  unfolding verify_parts claims_in
  verify_payload keys now header payload signature none p r e f h = ground arith
  verify_payload keys now header payload signature (some b) none r e f h = ground arith
  verify_payload keys now header payload signature (some b) (some bytes) r e f h =
      let (c, found, from) =
        verify_found keys now (kid_of (jwt.header_of b)) (header ++ b'.' ∷ payload) signature
          (jwt.claims_of bytes) r (ground arith) in
      (c, ground (arith, found), from)

  verify_parts-From :
      (keys : String → Option (List ℕ)) (now : ℕ) (parts : List (List ℕ)) (r : String × ℕ)
      → verify_parts jwt keys client audience now parts ≡ some r
      → (c : Claims) × (claims_in jwt parts ≡ some c) × From now c r
  verify_parts-From keys now (header ∷ payload ∷ signature ∷ []) r h =
      verify_payload keys now header payload signature _ _ r refl refl h
  verify_parts-From keys now [] r h = unfold verify_parts in ground arith
  verify_parts-From keys now (_ ∷ []) r h = unfold verify_parts in ground arith
  verify_parts-From keys now (_ ∷ _ ∷ []) r h = unfold verify_parts in ground arith
  verify_parts-From keys now (_ ∷ _ ∷ _ ∷ _ ∷ _) r h = unfold verify_parts in ground arith

  verify-From :
      (keys : String → Option (List ℕ)) (assertion : String) (now : ℕ) (r : String × ℕ)
      → verify jwt keys assertion client audience now ≡ some r
      → (c : Claims) × (claims_in jwt (split_dots (codes assertion)) ≡ some c) × From now c r
  unfolding verify
  verify-From keys assertion now r h = verify_parts-From keys now _ r (ground arith)

  pub verify-Ahead :
      (keys : String → Option (List ℕ)) (assertion : String) (now : ℕ) (r : String × ℕ)
      → verify jwt keys assertion client audience now ≡ some r
      → Ahead now r.1
  unfolding claims_expiry
  verify-Ahead keys assertion now r h =
      let (c, found, from) = verify-From keys assertion now r h in
      expiry-Ahead now c.expires r.1 (ground arith)

  verify-issuer :
      (keys : String → Option (List ℕ)) (assertion : String) (now : ℕ) (r : String × ℕ)
      → verify jwt keys assertion client audience now ≡ some r
      → (c : Claims) × (claims_in jwt (split_dots (codes assertion)) ≡ some c)
        × (c.issuer ≡ client.id)
        × (c.jwt_id ≡ r.0)
        × ((n : ℕ) × (expiry n c.expires ≡ some r.1))
  unfolding claims_expiry
  verify-issuer keys assertion now r h =
      let (c, found, from) = verify-From keys assertion now r h in
      (c, found, ground (arith, eq_iff c.issuer client.id), from.1, (now, ground arith))

  pub verify_named :
      (keys : String → Option (List ℕ)) (assertion : String) (now : ℕ) (r : String × ℕ)
      → verify jwt keys assertion client audience now ≡ some r
      → str_eq r.0 "" ≡ false
  unfolding claims_expiry
  verify_named keys assertion now r h =
      let (c, found, from) = verify-From keys assertion now r h in ground arith

module _ (jwt : Jwt) where
  -- An assertion that is verified twice is of the same client, and has the same identifier and time.
  pub verify_same :
      (keys later_keys : String → Option (List ℕ)) (assertion : String) (c d : Client)
      (audience later_audience : String) (t u : ℕ) (r q : String × ℕ)
      → verify jwt keys assertion c audience t ≡ some r
      → verify jwt later_keys assertion d later_audience u ≡ some q
      → (d.id ≡ c.id) × (q ≡ r)
  verify_same keys later_keys assertion c d audience later_audience t u r q h g =
      let (a, found, issued, named, (n, timed)) =
        verify-issuer jwt c audience keys assertion t r h in
      let (b, found', issued', named', (n', timed')) =
        verify-issuer jwt d later_audience later_keys assertion u q g in
      let same : a ≡ b = ground (arith, found, found') in
      let time = expiry_same n n' a.expires r.1 q.1 timed (ground (arith, timed', same)) in
      ground (arith, time, issued, issued', named, named', same)
