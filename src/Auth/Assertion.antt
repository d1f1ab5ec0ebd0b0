-- ===== src/Auth/Assertion.antt =====
-- internal/auth/client_assertion.go: the issuer that a client assertion names, and the verification of an
-- assertion. base64, JSON and RSA are parameters (`Jwt`); the answer of the key set is an argument.
pub mod Window
use codexlink.Prelude.{
  ℕ, none, some, [], Option, List, ◌∷◌, String, if◌then◌else◌, Bool, ◌==◌, ltb, false, not, true,
  ◌++◌, ◌+◌, ◌||◌, length, str_eq, ◌^◌, ◌-◌, ◌*◌, suc,
}
use codexlink.Prelude.Int.{ℤ, pos, negsuc}
use codexlink.Prelude.Text.{codes, text, byte_length, is_empty}
use codexlink.Prelude.Time.{second, minute, before}
use codexlink.Auth.Resource.{UrlLib}
use codexlink.Auth.Redirects.{is_metadata_client_id}
use codexlink.Auth.Store.{Client}
use codexlink.Auth.Store.Issue.{contains}

abbrev pub chat_gpt_client_id : String
chat_gpt_client_id = "https://chatgpt.com/oauth/client.json"

abbrev pub chat_gpt_jwks_uri : String
chat_gpt_jwks_uri = "https://chatgpt.com/oauth/jwks.json"

pub record Header : Type 0 where
  pub alg : String
  pub kid : String

-- A number of the claims: the empty one, one that is no int64, or an int64.
pub data Number : Type 0 where
  absent malformed : Number
  seconds : ℤ → Number

-- `audience` holds the text, or the texts, of `aud`, and is empty if it is neither.
pub record Claims : Type 0 where
  pub issuer : String
  pub subject : String
  pub audience : List String
  pub expires : Number
  pub issued_at : Number
  pub not_before : Number
  pub jwt_id : String

-- encoding/base64, encoding/json and crypto/rsa. `rsa_verify key signed signature`.
pub record Jwt : Type 0 where
  pub decode : List ℕ → Option (List ℕ)
  pub header_of : List ℕ → Option Header
  pub claims_of : List ℕ → Option Claims
  pub issuer_of : List ℕ → Option String
  pub rsa_verify : List ℕ → List ℕ → List ℕ → Bool

unfoldable pub onto_part : ℕ → List (List ℕ) → List (List ℕ)
onto_part c [] = (c ∷ []) ∷ []
onto_part c (w ∷ ws) = (c ∷ w) ∷ ws

-- `strings.Split(assertion, ".")`
unfoldable pub split_dots : List ℕ → List (List ℕ)
split_dots [] = [] ∷ []
split_dots (c ∷ cs) = let rest = split_dots cs in if c == b'.' then [] ∷ rest else onto_part c rest

-- Seconds from Go's zero time to the Unix epoch.
abbrev pub epoch : ℕ
epoch = 62_135_596_800

-- `time.Unix(n, 0)`, whose sum wraps around at 2^63; a time before Go's zero time is 0 here.
unfoldable pub unix_time : ℤ → ℕ
unix_time (pos n) = if ltb (n + epoch) (2 ^ 63) then (n + epoch) * second else 0
unix_time (negsuc n) = (epoch - suc n) * second

-- The test of `iat`: no later than a minute from now, no earlier than five minutes ago.
unfoldable pub is_bad_issue_time : ℕ → Number → Bool
is_bad_issue_time now absent = false
is_bad_issue_time now malformed = true
is_bad_issue_time now (seconds n) =
    before (now + minute) (unix_time n) || before (unix_time n) (now - 5 * minute)

unfoldable pub is_bad_start : ℕ → Number → Bool
is_bad_start now absent = false
is_bad_start now malformed = true
is_bad_start now (seconds n) = before (now + minute) (unix_time n)

-- The time in `exp`, if it is in the future and at most five minutes ahead.
unfoldable pub expiry : ℕ → Number → Option ℕ
expiry now (seconds n) =
    if not (before now (unix_time n)) || before (now + 5 * minute) (unix_time n)
    then none
    else some (unix_time n)
expiry now _ = none

-- `decode(part)` with the limit on the size of the result.
unfoldable pub decode_within : ℕ → Option (List ℕ) → Option (List ℕ)
decode_within limit none = none
decode_within limit (some bytes) = if ltb limit (length bytes) then none else some bytes

unfoldable pub is_bad_header : Option Header → Bool
is_bad_header none = true
is_bad_header (some h) =
    not (str_eq h.alg "RS256") || str_eq h.kid "" || ltb 256 (byte_length h.kid)

unfoldable pub kid_of : Option Header → String
kid_of none = ""
kid_of (some h) = h.kid

unfoldable pub issuer_in : UrlLib → Option String → String
issuer_in urls none = ""
issuer_in urls (some issuer) = if not (is_metadata_client_id urls issuer) then "" else issuer

module _ (jwt : Jwt) where
  unfoldable pub payload_issuer : UrlLib → List (List ℕ) → String
  payload_issuer urls (header ∷ payload ∷ signature ∷ []) =
      elim (decode_within 8192 (jwt.decode payload)) [
        | none ↦ ""
        | some bytes ↦ issuer_in urls (jwt.issuer_of bytes)
      ]
  payload_issuer urls parts = ""

  -- `clientAssertionIssuer`
  unfoldable pub client_assertion_issuer : UrlLib → String → String
  client_assertion_issuer urls assertion =
      if byte_length assertion == 0 || ltb 16384 (byte_length assertion)
      then ""
      else payload_issuer urls (split_dots (codes assertion))

  -- The tests on the claims, which give the time in `exp`.
  unfoldable pub claims_expiry : Client → String → ℕ → Claims → Option ℕ
  claims_expiry client audience now c =
      if not (str_eq c.issuer client.id)
        || not (str_eq c.subject client.id)
        || not (contains c.audience audience)
      then none
      else elim (expiry now c.expires) [
        | none ↦ none
        | some expires_at ↦
            if is_bad_issue_time now c.issued_at
              || is_bad_start now c.not_before
              || str_eq c.jwt_id ""
              || ltb 256 (byte_length c.jwt_id)
            then none
            else some expires_at
      ]

  -- The end of `Verify`; `key` is what the key set has under the key's identifier.
  unfoldable pub check_signature :
      Option (List ℕ) → List ℕ → Option (List ℕ) → String → ℕ → Option (String × ℕ)
  check_signature (some key) signed (some signature) jti expires_at =
      if jwt.rsa_verify key signed signature then some (jti, expires_at) else none
  check_signature key signed signature jti expires_at = none

  unfoldable pub verify_claims :
      (String → Option (List ℕ))
      → Client
      → String
      → ℕ
      → String
      → List ℕ
      → List ℕ
      → Option Claims
      → Option (String × ℕ)
  verify_claims keys client audience now kid signed signature none = none
  verify_claims keys client audience now kid signed signature (some c) =
      elim (claims_expiry client audience now c) [
        | none ↦ none
        | some expires_at ↦
            check_signature (keys kid) signed (jwt.decode signature) c.jwt_id expires_at
      ]

  unfoldable pub verify_parts :
      (String → Option (List ℕ)) → Client → String → ℕ → List (List ℕ) → Option (String × ℕ)
  verify_parts keys client audience now (header ∷ payload ∷ signature ∷ []) =
      elim (decode_within 4096 (jwt.decode header)) [
        | none ↦ none
        | some header_bytes ↦
            if is_bad_header (jwt.header_of header_bytes)
            then none
            else elim (decode_within 8192 (jwt.decode payload)) [
              | none ↦ none
              | some bytes ↦
                  verify_claims keys client audience now (kid_of (jwt.header_of header_bytes))
                    (header ++ b'.' ∷ payload) signature (jwt.claims_of bytes)
            ]
      ]
  verify_parts keys client audience now parts = none

  -- `ChatGPTAssertionVerifier.Verify`: the JWT's identifier and the time in `exp`.
  unfoldable pub verify :
      (String → Option (List ℕ)) → String → Client → String → ℕ → Option (String × ℕ)
  verify keys assertion client audience now =
      if not (str_eq client.id chat_gpt_client_id)
        || not (str_eq client.jwks_uri chat_gpt_jwks_uri)
        || not (str_eq client.token_endpoint_signing_alg "RS256")
      then none
      else if byte_length assertion == 0 || ltb 16384 (byte_length assertion)
      then none
      else verify_parts keys client audience now (split_dots (codes assertion))
