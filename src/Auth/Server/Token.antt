-- ===== src/Auth/Server/Token.antt =====
-- The token endpoint of internal/auth/http.go: how a client is authenticated, with assertions that are
-- used once, and the two grants. The parameters' bodies are read by the libraries.
use codexlink.Prelude.{
  ℕ, none, some, [], Option, List, ◌∷◌, ok, err, String, Bool, if◌then◌else◌, str_eq, false, not,
  ◌+◌, true, ◌||◌, ◌*◌,
}
use Prim.Native.String.{◌++◌ as append, String}
use codexlink.Prelude.Assoc.{lookup, insert, retain}
use codexlink.Prelude.Time.{minute, before}
use codexlink.Auth.Assertion.{client_assertion_issuer, verify}
use codexlink.Auth.Store.{
  Client, Error, TokenSet, Outcome, invalid_grant, invalid_client, invalid_target, capacity,
}
use codexlink.Auth.Store.Issue.{exchange_code}
use codexlink.Auth.Store.Refresh.{refresh}
use codexlink.Auth.Server.{
  Server, Web, Request, Moment, Response, method_not_allowed, oauth_error, tokens, get, base, Bool,
}
use codexlink.Auth.Server.Authorize.{resolve_client}

-- `oauthCode`
unfoldable pub oauth_code : Error → String
oauth_code invalid_grant = "invalid_grant"
oauth_code invalid_client = "invalid_client"
oauth_code invalid_target = "invalid_target"
oauth_code capacity = "temporarily_unavailable"
oauth_code _ = "server_error"

-- `oauthStatus`
unfoldable pub oauth_status : Error → ℕ
oauth_status capacity = 503
oauth_status _ = 400

-- The key of a used assertion.
abbrev pub jti_key : String → String → String
jti_key client_id jti = append client_id (append "\0" jti)

-- `recordAssertionJTI`
unfoldable pub record_jti : Server → String → String → ℕ → Server
record_jti s client_id jti now = if str_eq jti "" then s else record s {
  assertion_jtis = insert (jti_key client_id jti) (now + 5 * minute) s.assertion_jtis;
}

unfoldable pub is_found : Option ℕ → Bool
is_found none = false
is_found (some expires_at) = true

-- The critical section that drops the old assertions and looks for this one.
unfoldable pub check_jti :
    Server → Moment → Client → Option (String × ℕ) → Server × Option (Client × String)
check_jti s m client none = (s, none)
check_jti s m client (some (jti, expires_at)) =
    let s1 = record s {
      assertion_jtis = retain (λ expiry. before m.swept_at expiry) s.assertion_jtis;
    } in
    if is_found (lookup (jti_key client.id jti) s1.assertion_jtis)
    then (s1, none)
    else (s1, some (client, jti))

-- The answer to a grant; the assertion is used up only if tokens were given.
unfoldable pub granted : Server → Moment → Client → String → Outcome TokenSet → Server × Response
granted s m client jti (store, err e) =
    (record s { store = store }, oauth_error (oauth_status e) (oauth_code e))
granted s m client jti (store, ok set) =
    (record_jti (record s { store = store }) client.id jti m.recorded_at, tokens set)

module _ (web : Web) where
  unfoldable pub authenticate_assertion :
      Server
      → Request
      → Moment
      → List (String × String)
      → Client
      → Server × Option (Client × String)
  authenticate_assertion s request m form client =
      if not (
        str_eq (get form "client_assertion_type")
          "urn:ietf:params:oauth:client-assertion-type:jwt-bearer")
      then (s, none)
      else if str_eq (get form "client_assertion") ""
      then (s, none)
      else check_jti s m client (
          verify web.jwt m.keys (get form "client_assertion") client
            (append (base request) "/oauth/token") m.authenticated_at)

  unfoldable pub authenticate_resolved :
      Server
      → Request
      → Moment
      → List (String × String)
      → Option Client
      → Server × Option (Client × String)
  authenticate_resolved s request m form none = (s, none)
  authenticate_resolved s request m form (some client) =
      if str_eq client.token_endpoint_auth_method ""
        || str_eq client.token_endpoint_auth_method "none"
      then (s, if not (str_eq (get form "client_assertion") "") then none else some (client, ""))
      else if str_eq client.token_endpoint_auth_method "private_key_jwt"
      then authenticate_assertion s request m form client
      else (s, none)

  -- `authenticateTokenClient`: the client and the identifier of its assertion.
  unfoldable pub authenticate :
      Server
      → Request
      → Moment
      → List (String × String)
      → String
      → Server × Option (Client × String)
  authenticate s request m form client_id =
      if str_eq client_id ""
      then (s, none)
      else authenticate_resolved s request m form (resolve_client web s m.resolved client_id)

  unfoldable pub grant :
      Server → Moment → List (String × String) → String → Client → String → Server × Response
  grant s m form client_id client jti =
      if str_eq (get form "grant_type") "authorization_code"
      then (if str_eq (get form "code") ""
            || str_eq (get form "code_verifier") ""
            || str_eq client_id ""
            || str_eq (get form "redirect_uri") ""
          then (s, oauth_error 400 "invalid_request")
          else granted s m client jti (
              exchange_code web.lib s.store (get form "code") client_id (get form "redirect_uri")
                (get form "code_verifier") (get form "resource") m.env))
      else if str_eq (get form "grant_type") "refresh_token"
      then (if str_eq (get form "refresh_token") "" || str_eq client_id ""
          then (s, oauth_error 400 "invalid_request")
          else granted s m client jti (
              refresh web.lib s.store (get form "refresh_token") client_id (get form "resource")
                m.env))
      else (s, oauth_error 400 "unsupported_grant_type")

  unfoldable pub token_authenticated :
      Moment
      → List (String × String)
      → String
      → Server × Option (Client × String)
      → Server × Response
  token_authenticated m form client_id (s, none) = (s, oauth_error 401 "invalid_client")
  token_authenticated m form client_id (s, some (client, jti)) = grant s m form client_id client jti

  -- The client that the form names, or the issuer of its assertion.
  unfoldable pub client_named : List (String × String) → String
  client_named form =
      if str_eq (get form "client_id") ""
      then client_assertion_issuer web.jwt web.lib.urls (get form "client_assertion")
      else get form "client_id"

  -- `token`
  unfoldable pub token : Server → Request → Moment → Server × Response
  token s request m =
      if not (str_eq request.method "POST")
      then (s, method_not_allowed ("POST" ∷ []))
      else elim request.parameters [
        | none ↦ (s, oauth_error 400 "invalid_request")
        | some form ↦
            token_authenticated m form (client_named form)
              (authenticate s request m form (client_named form))
      ]
