-- ===== src/Auth/Server/Access.antt =====
-- The other endpoints of internal/auth/http.go: revocation, the registration of clients, and the bearer
-- tokens of the requests to the MCP endpoint.
use codexlink.Prelude.{
  ℕ, none, some, [], Option, List, ◌∷◌, ok, err, Result, Bool, String, if◌then◌else◌, true, ltb,
  not, str_eq, ◌==◌, length, ◌||◌, ◌+◌, take, ◌&&◌, drop, false,
}
use Prim.Native.String.{◌++◌ as append, String}
use codexlink.Prelude.Text.{codes, text, trim_space, is_upper}
use codexlink.Auth.Limits.{allow}
use codexlink.Auth.Resource.{canonical_resource}
use codexlink.Auth.Store.{Client, Error, capacity, Outcome, Principal}
use codexlink.Auth.Store.Access.{verify_access, revoke as revoke_token}
use codexlink.Auth.Store.Clients.{register}
use codexlink.Auth.Server.{
  Server, Web, Request, Moment, Response, method_not_allowed, no_content, oauth_error, unauthorized,
  registered, done, forwarded, get, base, client_ip, audience_or, Bool,
}

abbrev pub fold : ℕ → ℕ
fold c = if is_upper c then c + 32 else c

-- `strings.EqualFold` with the text `Bearer `, none of whose letters has a fold outside ASCII.
unfoldable pub fold_eq : List ℕ → List ℕ → Bool
fold_eq [] [] = true
fold_eq (c ∷ cs) (d ∷ ds) = fold c == fold d && fold_eq cs ds
fold_eq _ _ = false

-- What follows `Bearer `, if the header starts with it in any case and has more to it.
unfoldable pub bearer_token : List ℕ → Option String
bearer_token header =
    if ltb (length header) 8 || not (fold_eq (take 7 header) (codes "Bearer "))
    then none
    else some (text (trim_space (drop 7 header)))

unfoldable pub admit : Result Error Principal → Response
admit (ok principal) = forwarded principal
admit (err e) = unauthorized

-- The store after `RegisterClientMetadata`; the errors on the metadata have another code if they are
-- about a redirect URI.
unfoldable pub register_answer : Server → Bool → Outcome Client → Server × Response
register_answer s is_about_redirect (store, ok client) =
    (record s { store = store }, registered client)
register_answer s is_about_redirect (store, err capacity) =
    (record s { store = store }, oauth_error 503 "temporarily_unavailable")
register_answer s is_about_redirect (store, err e) = (
  record s { store = store },
  oauth_error 400 (if is_about_redirect then "invalid_redirect_uri" else "invalid_client_metadata"),
)

module _ (web : Web) where
  -- `BearerMiddleware`
  unfoldable pub bearer : Server → Request → ℕ → Response
  bearer s request now = elim (bearer_token (trim_space (codes request.authorization))) [
    | none ↦ unauthorized
    | some token ↦ admit (
        verify_access web.lib s.store token
          (audience_or "" (canonical_resource web.lib.urls (append (base request) "/mcp"))) now)
  ]

  -- `revoke`
  unfoldable pub revoke : Server → Request → Moment → Server × Response
  revoke s request m =
      if not (str_eq request.method "POST")
      then (s, method_not_allowed ("POST" ∷ []))
      else elim request.parameters [
        | none ↦ (s, done)
        | some form ↦ if str_eq (get form "token") "" then (s, done) else (
          record s { store = (revoke_token web.lib s.store (get form "token") m.env).0 },
          done,
        )
      ]

  -- `registerClient`; `body` is the client that the body describes, `none` if it is not one JSON object.
  unfoldable pub register_client :
      Server → Request → Moment → Option (Result Error Client) → Bool → Server × Response
  register_client s request m body is_about_redirect =
      if str_eq request.method "OPTIONS"
      then (s, no_content)
      else if not (str_eq request.method "POST")
      then (s, method_not_allowed ("POST" ∷ []))
      else (let (limiter, passed) = allow s.register_limiter (client_ip web request) m.limited_at in
          let s1 = record s { register_limiter = limiter } in
          if not passed then (s1, oauth_error 429 "temporarily_unavailable") else elim body [
            | none ↦ (s1, oauth_error 400 "invalid_client_metadata")
            | some client ↦
                register_answer s1 is_about_redirect (register web.lib s1.store client m.env)
          ])
