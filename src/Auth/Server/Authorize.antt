-- ===== src/Auth/Server/Authorize.antt =====
-- The authorization endpoint of internal/auth/http.go: `authorizeStart` keeps a request that waits for a
-- pairing code, `authorizeComplete` takes the code and redirects with an authorization code.
use codexlink.Prelude.{
  ℕ, none, some, [], Option, List, ◌∷◌, ok, err, String, if◌then◌else◌, str_eq, not, leb, map,
  length, ◌&&◌, ◌||◌, ◌+◌, ◌*◌, Result,
}
use codexlink.Prelude.Assoc.{lookup, insert, delete}
use codexlink.Prelude.Text.{codes, text}
use codexlink.Prelude.Time.{minute}
use codexlink.Auth.Limits.{allow}
use codexlink.Auth.Pairing.{PairingResult, PairingManager, invalid, verify, PairingFailure}
use codexlink.Auth.Redirects.{redirect_uri_matches, is_metadata_client_id, valid_challenge}
use codexlink.Auth.Resource.{same_resource}
use codexlink.Auth.Scopes
use codexlink.Auth.Scopes.{parse_scopes}
use codexlink.Auth.Store.{Client, Outcome}
use codexlink.Auth.Store.Issue.{AuthorizationCodeRequest, contains, create_code}
use codexlink.Auth.Server.{
  PendingAuthorization, CompletedAuthorization, Server, Web, Request, Moment, Response,
  method_not_allowed, plain, fails, page, continues, get, or_nil, base, prune_pending, client_ip,
  canonical_audience, String,
}

-- `if text != "" { values.Set(name, text) }`
unfoldable pub set_if : String → String → List (String × String) → List (String × String)
set_if name value rest = if str_eq value "" then rest else (name, value) ∷ rest

-- The status of the page after a failed pairing.
unfoldable pub failure_status : Option PairingFailure → ℕ
failure_status (some invalid) = 401
failure_status _ = 410

abbrev pub grant_of : PendingAuthorization → List ℕ → AuthorizationCodeRequest
grant_of p session_id = record {
  client_id = p.client_id;
  redirect_uri = p.redirect_uri;
  code_challenge = p.code_challenge;
  scopes = p.scopes;
  pairing_id = text session_id;
  audience = p.audience;
  refresh_allowed = p.refresh_allowed;
}

module _ (web : Web) where
  -- `resolveClient`, `none` for its error; `resolved` is the metadata resolver's answer.
  unfoldable pub resolve_client : Server → Option Client → String → Option Client
  resolve_client s resolved client_id = elim (lookup client_id s.store.clients) [
    | some client ↦ some client
    | none ↦ if not (is_metadata_client_id web.lib.urls client_id) then none else resolved
  ]

  abbrev pub failing : Request → String → String → Response
  failing request redirect code = fails redirect code (get (or_nil request.parameters) "state")

  -- The end of `authorizeStart`, in the critical section.
  unfoldable pub keep_pending : Server → Request → Moment → PendingAuthorization → Server × Response
  keep_pending s request m p =
      let s1 = prune_pending s m.pruned_at in
      if leb s1.limits.max_pending (length s1.pending)
      then (s1, failing request p.redirect_uri "temporarily_unavailable")
      else (record s1 { pending = insert p.id p s1.pending }, page 200 p.id p.scopes none 0)

  -- The scopes are parsed and the identifier drawn.
  unfoldable pub start_scoped :
      Server → Request → Moment → Client → List (List ℕ) → Option String → Server × Response
  start_scoped s request m client scopes id =
      let query = or_nil request.parameters in
      let redirect = get query "redirect_uri" in
      let allowed = contains client.grant_types "refresh_token" in
      let texts = map text scopes in
      if contains texts "offline_access" && not allowed
      then (s, failing request redirect "invalid_scope")
      else elim id [
        | none ↦ (s, plain 500)
        | some drawn ↦ keep_pending s request m (record {
          id = drawn;
          client_id = client.id;
          redirect_uri = redirect;
          scopes = texts;
          state = get query "state";
          code_challenge = get query "code_challenge";
          audience = canonical_audience web request;
          refresh_allowed = allowed;
          expires_at = m.made_at + 10 * minute;
        })
      ]

  unfoldable pub start_parsed :
      Server → Request → Moment → Client → Result Scopes.Error (List (List ℕ)) → Server × Response
  start_parsed s request m client (err e) =
      (s, failing request (get (or_nil request.parameters) "redirect_uri") "invalid_scope")
  start_parsed s request m client (ok scopes) = start_scoped s request m client scopes m.request_id

  -- The client is resolved and its redirect URI matched.
  unfoldable pub start_matched : Server → Request → Moment → Client → Server × Response
  start_matched s request m client =
      let query = or_nil request.parameters in
      let redirect = get query "redirect_uri" in
      let audience = get query "resource" in
      if not (str_eq (get query "response_type") "code")
      then (s, failing request redirect "unsupported_response_type")
      else if not (str_eq (get query "code_challenge_method") "S256")
          || not (valid_challenge (get query "code_challenge"))
      then (s, failing request redirect "invalid_request")
      else if not (str_eq audience "")
          && not (same_resource web.lib.urls audience (canonical_audience web request))
      then (s, failing request redirect "invalid_target")
      else start_parsed s request m client (parse_scopes (codes (get query "scope")))

  unfoldable pub start_resolved : Server → Request → Moment → Option Client → Server × Response
  start_resolved s request m none = (s, plain 400)
  start_resolved s request m (some client) =
      if not (
        redirect_uri_matches web.lib.urls client.redirect_uris
          (get (or_nil request.parameters) "redirect_uri"))
      then (s, plain 400)
      else start_matched s request m client

  -- `authorizeStart`
  unfoldable pub authorize_start : Server → Request → Moment → Server × Response
  authorize_start s request m =
      let (limiter, passed) = allow s.authorize_limiter (client_ip web request) m.limited_at in
      let s1 = record s { authorize_limiter = limiter } in
      if not passed
      then (s1, plain 429)
      else start_resolved s1 request m
          (resolve_client s1 m.resolved (get (or_nil request.parameters) "client_id"))

  abbrev pub redirect_to : Request → PendingAuthorization → String → String
  redirect_to request p code =
      web.with_query p.redirect_uri
        (("code", code) ∷ set_if "state" p.state (("iss", base request) ∷ []))

  -- The code is drawn and stored, or not.
  unfoldable pub complete_coded :
      Server → Request → Moment → String → PendingAuthorization → Outcome String → Server × Response
  complete_coded s request m id p (store, err e) = (record s { store = store }, plain 500)
  complete_coded s request m id p (store, ok code) =
      let location = redirect_to request p code in
      (
        record s {
          store = store;
          pending = delete id s.pending;
          completed =
              insert id (record { location = location; expires_at = m.completed_at + minute })
                s.completed;
        },
        continues location,
      )

  -- The pairing code is verified.
  unfoldable pub complete_paired :
      Server
      → Request
      → Moment
      → String
      → PendingAuthorization
      → PairingManager × PairingResult
      → Server × Response
  complete_paired s request m id p (pairing, verdict) =
      let s1 = record s { pairing = pairing } in
      if not verdict.is_ok
      then (
        s1,
        page (failure_status verdict.failure) id p.scopes verdict.failure verdict.attempts_left,
      )
      else complete_coded s1 request m id p
          (create_code web.lib s1.store (grant_of p verdict.session_id) m.env m.code)

  unfoldable pub complete_replayed : Server → Option CompletedAuthorization → Server × Response
  complete_replayed s none = (s, plain 400)
  complete_replayed s (some c) = (s, continues c.location)

  unfoldable pub complete_found :
      Server
      → Request
      → Moment
      → List (String × String)
      → String
      → Option PendingAuthorization
      → Server × Response
  complete_found s request m form id none = complete_replayed s (lookup id s.completed)
  complete_found s request m form id (some p) = complete_paired s request m id p (
      verify web.pairing_hash s.pairing (codes (get form "pairing_code")) (client_ip web request)
        m.paired_at)

  -- `authorizeComplete`
  unfoldable pub authorize_complete : Server → Request → Moment → Server × Response
  authorize_complete s request m = elim request.parameters [
    | none ↦ (s, plain 400)
    | some form ↦
        let s1 = prune_pending s m.pruned_at in
        let id = get form "request_id" in complete_found s1 request m form id (lookup id s1.pending)
  ]

  -- `authorize`
  unfoldable pub authorize : Server → Request → Moment → Server × Response
  authorize s request m =
      if str_eq request.method "GET"
      then authorize_start s request m
      else if str_eq request.method "POST"
      then authorize_complete s request m
      else (s, method_not_allowed ("GET" ∷ "POST" ∷ []))
