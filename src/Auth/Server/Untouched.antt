-- ===== src/Auth/Server/Untouched.antt =====
-- What the authorization endpoint of internal/auth/http.go leaves alone.
use codexlink.Auth.Scopes.{parse_scopes}
use codexlink.Prelude.{ℕ, none, some, Option, List, ok, err, Result, refl, ◌≡◌, String, arith}
use codexlink.Auth.Scopes
use codexlink.Auth.Limits.{allow}
use codexlink.Auth.Store.{Client}
use codexlink.Auth.Server.{
  Server, Web, Request, Moment, get, or_nil, client_ip, prune_pending, String, codes,
}
use codexlink.Auth.Server.Authorize.{
  authorize_start, start_resolved, start_parsed, start_matched, resolve_client, start_scoped,
  keep_pending,
}

-- The two states differ at most in what waits for a pairing code and in the limiters.
abbrev pub Untouched : Server → Server → Type 0
Untouched s s' =
    (s'.store ≡ s.store)
    × (s'.pairing ≡ s.pairing)
    × (s'.assertion_jtis ≡ s.assertion_jtis)
    × (s'.limits ≡ s.limits)

module _ (web : Web) where
  start_scoped-Untouched :
      (s : Server) (request : Request) (m : Moment) (client : Client) (scopes : List (List ℕ))
      (id : Option String)
      → Untouched s (start_scoped web s request m client scopes id).0
  unfolding start_scoped keep_pending prune_pending
  start_scoped-Untouched s request m client scopes id = ground arith

  start_parsed-Untouched :
      (s : Server) (request : Request) (m : Moment) (client : Client)
      (r : Result Scopes.Error (List (List ℕ)))
      → Untouched s (start_parsed web s request m client r).0
  unfolding start_parsed
  start_parsed-Untouched s request m client (err e) = (refl, refl, refl, refl)
  start_parsed-Untouched s request m client (ok scopes) =
      start_scoped-Untouched s request m client scopes m.request_id

  start_resolved-Untouched :
      (s : Server) (request : Request) (m : Moment) (o : Option Client)
      → Untouched s (start_resolved web s request m o).0
  unfolding start_resolved start_matched
  start_resolved-Untouched s request m none = (refl, refl, refl, refl)
  start_resolved-Untouched s request m (some client) = ground (
    arith,
    start_parsed-Untouched s request m client
        (parse_scopes (codes (get (or_nil request.parameters) "scope"))),
  )

  pub start-Untouched :
      (s : Server) (request : Request) (m : Moment)
      → Untouched s (authorize_start web s request m).0
  unfolding authorize_start
  start-Untouched s request m =
      let s1 = record s {
        authorize_limiter = (allow s.authorize_limiter (client_ip web request) m.limited_at).0;
      } in
      ground (
        arith,
        start_resolved-Untouched s1 request m
            (resolve_client web s1 m.resolved (get (or_nil request.parameters) "client_id")),
      )
