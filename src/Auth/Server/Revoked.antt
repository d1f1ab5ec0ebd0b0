-- ===== src/Auth/Server/Revoked.antt =====
-- Revocation at the endpoints of internal/auth/http.go.
use codexlink.Prelude.{ℕ, none, some, List, err, String, arith, ◌≡◌, ◌≢◌, eq_iff}
use codexlink.Prelude.Assoc.{lookup, IsUnique}
use codexlink.Prelude.Text.{codes, trim_space}
use codexlink.Auth.Store.{TokenRecord, unknown}
use codexlink.Auth.Store.Access.{verify_access}
use codexlink.Auth.Store.Revoked.{revoke-gone, verify_unknown}
use codexlink.Auth.Server.Calls.{Call, run}
use codexlink.Auth.Server.Forgotten.{RunMisses, run_server-Gone}
use codexlink.Auth.Server.{Server, Web, Request, Moment, unauthorized, get}
use codexlink.Auth.Server.Access.{bearer, bearer_token, admit, revoke}
use codexlink.Auth.Server.Flow.{asked_of}
use codexlink.Auth.Store.Access.{revoke as revoke_token}

module _ (web : Web) where
  bearer_unknown :
      (s : Server) (b : Request) (now : ℕ) (text : String)
      → bearer_token (trim_space (codes b.authorization)) ≡ some text
      → verify_access web.lib s.store text (asked_of web b) now ≡ err unknown
      → bearer web s b now ≡ unauthorized
  unfolding bearer admit
  bearer_unknown s b now text e f = ground (arith, e, f)

  revoke-store :
      (s : Server) (request : Request) (m : Moment) (form : List (String × String))
      → request.method ≡ "POST"
      → request.parameters ≡ some form
      → get form "token" ≢ ""
      → (revoke web s request m).0.store ≡ (revoke_token web.lib s.store (get form "token") m.env).0
  unfolding revoke
  revoke-store s request m form post read given =
      ground (arith, post, read, given, eq_iff request.method "POST", eq_iff (get form "token") "")

  -- A token of the store that is posted to the revocation endpoint lets no request through, right after it is
  -- revoked and after any requests and local calls that follow, none of which draws a text with the token's
  -- hash; if the table has each token once, whether the states could be saved or not, and as long as the
  -- server runs.
  pub bearer-revoke :
      (s : Server) (request : Request) (m : Moment) (form : List (String × String))
      (t : TokenRecord) (cs : List Call) (b : Request) (now : ℕ)
      → IsUnique s.store.tokens
      → request.method ≡ "POST"
      → request.parameters ≡ some form
      → get form "token" ≢ ""
      → lookup (web.lib.hash_value (get form "token")) s.store.tokens ≡ some t
      → RunMisses web (web.lib.hash_value (get form "token")) cs
      → bearer_token (trim_space (codes b.authorization)) ≡ some (get form "token")
      → bearer web (run web (revoke web s request m).0 cs) b now ≡ unauthorized
  bearer-revoke s request m form t cs b now u post read given e misses carried =
      let h = web.lib.hash_value (get form "token") in
      let s1 = (revoke web s request m).0 in
      let gone : lookup h s1.store.tokens ≡ none =
        rw (revoke-store s request m form post read given)
          (revoke-gone web.lib s.store (get form "token") m.env t u e) in
      bearer_unknown (run web s1 cs) b now (get form "token") carried (
        verify_unknown web.lib (run web s1 cs).store (get form "token") (asked_of web b) now
          ((run_server-Gone web h s1 cs misses).token gone))
