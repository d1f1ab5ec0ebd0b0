-- ===== src/Auth/Server/Flow.antt =====
-- From an approved authorization to a request that is let through, in internal/auth/http.go.
use codexlink.Prelude.{
  ℕ, none, some, Option, List, ok, err, refl, false, String, arith, ◌≡◌, ◌<◌, inl, inr, eq_iff, ap,
  ◌+◌,
}
use Prim.Native.String.{◌++◌ as append}
use codexlink.Prelude.Assoc.{lookup, IsUnique}
use codexlink.Prelude.Assoc.Laws.{lookup-retain_kept}
use codexlink.Prelude.Text.{codes, trim_space}
use codexlink.Prelude.Time.{unix_milli}
use codexlink.Auth.Resource.{canonical_resource}
use codexlink.Auth.Store.{
  AuthorizationCode, Client, Outcome, Store, TokenSet, Principal, prune, is_live_code,
}
use codexlink.Auth.Store.Access.{verify_access}
use codexlink.Auth.Store.Issue.{exchange_code, wrong_target}
use codexlink.Auth.Store.Granted.{Apart, granted as principal_of, verify_access-granted}
use codexlink.Auth.Store.Sound.{exchange_code-Redeems}
use codexlink.Auth.Server.{
  Server, Web, Request, Moment, Response, PendingAuthorization, tokens, forwarded, get, base,
  audience_or,
}
use codexlink.Auth.Server.Token.{
  token, token_authenticated, client_named, authenticate, grant, granted, check_jti, record_jti,
}
use codexlink.Auth.Server.Access.{bearer, bearer_token, admit}
use codexlink.Auth.Server.Coded.{Approves}
use codexlink.Auth.Server.Recorded.{authenticate-Authenticates}
use codexlink.Auth.Server.Used.{token-authenticates}

pub record_jti-store :
    (s : Server) (id jti : String) (now : ℕ) → (record_jti s id jti now).store ≡ s.store
unfolding record_jti
record_jti-store s id jti now = ground arith

check_jti-store :
    (s : Server) (m : Moment) (client : Client) (o : Option (String × ℕ))
    → (check_jti s m client o).0.store ≡ s.store
unfolding check_jti
check_jti-store s m client none = refl
check_jti-store s m client (some (jti, e)) = ground arith

granted_ok :
    (s : Server) (m : Moment) (client : Client) (jti : String) (o : Outcome TokenSet)
    (set : TokenSet)
    → (granted s m client jti o).1 ≡ tokens set
    → o ≡ ((granted s m client jti o).0.store, ok set)
unfolding granted
granted_ok s m client jti (store, err e) set h = ground arith
granted_ok s m client jti (store, ok given) set h =
    ground (arith, h, record_jti-store (record s { store = store }) client.id jti m.recorded_at)

lookup-prune :
    (s : Store) (h : String) (t : ℕ) (c : AuthorizationCode)
    → lookup h s.codes ≡ some c
    → t < c.expires_at
    → lookup h (prune s t).codes ≡ some c
unfolding prune
lookup-prune s h t c e lt = lookup-retain_kept h (is_live_code t) s.codes c e (ground arith)

module _ (web : Web) where
  -- The exchange that a token request with a code makes.
  abbrev exchange : Server → Moment → List (String × String) → String → Outcome TokenSet
  exchange s m form id =
      exchange_code web.lib s.store (get form "code") id (get form "redirect_uri")
        (get form "code_verifier") (get form "resource") m.env

  grant-exchange :
      (s : Server) (m : Moment) (form : List (String × String)) (id : String) (client : Client)
      (jti : String) (set : TokenSet)
      → get form "grant_type" ≡ "authorization_code"
      → (grant web s m form id client jti).1 ≡ tokens set
      → exchange s m form id ≡ ((grant web s m form id client jti).0.store, ok set)
  unfolding grant
  grant-exchange s m form id client jti set coded h =
      let g = granted_ok s m client jti (exchange s m form id) set in
      ground (arith, g, h, coded, eq_iff (get form "grant_type") "authorization_code")

  token_authenticated-exchange :
      (m : Moment) (form : List (String × String)) (id : String) (s : Server)
      (o : Option (Client × String)) (set : TokenSet)
      → get form "grant_type" ≡ "authorization_code"
      → (token_authenticated web m form id (s, o)).1 ≡ tokens set
      → exchange s m form id ≡ ((token_authenticated web m form id (s, o)).0.store, ok set)
  unfolding token_authenticated
  token_authenticated-exchange m form id s none set coded h = ground arith
  token_authenticated-exchange m form id s (some (client, jti)) set coded h =
      grant-exchange s m form id client jti set coded h

  pub authenticate-store :
      (s : Server) (request : Request) (m : Moment) (form : List (String × String)) (id : String)
      → (authenticate web s request m form id).0.store ≡ s.store
  authenticate-store s request m form id =
      elim (authenticate-Authenticates web s request m form id) [
        | inl (same, _) ↦ ap (λ (z : Server). z.store) same
        | inr (client, e) ↦ rw e (check_jti-store s m client _)
      ]

  token-exchange :
      (s : Server) (request : Request) (m : Moment) (form : List (String × String)) (set : TokenSet)
      → request.parameters ≡ some form
      → get form "grant_type" ≡ "authorization_code"
      → (token web s request m).1 ≡ tokens set
      → exchange s m form (client_named web form) ≡ ((token web s request m).0.store, ok set)
  token-exchange s request m form set read coded h =
      let id = client_named web form in
      let a = authenticate web s request m form id in
      let same = token-authenticates web s request m form set read h in
      let e = token_authenticated-exchange m form id a.0 a.1 set coded (ground (arith, same, h)) in
      rw same (rw (authenticate-store s request m form id) at e)

  -- The resource that a bearer token must be for.
  abbrev pub asked_of : Request → String
  asked_of b = audience_or "" (canonical_resource web.lib.urls (append (base b) "/mcp"))

  -- A request is let through for the client, the scopes and the audience of an authorization.
  abbrev pub LetsThrough : Response → PendingAuthorization → Type 0
  LetsThrough r p =
      (principal : Principal) × (r ≡ forwarded principal)
      × (principal.client_id ≡ p.client_id)
      × (principal.scopes ≡ p.scopes)
      × (principal.audience ≡ p.audience)

  bearer_found :
      (s : Server) (b : Request) (now : ℕ) (text : String) (principal : Principal)
      → bearer_token (trim_space (codes b.authorization)) ≡ some text
      → verify_access web.lib s.store text (asked_of b) now ≡ ok principal
      → bearer web s b now ≡ forwarded principal
  unfolding bearer admit
  bearer_found s b now text principal e f = ground (arith, e, f)

  -- The access token that comes of a completed authorization lets requests through, for the client, the
  -- scopes and the audience of that authorization: if its code is exchanged in its time and tokens are
  -- given, the two new tokens have different hashes, each token is in the table once, the token's time is
  -- not over, neither when it is saved nor when it is used, and the request goes to a resource that the
  -- audience stands for.
  pub bearer-authorize_complete :
      {s : Server} {request : Request} {m : Moment} {form : List (String × String)}
      {id location : String} {s1 : Server} (a : Approves web s request m form id location s1)
      (t : Request) (n : Moment) (token_form : List (String × String)) (set : TokenSet)
      (b : Request) (now : ℕ)
      → IsUnique s1.store.tokens
      → t.parameters ≡ some token_form
      → get token_form "grant_type" ≡ "authorization_code"
      → get token_form "code" ≡ a.code
      → (token web s1 t n).1 ≡ tokens set
      → n.env.pruned_at < m.env.created_at + s.store.auth_code_ttl
      → Apart web.lib n.env.access_text n.env.refresh_text
      → unix_milli n.env.saved_at < unix_milli (n.env.issued_at + s1.store.access_token_ttl)
      → unix_milli now < unix_milli (n.env.issued_at + s1.store.access_token_ttl)
      → bearer_token (trim_space (codes b.authorization)) ≡ some set.access_token
      → wrong_target web.lib (asked_of b) a.pending.audience ≡ false
      → LetsThrough (bearer web (token web s1 t n).0 b now) a.pending
  bearer-authorize_complete {s1 = s1} a t n token_form set b now u read coded code h live apart
        saved in_time carried target =
      let cid = client_named web token_form in
      let q = token-exchange s1 t n token_form set read coded h in
      let kept : lookup (web.lib.hash_value (get token_form "code"))
            (prune s1.store n.env.pruned_at).codes
          ≡ some a.record_ =
        rw code (
          lookup-prune s1.store (web.lib.hash_value a.code) n.env.pruned_at a.record_ a.stored
            (ground (arith, live, a.expires))) in
      let redeems =
        exchange_code-Redeems web.lib s1.store (get token_form "code") cid
          (get token_form "redirect_uri") (get token_form "code_verifier")
          (get token_form "resource") n.env q in
      let v =
        verify_access-granted web.lib s1.store (get token_form "code") cid
          (get token_form "redirect_uri") (get token_form "code_verifier")
          (get token_form "resource") n.env a.record_ (asked_of b) now u apart kept saved in_time
          (rw (a.bound.audience) target) q in
      (
        principal_of web.lib s1.store set cid a.record_ n.env.issued_at,
        bearer_found (token web s1 t n).0 b now set.access_token _ carried v,
        ground (arith, redeems.stored, kept, redeems.same_client, a.bound.client),
        a.bound.scopes,
        a.bound.audience,
      )
