-- ===== src/Auth/Server/Used.antt =====
-- What a token request that succeeds with a client assertion leaves, in internal/auth/http.go.
use codexlink.Prelude.{
  ℕ, none, some, Option, List, ok, err, refl, ◌≡◌, String, arith, ◌≢◌, inl, inr, Bool-cases, ◌+◌,
  str_eq, ◌*◌, not, str_eq_refl, false,
}
use Prim.Native.String.{◌++◌ as append}
use codexlink.Prelude.Assoc.{lookup, retain}
use codexlink.Prelude.Assoc.Laws.{lookup-insert}
use codexlink.Prelude.Time.{minute, before}
use codexlink.Auth.Assertion.{verify}
use codexlink.Auth.Assertion.Window.{verify_named}
use codexlink.Auth.Store.{Client, TokenSet, Outcome}
use codexlink.Auth.Server.{Server, Web, Request, Moment, get, String, tokens, base}
use codexlink.Auth.Server.Token.{
  is_found, token_authenticated, client_named, authenticate, token, grant, granted, check_jti,
  record_jti, jti_key,
}
use codexlink.Auth.Server.Recorded.{grant-Grants, authenticate-Authenticates}

module _ (web : Web) where
  -- A token request that succeeds with an assertion: it is verified, and then known to be used.
  pub record Uses (request : Request) (m : Moment) (form : List (String × String)) (s' : Server)
      : Type 0 where
    pub client : Client
    pub jti : String
    pub expires_at : ℕ
    pub verified :
        verify web.jwt m.keys
          (get form "client_assertion")
          client
          (append (base request) "/oauth/token")
          m.authenticated_at
        ≡ some (jti, expires_at)
    pub recorded :
        lookup (jti_key client.id jti) s'.assertion_jtis ≡ some (m.recorded_at + 5 * minute)

  granted-recorded :
      (s : Server) (m : Moment) (client : Client) (jti : String) (o : Outcome TokenSet)
      (set : TokenSet)
      → str_eq jti "" ≡ false
      → (granted s m client jti o).1 ≡ tokens set
      → lookup (jti_key client.id jti) (granted s m client jti o).0.assertion_jtis
        ≡ some (m.recorded_at + 5 * minute)
  unfolding granted record_jti
  granted-recorded s m client jti (store, err e) set named h = cc
  granted-recorded s m client jti (store, ok given) set named h = ground (
    arith,
    named,
    str_eq_refl (jti_key client.id jti),
    lookup-insert (jti_key client.id jti) (jti_key client.id jti) (m.recorded_at + 5 * minute)
        s.assertion_jtis,
  )

  grant-recorded :
      (s : Server) (m : Moment) (form : List (String × String)) (id : String) (client : Client)
      (jti : String) (set : TokenSet)
      → str_eq jti "" ≡ false
      → (grant web s m form id client jti).1 ≡ tokens set
      → lookup (jti_key client.id jti) (grant web s m form id client jti).0.assertion_jtis
        ≡ some (m.recorded_at + 5 * minute)
  grant-recorded s m form id client jti set named h =
      elim (grant-Grants web s m form id client jti) [
        | inl (same, none_given) ↦ absurd (none_given set h)
        | inr (o, e) ↦ rw e (granted-recorded s m client jti o set named (ground (arith, h, e)))
      ]

  check_jti-Uses :
      (s : Server) (request : Request) (m : Moment) (form : List (String × String)) (id : String)
      (set : TokenSet) (client : Client) (o : Option (String × ℕ))
      → verify web.jwt m.keys
          (get form "client_assertion")
          client
          (append (base request) "/oauth/token")
          m.authenticated_at
        ≡ o
      → (token_authenticated web m form id (check_jti s m client o)).1 ≡ tokens set
      → Uses request m form (token_authenticated web m form id (check_jti s m client o)).0
  unfolding token_authenticated check_jti is_found
  check_jti-Uses s request m form id set client none v h = ground arith
  check_jti-Uses s request m form id set client (some (jti, e)) v h =
      let s1 = record s {
        assertion_jtis = retain (λ expiry. before m.swept_at expiry) s.assertion_jtis;
      } in
      elim (Bool-cases (is_found (lookup (jti_key client.id jti) s1.assertion_jtis))) [
        | inl found ↦ ground arith
        | inr fresh ↦ record {
          client = client;
          jti = jti;
          expires_at = e;
          verified = v;
          recorded = rw fresh (
              grant-recorded s1 m form id client jti set
                (verify_named web.jwt client _ m.keys _ m.authenticated_at (jti, e) v)
                (ground (arith, fresh, h)));
        }
      ]

  pub public_gives_none :
      (m : Moment) (form : List (String × String)) (id : String) (s : Server)
      (o : Option (Client × String)) (set : TokenSet)
      → ((c : Client × String) → o ≡ some c → get form "client_assertion" ≡ "")
      → get form "client_assertion" ≢ ""
      → (token_authenticated web m form id (s, o)).1 ≢ tokens set
  unfolding token_authenticated
  public_gives_none m form id s none set public given = λ e. cc
  public_gives_none m form id s (some c) set public given = absurd (given (public c refl))

  authenticated-Uses :
      (s : Server) (request : Request) (m : Moment) (form : List (String × String)) (id : String)
      (set : TokenSet)
      → get form "client_assertion" ≢ ""
      → (token_authenticated web m form id (authenticate web s request m form id)).1 ≡ tokens set
      → Uses request m form
          (token_authenticated web m form id (authenticate web s request m form id)).0
  authenticated-Uses s request m form id set given h =
      elim (authenticate-Authenticates web s request m form id) [
        | inl (same, public) ↦ absurd (public_gives_none m form id _ _ set public given h)
        | inr (client, e) ↦
            rw e (check_jti-Uses s request m form id set client _ refl (ground (arith, h, e)))
      ]

  pub token-authenticates :
      (s : Server) (request : Request) (m : Moment) (form : List (String × String)) (set : TokenSet)
      → request.parameters ≡ some form
      → (token web s request m).1 ≡ tokens set
      → token web s request m
        ≡ token_authenticated web m form
            (client_named web form)
            (authenticate web s request m form (client_named web form))
  unfolding token
  token-authenticates s request m form set e h =
      elim (Bool-cases (not (str_eq request.method "POST"))) [
        | inl other ↦ ground arith
        | inr post ↦ ground (arith, post, e)
      ]

  pub token-Uses :
      (s : Server) (request : Request) (m : Moment) (form : List (String × String)) (set : TokenSet)
      → request.parameters ≡ some form
      → get form "client_assertion" ≢ ""
      → (token web s request m).1 ≡ tokens set
      → Uses request m form (token web s request m).0
  token-Uses s request m form set e given h =
      let same = token-authenticates s request m form set e h in
      rw same (
        authenticated-Uses s request m form (client_named web form) set given
          (ground (arith, h, same)))
