-- ===== src/Auth/Server/Recorded.antt =====
-- What the requests to internal/auth/http.go do to the table of used client assertions.
use codexlink.Prelude.{
  ℕ, none, some, Option, List, ok, err, Result, refl, ◌≡◌, String, Bool, arith, ◌≢◌, ◌⊎◌, inl, inr,
  ◌≤◌, ◌<◌, Bool-cases, ◌+◌, str_eq, ◌*◌, ◌||◌, eq_iff, not,
}
use Prim.Native.String.{◌++◌ as append}
use codexlink.Auth.Server.Authorize.{resolve_client}
use codexlink.Prelude.Assoc.{lookup}
use codexlink.Prelude.Assoc.Laws.{lookup-insert, lookup-retain_kept}
use codexlink.Prelude.Time.{minute, before}
use codexlink.Auth.Assertion.{verify}
use codexlink.Auth.Store.{Client, Error, TokenSet, Outcome}
use codexlink.Auth.Server.{
  Server, Web, Request, Moment, Response, get, prune_pending, String, Bool, tokens, base,
}
use codexlink.Auth.Server.Authorize.{
  resolve_client, authorize_complete, complete_found, complete_replayed, complete_paired,
  complete_coded,
}
use codexlink.Auth.Server.Token.{
  token_authenticated, client_named, authenticate, authenticate_resolved, authenticate_assertion,
  token, grant, granted, check_jti, record_jti, jti_key,
}
use codexlink.Auth.Server.Access.{revoke, register_client, register_answer}

module _ (web : Web) where
  pub complete_jtis :
      (s : Server) (request : Request) (m : Moment)
      → (authorize_complete web s request m).0.assertion_jtis ≡ s.assertion_jtis
  unfolding authorize_complete complete_found complete_replayed complete_paired complete_coded
      prune_pending
  complete_jtis s request m = ground arith

  pub register_jtis :
      (s : Server) (request : Request) (m : Moment) (body : Option (Result Error Client)) (b : Bool)
      → (register_client web s request m body b).0.assertion_jtis ≡ s.assertion_jtis
  unfolding register_client register_answer
  register_jtis s request m body b = ground arith

  pub revoke_jtis :
      (s : Server) (request : Request) (m : Moment)
      → (revoke web s request m).0.assertion_jtis ≡ s.assertion_jtis
  unfolding revoke
  revoke_jtis s request m = ground arith

  -- The assertion is known to be used until `b`, at least.
  abbrev pub Holds : String → ℕ → Server → Type 0
  Holds key b s = (t : ℕ) × (lookup key s.assertion_jtis ≡ some t) × (b ≤ t)

  check_jti-Holds :
      (key : String) (b : ℕ) (s : Server) (m : Moment) (client : Client) (o : Option (String × ℕ))
      → m.swept_at < b
      → Holds key b s
      → Holds key b (check_jti s m client o).0
  unfolding check_jti
  check_jti-Holds key b s m client none lt h = h
  check_jti-Holds key b s m client (some (jti, e)) lt (t, found, le) = (
    t,
    ground (
      arith,
      lookup-retain_kept key (λ expiry. before m.swept_at expiry) s.assertion_jtis t found,
    ),
    le,
  )

  record_jti-Holds :
      (key : String) (b : ℕ) (s : Server) (id jti : String) (now : ℕ)
      → b ≤ now + 5 * minute
      → Holds key b s
      → Holds key b (record_jti s id jti now)
  unfolding record_jti
  record_jti-Holds key b s id jti now le (t, found, le') = elim (Bool-cases (str_eq jti "")) [
    | inl blank ↦ rw blank (t, found, le')
    | inr named ↦ elim (Bool-cases (str_eq (jti_key id jti) key)) [
      | inl same ↦ rw named (
        now + 5 * minute,
        ground (arith, lookup-insert key (jti_key id jti) (now + 5 * minute) s.assertion_jtis),
        le,
      )
      | inr other ↦ rw named (
        t,
        ground (arith, lookup-insert key (jti_key id jti) (now + 5 * minute) s.assertion_jtis),
        le',
      )
    ]
  ]

  granted-Holds :
      (key : String) (b : ℕ) (s : Server) (m : Moment) (client : Client) (jti : String)
      (o : Outcome TokenSet)
      → b ≤ m.recorded_at + 5 * minute
      → Holds key b s
      → Holds key b (granted s m client jti o).0
  unfolding granted
  granted-Holds key b s m client jti (store, err e) le h = h
  granted-Holds key b s m client jti (store, ok set) le h =
      record_jti-Holds key b (record s { store = store }) client.id jti m.recorded_at le h

  -- A grant leaves the state, or answers with what the store gave.
  abbrev pub Grants : Server → Moment → Client → String → Server × Response → Type 0
  Grants s m client jti r =
      ((r.0 ≡ s) × ((set : TokenSet) → r.1 ≢ tokens set))
      ⊎ ((o : Outcome TokenSet) × (r ≡ granted s m client jti o))

  pub grant-Grants :
      (s : Server) (m : Moment) (form : List (String × String)) (id : String) (client : Client)
      (jti : String)
      → Grants s m client jti (grant web s m form id client jti)
  unfolding grant
  grant-Grants s m form id client jti =
      elim (Bool-cases (str_eq (get form "grant_type") "authorization_code")) [
        | inl coded ↦
            elim (Bool-cases (
              str_eq (get form "code") ""
              || str_eq (get form "code_verifier") ""
              || str_eq id ""
              || str_eq (get form "redirect_uri") "")) [
                | inl lacking ↦ rw (coded, lacking) (inl (refl, λ set e. cc))
                | inr given ↦ rw (coded, given) (inr (_, refl))
              ]
        | inr uncoded ↦ elim (Bool-cases (str_eq (get form "grant_type") "refresh_token")) [
          | inl refreshed ↦
              elim (Bool-cases (str_eq (get form "refresh_token") "" || str_eq id "")) [
                | inl lacking ↦ rw (uncoded, refreshed, lacking) (inl (refl, λ set e. cc))
                | inr given ↦ rw (uncoded, refreshed, given) (inr (_, refl))
              ]
          | inr other ↦ rw (uncoded, other) (inl (refl, λ set e. cc))
        ]
      ]

  grant-Holds :
      (key : String) (b : ℕ) (s : Server) (m : Moment) (form : List (String × String)) (id : String)
      (client : Client) (jti : String)
      → b ≤ m.recorded_at + 5 * minute
      → Holds key b s
      → Holds key b (grant web s m form id client jti).0
  grant-Holds key b s m form id client jti le h = elim (grant-Grants s m form id client jti) [
    | inl (same, none_given) ↦ rw same h
    | inr (o, e) ↦ rw e (granted-Holds key b s m client jti o le h)
  ]

  -- A client is authenticated without an assertion, or with one that is verified and not used.
  abbrev pub Authenticates :
      Server
      → Request
      → Moment
      → List (String × String)
      → Server × Option (Client × String)
      → Type 0
  Authenticates s request m form r =
      ((r.0 ≡ s) × ((c : Client × String) → r.1 ≡ some c → get form "client_assertion" ≡ ""))
      ⊎ ((client : Client) × (r
            ≡ check_jti s m client (
                verify web.jwt m.keys (get form "client_assertion") client
                  (append (base request) "/oauth/token") m.authenticated_at)))

  pub authenticate_resolved-Authenticates :
      (s : Server) (request : Request) (m : Moment) (form : List (String × String))
      (o : Option Client)
      → Authenticates s request m form (authenticate_resolved web s request m form o)
  unfolding authenticate_resolved authenticate_assertion
  authenticate_resolved-Authenticates s request m form none = inl (refl, λ c e. cc)
  authenticate_resolved-Authenticates s request m form (some client) =
      elim (Bool-cases (
        str_eq client.token_endpoint_auth_method ""
        || str_eq client.token_endpoint_auth_method "none")) [
          | inl public ↦
              rw public (inl (refl, λ c e. ground (arith, eq_iff (get form "client_assertion") "")))
          | inr other ↦
              elim (Bool-cases (str_eq client.token_endpoint_auth_method "private_key_jwt")) [
                | inl private ↦
                    elim (Bool-cases (
                      not (
                        str_eq (get form "client_assertion_type")
                          "urn:ietf:params:oauth:client-assertion-type:jwt-bearer"))) [
                            | inl bad ↦ rw (other, private, bad) (inl (refl, λ c e. cc))
                            | inr good ↦
                                elim (Bool-cases (str_eq (get form "client_assertion") "")) [
                                  | inl blank ↦
                                      rw (other, private, good, blank) (inl (refl, λ c e. cc))
                                  | inr given ↦
                                      rw (other, private, good, given) (inr (client, refl))
                                ]
                          ]
                | inr neither ↦ rw (other, neither) (inl (refl, λ c e. cc))
              ]
        ]

  pub authenticate-Authenticates :
      (s : Server) (request : Request) (m : Moment) (form : List (String × String)) (id : String)
      → Authenticates s request m form (authenticate web s request m form id)
  unfolding authenticate
  authenticate-Authenticates s request m form id = elim (Bool-cases (str_eq id "")) [
    | inl blank ↦ rw blank (inl (refl, λ c e. cc))
    | inr named ↦
        rw named (
          authenticate_resolved-Authenticates s request m form (resolve_client web s m.resolved id))
  ]

  authenticate-Holds :
      (key : String) (b : ℕ) (s : Server) (request : Request) (m : Moment)
      (form : List (String × String)) (id : String)
      → m.swept_at < b
      → Holds key b s
      → Holds key b (authenticate web s request m form id).0
  authenticate-Holds key b s request m form id lt h =
      elim (authenticate-Authenticates s request m form id) [
        | inl (same, _) ↦ rw same h
        | inr (client, e) ↦ rw e (check_jti-Holds key b s m client _ lt h)
      ]

  token_authenticated-Holds :
      (key : String) (b : ℕ) (m : Moment) (form : List (String × String)) (id : String) (s : Server)
      (o : Option (Client × String))
      → b ≤ m.recorded_at + 5 * minute
      → Holds key b s
      → Holds key b (token_authenticated web m form id (s, o)).0
  unfolding token_authenticated
  token_authenticated-Holds key b m form id s none le h = h
  token_authenticated-Holds key b m form id s (some (client, jti)) le h =
      grant-Holds key b s m form id client jti le h

  pub token_form-Holds :
      (key : String) (b : ℕ) (s : Server) (request : Request) (m : Moment)
      (o : Option (List (String × String)))
      → request.parameters ≡ o
      → m.swept_at < b
      → b ≤ m.recorded_at + 5 * minute
      → Holds key b s
      → Holds key b (token web s request m).0
  unfolding token
  token_form-Holds key b s request m none e lt le h =
      elim (Bool-cases (not (str_eq request.method "POST"))) [
        | inl other ↦ rw other h
        | inr post ↦ rw (post, e) h
      ]
  token_form-Holds key b s request m (some form) e lt le h =
      elim (Bool-cases (not (str_eq request.method "POST"))) [
        | inl other ↦ rw other h
        | inr post ↦
            rw (post, e)
              (token_authenticated-Holds key b m form (client_named web form) _ _ le
                (authenticate-Holds key b s request m form (client_named web form) lt h))
      ]
