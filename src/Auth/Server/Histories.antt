-- ===== src/Auth/Server/Histories.antt =====
-- Every request and every call of the local program keeps the state of internal/auth/http.go valid.
use codexlink.Prelude.{
  ℕ, none, some, [], Option, List, ◌∷◌, ok, err, Result, Bool, String, arith, ◌≡◌, Bool-cases, inl,
  inr, Option-cases, str_eq,
}
use codexlink.Prelude.Assoc.{retain, All}
use codexlink.Prelude.Int.{ℤ}
use codexlink.Prelude.Time.{before}
use codexlink.Auth.Limits.{OAuthLimits, allow}
use codexlink.Auth.Pairing.{PairingManager}
use codexlink.Auth.Store.{Client, Error, TokenSet, Outcome, Store}
use codexlink.Auth.Store.Access.{revoke as revoke_token}
use codexlink.Auth.Store.Codes.{
  exchange_code-AllCodes, refresh-AllCodes, revoke-AllCodes, revoke_all-AllCodes, register-AllCodes,
  revoke_audience-AllCodes,
}
use codexlink.Auth.Store.Issue.{exchange_code}
use codexlink.Auth.Store.Refresh.{refresh}
use codexlink.Auth.Store.Clients.{register}
use codexlink.Auth.Server.{Server, Web, Request, Moment, get, client_ip, new_server}
use codexlink.Auth.Server.Token.{
  token, token_authenticated, client_named, authenticate, grant, granted, check_jti, record_jti,
}
use codexlink.Auth.Server.Access.{revoke, register_client, register_answer}
use codexlink.Auth.Server.Calls.{
  Call, authorizes, asks_token, revokes, registers, pairs, revokes_all, revokes_audience, step, run,
  NamesClient, WasNamed,
}
use codexlink.Auth.Server.Recorded.{authenticate-Authenticates}
use codexlink.Auth.Server.Pending.{IsValid, FitCode, authorize-IsValid}

module _ (web : Web) (Q : Client → Type 0) where
  with_store :
      (s : Server) (store : Store)
      → All (FitCode web Q) store.codes
      → IsValid web Q s
      → IsValid web Q (record s { store = store })
  with_store s store a v = record {
    unique = v.unique;
    pending_le = v.pending_le;
    pending_fit = v.pending_fit;
    codes_fit = a;
  }

  with_jtis :
      (s : Server) (m : List (String × ℕ))
      → IsValid web Q s
      → IsValid web Q (record s { assertion_jtis = m })
  with_jtis s m v = record {
    unique = v.unique;
    pending_le = v.pending_le;
    pending_fit = v.pending_fit;
    codes_fit = v.codes_fit;
  }

  record_jti-IsValid :
      (s : Server) (id jti : String) (now : ℕ)
      → IsValid web Q s
      → IsValid web Q (record_jti s id jti now)
  unfolding record_jti
  record_jti-IsValid s id jti now v = elim (Bool-cases (str_eq jti "")) [
    | inl blank ↦ rw blank v
    | inr named ↦ rw named (with_jtis s _ v)
  ]

  granted-IsValid :
      (s : Server) (m : Moment) (client : Client) (jti : String) (o : Outcome TokenSet)
      → All (FitCode web Q) o.0.codes
      → IsValid web Q s
      → IsValid web Q (granted s m client jti o).0
  unfolding granted
  granted-IsValid s m client jti (store, err e) a v = with_store s store a v
  granted-IsValid s m client jti (store, ok set) a v =
      record_jti-IsValid _ client.id jti m.recorded_at (with_store s store a v)

  check_jti-IsValid :
      (s : Server) (m : Moment) (client : Client) (o : Option (String × ℕ))
      → IsValid web Q s
      → IsValid web Q (check_jti s m client o).0
  unfolding check_jti
  check_jti-IsValid s m client none v = v
  check_jti-IsValid s m client (some (jti, e)) v =
      let w = with_jtis s (retain (λ expiry. before m.swept_at expiry) s.assertion_jtis) v in
      ground arith

  grant-IsValid :
      (s : Server) (m : Moment) (form : List (String × String)) (id : String) (client : Client)
      (jti : String)
      → IsValid web Q s
      → IsValid web Q (grant web s m form id client jti).0
  unfolding grant
  grant-IsValid s m form id client jti v =
      let a =
        granted-IsValid s m client jti
          (exchange_code web.lib s.store (get form "code") id (get form "redirect_uri")
            (get form "code_verifier") (get form "resource") m.env)
          (exchange_code-AllCodes web.lib (FitCode web Q) s.store (get form "code") id
            (get form "redirect_uri") (get form "code_verifier") (get form "resource") m.env
            v.codes_fit)
          v in
      let b =
        granted-IsValid s m client jti
          (refresh web.lib s.store (get form "refresh_token") id (get form "resource") m.env)
          (refresh-AllCodes web.lib (FitCode web Q) s.store (get form "refresh_token") id
            (get form "resource") m.env v.codes_fit)
          v in
      ground arith

  authenticate-IsValid :
      (s : Server) (request : Request) (m : Moment) (form : List (String × String)) (id : String)
      → IsValid web Q s
      → IsValid web Q (authenticate web s request m form id).0
  authenticate-IsValid s request m form id v =
      elim (authenticate-Authenticates web s request m form id) [
        | inl (same, _) ↦ rw same v
        | inr (client, e) ↦ rw e (check_jti-IsValid s m client _ v)
      ]

  token_authenticated-IsValid :
      (m : Moment) (form : List (String × String)) (id : String) (s : Server)
      (o : Option (Client × String))
      → IsValid web Q s
      → IsValid web Q (token_authenticated web m form id (s, o)).0
  unfolding token_authenticated
  token_authenticated-IsValid m form id s none v = v
  token_authenticated-IsValid m form id s (some (client, jti)) v =
      grant-IsValid s m form id client jti v

  token-IsValid :
      (s : Server) (request : Request) (m : Moment)
      → IsValid web Q s
      → IsValid web Q (token web s request m).0
  unfolding token
  token-IsValid s request m v = elim (Option-cases request.parameters) [
    | inl none_read ↦ ground arith
    | inr (form, read) ↦
        let w =
          token_authenticated-IsValid m form (client_named web form)
            (authenticate web s request m form (client_named web form)).0
            (authenticate web s request m form (client_named web form)).1
            (authenticate-IsValid s request m form (client_named web form) v) in
        ground (arith, read, w)
  ]

  revoke-IsValid :
      (s : Server) (request : Request) (m : Moment)
      → IsValid web Q s
      → IsValid web Q (revoke web s request m).0
  unfolding revoke
  revoke-IsValid s request m v = elim (Option-cases request.parameters) [
    | inl none_read ↦ ground arith
    | inr (form, read) ↦
        let w =
          with_store s (revoke_token web.lib s.store (get form "token") m.env).0
            (revoke-AllCodes web.lib (FitCode web Q) s.store (get form "token") m.env v.codes_fit)
            v in
        ground (arith, read, w)
  ]

  register_answer-IsValid :
      (s : Server) (b : Bool) (o : Outcome Client)
      → All (FitCode web Q) o.0.codes
      → IsValid web Q s
      → IsValid web Q (register_answer s b o).0
  unfolding register_answer
  register_answer-IsValid s b (store, ok client) a v = with_store s store a v
  register_answer-IsValid s b (store, err e) a v = let w = with_store s store a v in ground arith

  register-IsValid :
      (s : Server) (request : Request) (m : Moment) (body : Option (Result Error Client)) (b : Bool)
      → IsValid web Q s
      → IsValid web Q (register_client web s request m body b).0
  unfolding register_client
  register-IsValid s request m body b v =
      let s1 = record s {
        register_limiter = (allow s.register_limiter (client_ip web request) m.limited_at).0;
      } in
      let w : IsValid web Q s1 = record {
        unique = v.unique;
        pending_le = v.pending_le;
        pending_fit = v.pending_fit;
        codes_fit = v.codes_fit;
      } in
      elim (Option-cases body) [
        | inl none_read ↦ ground arith
        | inr (client, read) ↦
            let x =
              register_answer-IsValid s1 b (register web.lib s.store client m.env)
                (register-AllCodes web.lib (FitCode web Q) s.store client m.env v.codes_fit) w in
            ground (arith, read, x)
      ]

  step-IsValid :
      (s : Server) (c : Call)
      → ((client : Client) → NamesClient web s c client → Q client)
      → IsValid web Q s
      → IsValid web Q (step web s c)
  unfolding step
  step-IsValid s (authorizes request m) k v = authorize-IsValid web Q s request m k v
  step-IsValid s (asks_token request m) k v = token-IsValid s request m v
  step-IsValid s (revokes request m) k v = revoke-IsValid s request m v
  step-IsValid s (registers request m body b) k v = register-IsValid s request m body b v
  step-IsValid s (pairs c) k v = record {
    unique = v.unique;
    pending_le = v.pending_le;
    pending_fit = v.pending_fit;
    codes_fit = v.codes_fit;
  }
  step-IsValid s (revokes_all env) k v =
      with_store s _ (revoke_all-AllCodes web.lib (FitCode web Q) s.store env) v
  step-IsValid s (revokes_audience audience env) k v =
      with_store s _
        (revoke_audience-AllCodes web.lib (FitCode web Q) s.store audience env v.codes_fit) v

  run-IsValid :
      (s : Server) (cs : List Call)
      → ((client : Client) → WasNamed web s cs client → Q client)
      → IsValid web Q s
      → IsValid web Q (run web s cs)
  unfolding run
  run-IsValid s [] k v = v
  run-IsValid s (c ∷ cs) k v =
      run-IsValid (step web s c) cs (λ client n. k client (inr n))
        (step-IsValid s c (λ client n. k client (inl n)) v)

module _ (web : Web) where
  -- After any history of requests and local calls on a server that starts without codes: no more
  -- authorizations wait for a pairing code than the limits allow. Each has a well-formed PKCE challenge
  -- and belongs to a client that was found for one of the history's requests to the authorization
  -- endpoint, in the state that it met: it has that client's identifier, that client's redirect URIs
  -- let its redirect URI pass, it allows refresh tokens exactly if the client has the grant of them,
  -- and it asks for one only then. The same holds of every authorization code in the store.
  pub run_server-IsValid :
      (store : Store) (pairing : PairingManager) (limits : OAuthLimits ℤ) (cs : List Call)
      → store.codes ≡ []
      → IsValid web
          (WasNamed web (new_server store pairing limits) cs)
          (run web (new_server store pairing limits) cs)
  unfolding new_server
  run_server-IsValid store pairing limits cs e =
      run-IsValid web _ _ cs (λ client n. n)
        (record { unique = tt; pending_le = omega arith; pending_fit = tt; codes_fit = rw e tt })
