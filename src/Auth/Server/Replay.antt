-- ===== src/Auth/Server/Replay.antt =====
-- Client assertions at the token endpoint of internal/auth/http.go are used once.
use mathlib.Core.Path.{subst}
use codexlink.Prelude.{
  ℕ, none, some, [], Option, List, ◌∷◌, refl, ◌≡◌, String, arith, ◌≢◌, inl, inr, ◌≤◌, ◌<◌, ◌+◌, ◌*◌,
}
use Prim.Native.String.{◌++◌ as append}
use codexlink.Prelude.Assoc.{lookup, retain}
use codexlink.Prelude.Assoc.Laws.{lookup-retain_kept}
use codexlink.Prelude.Time.{minute, before}
use codexlink.Auth.Assertion.{verify}
use codexlink.Auth.Assertion.Window.{verify-Ahead, verify_same}
use codexlink.Auth.Store.{Client, TokenSet}
use codexlink.Auth.Server.{Server, Web, Request, Moment, get, String, tokens, base}
use codexlink.Auth.Server.Authorize.{authorize}
use codexlink.Auth.Server.Token.{
  is_found, token_authenticated, client_named, authenticate, token, check_jti, jti_key,
}
use codexlink.Auth.Server.Untouched.{start-Untouched}
use codexlink.Auth.Server.Recorded.{
  Holds, authenticate-Authenticates, token_form-Holds, complete_jtis, register_jtis, revoke_jtis,
}
use codexlink.Auth.Server.Calls.{
  Call, authorizes, asks_token, revokes, registers, pairs, revokes_all, revokes_audience, step, run,
}
use codexlink.Auth.Server.Used.{Uses, public_gives_none, token-Uses, token-authenticates}

-- A call comes after an assertion was recorded at `from` and before it is checked at `to`.
abbrev pub Between : ℕ → ℕ → Call → Type 0
Between from to (asks_token request m) = (from ≤ m.recorded_at) × (m.swept_at ≤ to)
Between from to c = Unit {0}

abbrev pub AllBetween : ℕ → ℕ → List Call → Type 0
AllBetween from to [] = Unit {0}
AllBetween from to (c ∷ cs) = Between from to c × AllBetween from to cs

module _ (web : Web) where
  authorize_jtis :
      (s : Server) (request : Request) (m : Moment)
      → (authorize web s request m).0.assertion_jtis ≡ s.assertion_jtis
  unfolding authorize
  authorize_jtis s request m =
      ground (arith, start-Untouched web s request m, complete_jtis web s request m)

  step-Holds :
      (key : String) (from to : ℕ) (s : Server) (c : Call)
      → to < from + 5 * minute
      → Between from to c
      → Holds web key (from + 5 * minute) s
      → Holds web key (from + 5 * minute) (step web s c)
  unfolding step
  step-Holds key from to s (authorizes request m) lt b h = rw (authorize_jtis s request m) h
  step-Holds key from to s (asks_token request m) lt b h =
      token_form-Holds web key (from + 5 * minute) s request m _ refl (omega (arith, lt, b))
        (omega (arith, b)) h
  step-Holds key from to s (revokes request m) lt b h = rw (revoke_jtis web s request m) h
  step-Holds key from to s (registers request m body about) lt b h =
      rw (register_jtis web s request m body about) h
  step-Holds key from to s (pairs c) lt b h = h
  step-Holds key from to s (revokes_all env) lt b h = h
  step-Holds key from to s (revokes_audience audience env) lt b h = h

  run-Holds :
      (key : String) (from to : ℕ) (s : Server) (cs : List Call)
      → to < from + 5 * minute
      → AllBetween from to cs
      → Holds web key (from + 5 * minute) s
      → Holds web key (from + 5 * minute) (run web s cs)
  unfolding run
  run-Holds key from to s [] lt b h = h
  run-Holds key from to s (c ∷ cs) lt b h =
      run-Holds key from to (step web s c) cs lt b.1 (step-Holds key from to s c lt b.0 h)

  check_jti_refuses :
      (key : String) (b : ℕ) (m : Moment) (form : List (String × String)) (id : String) (s : Server)
      (client : Client) (o : Option (String × ℕ)) (set : TokenSet)
      → ((q : String × ℕ) → o ≡ some q → (jti_key client.id q.0 ≡ key) × (m.swept_at < b))
      → Holds web key b s
      → (token_authenticated web m form id (check_jti s m client o)).1 ≢ tokens set
  unfolding token_authenticated check_jti is_found
  check_jti_refuses key b m form id s client none set same h = λ e. cc
  check_jti_refuses key b m form id s client (some (jti, x)) set same (t, found, le) =
      let (is_key, lt) = same (jti, x) refl in
      let kept =
        lookup-retain_kept key (λ expiry. before m.swept_at expiry) s.assertion_jtis t found
          (ground arith) in
      let kept' : lookup (jti_key client.id jti)
            (retain (λ expiry. before m.swept_at expiry) s.assertion_jtis)
          ≡ some t =
        rw is_key kept in
      λ e. ground (arith, e, kept')

  authenticated_refuses :
      (key : String) (b : ℕ) (s : Server) (request : Request) (m : Moment)
      (form : List (String × String)) (id : String) (set : TokenSet)
      → get form "client_assertion" ≢ ""
      → ((client : Client) (q : String × ℕ)
          → verify web.jwt m.keys
              (get form "client_assertion")
              client
              (append (base request) "/oauth/token")
              m.authenticated_at
            ≡ some q
          → (jti_key client.id q.0 ≡ key) × (m.swept_at < b))
      → Holds web key b s
      → (token_authenticated web m form id (authenticate web s request m form id)).1 ≢ tokens set
  authenticated_refuses key b s request m form id set given same h =
      elim (authenticate-Authenticates web s request m form id) [
        | inl (_, public) ↦ public_gives_none web m form id _ _ set public given
        | inr (client, e) ↦ rw e (check_jti_refuses key b m form id s client _ set (same client) h)
      ]

  same_verified :
      (request : Request) (m : Moment) (form : List (String × String)) (later : Request)
      (n : Moment) (later_form : List (String × String)) {s : Server}
      (u : Uses web request m form s) (client : Client) (q : String × ℕ)
      → get later_form "client_assertion" ≡ get form "client_assertion"
      → verify web.jwt n.keys
          (get later_form "client_assertion")
          client
          (append (base later) "/oauth/token")
          n.authenticated_at
        ≡ some q
      → (client.id ≡ u.client.id) × (q ≡ (u.jti, u.expires_at))
  same_verified request m form later n later_form u client q same v =
      verify_same web.jwt m.keys n.keys (get form "client_assertion") u.client client
        (append (base request) "/oauth/token") (append (base later) "/oauth/token")
        m.authenticated_at n.authenticated_at (u.jti, u.expires_at) q u.verified
        (subst
          (λ z.
            verify web.jwt n.keys z client (append (base later) "/oauth/token") n.authenticated_at
            ≡ some q)
          same v)

  ends_before :
      (request : Request) (m : Moment) (form : List (String × String)) (later : Request)
      (n : Moment) (later_form : List (String × String)) {s s' : Server}
      (u : Uses web request m form s) (v : Uses web later n later_form s')
      → get later_form "client_assertion" ≡ get form "client_assertion"
      → m.authenticated_at ≤ m.recorded_at
      → n.swept_at + m.authenticated_at ≤ n.authenticated_at + m.recorded_at
      → n.swept_at < m.recorded_at + 5 * minute
  ends_before request m form later n later_form u v same order quick =
      let ahead =
        verify-Ahead web.jwt v.client (append (base later) "/oauth/token") n.keys
          (get later_form "client_assertion") n.authenticated_at (v.jti, v.expires_at) v.verified in
      let ahead' =
        verify-Ahead web.jwt u.client (append (base request) "/oauth/token") m.keys
          (get form "client_assertion") m.authenticated_at (u.jti, u.expires_at) u.verified in
      let (id, r) =
        same_verified request m form later n later_form u v.client (v.jti, v.expires_at) same
          v.verified in
      ground (arith, r, ahead, ahead', order, quick)

  -- A client assertion is used once: after a token request with it that gave tokens, and any calls that
  -- come between in time, no token request with the same assertion gives tokens, under whatever client
  -- and with whatever keys, if it takes no longer from the reading of the clock to the search for the
  -- assertion than the first one took to record it.
  pub token_once :
      (s : Server) (request : Request) (m : Moment) (form : List (String × String)) (set : TokenSet)
      (cs : List Call) (later : Request) (n : Moment) (later_form : List (String × String))
      (later_set : TokenSet)
      → request.parameters ≡ some form
      → later.parameters ≡ some later_form
      → get form "client_assertion" ≢ ""
      → get later_form "client_assertion" ≡ get form "client_assertion"
      → (token web s request m).1 ≡ tokens set
      → m.authenticated_at ≤ m.recorded_at
      → AllBetween m.recorded_at n.swept_at cs
      → n.swept_at + m.authenticated_at ≤ n.authenticated_at + m.recorded_at
      → (token web (run web (token web s request m).0 cs) later n).1 ≢ tokens later_set
  token_once s request m form set cs later n later_form later_set e f given same h order between
        quick =
      let used = token-Uses web s request m form set e given h in
      let after = run web (token web s request m).0 cs in
      let given' : get later_form "client_assertion" ≢ "" = rw same given in
      λ g.
        let again = token-Uses web after later n later_form later_set f given' g in
        let lt = ends_before request m form later n later_form used again same order quick in
        absurd (
          authenticated_refuses (jti_key used.client.id used.jti) (m.recorded_at + 5 * minute) after
            later n later_form (client_named web later_form) later_set given'
            (λ client q v.
              let (id, r) = same_verified request m form later n later_form used client q same v in
              (ground (arith, id, r), lt))
            (run-Holds (jti_key used.client.id used.jti) m.recorded_at n.swept_at _ cs lt between
              (m.recorded_at + 5 * minute, used.recorded, omega arith))
            (ground (arith, g, token-authenticates web after later n later_form later_set f g)))
