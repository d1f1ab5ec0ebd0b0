-- ===== src/Auth/Store/Used.antt =====
-- Codes and refresh tokens are used once, over the calls of internal/auth/store.go and histories of them.
use codexlink.Prelude.{
  true, Option, none, some, List, [], ◌∷◌, ◌≡◌, ◌≢◌, refl, arith, String, eq_iff, leb, length,
  Result, ok, err, Bool-cases, inl, inr, ap,
}
use codexlink.Prelude.Assoc.{lookup, insert, delete}
use codexlink.Prelude.Assoc.Laws.{lookup-insert, lookup-delete, lookup-retain-none}
use codexlink.Auth.Store.{
  TokenRecord, AuthorizationCode, RefreshTombstone, Client, Store, TokenSet, Error, Lib, Env,
  Outcome, prune, is_live_code, is_live_token, save, invalid_grant,
}
use codexlink.Auth.Store.Access.{revoke_found, revoke, revoke_all, revoke_audience}
use codexlink.Auth.Store.Clients.{register, registered, make_client_room}
use codexlink.Auth.Store.History.{
  Call, registers, creates, exchanges, refreshes, revokes, revokes_all, revokes_audience, step, run,
}
use codexlink.Auth.Store.Issue.{
  AuthorizationCodeRequest, create_code, issue_tokens, exchange_found, exchange_code,
}
use codexlink.Auth.Store.Refresh.{replayed, rotated, rotate, refresh_found, refresh}
use codexlink.Auth.Store.Gone.{
  Misses, CallMisses, RunMisses, Gone, same-Gone, Gone-trans, prune-Gone, save-Gone,
  exchange_found-Gone, exchange_code-Gone, refresh-Gone, revoke_family-Gone, issue_tokens-Gone,
}

module _ (lib : Lib) (h : String) where
  insert_code-Gone :
      (s : Store) (text : String) (c : AuthorizationCode)
      → Misses lib h (some text)
      → Gone h s (record s { codes = insert (lib.hash_value text) c s.codes })
  insert_code-Gone s text c n = record {
    code = λ e.
        ground (
          arith,
          e,
          eq_iff (lib.hash_value text) h,
          lookup-insert h (lib.hash_value text) c s.codes,
        );
    token = λ e. e;
  }

  pub create_code-Gone :
      (s : Store) (request : AuthorizationCodeRequest) (env : Env) (text : Option String)
      → Misses lib h text
      → Gone h s (create_code lib s request env text).0
  unfolding create_code
  create_code-Gone s request env none n = same-Gone lib h s
  create_code-Gone s request env (some code) n =
      let t = prune s env.pruned_at in
      let g = prune-Gone lib h s env.pruned_at in
      elim (Bool-cases (leb t.max_authorization_codes (length t.codes))) [
        | inl full ↦ rw full g
        | inr room ↦ rw room (Gone-trans lib h s t _ g (insert_code-Gone t code _ n))
      ]

  room-Gone : (s : Store) → Gone h s (make_client_room s)
  unfolding make_client_room
  room-Gone s = record { code = λ e. ground arith; token = λ e. ground arith }

  registered-Gone :
      (s t : Store) (o : Outcome (Unit {0})) (client : Client)
      → Gone h s o.0
      → Gone h s (registered lib t o client).0
  unfolding registered
  registered-Gone s t (u, ok _) client g = g
  registered-Gone s t (u, err e) client g = record { code = g.code; token = g.token }

  pub register-Gone :
      (s : Store) (client : Result Error Client) (env : Env)
      → Gone h s (register lib s client env).0
  unfolding register
  register-Gone s (err e) env = same-Gone lib h s
  register-Gone s (ok client) env =
      let t = prune s env.pruned_at in
      let u = make_client_room t in
      let g = Gone-trans lib h s t u (prune-Gone lib h s env.pruned_at) (room-Gone t) in
      elim (Bool-cases (leb u.max_clients (length u.clients))) [
        | inl full ↦ rw full g
        | inr room ↦
            let v = record u { clients = insert client.id client u.clients } in
            rw room (
              registered-Gone s t (save lib v env) client (
                Gone-trans lib h s v _ (record { code = g.code; token = g.token })
                  (save-Gone lib h v env)))
      ]

  revoke_found-Gone :
      (s : Store) (k : String) (o : Option TokenRecord) (t : Option RefreshTombstone)
      → Gone h s (revoke_found lib s k o t)
  unfolding revoke_found
  revoke_found-Gone s k none none = same-Gone lib h s
  revoke_found-Gone s k none (some t) = record {
    code = λ e. e;
    token = revoke_family-Gone lib h t.family_id s.tokens;
  }
  revoke_found-Gone s k (some o) t = record {
    code = λ e. ground arith;
    token = λ e.
        ground
          (arith, e, lookup-delete h k s.tokens, revoke_family-Gone lib h o.family_id s.tokens e);
  }

  pub revoke-Gone : (s : Store) (text : String) (env : Env) → Gone h s (revoke lib s text env).0
  unfolding revoke
  revoke-Gone s text env =
      Gone-trans lib h s _ _
        (revoke_found-Gone s (lib.hash_value text) (lookup (lib.hash_value text) s.tokens)
          (lookup (lib.hash_value text) s.tombstones))
        (save-Gone lib h _ env)

  pub revoke_all-Gone : (s : Store) (env : Env) → Gone h s (revoke_all lib s env).0.0
  unfolding revoke_all lookup
  revoke_all-Gone s env =
      let t = record s { tokens = []; codes = []; tombstones = [] } in
      Gone-trans lib h s t _ (record { code = λ e. refl; token = λ e. refl })
        (save-Gone lib h t env)

  pub revoke_audience-Gone :
      (s : Store) (audience : String) (env : Env)
      → Gone h s (revoke_audience lib s audience env).0.0
  unfolding revoke_audience
  revoke_audience-Gone s audience env =
      Gone-trans lib h s _ _ (record { code = λ e. e; token = lookup-retain-none h _ s.tokens })
        (save-Gone lib h _ env)

  step-Gone : (s : Store) (k : Call) → CallMisses lib h k → Gone h s (step lib s k)
  unfolding step
  step-Gone s (registers client env) n = register-Gone s client env
  step-Gone s (creates request text env) n = create_code-Gone s request env text n
  step-Gone s (exchanges code client_id redirect_uri verifier audience env) n =
      exchange_code-Gone lib h s code client_id redirect_uri verifier audience env n.0 n.1
  step-Gone s (refreshes text client_id audience env) n =
      refresh-Gone lib h s text client_id audience env n.0 n.1
  step-Gone s (revokes text env) n = revoke-Gone s text env
  step-Gone s (revokes_all env) n = revoke_all-Gone s env
  step-Gone s (revokes_audience audience env) n = revoke_audience-Gone s audience env

  pub run-Gone : (s : Store) (ks : List Call) → RunMisses lib h ks → Gone h s (run lib s ks)
  unfolding run
  run-Gone s [] n = same-Gone lib h s
  run-Gone s (k ∷ ks) n =
      Gone-trans lib h s (step lib s k) _ (step-Gone s k n.0) (run-Gone (step lib s k) ks n.1)

module _ (lib : Lib) where
  -- An exchange leaves no code under the hash.
  exchange_code_used :
      (s : Store) (code client_id redirect_uri verifier audience : String) (env : Env)
      → Misses lib (lib.hash_value code) env.access_text
      → Misses lib (lib.hash_value code) env.refresh_text
      → lookup
          (lib.hash_value code)
          (exchange_code lib s code client_id redirect_uri verifier audience env).0.codes
        ≡ none
  unfolding exchange_code
  exchange_code_used s code client_id redirect_uri verifier audience env n k =
      let h = lib.hash_value code in
      let t = prune s env.pruned_at in
      let u = record t { codes = delete h t.codes } in
      (exchange_found-Gone lib h u client_id redirect_uri verifier audience env (lookup h t.codes) n
          k).code
        (ground (arith, lookup-delete h h t.codes, eq_iff h h))

  exchange_code_unknown :
      (s : Store) (code client_id redirect_uri verifier audience : String) (env : Env)
      → lookup (lib.hash_value code) s.codes ≡ none
      → (exchange_code lib s code client_id redirect_uri verifier audience env).1
        ≡ err invalid_grant
  unfolding exchange_code prune exchange_found
  exchange_code_unknown s code client_id redirect_uri verifier audience env e =
      rw (lookup-retain-none (lib.hash_value code) (is_live_code env.pruned_at) s.codes e) refl

  -- An authorization code is tried once: after an exchange, whatever it answered, and any calls, none of
  -- which draws a text with the code's hash, each further exchange of it is refused as an invalid grant.
  pub exchange_once :
      (s : Store) (code client_id redirect_uri verifier audience : String) (env : Env)
      (ks : List Call) (client_id' redirect_uri' verifier' audience' : String) (later : Env)
      → RunMisses lib
          (lib.hash_value code)
          (exchanges code client_id redirect_uri verifier audience env ∷ ks)
      → (exchange_code lib
          (run lib s (exchanges code client_id redirect_uri verifier audience env ∷ ks))
          code
          client_id'
          redirect_uri'
          verifier'
          audience'
          later).1
        ≡ err invalid_grant
  unfolding run step
  exchange_once s code client_id redirect_uri verifier audience env ks client_id' redirect_uri'
        verifier' audience' later n =
      let t = (exchange_code lib s code client_id redirect_uri verifier audience env).0 in
      exchange_code_unknown (run lib t ks) code client_id' redirect_uri' verifier' audience' later (
        (run-Gone lib (lib.hash_value code) t ks n.1).code
          (exchange_code_used s code client_id redirect_uri verifier audience env n.0.0 n.0.1))

  rotated_used :
      (k : String) (old : TokenRecord) (o : Outcome TokenSet) {s' : Store} {set : TokenSet}
      → lookup k o.0.tokens ≡ none
      → rotated lib k old o ≡ (s', ok set)
      → lookup k s'.tokens ≡ none
  unfolding rotated
  rotated_used k old (t, ok set) e q = ground (arith, e, q)
  rotated_used k old (t, err x) e q = absurd (ground arith)

  pub replayed_fails :
      (s : Store) (env : Env) (o : Option RefreshTombstone) (set : TokenSet)
      → (replayed lib s env o).1 ≢ ok set
  unfolding replayed
  replayed_fails s env none set = λ q. ground arith
  replayed_fails s env (some t) set = λ q. ground arith

  refresh_found_used :
      (s : Store) (h client_id audience : String) (env : Env) (o : Option TokenRecord) {s' : Store}
      {set : TokenSet}
      → Misses lib h env.access_text
      → Misses lib h env.refresh_text
      → refresh_found lib s h client_id audience env o ≡ (s', ok set)
      → lookup h s'.tokens ≡ none
  unfolding refresh_found rotate
  refresh_found_used s h client_id audience env none {s'} {set} n m q =
      absurd (replayed_fails s env _ set (ap (λ (z : Outcome TokenSet). z.1) q))
  refresh_found_used s h client_id audience env (some old) {s'} {set} n m q =
      let tomb : RefreshTombstone = record {
        hash = h;
        family_id = old.family_id;
        audience = old.audience;
        expires_at = old.expires_at;
      } in
      let u = record s { tokens = delete h s.tokens; tombstones = insert h tomb s.tombstones } in
      let o = issue_tokens lib u client_id old.scopes old.audience old.family_id true env in
      let g =
        (issue_tokens-Gone lib h u client_id old.scopes old.audience old.family_id true env n
            m).token
          (ground (arith, lookup-delete h h s.tokens, eq_iff h h)) in
      rotated_used h old o {s' = s'} {set = set} g (ground (arith, q))

  refresh_unknown :
      (s : Store) (text client_id audience : String) (env : Env) (set : TokenSet)
      → lookup (lib.hash_value text) s.tokens ≡ none
      → (refresh lib s text client_id audience env).1 ≢ ok set
  unfolding refresh prune refresh_found
  refresh_unknown s text client_id audience env set e =
      rw (lookup-retain-none (lib.hash_value text) (is_live_token env.pruned_at) s.tokens e)
        (replayed_fails _ env _ set)

  -- A refresh token is used once: after a refresh that gave new tokens, and any calls, none of which draws
  -- a text with the token's hash, no refresh with it gives tokens.
  pub refresh_once :
      (s : Store) (text client_id audience : String) (env : Env) (ks : List Call)
      (client_id' audience' : String) (later : Env) (more : TokenSet) {s' : Store} {set : TokenSet}
      → refresh lib s text client_id audience env ≡ (s', ok set)
      → RunMisses lib (lib.hash_value text) (refreshes text client_id audience env ∷ ks)
      → (refresh lib (run lib s' ks) text client_id' audience' later).1 ≢ ok more
  unfolding refresh
  refresh_once s text client_id audience env ks client_id' audience' later more {s'} {set} q n =
      let h = lib.hash_value text in
      refresh_unknown (run lib s' ks) text client_id' audience' later more (
        (run-Gone lib h s' ks n.1).token (
          refresh_found_used (prune s env.pruned_at) h client_id audience env _ {s' = s'}
            {set = set} n.0.0 n.0.1 q))
