-- ===== src/Auth/Store/Codes.antt =====
-- What the calls of internal/auth/store.go other than `CreateAuthorizationCode` do to the authorization
-- codes: none is added or changed.
use codexlink.Prelude.{
  ℕ, none, some, Option, List, ok, err, Result, refl, true, false, Bool, String, arith, ◌≡◌,
  Bool-cases, inl, inr, leb, length,
}
use codexlink.Prelude.Assoc.{insert, All}
use codexlink.Prelude.Assoc.Laws.{All-retain, All-delete, All-insert}
use codexlink.Auth.Store.{
  AuthorizationCode, TokenRecord, RefreshTombstone, Client, Store, TokenSet, Error, Lib, Env,
  Outcome, prune, write, save, is_live_code,
}
use codexlink.Auth.Store.Access.{revoke_found, revoke, revoke_all, revoke_audience}
use codexlink.Auth.Store.Clients.{register, registered, make_client_room}
use codexlink.Auth.Store.Issue.{
  family_of, finish, add_tokens, draw_family, issue_tokens, exchange_found, exchange_code,
  create_code, AuthorizationCodeRequest, family_of,
}
use codexlink.Auth.Store.Refresh.{replayed, rotated, rotate, refresh_found, refresh}

module _ (lib : Lib) (P : String → AuthorizationCode → Type 0) where
  -- Every code of the store has the property.
  abbrev pub AllCodes : Store → Type 0
  AllCodes s = All P s.codes

  pub prune-AllCodes : (s : Store) (now : ℕ) → AllCodes s → AllCodes (prune s now)
  unfolding prune
  prune-AllCodes s now h = All-retain P (is_live_code now) s.codes h

  pub save-AllCodes : (s : Store) (env : Env) → AllCodes s → AllCodes (save lib s env).0
  unfolding save write
  save-AllCodes s env h = ground (arith, prune-AllCodes s env.saved_at h)

  finish-AllCodes :
      (o : Outcome (Unit {0})) (text : String) (refresh_text : Option String) (scopes : List String)
      → AllCodes o.0
      → AllCodes (finish lib o text refresh_text scopes).0
  unfolding finish
  finish-AllCodes (s, ok _) text refresh_text scopes h = h
  finish-AllCodes (s, err e) text none scopes h = h
  finish-AllCodes (s, err e) text (some r) scopes h = h

  add_tokens-AllCodes :
      (s : Store) (client_id : String) (scopes : List String) (audience family_id : String)
      (allowed : Bool) (env : Env) (text : String) (refresh_text : Option String) (issues : Bool)
      → AllCodes s
      → AllCodes
          (add_tokens lib s client_id scopes audience family_id allowed env text refresh_text
            issues).0
  unfolding add_tokens
  add_tokens-AllCodes s client_id scopes audience family_id allowed env text r false h =
      finish-AllCodes _ text none scopes (save-AllCodes _ env h)
  add_tokens-AllCodes s client_id scopes audience family_id allowed env text none true h = h
  add_tokens-AllCodes s client_id scopes audience family_id allowed env text (some r) true h =
      finish-AllCodes _ text (some r) scopes (save-AllCodes _ env h)

  draw_family-AllCodes :
      (s : Store) (client_id : String) (scopes : List String) (audience : String) (allowed : Bool)
      (env : Env) (text family : Option String)
      → AllCodes s
      → AllCodes (draw_family lib s client_id scopes audience allowed env text family).0
  unfolding draw_family
  draw_family-AllCodes s client_id scopes audience allowed env none family h = h
  draw_family-AllCodes s client_id scopes audience allowed env (some text) none h = h
  draw_family-AllCodes s client_id scopes audience allowed env (some text) (some family) h =
      add_tokens-AllCodes s client_id scopes audience family allowed env text env.refresh_text _ h

  issue_tokens-AllCodes :
      (s : Store) (client_id : String) (scopes : List String) (audience family_id : String)
      (allowed : Bool) (env : Env)
      → AllCodes s
      → AllCodes (issue_tokens lib s client_id scopes audience family_id allowed env).0
  unfolding issue_tokens
  issue_tokens-AllCodes s client_id scopes audience family_id allowed env h =
      let p = prune-AllCodes s env.pruned_again_at h in
      let d =
        draw_family-AllCodes (prune s env.pruned_again_at) client_id scopes audience allowed env
          env.access_text (family_of lib family_id env.family_text) p in
      ground arith

  exchange_found-AllCodes :
      (s : Store) (client_id redirect_uri verifier audience : String) (env : Env)
      (o : Option AuthorizationCode)
      → AllCodes s
      → AllCodes (exchange_found lib s client_id redirect_uri verifier audience env o).0
  unfolding exchange_found
  exchange_found-AllCodes s client_id redirect_uri verifier audience env none h = h
  exchange_found-AllCodes s client_id redirect_uri verifier audience env (some c) h =
      let i = issue_tokens-AllCodes s client_id c.scopes c.audience "" c.refresh_allowed env h in
      ground arith

  pub exchange_code-AllCodes :
      (s : Store) (code client_id redirect_uri verifier audience : String) (env : Env)
      → AllCodes s
      → AllCodes (exchange_code lib s code client_id redirect_uri verifier audience env).0
  unfolding exchange_code
  exchange_code-AllCodes s code client_id redirect_uri verifier audience env h =
      exchange_found-AllCodes _ client_id redirect_uri verifier audience env _
        (All-delete P (lib.hash_value code) _ (prune-AllCodes s env.pruned_at h))

  replayed-AllCodes :
      (s : Store) (env : Env) (o : Option RefreshTombstone)
      → AllCodes s
      → AllCodes (replayed lib s env o).0
  unfolding replayed
  replayed-AllCodes s env none h = h
  replayed-AllCodes s env (some t) h = save-AllCodes _ env h

  rotated-AllCodes :
      (h : String) (old : TokenRecord) (o : Outcome TokenSet)
      → AllCodes o.0
      → AllCodes (rotated lib h old o).0
  unfolding rotated
  rotated-AllCodes h old (s, ok set) a = a
  rotated-AllCodes h old (s, err e) a = a

  rotate-AllCodes :
      (s : Store) (h client_id : String) (old : TokenRecord) (env : Env)
      → AllCodes s
      → AllCodes (rotate lib s h client_id old env).0
  unfolding rotate
  rotate-AllCodes s h client_id old env a =
      rotated-AllCodes h old _
        (issue_tokens-AllCodes _ client_id old.scopes old.audience old.family_id true env a)

  refresh_found-AllCodes :
      (s : Store) (h client_id audience : String) (env : Env) (o : Option TokenRecord)
      → AllCodes s
      → AllCodes (refresh_found lib s h client_id audience env o).0
  unfolding refresh_found
  refresh_found-AllCodes s h client_id audience env none a = replayed-AllCodes s env _ a
  refresh_found-AllCodes s h client_id audience env (some old) a =
      let r = rotate-AllCodes s h client_id old env a in ground arith

  pub refresh-AllCodes :
      (s : Store) (text client_id audience : String) (env : Env)
      → AllCodes s
      → AllCodes (refresh lib s text client_id audience env).0
  unfolding refresh
  refresh-AllCodes s text client_id audience env a =
      refresh_found-AllCodes _ (lib.hash_value text) client_id audience env _
        (prune-AllCodes s env.pruned_at a)

  revoke_found-AllCodes :
      (s : Store) (h : String) (o : Option TokenRecord) (t : Option RefreshTombstone)
      → AllCodes s
      → AllCodes (revoke_found lib s h o t)
  unfolding revoke_found
  revoke_found-AllCodes s h (some r) t a = ground arith
  revoke_found-AllCodes s h none (some t) a = a
  revoke_found-AllCodes s h none none a = a

  pub revoke-AllCodes :
      (s : Store) (text : String) (env : Env) → AllCodes s → AllCodes (revoke lib s text env).0
  unfolding revoke
  revoke-AllCodes s text env a =
      save-AllCodes _ env (revoke_found-AllCodes s (lib.hash_value text) _ _ a)

  pub revoke_all-AllCodes : (s : Store) (env : Env) → AllCodes (revoke_all lib s env).0.0
  unfolding revoke_all
  revoke_all-AllCodes s env = save-AllCodes _ env tt

  make_client_room-AllCodes : (s : Store) → AllCodes s → AllCodes (make_client_room s)
  unfolding make_client_room
  make_client_room-AllCodes s a = ground arith

  registered-AllCodes :
      (previous : Store) (o : Outcome (Unit {0})) (client : Client)
      → AllCodes o.0
      → AllCodes (registered lib previous o client).0
  unfolding registered
  registered-AllCodes previous (s, ok _) client a = a
  registered-AllCodes previous (s, err e) client a = a

  pub register-AllCodes :
      (s : Store) (client : Result Error Client) (env : Env)
      → AllCodes s
      → AllCodes (register lib s client env).0
  unfolding register
  register-AllCodes s (err e) env a = a
  register-AllCodes s (ok client) env a =
      let r = make_client_room (prune s env.pruned_at) in
      let room = make_client_room-AllCodes _ (prune-AllCodes s env.pruned_at a) in
      elim (Bool-cases (leb r.max_clients (length r.clients))) [
        | inl full ↦ rw full room
        | inr spare ↦ rw spare (
            registered-AllCodes (prune s env.pruned_at) _ client
              (save-AllCodes (record r { clients = insert client.id client r.clients }) env room))
      ]

  pub revoke_audience-AllCodes :
      (s : Store) (audience : String) (env : Env)
      → AllCodes s
      → AllCodes (revoke_audience lib s audience env).0.0
  unfolding revoke_audience
  revoke_audience-AllCodes s audience env a = save-AllCodes _ env a

  -- A code is added only by `CreateAuthorizationCode`.
  pub create_code-AllCodes :
      (s : Store) (request : AuthorizationCodeRequest) (env : Env) (text : Option String)
      → ((c : AuthorizationCode) (h : String)
          → c.client_id ≡ request.client_id
          → c.redirect_uri ≡ request.redirect_uri
          → c.code_challenge ≡ request.code_challenge
          → c.scopes ≡ request.scopes
          → c.refresh_allowed ≡ request.refresh_allowed
          → P h c)
      → AllCodes s
      → AllCodes (create_code lib s request env text).0
  unfolding create_code
  create_code-AllCodes s request env none p a = a
  create_code-AllCodes s request env (some code) p a =
      let kept = prune-AllCodes s env.pruned_at a in
      elim (Bool-cases (
        leb (prune s env.pruned_at).max_authorization_codes
          (length (prune s env.pruned_at).codes))) [
            | inl full ↦ rw full kept
            | inr room ↦
                rw room
                  (All-insert P (lib.hash_value code) _ _ (p _ _ refl refl refl refl refl) kept)
          ]
