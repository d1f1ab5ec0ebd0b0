-- ===== src/Auth/Store/Bounds/Calls.antt =====
-- Every call of internal/auth/store.go keeps the tables within their capacities.
use codexlink.Prelude.{
  ℕ, ◌+◌, ◌≤◌, true, not, Option, none, some, [], ◌≡◌, refl, arith, String, str_eq, leb, length,
  Result, ok, err, Bool-cases, inl, inr, ap, ◌∙◌,
}
use codexlink.Prelude.Assoc.{lookup, insert, delete, retain}
use codexlink.Prelude.Assoc.Laws.{
  insert-IsUnique, delete-IsUnique, retain-IsUnique, length-insert_le, length-delete_le,
  length-retain_le, length-delete_old, length-shrinks,
}
use codexlink.Auth.Resource.{same_resource}
use codexlink.Auth.Store.{
  StoreOptions, TokenRecord, AuthorizationCode, RefreshTombstone, Client, Store, TokenSet, Error,
  Lib, Env, Outcome, prune, save,
}
use codexlink.Auth.Store.Access.{revoke_found, revoke, revoke_all, revoke_audience}
use codexlink.Auth.Store.Bounds.{
  IsValid, with_tokens, prune-IsValid, save-IsValid, save-options, Issued, issue_tokens-Issued,
}
use codexlink.Auth.Store.Clients.{register, registered, make_client_room}
use codexlink.Auth.Store.Issue.{
  AuthorizationCodeRequest, create_code, exchange_found, exchange_code, revoke_family,
}
use codexlink.Auth.Store.Refresh.{replayed, rotated, rotate, refresh_found, refresh}
use codexlink.Auth.Store.Bounds.Tables.{
  with_codes, with_tombstones, with_clients, insert_code-IsValid, make_client_room-IsValid,
  make_client_room-options,
}

module _ (lib : Lib) where
  exchange_found-IsValid :
      (u : Store) (client_id redirect_uri verifier audience : String) (env : Env)
      (o : Option AuthorizationCode)
      → IsValid u
      → IsValid (exchange_found lib u client_id redirect_uri verifier audience env o).0
  unfolding exchange_found
  exchange_found-IsValid u client_id redirect_uri verifier audience env none v = v
  exchange_found-IsValid u client_id redirect_uri verifier audience env (some c) v =
      let i =
        (issue_tokens-Issued lib u client_id c.scopes c.audience "" c.refresh_allowed env
          v).valid in
      ground arith

  pub exchange_code-IsValid :
      (s : Store) (code client_id redirect_uri verifier audience : String) (env : Env)
      → IsValid s
      → IsValid (exchange_code lib s code client_id redirect_uri verifier audience env).0
  unfolding exchange_code
  exchange_code-IsValid s code client_id redirect_uri verifier audience env v =
      let t = prune s env.pruned_at in
      let w = prune-IsValid s env.pruned_at v in
      let h = lib.hash_value code in
      exchange_found-IsValid (record t { codes = delete h t.codes }) client_id redirect_uri verifier
        audience env (lookup h t.codes)
        (with_codes t (delete h t.codes) w (delete-IsUnique h t.codes w.unique_codes)
          (omega (arith, w.codes_le, length-delete_le h t.codes)))

  pub create_code-IsValid :
      (s : Store) (request : AuthorizationCodeRequest) (env : Env) (text : Option String)
      → IsValid s
      → IsValid (create_code lib s request env text).0
  unfolding create_code
  create_code-IsValid s request env none v = v
  create_code-IsValid s request env (some code) v =
      let t = prune s env.pruned_at in
      let w = prune-IsValid s env.pruned_at v in
      elim (Bool-cases (leb t.max_authorization_codes (length t.codes))) [
        | inl full ↦ rw full w
        | inr room ↦ rw room (insert_code-IsValid t (lib.hash_value code) _ w room)
      ]

  revoke_family-IsValid :
      (s : Store) (family : String)
      → IsValid s
      → IsValid (record s { tokens = revoke_family family s.tokens })
  unfolding revoke_family
  revoke_family-IsValid s family v =
      let keep = λ (t : TokenRecord). not (str_eq t.family_id family) in
      let w =
        with_tokens s (retain keep s.tokens) v (retain-IsUnique keep s.tokens v.unique_tokens)
          (omega (arith, v.tokens_le, length-retain_le keep s.tokens)) in
      elim (Bool-cases (str_eq family "")) [ inl e ↦ rw e v | inr e ↦ rw e w ]

  replayed-IsValid :
      (s : Store) (env : Env) (o : Option RefreshTombstone)
      → IsValid s
      → IsValid (replayed lib s env o).0
  unfolding replayed
  replayed-IsValid s env none v = v
  replayed-IsValid s env (some t) v = save-IsValid lib _ env (revoke_family-IsValid s t.family_id v)

  rotated-IsValid :
      (s : Store) (h : String) (old : TokenRecord) (o : Outcome TokenSet)
      → Issued lib s o
      → length s.tokens + 1 ≤ s.max_tokens
      → IsValid (rotated lib h old o).0
  unfolding rotated
  rotated-IsValid s h old (t, ok set) i l = i.valid
  rotated-IsValid s h old (t, err e) i l =
      let small =
        length-shrinks s.tokens t.tokens i.valid.unique_tokens (λ k z. i.no_more e k refl z) in
      let same = ap (λ (z : StoreOptions ℕ). z.max_tokens) i.same_options in
      let w =
        with_tombstones t (delete h t.tombstones) i.valid
          (delete-IsUnique h t.tombstones i.valid.unique_tombstones)
          (omega (arith, i.valid.tombstones_le, length-delete_le h t.tombstones)) in
      with_tokens _ (insert h old t.tokens) w (insert-IsUnique h old t.tokens i.valid.unique_tokens)
        (omega (arith, small, same, l, length-insert_le h old t.tokens))

  rotate-IsValid :
      (s : Store) (h client_id : String) (old : TokenRecord) (env : Env)
      → IsValid s
      → lookup h s.tokens ≡ some old
      → length s.tombstones + 1 ≤ s.max_refresh_tombstones
      → IsValid (rotate lib s h client_id old env).0
  unfolding rotate
  rotate-IsValid s h client_id old env v e l =
      let tomb : RefreshTombstone = record {
        hash = h;
        family_id = old.family_id;
        audience = old.audience;
        expires_at = old.expires_at;
      } in
      let m = delete h s.tokens in
      let u = record s { tokens = m; tombstones = insert h tomb s.tombstones } in
      let w =
        with_tombstones (record s { tokens = m }) (insert h tomb s.tombstones)
          (with_tokens s m v (delete-IsUnique h s.tokens v.unique_tokens)
            (omega (arith, v.tokens_le, length-delete_le h s.tokens)))
          (insert-IsUnique h tomb s.tombstones v.unique_tombstones)
          (omega (arith, l, length-insert_le h tomb s.tombstones)) in
      rotated-IsValid u h old _
        (issue_tokens-Issued lib u client_id old.scopes old.audience old.family_id true env w)
        (omega (arith, v.tokens_le, length-delete_old h old s.tokens e))

  refresh_found-IsValid :
      (s : Store) (h client_id audience : String) (env : Env) (o : Option TokenRecord)
      → lookup h s.tokens ≡ o
      → IsValid s
      → IsValid (refresh_found lib s h client_id audience env o).0
  unfolding refresh_found
  refresh_found-IsValid s h client_id audience env none e v = replayed-IsValid s env _ v
  refresh_found-IsValid s h client_id audience env (some old) e v =
      elim (Bool-cases (leb s.max_refresh_tombstones (length s.tombstones))) [
        | inl full ↦ rw full (ground arith)
        | inr room ↦
            let r = rotate-IsValid s h client_id old env v e (ground (arith, room)) in
            rw room (ground arith)
      ]

  pub refresh-IsValid :
      (s : Store) (text client_id audience : String) (env : Env)
      → IsValid s
      → IsValid (refresh lib s text client_id audience env).0
  unfolding refresh
  refresh-IsValid s text client_id audience env v =
      refresh_found-IsValid (prune s env.pruned_at) (lib.hash_value text) client_id audience env _
        refl (prune-IsValid s env.pruned_at v)

  revoke_found-IsValid :
      (s : Store) (h : String) (o : Option TokenRecord) (t : Option RefreshTombstone)
      → IsValid s
      → IsValid (revoke_found lib s h o t)
  unfolding revoke_found
  revoke_found-IsValid s h none none v = v
  revoke_found-IsValid s h none (some t) v = revoke_family-IsValid s t.family_id v
  revoke_found-IsValid s h (some o) t v =
      let f = revoke_family-IsValid s o.family_id v in
      let w =
        with_tokens s (delete h s.tokens) v (delete-IsUnique h s.tokens v.unique_tokens)
          (omega (arith, v.tokens_le, length-delete_le h s.tokens)) in
      ground arith

  pub revoke-IsValid :
      (s : Store) (text : String) (env : Env) → IsValid s → IsValid (revoke lib s text env).0
  unfolding revoke
  revoke-IsValid s text env v =
      let h = lib.hash_value text in
      save-IsValid lib _ env
        (revoke_found-IsValid s h (lookup h s.tokens) (lookup h s.tombstones) v)

  pub revoke_all-IsValid : (s : Store) (env : Env) → IsValid s → IsValid (revoke_all lib s env).0.0
  unfolding revoke_all
  revoke_all-IsValid s env v = save-IsValid lib _ env (
      with_tombstones (record s { tokens = []; codes = [] }) []
        (with_codes (record s { tokens = [] }) [] (with_tokens s [] v tt (omega arith)) tt
          (omega arith))
        tt (omega arith))

  pub revoke_audience-IsValid :
      (s : Store) (audience : String) (env : Env)
      → IsValid s
      → IsValid (revoke_audience lib s audience env).0.0
  unfolding revoke_audience
  revoke_audience-IsValid s audience env v =
      let f = λ (t : TokenRecord). not (same_resource lib.urls t.audience audience) in
      let g = λ (t : RefreshTombstone). not (same_resource lib.urls t.audience audience) in
      save-IsValid lib _ env (
        with_tombstones (record s { tokens = retain f s.tokens }) (retain g s.tombstones)
          (with_tokens s (retain f s.tokens) v (retain-IsUnique f s.tokens v.unique_tokens)
            (omega (arith, v.tokens_le, length-retain_le f s.tokens)))
          (retain-IsUnique g s.tombstones v.unique_tombstones)
          (omega (arith, v.tombstones_le, length-retain_le g s.tombstones)))

  registered-IsValid :
      (s : Store) (o : Outcome (Unit {0})) (client : Client)
      → IsValid s
      → IsValid o.0
      → o.0.options ≡ s.options
      → IsValid (registered lib s o client).0
  unfolding registered
  registered-IsValid s (t, ok _) client v w p = w
  registered-IsValid s (t, err e) client v w p =
      with_clients t s.clients w v.unique_clients
        (omega (arith, v.clients_le, ap (λ (z : StoreOptions ℕ). z.max_clients) p))

  pub register-IsValid :
      (s : Store) (client : Result Error Client) (env : Env)
      → IsValid s
      → IsValid (register lib s client env).0
  unfolding register
  register-IsValid s (err e) env v = v
  register-IsValid s (ok client) env v =
      let t = prune s env.pruned_at in
      let w = prune-IsValid s env.pruned_at v in
      let u = make_client_room t in
      let x = make_client_room-IsValid t w in
      elim (Bool-cases (leb u.max_clients (length u.clients))) [
        | inl full ↦ rw full x
        | inr room ↦
            let m = insert client.id client u.clients in
            let y = record u { clients = m } in
            rw room (
              registered-IsValid t (save lib y env) client w
                (save-IsValid lib y env (
                  with_clients u m x (insert-IsUnique client.id client u.clients x.unique_clients)
                    (ground (arith, room, length-insert_le client.id client u.clients))))
                (save-options lib y env ∙ make_client_room-options t))
      ]
