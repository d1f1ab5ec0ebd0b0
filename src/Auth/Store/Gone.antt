-- ===== src/Auth/Store/Gone.antt =====
-- What is gone from the store of internal/auth/store.go stays away: no call brings back a code or a token,
-- unless the random source draws a text with the same hash.
use codexlink.Prelude.{
  ℕ, ◌+◌, Bool, true, false, not, Option, none, some, List, [], ◌∷◌, ◌≡◌, ◌≢◌, refl, arith, String,
  str_eq, eq_iff, ltb, length, ok, err, Bool-cases, inl, inr,
}
use codexlink.Prelude.Assoc.{lookup, insert, delete}
use codexlink.Prelude.Assoc.Laws.{lookup-insert, lookup-delete, lookup-retain-none}
use codexlink.Auth.Store.{
  access, TokenRecord, AuthorizationCode, RefreshTombstone, Store, TokenSet, Lib, Env, Outcome,
  prune, write, save,
}
use codexlink.Auth.Store.History.{Call, creates, env_of}
use codexlink.Auth.Store.Issue.{
  finish, add_tokens, draw_family, issue_tokens, exchange_found, exchange_code, revoke_family,
  needed, issues_refresh, family_of, token,
}
use codexlink.Auth.Store.Refresh.{replayed, rotated, rotate, refresh_found, refresh}

-- The hash is not that of the text, if there is one.
abbrev pub Misses : Lib → String → Option String → Type 0
Misses lib h none = Unit {0}
Misses lib h (some text) = lib.hash_value text ≢ h

-- No text that the call draws has the hash.
abbrev pub CallMisses : Lib → String → Call → Type 0
CallMisses lib h (creates request text env) = Misses lib h text
CallMisses lib h k = Misses lib h (env_of k).access_text × Misses lib h (env_of k).refresh_text

abbrev pub RunMisses : Lib → String → List Call → Type 0
RunMisses lib h [] = Unit {0}
RunMisses lib h (k ∷ ks) = CallMisses lib h k × RunMisses lib h ks

-- What has no code or no token under `h` in the first store has none in the second.
pub record Gone (h : String) (s s' : Store) : Type 0 where
  pub code : lookup h s.codes ≡ none → lookup h s'.codes ≡ none
  pub token : lookup h s.tokens ≡ none → lookup h s'.tokens ≡ none

module _ (lib : Lib) (h : String) where
  pub same-Gone : (s : Store) → Gone h s s
  same-Gone s = record { code = λ e. e; token = λ e. e }

  pub Gone-trans : (s t u : Store) → Gone h s t → Gone h t u → Gone h s u
  Gone-trans s t u g k = record { code = λ e. k.code (g.code e); token = λ e. k.token (g.token e) }

  pub prune-Gone : (s : Store) (now : ℕ) → Gone h s (prune s now)
  unfolding prune
  prune-Gone s now = record {
    code = λ e. lookup-retain-none h _ s.codes e;
    token = λ e. lookup-retain-none h _ s.tokens e;
  }

  write-Gone : (s : Store) (b : Bool) → Gone h s (write lib s b).0
  unfolding write
  write-Gone s b = record { code = λ e. ground arith; token = λ e. ground arith }

  pub save-Gone : (s : Store) (env : Env) → Gone h s (save lib s env).0
  unfolding save
  save-Gone s env =
      Gone-trans s (prune s env.saved_at) _ (prune-Gone s env.saved_at)
        (write-Gone _ env.is_written)

  finish-Gone :
      (s : Store) (o : Outcome (Unit {0})) (text : String) (refresh_text : Option String)
      (scopes : List String)
      → Gone h s o.0
      → Gone h s (finish lib o text refresh_text scopes).0
  unfolding finish
  finish-Gone s (t, ok _) text refresh_text scopes g = g
  finish-Gone s (t, err e) text none scopes g = record {
    code = g.code;
    token = λ e. ground (arith, g.token e, lookup-delete h (lib.hash_value text) t.tokens);
  }
  finish-Gone s (t, err e) text (some more) scopes g = record {
    code = g.code;
    token = λ e. ground (
      arith,
      g.token e,
      lookup-delete h (lib.hash_value text) t.tokens,
      lookup-delete h (lib.hash_value more) (delete (lib.hash_value text) t.tokens),
    );
  }

  pub insert-Gone :
      (s : Store) (text : String) (t : TokenRecord) (m : List (String × TokenRecord))
      → Misses lib h (some text)
      → (lookup h s.tokens ≡ none → lookup h m ≡ none)
      → Gone h s (record s { tokens = insert (lib.hash_value text) t m })
  insert-Gone s text t m n g = record {
    code = λ e. e;
    token = λ e.
        ground
          (arith, g e, eq_iff (lib.hash_value text) h, lookup-insert h (lib.hash_value text) t m);
  }

  add_tokens-Gone :
      (s : Store) (client_id : String) (scopes : List String) (audience family_id : String)
      (allowed : Bool) (env : Env) (text : String) (more : Option String) (b : Bool)
      → Misses lib h (some text)
      → Misses lib h more
      → Gone h s (add_tokens lib s client_id scopes audience family_id allowed env text more b).0
  unfolding add_tokens
  add_tokens-Gone s client_id scopes audience family_id allowed env text more false n k =
      finish-Gone s _ text none scopes
        (Gone-trans s _ _ (insert-Gone s text _ s.tokens n (λ e. e)) (save-Gone _ env))
  add_tokens-Gone s client_id scopes audience family_id allowed env text none true n k =
      let a =
        token lib s text access s.access_token_ttl client_id scopes audience family_id allowed
          env.issued_at in
      record {
        code = λ e. e;
        token = λ e. ground (
          arith,
          eq_iff (lib.hash_value text) h,
          lookup-delete h (lib.hash_value text) (insert (lib.hash_value text) a s.tokens),
          (insert-Gone s text a s.tokens n (λ e. e)).token e,
        );
      }
  add_tokens-Gone s client_id scopes audience family_id allowed env text (some more) true n k =
      finish-Gone s _ text (some more) scopes (
        Gone-trans s _ _
          (insert-Gone s more _ _ k (λ e. (insert-Gone s text _ s.tokens n (λ e. e)).token e))
          (save-Gone _ env))

  draw_family-Gone :
      (s : Store) (client_id : String) (scopes : List String) (audience : String) (allowed : Bool)
      (env : Env) (text family : Option String)
      → Misses lib h text
      → Misses lib h env.refresh_text
      → Gone h s (draw_family lib s client_id scopes audience allowed env text family).0
  unfolding draw_family
  draw_family-Gone s client_id scopes audience allowed env none family n k = same-Gone s
  draw_family-Gone s client_id scopes audience allowed env (some text) none n k = same-Gone s
  draw_family-Gone s client_id scopes audience allowed env (some text) (some family) n k =
      add_tokens-Gone s client_id scopes audience family allowed env text env.refresh_text _ n k

  pub issue_tokens-Gone :
      (s : Store) (client_id : String) (scopes : List String) (audience family : String)
      (allowed : Bool) (env : Env)
      → Misses lib h env.access_text
      → Misses lib h env.refresh_text
      → Gone h s (issue_tokens lib s client_id scopes audience family allowed env).0
  unfolding issue_tokens
  issue_tokens-Gone s client_id scopes audience family allowed env n k =
      let t = prune s env.pruned_again_at in
      let g = prune-Gone s env.pruned_again_at in
      let d =
        draw_family-Gone t client_id scopes audience allowed env env.access_text
          (family_of lib family env.family_text) n k in
      elim (Bool-cases
        (ltb t.max_tokens (length t.tokens + needed (issues_refresh scopes allowed)))) [
          | inl full ↦ rw full g
          | inr room ↦ rw room (Gone-trans s t _ g d)
        ]

  pub exchange_found-Gone :
      (s : Store) (client_id redirect_uri verifier audience : String) (env : Env)
      (o : Option AuthorizationCode)
      → Misses lib h env.access_text
      → Misses lib h env.refresh_text
      → Gone h s (exchange_found lib s client_id redirect_uri verifier audience env o).0
  unfolding exchange_found
  exchange_found-Gone s client_id redirect_uri verifier audience env none n k = same-Gone s
  exchange_found-Gone s client_id redirect_uri verifier audience env (some c) n k =
      let g = issue_tokens-Gone s client_id c.scopes c.audience "" c.refresh_allowed env n k in
      let z = same-Gone s in ground arith

  pub exchange_code-Gone :
      (s : Store) (code client_id redirect_uri verifier audience : String) (env : Env)
      → Misses lib h env.access_text
      → Misses lib h env.refresh_text
      → Gone h s (exchange_code lib s code client_id redirect_uri verifier audience env).0
  unfolding exchange_code
  exchange_code-Gone s code client_id redirect_uri verifier audience env n k =
      let t = prune s env.pruned_at in
      let u = record t { codes = delete (lib.hash_value code) t.codes } in
      let g : Gone h t u = record {
        code = λ e. ground (arith, e, lookup-delete h (lib.hash_value code) t.codes);
        token = λ e. e;
      } in
      Gone-trans s t _ (prune-Gone s env.pruned_at) (
        Gone-trans t u _ g (
          exchange_found-Gone u client_id redirect_uri verifier audience env
            (lookup (lib.hash_value code) t.codes) n k))

  pub revoke_family-Gone :
      (family : String) (m : List (String × TokenRecord))
      → lookup h m ≡ none
      → lookup h (revoke_family family m) ≡ none
  unfolding revoke_family
  revoke_family-Gone family m e =
      ground
        (arith, e, lookup-retain-none h (λ (t : TokenRecord). not (str_eq t.family_id family)) m)

  replayed-Gone :
      (s : Store) (env : Env) (o : Option RefreshTombstone) → Gone h s (replayed lib s env o).0
  unfolding replayed
  replayed-Gone s env none = same-Gone s
  replayed-Gone s env (some t) =
      let u = record s { tokens = revoke_family t.family_id s.tokens } in
      Gone-trans s u _ (record { code = λ e. e; token = revoke_family-Gone t.family_id s.tokens })
        (save-Gone u env)

  rotated-Gone :
      (s : Store) (k : String) (old : TokenRecord) (o : Outcome TokenSet)
      → lookup k s.tokens ≡ some old
      → Gone h s o.0
      → Gone h s (rotated lib k old o).0
  unfolding rotated
  rotated-Gone s k old (t, ok set) e g = g
  rotated-Gone s k old (t, err x) e g = record {
    code = g.code;
    token = λ f. ground (arith, f, e, g.token f, eq_iff k h, lookup-insert h k old t.tokens);
  }

  rotate-Gone :
      (s : Store) (k client_id : String) (old : TokenRecord) (env : Env)
      → lookup k s.tokens ≡ some old
      → Misses lib h env.access_text
      → Misses lib h env.refresh_text
      → Gone h s (rotate lib s k client_id old env).0
  unfolding rotate
  rotate-Gone s k client_id old env e n m =
      let tomb : RefreshTombstone = record {
        hash = k;
        family_id = old.family_id;
        audience = old.audience;
        expires_at = old.expires_at;
      } in
      let u = record s { tokens = delete k s.tokens; tombstones = insert k tomb s.tombstones } in
      let g : Gone h s u = record {
        code = λ e. e;
        token = λ e. ground (arith, e, lookup-delete h k s.tokens);
      } in
      rotated-Gone s k old _ e (
        Gone-trans s u _ g
          (issue_tokens-Gone u client_id old.scopes old.audience old.family_id true env n m))

  refresh_found-Gone :
      (s : Store) (k client_id audience : String) (env : Env) (o : Option TokenRecord)
      → lookup k s.tokens ≡ o
      → Misses lib h env.access_text
      → Misses lib h env.refresh_text
      → Gone h s (refresh_found lib s k client_id audience env o).0
  unfolding refresh_found
  refresh_found-Gone s k client_id audience env none e n m = replayed-Gone s env _
  refresh_found-Gone s k client_id audience env (some old) e n m =
      let g = rotate-Gone s k client_id old env e n m in let z = same-Gone s in ground arith

  pub refresh-Gone :
      (s : Store) (text client_id audience : String) (env : Env)
      → Misses lib h env.access_text
      → Misses lib h env.refresh_text
      → Gone h s (refresh lib s text client_id audience env).0
  unfolding refresh
  refresh-Gone s text client_id audience env n m =
      let t = prune s env.pruned_at in
      Gone-trans s t _ (prune-Gone s env.pruned_at)
        (refresh_found-Gone t (lib.hash_value text) client_id audience env _ refl n m)
