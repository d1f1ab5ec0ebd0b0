-- ===== src/Auth/Store/Sound.antt =====
-- Who gets tokens from internal/auth/store.go, and what an access token is good for: the conditions under
-- which `ExchangeAuthorizationCode`, `Refresh` and `VerifyAccess` succeed.
use codexlink.Prelude.{
  ◌+◌, ◌<◌, Bool, true, false, Option, none, some, List, ◌≡◌, refl, arith, String, eq_iff, ltb,
  length, ok, err, Bool-cases, inl, inr, ap,
}
use codexlink.Prelude.Assoc.{lookup}
use codexlink.Prelude.Time.{unix_milli}
use codexlink.Auth.Store.{TokenRecord, AuthorizationCode, Store, TokenSet, Lib, Env, Outcome, prune}
use codexlink.Auth.Store.Issue.{
  finish, add_tokens, draw_family, issue_tokens, exchange_found, exchange_code, needed,
  issues_refresh, wrong_target, valid_verifier,
}
use codexlink.Auth.Store.Refresh.{rotated, rotate, refresh_found, refresh, is_refresh}
use codexlink.Auth.Store.Used.{replayed_fails}

module _ (lib : Lib) where
  finish-scopes :
      (o : Outcome (Unit {0})) (text : String) (more : Option String) (scopes : List String)
      {s' : Store} {set : TokenSet}
      → finish lib o text more scopes ≡ (s', ok set)
      → set.scopes ≡ scopes
  unfolding finish
  finish-scopes (t, ok _) text more scopes q = ground (arith, q)
  finish-scopes (t, err e) text none scopes q = absurd (ground arith)
  finish-scopes (t, err e) text (some r) scopes q = absurd (ground arith)

  add_tokens-scopes :
      (s : Store) (client_id : String) (scopes : List String) (audience family_id : String)
      (allowed : Bool) (env : Env) (text : String) (more : Option String) (b : Bool) {s' : Store}
      {set : TokenSet}
      → add_tokens lib s client_id scopes audience family_id allowed env text more b ≡ (s', ok set)
      → set.scopes ≡ scopes
  unfolding add_tokens
  add_tokens-scopes s client_id scopes audience family_id allowed env text more false q =
      finish-scopes _ text none scopes q
  add_tokens-scopes s client_id scopes audience family_id allowed env text none true q =
      absurd (ground arith)
  add_tokens-scopes s client_id scopes audience family_id allowed env text (some r) true q =
      finish-scopes _ text (some r) scopes q

  draw_family-scopes :
      (s : Store) (client_id : String) (scopes : List String) (audience : String) (allowed : Bool)
      (env : Env) (text family : Option String) {s' : Store} {set : TokenSet}
      → draw_family lib s client_id scopes audience allowed env text family ≡ (s', ok set)
      → set.scopes ≡ scopes
  unfolding draw_family
  draw_family-scopes s client_id scopes audience allowed env none family q = absurd (ground arith)
  draw_family-scopes s client_id scopes audience allowed env (some t) none q = absurd (ground arith)
  draw_family-scopes s client_id scopes audience allowed env (some t) (some f) q =
      add_tokens-scopes s client_id scopes audience f allowed env t _ _ q

  pub issue_tokens-scopes :
      (s : Store) (client_id : String) (scopes : List String) (audience family : String)
      (allowed : Bool) (env : Env) {s' : Store} {set : TokenSet}
      → issue_tokens lib s client_id scopes audience family allowed env ≡ (s', ok set)
      → set.scopes ≡ scopes
  unfolding issue_tokens
  issue_tokens-scopes s client_id scopes audience family allowed env q =
      let t = prune s env.pruned_again_at in
      elim (Bool-cases
        (ltb t.max_tokens (length t.tokens + needed (issues_refresh scopes allowed)))) [
          | inl full ↦ absurd (ground (arith, q, full))
          | inr room ↦
              draw_family-scopes t client_id scopes audience allowed env env.access_text _
                (rw room at q)
        ]

  -- What a code must be for its exchange to succeed.
  pub record Redeems (s : Store) (code client_id redirect_uri verifier audience : String)
      (env : Env) (set : TokenSet) : Type 0 where
    pub found : AuthorizationCode
    pub stored : lookup (lib.hash_value code) (prune s env.pruned_at).codes ≡ some found
    pub in_time : env.checked_at < found.expires_at
    pub same_client : found.client_id ≡ client_id
    pub same_redirect : found.redirect_uri ≡ redirect_uri
    pub proof : lib.pkce_challenge verifier ≡ found.code_challenge
    pub proof_form : valid_verifier verifier ≡ true
    pub same_target : wrong_target lib audience found.audience ≡ false
    pub same_scopes : set.scopes ≡ found.scopes

  exchange_found-Redeems :
      (s u : Store) (code client_id redirect_uri verifier audience : String) (env : Env)
      (o : Option AuthorizationCode) {s' : Store} {set : TokenSet}
      → lookup (lib.hash_value code) (prune s env.pruned_at).codes ≡ o
      → exchange_found lib u client_id redirect_uri verifier audience env o ≡ (s', ok set)
      → Redeems s code client_id redirect_uri verifier audience env set
  unfolding exchange_found
  exchange_found-Redeems s u code client_id redirect_uri verifier audience env none e q =
      absurd (ground arith)
  exchange_found-Redeems s u code client_id redirect_uri verifier audience env (some c) {s'} {set} e
        q =
      let (in_time, same_client, same_redirect, proof, form, target, issued) : (env.checked_at
            < c.expires_at)
          × (c.client_id ≡ client_id)
          × (c.redirect_uri ≡ redirect_uri)
          × (lib.pkce_challenge verifier ≡ c.code_challenge)
          × (valid_verifier verifier ≡ true)
          × (wrong_target lib audience c.audience ≡ false)
          × (issue_tokens lib u client_id c.scopes c.audience "" c.refresh_allowed env
              ≡ (s', ok set)) =
        ground (
          arith,
          q,
          eq_iff c.client_id client_id,
          eq_iff c.redirect_uri redirect_uri,
          eq_iff (lib.pkce_challenge verifier) c.code_challenge,
        ) in
      record {
        found = c;
        stored = e;
        in_time = in_time;
        same_client = same_client;
        same_redirect = same_redirect;
        proof = proof;
        proof_form = form;
        same_target = target;
        same_scopes =
            issue_tokens-scopes u client_id c.scopes c.audience "" c.refresh_allowed env issued;
      }

  -- An exchange that gives tokens had a code that is stored and in time, was made for the same client and
  -- redirect URI, has a challenge that the verifier meets, and, if an audience is asked for, is bound to
  -- that; and the tokens have the code's scopes.
  pub exchange_code-Redeems :
      (s : Store) (code client_id redirect_uri verifier audience : String) (env : Env) {s' : Store}
      {set : TokenSet}
      → exchange_code lib s code client_id redirect_uri verifier audience env ≡ (s', ok set)
      → Redeems s code client_id redirect_uri verifier audience env set
  unfolding exchange_code
  exchange_code-Redeems s code client_id redirect_uri verifier audience env q =
      exchange_found-Redeems s _ code client_id redirect_uri verifier audience env _ refl q

  -- What a token must be for a refresh with it to succeed.
  pub record Renews (s : Store) (text client_id audience : String) (env : Env) (set : TokenSet)
      : Type 0 where
    pub old : TokenRecord
    pub stored : lookup (lib.hash_value text) (prune s env.pruned_at).tokens ≡ some old
    pub kind : is_refresh old.kind ≡ true
    pub allowed : old.refresh_allowed ≡ true
    pub in_time : unix_milli env.checked_at < old.expires_at
    pub same_client : old.client_id ≡ client_id
    pub same_target : wrong_target lib audience old.audience ≡ false
    pub same_scopes : set.scopes ≡ old.scopes

  rotated_ok :
      (h : String) (old : TokenRecord) (o : Outcome TokenSet) {s' : Store} {set : TokenSet}
      → rotated lib h old o ≡ (s', ok set)
      → o ≡ (s', ok set)
  unfolding rotated
  rotated_ok h old (t, ok x) q = q
  rotated_ok h old (t, err e) q = absurd (ground arith)

  refresh_found-Renews :
      (s : Store) (text client_id audience : String) (env : Env) (o : Option TokenRecord)
      {s' : Store} {set : TokenSet}
      → lookup (lib.hash_value text) (prune s env.pruned_at).tokens ≡ o
      → refresh_found lib (prune s env.pruned_at) (lib.hash_value text) client_id audience env o
        ≡ (s', ok set)
      → Renews s text client_id audience env set
  unfolding refresh_found rotate
  refresh_found-Renews s text client_id audience env none {s'} {set} e q =
      absurd (
        replayed_fails lib (prune s env.pruned_at) env _ set (ap (λ (z : Outcome TokenSet). z.1) q))
  refresh_found-Renews s text client_id audience env (some old) {s'} {set} e q =
      let t = prune s env.pruned_at in
      let (kind, allowed, in_time, same_client, target, done) : (is_refresh old.kind ≡ true)
          × (old.refresh_allowed ≡ true)
          × (unix_milli env.checked_at < old.expires_at)
          × (old.client_id ≡ client_id)
          × (wrong_target lib audience old.audience ≡ false)
          × (rotate lib t (lib.hash_value text) client_id old env ≡ (s', ok set)) =
        ground (arith, q, eq_iff old.client_id client_id) in
      record {
        old = old;
        stored = e;
        kind = kind;
        allowed = allowed;
        in_time = in_time;
        same_client = same_client;
        same_target = target;
        same_scopes =
            issue_tokens-scopes _ client_id old.scopes old.audience old.family_id true env
              (rotated_ok (lib.hash_value text) old _ done);
      }

  -- A refresh that gives tokens was made with a token that is stored, a refresh token, allowed for that,
  -- in time, of the same client and, if an audience is asked for, bound to that; and the new tokens have
  -- its scopes, no more.
  pub refresh-Renews :
      (s : Store) (text client_id audience : String) (env : Env) {s' : Store} {set : TokenSet}
      → refresh lib s text client_id audience env ≡ (s', ok set)
      → Renews s text client_id audience env set
  unfolding refresh
  refresh-Renews s text client_id audience env q =
      refresh_found-Renews s text client_id audience env _ refl q
