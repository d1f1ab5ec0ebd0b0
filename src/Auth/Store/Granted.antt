-- ===== src/Auth/Store/Granted.antt =====
-- An access token that internal/auth/store.go issues is accepted by `VerifyAccess` until its time is over.
use codexlink.Prelude.{
  ℕ, ◌+◌, ◌<◌, Bool, true, false, Option, none, some, List, ◌≡◌, ◌≢◌, arith, String, eq_iff, ltb,
  length, ok, err, Bool-cases, inl, inr, sym, ap, ◌∙◌,
}
use codexlink.Prelude.Assoc.{lookup, insert, delete, IsUnique}
use codexlink.Prelude.Assoc.Laws.{lookup-insert, lookup-retain, insert-IsUnique, retain-IsUnique}
use codexlink.Prelude.Time.{unix_milli}
use codexlink.Auth.Store.{
  access, refresh as refresh_kind, TokenRecord, AuthorizationCode, Store, TokenSet, Principal, Lib,
  Env, Outcome, prune, write, save, is_live_token,
}
use codexlink.Auth.Store.Access.{principal_of, verify_access}
use codexlink.Auth.Store.Issue.{
  finish, add_tokens, draw_family, issue_tokens, exchange_found, exchange_code, needed,
  issues_refresh, wrong_target, token,
}
use codexlink.Auth.Store.Revoked.{save-tokens}

-- The texts of the two tokens of a call have different hashes.
abbrev pub Apart : Lib → Option String → Option String → Type 0
Apart lib (some x) (some y) = lib.hash_value x ≢ lib.hash_value y
Apart lib _ _ = Unit {0}

module _ (lib : Lib) where
  save-workspace : (s : Store) (env : Env) → (save lib s env).0.workspace_id ≡ s.workspace_id
  unfolding save write prune
  save-workspace s env = ground arith

  finish_ok :
      (o : Outcome (Unit {0})) (text : String) (more : Option String) (scopes : List String)
      {s' : Store} {set : TokenSet}
      → finish lib o text more scopes ≡ (s', ok set)
      → (o.0 ≡ s') × (set.access_token ≡ text)
  unfolding finish
  finish_ok (t, ok _) text more scopes q = ground (arith, q)
  finish_ok (t, err e) text none scopes q = absurd (ground arith)
  finish_ok (t, err e) text (some r) scopes q = absurd (ground arith)

  module _ (client_id : String) (scopes : List String) (audience : String) (allowed : Bool)
      (env : Env) where
    -- The store holds the access token that the call issued from `s`.
    abbrev pub Grants : Store → Store → TokenSet → Type 0
    Grants s s' set =
        (family : String) × (lookup (lib.hash_value set.access_token) s'.tokens
          ≡ some (
              token lib s set.access_token access s.access_token_ttl client_id scopes audience
                family allowed env.issued_at))
        × (s'.workspace_id ≡ s.workspace_id)

    finish-Grants :
        (s : Store) (text family : String) (more : Option String) (m : List (String × TokenRecord))
        {s' : Store} {set : TokenSet}
        → IsUnique m
        → lookup (lib.hash_value text) m
          ≡ some (
              token lib s text access s.access_token_ttl client_id scopes audience family allowed
                env.issued_at)
        → unix_milli env.saved_at < unix_milli (env.issued_at + s.access_token_ttl)
        → finish lib (save lib (record s { tokens = m }) env) text more scopes ≡ (s', ok set)
        → Grants s s' set
    finish-Grants s text family more m {s'} {set} u e live q =
        let v = record s { tokens = m } in
        let (same, name) = finish_ok (save lib v env) text more scopes {s' = s'} {set = set} q in
        (
          family,
          rw (name, sym same, save-tokens lib v env)
              (lookup-retain (lib.hash_value text) (is_live_token env.saved_at) m u
                ∙ ground (arith, e, live)),
          ap (λ (z : Store). z.workspace_id) (sym same) ∙ save-workspace v env,
        )

    add_tokens-Grants :
        (s : Store) (family text : String) (more : Option String) (b : Bool) {s' : Store}
        {set : TokenSet}
        → IsUnique s.tokens
        → Apart lib (some text) more
        → unix_milli env.saved_at < unix_milli (env.issued_at + s.access_token_ttl)
        → add_tokens lib s client_id scopes audience family allowed env text more b ≡ (s', ok set)
        → Grants s s' set
    unfolding add_tokens
    add_tokens-Grants s family text more false u n live q =
        let h = lib.hash_value text in
        let a =
          token lib s text access s.access_token_ttl client_id scopes audience family allowed
            env.issued_at in
        finish-Grants s text family none (insert h a s.tokens) (insert-IsUnique h a s.tokens u)
          (ground (arith, lookup-insert h h a s.tokens, eq_iff h h)) live q
    add_tokens-Grants s family text none true u n live q = absurd (ground arith)
    add_tokens-Grants s family text (some r) true u n live q =
        let h = lib.hash_value text in
        let k = lib.hash_value r in
        let a =
          token lib s text access s.access_token_ttl client_id scopes audience family allowed
            env.issued_at in
        let b =
          token lib s r refresh_kind s.refresh_token_ttl client_id scopes audience family true
            env.issued_at in
        let m = insert h a s.tokens in
        finish-Grants s text family (some r) (insert k b m)
          (insert-IsUnique k b m (insert-IsUnique h a s.tokens u))
          (ground
            (arith, n, lookup-insert h h a s.tokens, lookup-insert h k b m, eq_iff h h, eq_iff k h))
          live q

    draw_family-Grants :
        (s : Store) (text family : Option String) {s' : Store} {set : TokenSet}
        → IsUnique s.tokens
        → Apart lib text env.refresh_text
        → unix_milli env.saved_at < unix_milli (env.issued_at + s.access_token_ttl)
        → draw_family lib s client_id scopes audience allowed env text family ≡ (s', ok set)
        → Grants s s' set
    unfolding draw_family
    draw_family-Grants s none family u n live q = absurd (ground arith)
    draw_family-Grants s (some t) none u n live q = absurd (ground arith)
    draw_family-Grants s (some t) (some f) u n live q =
        add_tokens-Grants s f t env.refresh_text _ u n live q

    pub issue_tokens-Grants :
        (s : Store) (family : String) {s' : Store} {set : TokenSet}
        → IsUnique s.tokens
        → Apart lib env.access_text env.refresh_text
        → unix_milli env.saved_at < unix_milli (env.issued_at + s.access_token_ttl)
        → issue_tokens lib s client_id scopes audience family allowed env ≡ (s', ok set)
        → Grants s s' set
    unfolding issue_tokens prune
    issue_tokens-Grants s family u n live q =
        let t = prune s env.pruned_again_at in
        let b = ltb t.max_tokens (length t.tokens + needed (issues_refresh scopes allowed)) in
        elim (Bool-cases b) [
          | inl full ↦ absurd (ground (arith, q, full))
          | inr room ↦
              draw_family-Grants t env.access_text _
                (retain-IsUnique (is_live_token env.pruned_again_at) s.tokens u) n live
                (rw room at q)
        ]

  abbrev pub granted : Store → TokenSet → String → AuthorizationCode → ℕ → Principal
  granted s set client_id c now = record {
    token = set.access_token;
    client_id = client_id;
    workspace_id = s.workspace_id;
    audience = c.audience;
    scopes = c.scopes;
    expires_at = unix_milli (now + s.access_token_ttl);
  }

  exchange_found-Grants :
      (s : Store) (client_id redirect_uri verifier audience : String) (env : Env)
      (o : Option AuthorizationCode) (c : AuthorizationCode) {s' : Store} {set : TokenSet}
      → o ≡ some c
      → IsUnique s.tokens
      → Apart lib env.access_text env.refresh_text
      → unix_milli env.saved_at < unix_milli (env.issued_at + s.access_token_ttl)
      → exchange_found lib s client_id redirect_uri verifier audience env o ≡ (s', ok set)
      → Grants client_id c.scopes c.audience c.refresh_allowed env s s' set
        × (wrong_target lib audience c.audience ≡ false)
  unfolding exchange_found
  exchange_found-Grants s client_id redirect_uri verifier audience env none c e u n live q =
      absurd (ground arith)
  exchange_found-Grants s client_id redirect_uri verifier audience env (some d) c {s'} {set} e u n
        live q =
      let same : d ≡ c = ground (arith, e) in
      let issued : issue_tokens lib s client_id d.scopes d.audience "" d.refresh_allowed env
          ≡ (s', ok set) =
        ground (arith, q) in
      let target : wrong_target lib audience d.audience ≡ false = ground (arith, q) in
      rw (sym same) (
        issue_tokens-Grants client_id d.scopes d.audience d.refresh_allowed env s "" u n live
            issued,
        target,
      )

  pub verify_access-granted :
      (s : Store) (code client_id redirect_uri verifier audience : String) (env : Env)
      (c : AuthorizationCode) (asked : String) (now : ℕ) {s' : Store} {set : TokenSet}
      → IsUnique s.tokens
      → Apart lib env.access_text env.refresh_text
      → lookup (lib.hash_value code) (prune s env.pruned_at).codes ≡ some c
      → unix_milli env.saved_at < unix_milli (env.issued_at + s.access_token_ttl)
      → unix_milli now < unix_milli (env.issued_at + s.access_token_ttl)
      → wrong_target lib asked c.audience ≡ false
      → exchange_code lib s code client_id redirect_uri verifier audience env ≡ (s', ok set)
      → verify_access lib s' set.access_token asked now
        ≡ ok (granted s set client_id c env.issued_at)
  unfolding exchange_code prune verify_access principal_of
  verify_access-granted s code client_id redirect_uri verifier audience env c asked now {s'} {set} u
        n e live in_time target q =
      let t = prune s env.pruned_at in
      let v = record t { codes = delete (lib.hash_value code) t.codes } in
      let ((family, held, w), _) =
        exchange_found-Grants v client_id redirect_uri verifier audience env _ c {s' = s'}
          {set = set} e (retain-IsUnique (is_live_token env.pruned_at) s.tokens u) n live q in
      rw held (ground (arith, w, target, in_time, eq_iff s.workspace_id s'.workspace_id))

  -- The access token of an exchange is accepted, for the audience asked for there, until its time is
  -- over, and it stands for the client, the workspace, and the audience and scopes of the code: if the
  -- table has each token once, the two tokens have different hashes, and the state is saved before the
  -- token's time is over.
  pub verify_access-exchange_code :
      (s : Store) (code client_id redirect_uri verifier audience : String) (env : Env)
      (c : AuthorizationCode) (now : ℕ) {s' : Store} {set : TokenSet}
      → IsUnique s.tokens
      → Apart lib env.access_text env.refresh_text
      → lookup (lib.hash_value code) (prune s env.pruned_at).codes ≡ some c
      → unix_milli env.saved_at < unix_milli (env.issued_at + s.access_token_ttl)
      → unix_milli now < unix_milli (env.issued_at + s.access_token_ttl)
      → exchange_code lib s code client_id redirect_uri verifier audience env ≡ (s', ok set)
      → verify_access lib s' set.access_token audience now
        ≡ ok (granted s set client_id c env.issued_at)
  unfolding exchange_code prune
  verify_access-exchange_code s code client_id redirect_uri verifier audience env c now {s'} {set} u
        n e live in_time q =
      let t = prune s env.pruned_at in
      let v = record t { codes = delete (lib.hash_value code) t.codes } in
      let (_, target) =
        exchange_found-Grants v client_id redirect_uri verifier audience env _ c {s' = s'}
          {set = set} e (retain-IsUnique (is_live_token env.pruned_at) s.tokens u) n live q in
      verify_access-granted s code client_id redirect_uri verifier audience env c audience now
        {s' = s'} {set = set} u n e live in_time target q
