-- ===== src/Auth/Store/Issue.antt =====
-- Codes and the tokens issued for them, in internal/auth/store.go: `CreateAuthorizationCode`,
-- `ExchangeAuthorizationCode`, `issueTokensLocked`. A critical section of the mutex is one function from
-- the store to the store that it leaves and the result.
use codexlink.Prelude.{
  ℕ, ◌+◌, ◌/◌, Bool, true, false, not, ◌&&◌, ◌||◌, Option, none, some, List, [], ◌∷◌, ltb, leb,
  ◌==◌, if◌then◌else◌, length, String, str_eq, ok, err,
}
use codexlink.Prelude.Assoc.{lookup, insert, delete, retain}
use codexlink.Prelude.Text.{codes as runes, byte_length, is_word, all_codes}
use codexlink.Prelude.Time.{unix_milli, before, second}
use codexlink.Auth.Resource.{same_resource}
use codexlink.Auth.Store.{
  Kind, access, refresh as refresh_kind, TokenRecord, AuthorizationCode, Store, TokenSet,
  invalid_grant, invalid_target, capacity, no_entropy, Lib, Env, Outcome, prune, save,
}

-- `AuthorizationCodeRequest`
pub record AuthorizationCodeRequest : Type 0 where
  pub client_id : String
  pub redirect_uri : String
  pub code_challenge : String
  pub scopes : List String
  pub pairing_id : String
  pub audience : String
  pub refresh_allowed : Bool

-- `containsScope`, `containsString`
unfoldable pub contains : List String → String → Bool
contains [] target = false
contains (x ∷ xs) target = str_eq x target || contains xs target

-- The code points that `validVerifier` accepts.
abbrev pub is_verifier_rune : ℕ → Bool
is_verifier_rune r = is_word r || r == b'.' || r == b'~'

-- `validVerifier`
unfoldable pub valid_verifier : String → Bool
valid_verifier value =
    not (ltb (byte_length value) 43 || ltb 128 (byte_length value))
    && all_codes is_verifier_rune (runes value)

-- `revokeFamilyLocked` on the tokens.
unfoldable pub revoke_family : String → List (String × TokenRecord) → List (String × TokenRecord)
revoke_family family_id tokens =
    if str_eq family_id ""
    then tokens
    else retain (λ (t : TokenRecord). not (str_eq t.family_id family_id)) tokens

abbrev pub issues_refresh : List String → Bool → Bool
issues_refresh scopes refresh_allowed = refresh_allowed && contains scopes "offline_access"

abbrev pub needed : Bool → ℕ
needed issue_refresh = if issue_refresh then 2 else 1

abbrev pub or_empty : Option String → String
or_empty none = ""
or_empty (some text) = text

module _ (lib : Lib) where
  abbrev pub wrong_target : String → String → Bool
  wrong_target audience bound =
      not (str_eq audience "") && not (same_resource lib.urls audience bound)

  -- `CreateAuthorizationCode`; `text` is what `randomToken` gives.
  unfoldable pub create_code :
      Store → AuthorizationCodeRequest → Env → Option String → Outcome String
  create_code s request env none = (s, err no_entropy)
  create_code s request env (some code) =
      let s1 = prune s env.pruned_at in
      let record_ : AuthorizationCode = record {
        hash = lib.hash_value code;
        client_id = request.client_id;
        redirect_uri = request.redirect_uri;
        code_challenge = request.code_challenge;
        scopes = request.scopes;
        workspace_id = s.workspace_id;
        pairing_id = request.pairing_id;
        audience = request.audience;
        refresh_allowed = request.refresh_allowed;
        expires_at = env.created_at + s.auth_code_ttl;
      } in
      if leb s1.max_authorization_codes (length s1.codes)
      then (s1, err capacity)
      else (record s1 { codes = insert (lib.hash_value code) record_ s1.codes }, ok code)

  abbrev pub token :
      Store → String → Kind → ℕ → String → List String → String → String → Bool → ℕ → TokenRecord
  token s text kind ttl client_id scopes audience family_id refresh_allowed now = record {
    hash = lib.hash_value text;
    kind = kind;
    client_id = client_id;
    workspace_id = s.workspace_id;
    audience = audience;
    scopes = scopes;
    family_id = family_id;
    refresh_allowed = refresh_allowed;
    issued_at = unix_milli now;
    expires_at = unix_milli (now + ttl);
  }

  -- The end of `issueTokensLocked`: the save, and the removal of the new tokens if it fails.
  unfoldable pub finish :
      Outcome (Unit {0}) → String → Option String → List String → Outcome TokenSet
  finish (s, ok _) access_text refresh_text scopes = (
    s,
    ok (record {
      access_token = access_text;
      refresh_token = or_empty refresh_text;
      expires_in = s.access_token_ttl / second;
      scopes = scopes;
    }),
  )
  finish (s, err e) access_text none scopes =
      (record s { tokens = delete (lib.hash_value access_text) s.tokens }, err e)
  finish (s, err e) access_text (some refresh_text) scopes = (
    record s {
      tokens = delete (lib.hash_value refresh_text) (delete (lib.hash_value access_text) s.tokens);
    },
    err e,
  )

  -- With the texts drawn: the access token is added, then the refresh token if there is to be one.
  unfoldable pub add_tokens :
      Store
      → String
      → List String
      → String
      → String
      → Bool
      → Env
      → String
      → Option String
      → Bool
      → Outcome TokenSet
  add_tokens s client_id scopes audience family_id allowed env text refresh_text false =
      let a =
        token s text access s.access_token_ttl client_id scopes audience family_id allowed
          env.issued_at in
      finish (save lib (record s { tokens = insert (lib.hash_value text) a s.tokens }) env) text
        none scopes
  add_tokens s client_id scopes audience family_id allowed env text none true =
      let a =
        token s text access s.access_token_ttl client_id scopes audience family_id allowed
          env.issued_at in
      (
        record s {
          tokens = delete (lib.hash_value text) (insert (lib.hash_value text) a s.tokens);
        },
        err no_entropy,
      )
  add_tokens s client_id scopes audience family_id allowed env text (some refresh_text) true =
      let a =
        token s text access s.access_token_ttl client_id scopes audience family_id allowed
          env.issued_at in
      let r =
        token s refresh_text refresh_kind s.refresh_token_ttl client_id scopes audience family_id
          true env.issued_at in
      finish
        (save lib
          (record s {
            tokens =
                insert (lib.hash_value refresh_text) r (insert (lib.hash_value text) a s.tokens);
          })
          env)
        text (some refresh_text) scopes

  -- The family of the new tokens: the one given, or a new one.
  unfoldable pub family_of : String → Option String → Option String
  family_of family_id drawn = if str_eq family_id "" then drawn else some family_id

  unfoldable pub draw_family :
      Store
      → String
      → List String
      → String
      → Bool
      → Env
      → Option String
      → Option String
      → Outcome TokenSet
  draw_family s client_id scopes audience allowed env none family = (s, err no_entropy)
  draw_family s client_id scopes audience allowed env (some text) none = (s, err no_entropy)
  draw_family s client_id scopes audience allowed env (some text) (some family_id) =
      add_tokens s client_id scopes audience family_id allowed env text env.refresh_text
        (issues_refresh scopes allowed)

  -- `issueTokensLocked`
  unfoldable pub issue_tokens :
      Store → String → List String → String → String → Bool → Env → Outcome TokenSet
  issue_tokens s client_id scopes audience family_id allowed env =
      let s1 = prune s env.pruned_again_at in
      if ltb s1.max_tokens (length s1.tokens + needed (issues_refresh scopes allowed))
      then (s1, err capacity)
      else draw_family s1 client_id scopes audience allowed env env.access_text
          (family_of family_id env.family_text)

  -- The rest of `ExchangeAuthorizationCode`, once the code is looked up and deleted.
  unfoldable pub exchange_found :
      Store → String → String → String → String → Env → Option AuthorizationCode → Outcome TokenSet
  exchange_found s client_id redirect_uri verifier audience env none = (s, err invalid_grant)
  exchange_found s client_id redirect_uri verifier audience env (some code) =
      if not (before env.checked_at code.expires_at)
      then (s, err invalid_grant)
      else if str_eq redirect_uri ""
          || not (str_eq code.client_id client_id)
          || not (str_eq code.redirect_uri redirect_uri)
      then (s, err invalid_grant)
      else if wrong_target audience code.audience
      then (s, err invalid_target)
      else if not (valid_verifier verifier)
          || not (str_eq (lib.pkce_challenge verifier) code.code_challenge)
      then (s, err invalid_grant)
      else issue_tokens s client_id code.scopes code.audience "" code.refresh_allowed env

  -- `ExchangeAuthorizationCode`
  unfoldable pub exchange_code :
      Store → String → String → String → String → String → Env → Outcome TokenSet
  exchange_code s code client_id redirect_uri verifier audience env =
      let s1 = prune s env.pruned_at in
      exchange_found (record s1 { codes = delete (lib.hash_value code) s1.codes }) client_id
        redirect_uri verifier audience env (lookup (lib.hash_value code) s1.codes)
