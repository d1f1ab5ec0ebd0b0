-- ===== src/Auth/Store/Access.antt =====
-- What reads and revokes tokens in internal/auth/store.go: `VerifyAccess`, `Revoke`, `RevokeAll`,
-- `RevokeAudience` and the counts.
use codexlink.Prelude.{
  ℕ, Bool, false, not, ◌&&◌, ◌||◌, Option, none, some, List, [], ◌∷◌, ltb, leb, if◌then◌else◌,
  length, String, str_eq, Result, ok, err,
}
use codexlink.Prelude.Assoc.{lookup, delete, retain}
use codexlink.Prelude.Time.{unix_milli}
use codexlink.Auth.Resource.{same_resource}
use codexlink.Auth.Store.{
  access, TokenRecord, RefreshTombstone, Store, Principal, Error, unknown, expired, wrong_workspace,
  wrong_audience, Lib, Env, Outcome, save,
}
use codexlink.Auth.Store.Issue.{contains, wrong_target, revoke_family}

module _ (lib : Lib) where
  unfoldable pub principal_of :
      Store → String → String → ℕ → Option TokenRecord → Result Error Principal
  principal_of s text audience now none = err unknown
  principal_of s text audience now (some t) = elim t.kind [
    | access ↦
        if leb t.expires_at (unix_milli now)
        then err expired
        else if not (str_eq t.workspace_id s.workspace_id)
        then err wrong_workspace
        else if wrong_target lib audience t.audience
        then err wrong_audience
        else ok (record {
          token = text;
          client_id = t.client_id;
          workspace_id = t.workspace_id;
          audience = t.audience;
          scopes = t.scopes;
          expires_at = t.expires_at;
        })
    | _ ↦ err unknown
  ]

  -- `VerifyAccess`
  unfoldable pub verify_access : Store → String → String → ℕ → Result Error Principal
  verify_access s text audience now =
      principal_of s text audience now (lookup (lib.hash_value text) s.tokens)

  unfoldable pub revoke_found :
      Store → String → Option TokenRecord → Option RefreshTombstone → Store
  revoke_found s h (some t) tombstone =
      if str_eq t.family_id ""
      then record s { tokens = delete h s.tokens }
      else record s { tokens = revoke_family t.family_id s.tokens }
  revoke_found s h none (some t) = record s { tokens = revoke_family t.family_id s.tokens }
  revoke_found s h none none = s

  -- `Revoke`
  unfoldable pub revoke : Store → String → Env → Outcome (Unit {0})
  revoke s text env =
      let h = lib.hash_value text in
      save lib (revoke_found s h (lookup h s.tokens) (lookup h s.tombstones)) env

  -- `RevokeAll`; the source returns the number of tokens with the error of the save, if any.
  unfoldable pub revoke_all : Store → Env → Outcome (Unit {0}) × ℕ
  revoke_all s env =
      (save lib (record s { tokens = []; codes = []; tombstones = [] }) env, length s.tokens)

  -- `RevokeAudience`, in the same way.
  unfoldable pub revoke_audience : Store → String → Env → Outcome (Unit {0}) × ℕ
  revoke_audience s audience env =
      let kept =
        retain (λ (t : TokenRecord). not (same_resource lib.urls t.audience audience)) s.tokens in
      (
        save lib
            (record s {
              tokens = kept;
              tombstones =
                  retain
                    (λ (t : RefreshTombstone). not (same_resource lib.urls t.audience audience))
                    s.tombstones;
            })
            env,
        length (retain (λ (t : TokenRecord). same_resource lib.urls t.audience audience) s.tokens),
      )

  unfoldable pub grants : ℕ → String → String → List (String × TokenRecord) → Bool
  grants now audience scope [] = false
  grants now audience scope ((h, t) ∷ tokens) =
      (ltb now t.expires_at
        && same_resource lib.urls t.audience audience
        && contains t.scopes scope)
      || grants now audience scope tokens

  -- `HasActiveScopeForAudience`
  abbrev pub has_active_scope : Store → String → String → ℕ → Bool
  has_active_scope s audience scope now = grants (unix_milli now) audience scope s.tokens

  -- `TokenCountForAudience`
  unfoldable pub token_count_for : Store → String → ℕ → ℕ
  token_count_for s audience now = length (
      retain
        (λ (t : TokenRecord).
          ltb (unix_milli now) t.expires_at && same_resource lib.urls t.audience audience)
        s.tokens)

-- `TokenCount`
unfoldable pub token_count : Store → ℕ → ℕ
token_count s now =
    length (retain (λ (t : TokenRecord). ltb (unix_milli now) t.expires_at) s.tokens)
