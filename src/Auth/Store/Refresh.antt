-- ===== src/Auth/Store/Refresh.antt =====
-- `Refresh` of internal/auth/store.go: the rotation of refresh tokens and the answer to a replay.
use codexlink.Prelude.{
  Bool, true, false, not, ◌||◌, Option, none, some, leb, if◌then◌else◌, length, String, str_eq, ok,
  err,
}
use codexlink.Prelude.Assoc.{lookup, insert, delete}
use codexlink.Prelude.Time.{unix_milli}
use codexlink.Auth.Store.{
  Kind, refresh as refresh_kind, TokenRecord, RefreshTombstone, Client, Store, TokenSet,
  invalid_grant, invalid_client, invalid_target, capacity, Lib, Env, Outcome, prune, save,
}
use codexlink.Auth.Store.Issue.{contains, issue_tokens, wrong_target, revoke_family}

abbrev pub is_refresh : Kind → Bool
is_refresh refresh_kind = true
is_refresh _ = false

abbrev pub forbids_refresh : Option Client → Bool
forbids_refresh none = false
forbids_refresh (some client) = not (contains client.grant_types "refresh_token")

module _ (lib : Lib) where
  -- `Refresh` with a token that is not there: the replay of a used one revokes its family.
  unfoldable pub replayed : Store → Env → Option RefreshTombstone → Outcome TokenSet
  replayed s env none = (s, err invalid_grant)
  replayed s env (some t) =
      let (s', saved) = save lib (record s { tokens = revoke_family t.family_id s.tokens }) env in
      (s', elim saved [ ok _ ↦ err invalid_grant | err e ↦ err e ])

  -- The end of `Refresh`: if no tokens were issued, the old one is put back.
  unfoldable pub rotated : String → TokenRecord → Outcome TokenSet → Outcome TokenSet
  rotated h old (s, ok set) = (s, ok set)
  rotated h old (s, err e) =
      (record s { tombstones = delete h s.tombstones; tokens = insert h old s.tokens }, err e)

  unfoldable pub rotate : Store → String → String → TokenRecord → Env → Outcome TokenSet
  rotate s h client_id old env = rotated h old (
      issue_tokens lib
        (record s {
          tokens = delete h s.tokens;
          tombstones =
              insert h
                (record {
                  hash = h;
                  family_id = old.family_id;
                  audience = old.audience;
                  expires_at = old.expires_at;
                })
                s.tombstones;
        })
        client_id old.scopes old.audience old.family_id true env)

  unfoldable pub refresh_found :
      Store → String → String → String → Env → Option TokenRecord → Outcome TokenSet
  refresh_found s h client_id audience env none = replayed s env (lookup h s.tombstones)
  refresh_found s h client_id audience env (some old) =
      if not (is_refresh old.kind)
        || not old.refresh_allowed
        || leb old.expires_at (unix_milli env.checked_at)
      then (s, err invalid_grant)
      else if not (str_eq old.client_id client_id)
      then (s, err invalid_client)
      else if forbids_refresh (lookup client_id s.clients)
      then (s, err invalid_grant)
      else if wrong_target lib audience old.audience
      then (s, err invalid_target)
      else if leb s.max_refresh_tombstones (length s.tombstones)
      then (s, err capacity)
      else rotate s h client_id old env

  -- `Refresh`
  unfoldable pub refresh : Store → String → String → String → Env → Outcome TokenSet
  refresh s text client_id audience env =
      let s1 = prune s env.pruned_at in
      let h = lib.hash_value text in refresh_found s1 h client_id audience env (lookup h s1.tokens)
