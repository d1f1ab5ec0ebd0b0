-- ===== src/Auth/Store/Tests/Grants.antt =====
-- Exchanges, refreshes and revocations of internal/auth/store.go at concrete inputs.
use codexlink.Prelude.{[], ◌∷◌, ◌≡◌, ◌≢◌, refl, arith, ok, err}
use codexlink.Auth.Store.{RefreshTombstone, invalid_grant, unknown}
use codexlink.Auth.Store.Access.{verify_access, revoke}
use codexlink.Auth.Store.Granted.{verify_access-exchange_code}
use codexlink.Auth.Store.History.{exchanges, refreshes, revokes, run}
use codexlink.Auth.Store.Issue.{exchange_code}
use codexlink.Auth.Store.Refresh.{refresh}
use codexlink.Auth.Store.Revoked.{NoneOf, refresh_replay, verify_access-revoke}
use codexlink.Auth.Store.Sound.{Redeems, exchange_code-Redeems, Renews, refresh-Renews}
use codexlink.Auth.Store.Used.{exchange_once, refresh_once}
use codexlink.Auth.Store.Tests.{
  program, differ, lib, at, env, verifier, scopes, code, coded, issued, tokens, exchanged, more,
  renewed, refreshed, access_record,
}

exchange_once_example :
    (exchange_code lib
      (run lib coded (
        exchanges "cl_ac_1" "client" "https://c/cb" verifier "" (env 2 "at_1" "rt_1")
        ∷ refreshes "rt_1" "client" "" (env 3 "at_2" "rt_2")
        ∷ []))
      "cl_ac_1"
      "client"
      "https://c/cb"
      verifier
      ""
      (env 4 "at_3" "rt_3")).1
    ≡ err invalid_grant
exchange_once_example =
    exchange_once lib coded "cl_ac_1" "client" "https://c/cb" verifier "" (env 2 "at_1" "rt_1")
      (refreshes "rt_1" "client" "" (env 3 "at_2" "rt_2") ∷ []) "client" "https://c/cb" verifier ""
      (env 4 "at_3" "rt_3")
      ((differ _ _ refl, differ _ _ refl), ((differ _ _ refl, differ _ _ refl), tt))

refresh_once_example :
    (refresh lib
      (run lib renewed (revokes "at_9" (env 4 "at_3" "rt_3") ∷ []))
      "rt_1"
      "client"
      ""
      (env 5 "at_4" "rt_4")).1
    ≢ ok more
unfolding program
refresh_once_example =
    refresh_once lib issued "rt_1" "client" "" (env 3 "at_2" "rt_2")
      (revokes "at_9" (env 4 "at_3" "rt_3") ∷ []) "client" "" (env 5 "at_4" "rt_4") more
      {s' = renewed} {set = more} refreshed
      ((differ _ _ refl, differ _ _ refl), ((differ _ _ refl, differ _ _ refl), tt))

exchange_code-Redeems_example :
    Redeems lib coded "cl_ac_1" "client" "https://c/cb" verifier "https://r"
      (env 2 "at_1" "rt_1")
      tokens
unfolding program
exchange_code-Redeems_example =
    exchange_code-Redeems lib coded "cl_ac_1" "client" "https://c/cb" verifier "https://r"
      (env 2 "at_1" "rt_1") {s' = issued} {set = tokens} exchanged

refresh-Renews_example : Renews lib issued "rt_1" "client" "" (env 3 "at_2" "rt_2") more
unfolding program
refresh-Renews_example =
    refresh-Renews lib issued "rt_1" "client" "" (env 3 "at_2" "rt_2") {s' = renewed} {set = more}
      refreshed

abbrev tombstone : RefreshTombstone
tombstone = record {
  hash = "rt_1";
  family_id = "family_1";
  audience = "https://r";
  expires_at = 2_592_000_002;
}

refresh_replay_example :
    NoneOf "family_1" (refresh lib renewed "rt_1" "client" "" (env 4 "at_3" "rt_3")).0.tokens
unfolding program
refresh_replay_example =
    refresh_replay lib renewed "rt_1" "client" "" (env 4 "at_3" "rt_3") tombstone refl refl
      (differ _ _ refl)

-- The token is revoked, and the refresh token of the same family is tried.
verify_access-revoke_example :
    (verify_access lib
        (run lib
          (revoke lib issued "at_1" (env 4 "at_3" "rt_3")).0
          (refreshes "rt_1" "client" "" (env 5 "at_4" "rt_4") ∷ []))
        "at_1"
        ""
        (at 6)
      ≡ err unknown)
    × (access_record.family_id ≢ ""
        → NoneOf "family_1" (revoke lib issued "at_1" (env 4 "at_3" "rt_3")).0.tokens)
unfolding program
verify_access-revoke_example =
    verify_access-revoke lib issued "at_1" "" (env 4 "at_3" "rt_3")
      (refreshes "rt_1" "client" "" (env 5 "at_4" "rt_4") ∷ []) (at 6) access_record
      (refl, (refl, tt)) refl ((differ _ _ refl, differ _ _ refl), tt)

verify_access-exchange_code_example :
    verify_access lib issued "at_1" "https://r" (at 3_000_000)
    ≡ ok (record {
      token = "at_1";
      client_id = "client";
      workspace_id = "w";
      audience = "https://r";
      scopes = scopes;
      expires_at = 3_600_002;
    })
unfolding program
verify_access-exchange_code_example =
    verify_access-exchange_code lib coded "cl_ac_1" "client" "https://c/cb" verifier "https://r"
      (env 2 "at_1" "rt_1") code (at 3_000_000) {s' = issued} {set = tokens} tt (differ _ _ refl)
      refl (omega arith) (omega arith) exchanged
