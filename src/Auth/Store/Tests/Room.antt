-- ===== src/Auth/Store/Tests/Room.antt =====
-- Full tables, failed saves and registrations of internal/auth/store.go at concrete inputs.
use codexlink.Prelude.{true, false, none, some, [], ◌∷◌, ◌≡◌, refl, String, ok, err}
use codexlink.Prelude.Assoc.{lookup}
use codexlink.Prelude.Int.{pos}
use codexlink.Auth.Store.{
  refresh as refresh_kind, TokenRecord, Store, Env, new_store, StoreOptions, ℤ, write_failed,
  Client,
}
use codexlink.Auth.Store.Bounds.{IsValid}
use codexlink.Auth.Store.Bounds.Histories.{run_tokens-IsValid}
use codexlink.Auth.Store.Clients.{
  any_token, any_code, insert_candidate, candidates, drop_oldest, make_client_room, registered,
  register,
}
use codexlink.Auth.Store.History.{exchanges, refreshes, run, creates}
use codexlink.Auth.Store.Issue.{AuthorizationCodeRequest}
use codexlink.Auth.Store.Kept.{Accepts, principal, refresh_kept, verify_access-Verified}
use codexlink.Auth.Store.Refresh.{refresh}
use codexlink.Auth.Store.Tests.{program, lib, at, env, verifier, scopes, issued, access_record}

abbrev one_token : StoreOptions ℤ
one_token = record {
  access_token_ttl = pos 0;
  refresh_token_ttl = pos 0;
  auth_code_ttl = pos 0;
  max_clients = pos 0;
  max_tokens = pos 1;
  max_authorization_codes = pos 1;
  max_refresh_tombstones = pos 1;
  max_state_bytes = pos 0;
}

abbrev asked : AuthorizationCodeRequest
asked = record {
  client_id = "client";
  redirect_uri = "https://c/cb";
  code_challenge = verifier;
  scopes = scopes;
  pairing_id = "p";
  audience = "https://r";
  refresh_allowed = true;
}

run_tokens-IsValid_example : IsValid (
    run lib (new_store "w" one_token none) (
      creates asked (some "cl_ac_1") (env 1 "at_0" "rt_0")
      ∷ exchanges "cl_ac_1" "client" "https://c/cb" verifier "https://r" (env 2 "at_1" "rt_1")
      ∷ refreshes "rt_1" "client" "" (env 3 "at_2" "rt_2")
      ∷ []))
run_tokens-IsValid_example = run_tokens-IsValid lib "w" one_token (
    creates asked (some "cl_ac_1") (env 1 "at_0" "rt_0")
    ∷ exchanges "cl_ac_1" "client" "https://c/cb" verifier "https://r" (env 2 "at_1" "rt_1")
    ∷ refreshes "rt_1" "client" "" (env 3 "at_2" "rt_2")
    ∷ [])

abbrev unwritten : Env
unwritten = record (env 3 "at_2" "rt_2") { is_written = false }

abbrev refused : Store
refused = (refresh lib issued "rt_1" "client" "" unwritten).0

abbrev refresh_record : TokenRecord
refresh_record = record access_record {
  hash = "rt_1";
  kind = refresh_kind;
  expires_at = 2_592_000_002;
}

not_refreshed : refresh lib issued "rt_1" "client" "" unwritten ≡ (refused, err write_failed)
unfolding program
not_refreshed = refl

refresh_kept_example : lookup "rt_1" refused.tokens ≡ some refresh_record
unfolding program
refresh_kept_example =
    refresh_kept lib issued "rt_1" "client" "" unwritten refresh_record {s' = refused}
      {e = write_failed} refl not_refreshed

verify_access-Verified_example :
    (t : TokenRecord) × (lookup "at_1" issued.tokens ≡ some t)
    × Accepts lib issued "https://r" (at 3) t
    × (principal lib "at_1" access_record ≡ principal lib "at_1" t)
unfolding program
verify_access-Verified_example =
    verify_access-Verified lib issued "at_1" "https://r" (at 3)
      {p = principal lib "at_1" access_record} refl

abbrev client : String → Client
client id = record {
  id = id;
  name = "";
  redirect_uris = "https://c/cb" ∷ [];
  token_endpoint_auth_method = "none";
  grant_types = "refresh_token" ∷ [];
  response_types = "code" ∷ [];
  application_type = "web";
  jwks_uri = "";
  token_endpoint_signing_alg = "";
  created_at = "2026-01-01T00:00:00Z";
}

-- Room for two clients: one has a token, the other has nothing.
abbrev crowded : Store
crowded = record issued {
  options = record issued.options { max_clients = 2 };
  clients = ("client", client "client") ∷ ("idle", client "idle") ∷ [];
}

registration : Unit {0}
unfolding program any_token any_code insert_candidate candidates drop_oldest make_client_room
    registered register
registration = tt

replaced :
    lookup "idle" (register lib crowded (ok (client "new")) (env 3 "at_2" "rt_2")).0.clients ≡ none
unfolding registration
replaced = refl
