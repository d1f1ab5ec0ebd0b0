-- ===== src/Auth/Server/Tests/Tokens.antt =====
-- Token requests and the use of tokens, of internal/auth/http.go, at concrete inputs.
use codexlink.Prelude.{
  ◌+◌, true, false, some, List, [], ◌∷◌, ◌≡◌, ◌≢◌, refl, arith, String, ◌<◌, length,
}
use codexlink.Auth.Server.Authorize.{authorize_complete, authorize_start}
use codexlink.Auth.Server.Coded.{Approves}
use codexlink.Auth.Server.Token.{token}
use codexlink.Auth.Server.{unauthorized}
use codexlink.Auth.Server.Revoked.{bearer-revoke}
use codexlink.Auth.Store.{access, TokenRecord}
use codexlink.Auth.Server.Access.{revoke, bearer, bearer_token}
use codexlink.Auth.Server.Flow.{asked_of}
use codexlink.Auth.Store.Issue.{wrong_target}
use codexlink.Prelude.Assoc.{IsUnique}
use codexlink.Prelude.Time.{unix_milli}
use codexlink.Auth.Server.Calls.{Call, WasNamed, run, authorizes, asks_token}
use codexlink.Auth.Server.Replay.{token_once}
use codexlink.Auth.Server.Pending.{IsValid}
use codexlink.Auth.Server.Histories.{run_server-IsValid}
use codexlink.Auth.Server.Flow.{LetsThrough, bearer-authorize_complete}
use codexlink.Auth.Server.{prune_pending, tokens}
use codexlink.Prelude.Assoc.{lookup}
use codexlink.Prelude.Text.{codes, trim_space}
use codexlink.Auth.Assertion.{chat_gpt_client_id}
use codexlink.Auth.Store.{TokenSet}
use codexlink.Auth.Server.{Server, Request, new_server}
use codexlink.Auth.Server.Tests.{
  fresh, program, web, differ, at, moment, verifier, scopes, store, manager, pending, no_limits,
  waiting, posted, paired, way_on,
}

-- The client's token requests, each with the same assertion.
abbrev coded_form : List (String × String)
coded_form =
    ("grant_type", "authorization_code")
    ∷ ("client_id", chat_gpt_client_id)
    ∷ ("code", "cl_ac_1")
    ∷ ("code_verifier", verifier)
    ∷ ("redirect_uri", "https://c/cb")
    ∷ ("client_assertion_type", "urn:ietf:params:oauth:client-assertion-type:jwt-bearer")
    ∷ ("client_assertion", "a.b.c")
    ∷ []

abbrev refresh_form : List (String × String)
refresh_form =
    ("grant_type", "refresh_token")
    ∷ ("client_id", chat_gpt_client_id)
    ∷ ("refresh_token", "rt_1")
    ∷ ("client_assertion_type", "urn:ietf:params:oauth:client-assertion-type:jwt-bearer")
    ∷ ("client_assertion", "a.b.c")
    ∷ []

abbrev approved : Server
approved = (authorize_complete web waiting paired (moment 2 "at_1" "rt_1")).0

abbrev first : TokenSet
first = record { access_token = "at_1"; refresh_token = "rt_1"; expires_in = 3600; scopes = scopes }

exchanges : (token web approved (posted coded_form) (moment 3 "at_1" "rt_1")).1 ≡ tokens first
unfolding program
exchanges = refl

token_once_example :
    (token web
      (run web
        (token web approved (posted coded_form) (moment 3 "at_1" "rt_1")).0
        (asks_token (posted refresh_form) (moment 4 "at_3" "rt_3") ∷ []))
      (posted refresh_form)
      (moment 5 "at_2" "rt_2")).1
    ≢ tokens (record first { access_token = "at_2" })
unfolding lookup
token_once_example =
    token_once web approved (posted coded_form) (moment 3 "at_1" "rt_1") coded_form first
      (asks_token (posted refresh_form) (moment 4 "at_3" "rt_3") ∷ []) (posted refresh_form)
      (moment 5 "at_2" "rt_2") refresh_form (record first { access_token = "at_2" }) refl refl
      (differ "a.b.c" "" refl) refl exchanges (omega arith) ((omega arith, omega arith), tt)
      (omega arith)

-- The authorization is asked for, paired and exchanged.
abbrev asked : Request
asked =
    record (posted (
      ("client_id", chat_gpt_client_id)
      ∷ ("redirect_uri", "https://c/cb")
      ∷ ("response_type", "code")
      ∷ ("code_challenge_method", "S256")
      ∷ ("code_challenge", verifier)
      ∷ [])) { method = "GET" }

abbrev history : List Call
history =
    authorizes asked (moment 1 "at_1" "rt_1")
    ∷ authorizes paired (moment 2 "at_1" "rt_1")
    ∷ asks_token (posted coded_form) (moment 3 "at_1" "rt_1")
    ∷ []

waits_once : length (authorize_start web fresh asked (moment 1 "at_1" "rt_1")).0.pending ≡ 1
unfolding program
waits_once = refl

run_server-IsValid_example :
    IsValid web
      (WasNamed web (new_server store manager no_limits) history)
      (run web (new_server store manager no_limits) history)
run_server-IsValid_example = run_server-IsValid web store manager no_limits history refl

abbrev approves :
    Approves web
      (prune_pending waiting (at 2))
      paired
      (moment 2 "at_1" "rt_1")
      (("request_id", "id") ∷ ("pairing_code", "ABCD-EFGH") ∷ [])
      "id"
      way_on
      approved
unfolding program
approves = record {
  pending = pending;
  waited = refl;
  paired = refl;
  code = "cl_ac_1";
  drawn = refl;
  location_eq = refl;
  record_ = record {
    hash = "cl_ac_1";
    client_id = chat_gpt_client_id;
    redirect_uri = "https://c/cb";
    code_challenge = verifier;
    scopes = scopes;
    workspace_id = "w";
    pairing_id = "s";
    audience = "https://r/mcp";
    refresh_allowed = true;
    expires_at = at 300002;
  };
  stored = refl;
  bound = record {
    client = refl;
    redirect = refl;
    challenge = refl;
    scopes = refl;
    audience = refl;
    refresh = refl;
  };
  expires = refl;
  taken = refl;
  gone = refl;
  kept = refl;
}

abbrev carrying : Request
carrying = record (posted []) { authorization = "Bearer at_1" }

carried : bearer_token (trim_space (codes carrying.authorization)) ≡ some "at_1"
unfolding program
carried = refl

in_audience : wrong_target web.lib (asked_of web carrying) "https://r/mcp" ≡ false
unfolding program
in_audience = refl

no_tokens : IsUnique approved.store.tokens
unfolding program
no_tokens = tt

code_lives : at 3 < at 2 + waiting.store.auth_code_ttl
unfolding program
code_lives = omega arith

token_lives : unix_milli (at 3) < unix_milli (at 3 + approved.store.access_token_ttl)
unfolding program
token_lives = omega arith

token_lives_later : unix_milli (at 9) < unix_milli (at 3 + approved.store.access_token_ttl)
unfolding program
token_lives_later = omega arith

bearer-authorize_complete_example :
    LetsThrough web
      (bearer web
        (token web approved (posted coded_form) (moment 3 "at_1" "rt_1")).0
        carrying
        (at 9))
      pending
unfolding lookup approves
bearer-authorize_complete_example =
    bearer-authorize_complete web {s = prune_pending waiting (at 2)} {request = paired}
      {m = moment 2 "at_1" "rt_1"}
      {form = ("request_id", "id") ∷ ("pairing_code", "ABCD-EFGH") ∷ []} {id = "id"}
      {location = way_on} {s1 = approved} approves (posted coded_form) (moment 3 "at_1" "rt_1")
      coded_form first carrying (at 9) no_tokens refl refl refl exchanges code_lives
      (differ "at_1" "rt_1" refl) token_lives token_lives_later carried in_audience

abbrev holding : Server
holding = (token web approved (posted coded_form) (moment 3 "at_1" "rt_1")).0

abbrev record_1 : TokenRecord
record_1 = record {
  hash = "at_1";
  kind = access;
  client_id = chat_gpt_client_id;
  workspace_id = "w";
  audience = "https://r/mcp";
  scopes = scopes;
  family_id = "family_1";
  refresh_allowed = true;
  issued_at = 3;
  expires_at = 3_600_003;
}

holds : lookup "at_1" holding.store.tokens ≡ some record_1
unfolding program
holds = refl

one_each : IsUnique holding.store.tokens
unfolding program
one_each = (refl, (refl, tt))

-- The token is revoked, and the client asks for new ones.
bearer-revoke_example :
    bearer web
      (run web
        (revoke web holding (posted (("token", "at_1") ∷ [])) (moment 4 "at_2" "rt_2")).0
        (asks_token (posted refresh_form) (moment 5 "at_3" "rt_3") ∷ []))
      carrying
      (at 9)
    ≡ unauthorized
unfolding lookup
bearer-revoke_example =
    bearer-revoke web holding (posted (("token", "at_1") ∷ [])) (moment 4 "at_2" "rt_2")
      (("token", "at_1") ∷ []) record_1
      (asks_token (posted refresh_form) (moment 5 "at_3" "rt_3") ∷ []) carrying (at 9) one_each refl
      refl (differ "at_1" "" refl) holds
      ((differ "at_3" "at_1" refl, differ "rt_3" "at_1" refl), tt) carried
