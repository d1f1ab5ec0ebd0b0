-- ===== src/Auth/Server/Tests.antt =====
-- The handlers of internal/auth/http.go at concrete inputs. Hashes and challenges are the texts themselves.
mod Forms
mod Tokens
use codexlink.Prelude.{
  ℕ, ◌+◌, ◌*◌, true, false, none, some, List, [], ◌∷◌, ◌≡◌, ◌≢◌, refl, arith, String, str_eq,
  eq_iff, ok, err, bytes_eq, ◌⊎◌, ◌<◌,
}
use Prim.Native.String.{◌++◌ as append}
use codexlink.Auth.Server.Authorize.{authorize_complete}
use codexlink.Auth.Server.Approved.{complete-Approves, complete_twice}
use codexlink.Auth.Server.Coded.{Approves, Repeats}
use codexlink.Auth.Server.Token.{token}
use codexlink.Auth.Server.{unauthorized}
use codexlink.Auth.Server.Revoked.{bearer-revoke}
use codexlink.Auth.Store.{access, TokenRecord}
use codexlink.Auth.Server.Access.{revoke, bearer, bearer_token}
use codexlink.Auth.Server.Flow.{asked_of}
use codexlink.Auth.Store.Issue.{wrong_target}
use codexlink.Prelude.Assoc.{IsUnique}
use codexlink.Prelude.Time.{unix_milli}
use codexlink.Auth.Server.Calls.{run, authorizes, asks_token}
use codexlink.Auth.Server.Replay.{token_once}
use codexlink.Auth.Server.Pending.{IsValid}
use codexlink.Auth.Server.Histories.{run_server-IsValid}
use codexlink.Auth.Server.Flow.{LetsThrough, bearer-authorize_complete}
use codexlink.Auth.Server.{prune_pending, tokens}
use codexlink.Prelude.Assoc.{lookup, insert, delete, retain}
use codexlink.Prelude.Int.{pos, ℤ, positive_or}
use codexlink.Prelude.Text.{codes, text, is_space, trim_left, trim_space, all_codes}
use codexlink.Auth.Assertion.{Jwt, absent, seconds, Claims, chat_gpt_client_id, chat_gpt_jwks_uri}
use codexlink.Auth.Assertion as Assertion
use codexlink.Auth.Pairing.{active, PairingManager, new_pairing_manager}
use codexlink.Auth.Limits.{OAuthLimits}
use codexlink.Auth.Store.{
  Client, Store, AuthorizationCode, TokenSet, Lib, Env, StoreOptions, new_store,
}
use codexlink.Auth.Server.{
  Server, Web, Request, Moment, Response, PendingAuthorization, new_server, continues,
}

program : Unit {0}
unfolding codexlink.Prelude.Assoc.lookup codexlink.Prelude.Assoc.insert
    codexlink.Prelude.Assoc.delete codexlink.Prelude.Assoc.retain codexlink.Prelude.Text.text
    codexlink.Prelude.Text.is_space codexlink.Prelude.Text.trim_left
    codexlink.Prelude.Text.trim_space codexlink.Prelude.Text.all_codes
    codexlink.Prelude.Text.any_code codexlink.Prelude.Text.has_prefix
    codexlink.Prelude.Int.positive_or codexlink.Prelude.Int.int_eq codexlink.Prelude.bytes_eq
    codexlink.Auth.Limits.normalize_oauth_limits codexlink.Auth.Limits.new_request_limiter
    codexlink.Auth.Limits.expire codexlink.Auth.Limits.bucket_for codexlink.Auth.Limits.charge
    codexlink.Auth.Limits.allow codexlink.Auth.Pairing.new_pairing_manager
    codexlink.Auth.Pairing.count_ip codexlink.Auth.Pairing.allow_ip
    codexlink.Auth.Pairing.create_with codexlink.Auth.Pairing.create
    codexlink.Auth.Pairing.verify_session codexlink.Auth.Pairing.verify
    codexlink.Auth.Pairing.status_state codexlink.Auth.Pairing.status
    codexlink.Auth.Pairing.is_active codexlink.Auth.Pairing.invalidate
    codexlink.Auth.Pairing.Code.to_upper codexlink.Auth.Pairing.Code.contains_rune
    codexlink.Auth.Pairing.Code.all_in codexlink.Auth.Pairing.Code.eight_symbols
    codexlink.Auth.Pairing.Code.normalize_pairing_code codexlink.Auth.Pairing.Code.display_code
    codexlink.Auth.Resource.drop_slashes codexlink.Auth.Resource.trim_slashes
    codexlink.Auth.Resource.canonical_url codexlink.Auth.Resource.canonical_resource
    codexlink.Auth.Resource.same_canonical codexlink.Auth.Resource.same_resource
    codexlink.Auth.Resource.is_allowed_url codexlink.Auth.Resource.allowed_redirect_uri
    codexlink.Auth.Redirects.is_loopback_host codexlink.Auth.Redirects.decimal
    codexlink.Auth.Redirects.is_https_port codexlink.Auth.Redirects.count_symbols
    codexlink.Auth.Redirects.is_raw_base64 codexlink.Auth.Redirects.valid_challenge
    codexlink.Auth.Redirects.loopback_urls_match codexlink.Auth.Redirects.loopback_redirect_matches
    codexlink.Auth.Redirects.redirect_uri_matches codexlink.Auth.Redirects.is_metadata_url
    codexlink.Auth.Redirects.is_metadata_client_id codexlink.Auth.Scopes.has
    codexlink.Auth.Scopes.onto_first codexlink.Auth.Scopes.parts
    codexlink.Auth.Scopes.non_empty_parts codexlink.Auth.Scopes.scope_fields
    codexlink.Auth.Scopes.collect codexlink.Auth.Scopes.some_scope
    codexlink.Auth.Scopes.parse_scopes codexlink.Auth.Store.apply_store_defaults
    codexlink.Auth.Store.prune codexlink.Auth.Store.insert_sorted codexlink.Auth.Store.sort_by
    codexlink.Auth.Store.write codexlink.Auth.Store.save codexlink.Auth.Store.Issue.contains
    codexlink.Auth.Store.Issue.valid_verifier codexlink.Auth.Store.Issue.revoke_family
    codexlink.Auth.Store.Issue.create_code codexlink.Auth.Store.Issue.finish
    codexlink.Auth.Store.Issue.add_tokens codexlink.Auth.Store.Issue.family_of
    codexlink.Auth.Store.Issue.draw_family codexlink.Auth.Store.Issue.issue_tokens
    codexlink.Auth.Store.Issue.exchange_found codexlink.Auth.Store.Issue.exchange_code
    codexlink.Auth.Store.Refresh.replayed codexlink.Auth.Store.Refresh.rotated
    codexlink.Auth.Store.Refresh.rotate codexlink.Auth.Store.Refresh.refresh_found
    codexlink.Auth.Store.Refresh.refresh codexlink.Auth.Store.Access.principal_of
    codexlink.Auth.Store.Access.verify_access codexlink.Auth.Store.Access.revoke_found
    codexlink.Auth.Store.Access.revoke codexlink.Auth.Store.Access.revoke_all
    codexlink.Auth.Store.Access.revoke_audience codexlink.Auth.Store.Access.grants
    codexlink.Auth.Store.Access.token_count_for codexlink.Auth.Store.Access.token_count
    codexlink.Auth.Store.Clients.any_token codexlink.Auth.Store.Clients.any_code
    codexlink.Auth.Store.Clients.insert_candidate codexlink.Auth.Store.Clients.candidates
    codexlink.Auth.Store.Clients.drop_oldest codexlink.Auth.Store.Clients.make_client_room
    codexlink.Auth.Store.Clients.registered codexlink.Auth.Store.Clients.register
    codexlink.Auth.Assertion.onto_part codexlink.Auth.Assertion.split_dots
    codexlink.Auth.Assertion.unix_time codexlink.Auth.Assertion.is_bad_issue_time
    codexlink.Auth.Assertion.is_bad_start codexlink.Auth.Assertion.expiry
    codexlink.Auth.Assertion.decode_within codexlink.Auth.Assertion.is_bad_header
    codexlink.Auth.Assertion.kid_of codexlink.Auth.Assertion.issuer_in
    codexlink.Auth.Assertion.payload_issuer codexlink.Auth.Assertion.client_assertion_issuer
    codexlink.Auth.Assertion.claims_expiry codexlink.Auth.Assertion.check_signature
    codexlink.Auth.Assertion.verify_claims codexlink.Auth.Assertion.verify_parts
    codexlink.Auth.Assertion.verify codexlink.Auth.Server.new_server
    codexlink.Auth.Server.prune_pending codexlink.Auth.Server.audience_or
    codexlink.Auth.Server.remote_ip codexlink.Auth.Server.client_ip
    codexlink.Auth.Server.canonical_audience codexlink.Auth.Server.Authorize.set_if
    codexlink.Auth.Server.Authorize.failure_status codexlink.Auth.Server.Authorize.resolve_client
    codexlink.Auth.Server.Authorize.keep_pending codexlink.Auth.Server.Authorize.start_scoped
    codexlink.Auth.Server.Authorize.start_parsed codexlink.Auth.Server.Authorize.start_matched
    codexlink.Auth.Server.Authorize.start_resolved codexlink.Auth.Server.Authorize.authorize_start
    codexlink.Auth.Server.Authorize.complete_coded codexlink.Auth.Server.Authorize.complete_paired
    codexlink.Auth.Server.Authorize.complete_replayed codexlink.Auth.Server.Authorize.complete_found
    codexlink.Auth.Server.Authorize.authorize_complete codexlink.Auth.Server.Authorize.authorize
    codexlink.Auth.Server.Token.oauth_code codexlink.Auth.Server.Token.oauth_status
    codexlink.Auth.Server.Token.record_jti codexlink.Auth.Server.Token.is_found
    codexlink.Auth.Server.Token.check_jti codexlink.Auth.Server.Token.granted
    codexlink.Auth.Server.Token.authenticate_assertion
    codexlink.Auth.Server.Token.authenticate_resolved codexlink.Auth.Server.Token.authenticate
    codexlink.Auth.Server.Token.grant codexlink.Auth.Server.Token.token_authenticated
    codexlink.Auth.Server.Token.client_named codexlink.Auth.Server.Token.token
    codexlink.Auth.Server.Access.fold_eq codexlink.Auth.Server.Access.bearer_token
    codexlink.Auth.Server.Access.admit codexlink.Auth.Server.Access.register_answer
    codexlink.Auth.Server.Access.bearer codexlink.Auth.Server.Access.revoke
    codexlink.Auth.Server.Access.register_client codexlink.Auth.Server.Calls.step
    codexlink.Auth.Server.Calls.run
program = tt

abbrev endpoint : String
endpoint = "https://r"

abbrev web : Web
web = record {
  lib = record {
    hash_value = λ text. text;
    pkce_challenge = λ text. text;
    marshal = λ p. [];
    urls = record {
      parse = λ text. some (record {
        scheme = b'x' ∷ [];
        has_user = false;
        host = text;
        hostname = text;
        port = [];
        path = [];
        escaped_path = [];
        raw_query = [];
        fragment = [];
      });
      print = λ u. u.host;
      to_lower = λ text. text;
    };
  };
  jwt = record {
    decode = λ bytes. some bytes;
    header_of = λ bytes. some (record { alg = "RS256"; kid = "k" });
    claims_of = λ bytes. some (record {
      issuer = chat_gpt_client_id;
      subject = chat_gpt_client_id;
      audience = append endpoint "/oauth/token" ∷ [];
      expires = seconds (pos 60);
      issued_at = absent;
      not_before = absent;
      jwt_id = "j";
    });
    issuer_of = λ bytes. none;
    rsa_verify = λ key signed signature. true;
  };
  pairing_hash = λ code. code;
  parse_ip = λ ip. none;
  split_host = λ address. some address;
  with_query = λ uri parameters. uri;
}

differ : (s t : String) → str_eq s t ≡ false → s ≢ t
differ s t h = λ e. ground (arith, e, eq_iff s t)

-- A moment `t` milliseconds after the start of 1970.
abbrev at : ℕ → ℕ
at t = (62_135_596_800_000 + t) * 1_000_000

abbrev env : ℕ → String → String → Env
env t a r = record {
  created_at = at t;
  pruned_at = at t;
  checked_at = at t;
  pruned_again_at = at t;
  issued_at = at t;
  saved_at = at t;
  access_text = some a;
  family_text = some "family_1";
  refresh_text = some r;
  is_written = true;
}

abbrev moment : ℕ → String → String → Moment
moment t a r = record {
  limited_at = at t;
  made_at = at t;
  pruned_at = at t;
  paired_at = at t;
  completed_at = at t;
  authenticated_at = at t;
  swept_at = at t;
  recorded_at = at t;
  checked_at = at t;
  request_id = some "id";
  code = some "cl_ac_1";
  resolved = none;
  keys = λ kid. some [];
  env = env t a r;
}

abbrev verifier : String
verifier = "0123456789012345678901234567890123456789012"

abbrev scopes : List String
scopes = "git.read" ∷ "offline_access" ∷ []

abbrev client : Client
client = record {
  id = chat_gpt_client_id;
  name = "";
  redirect_uris = "https://c/cb" ∷ [];
  token_endpoint_auth_method = "private_key_jwt";
  grant_types = "authorization_code" ∷ "refresh_token" ∷ [];
  response_types = "code" ∷ [];
  application_type = "web";
  jwks_uri = chat_gpt_jwks_uri;
  token_endpoint_signing_alg = "RS256";
  created_at = "";
}

abbrev no_options : StoreOptions ℤ
no_options = record {
  access_token_ttl = pos 0;
  refresh_token_ttl = pos 0;
  auth_code_ttl = pos 0;
  max_clients = pos 0;
  max_tokens = pos 0;
  max_authorization_codes = pos 0;
  max_refresh_tombstones = pos 0;
  max_state_bytes = pos 0;
}

abbrev store : Store
store = record (new_store "w" no_options none) { clients = (chat_gpt_client_id, client) ∷ [] }

abbrev manager : PairingManager
manager =
    record (new_pairing_manager (record {
      ttl = pos 0;
      max_attempts = pos 0;
      ip_limit = pos 0;
      ip_window = pos 0;
      max_tracked_ips = pos 0;
    })) {
      session = some (record {
        id = b's' ∷ [];
        hash = codes "ABCDEFGH";
        created_at = at 0;
        expires_at = at 1000;
        attempts_left = 5;
      });
      state = active;
    }

abbrev pending : PendingAuthorization
pending = record {
  id = "id";
  client_id = chat_gpt_client_id;
  redirect_uri = "https://c/cb";
  scopes = scopes;
  state = "st";
  code_challenge = verifier;
  audience = "https://r/mcp";
  refresh_allowed = true;
  expires_at = at 1000;
}

abbrev no_limits : OAuthLimits ℤ
no_limits = record {
  max_pending = pos 0;
  registration_per_ip = pos 0;
  registration_global = pos 0;
  authorization_per_ip = pos 0;
  authorization_global = pos 0;
  max_tracked_addresses = pos 0;
  window = pos 0;
}

abbrev fresh : Server
fresh = new_server store manager no_limits

abbrev waiting : Server
waiting = record fresh { pending = ("id", pending) ∷ [] }

abbrev posted : List (String × String) → Request
posted form = record {
  method = "POST";
  connecting_ip = "";
  remote_addr = "a";
  base_url = endpoint;
  authorization = "";
  parameters = some form;
}

abbrev paired : Request
paired = posted (("request_id", "id") ∷ ("pairing_code", "ABCD-EFGH") ∷ [])

abbrev way_on : String
way_on = "https://c/cb"
