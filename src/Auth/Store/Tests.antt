-- ===== src/Auth/Store/Tests.antt =====
-- The store of internal/auth/store.go at concrete inputs. Hashes and challenges are the texts themselves.
mod Grants
mod Room
use codexlink.Prelude.{
  ℕ, ◌+◌, ◌*◌, true, false, none, some, List, [], ◌∷◌, ◌≡◌, ◌≢◌, refl, arith, String, str_eq,
  eq_iff, ok, err, bytes_eq,
}
use codexlink.Prelude.Assoc.{lookup, insert, delete, retain}
use codexlink.Prelude.Int.{pos, positive_or}
use codexlink.Prelude.Text.{is_space, trim_left, trim_space, all_codes}
use codexlink.Auth.Resource.{
  drop_slashes, trim_slashes, canonical_url, canonical_resource, same_canonical, same_resource,
}
use codexlink.Auth.Store.{
  refresh as refresh_kind, access, TokenRecord, AuthorizationCode, RefreshTombstone, Store,
  TokenSet, invalid_grant, unknown, Lib, Env, apply_store_defaults, prune, insert_sorted, sort_by,
  write, save, new_store, StoreOptions, ℤ, write_failed, Client,
}
use codexlink.Auth.Store.Access.{principal_of, verify_access, revoke_found, revoke, revoke_audience}
use codexlink.Auth.Store.Bounds.{IsValid}
use codexlink.Auth.Store.Bounds.Histories.{run_tokens-IsValid}
use codexlink.Auth.Store.Clients.{
  any_token, any_code, insert_candidate, candidates, drop_oldest, make_client_room, registered,
  register,
}
use codexlink.Auth.Store.Granted.{verify_access-exchange_code}
use codexlink.Auth.Store.History.{exchanges, refreshes, revokes, step, run, creates}
use codexlink.Auth.Store.Issue.{
  contains, valid_verifier, revoke_family, create_code, finish, add_tokens, family_of, draw_family,
  issue_tokens, exchange_found, exchange_code, AuthorizationCodeRequest,
}
use codexlink.Auth.Store.Kept.{Accepts, principal, refresh_kept, verify_access-Verified}
use codexlink.Auth.Store.Refresh.{replayed, rotated, rotate, refresh_found, refresh}
use codexlink.Auth.Store.Revoked.{NoneOf, refresh_replay, verify_access-revoke}
use codexlink.Auth.Store.Sound.{Redeems, exchange_code-Redeems, Renews, refresh-Renews}
use codexlink.Auth.Store.Used.{exchange_once, refresh_once}

program : Unit {0}
unfolding lookup insert delete retain positive_or is_space trim_left trim_space all_codes
    drop_slashes trim_slashes canonical_url canonical_resource same_canonical same_resource
    apply_store_defaults prune insert_sorted sort_by write save contains valid_verifier
    revoke_family create_code finish add_tokens family_of draw_family issue_tokens exchange_found
    exchange_code replayed rotated rotate refresh_found refresh principal_of verify_access
    revoke_found revoke revoke_audience step run bytes_eq
program = tt

differ : (s t : String) → str_eq s t ≡ false → s ≢ t
differ s t h = λ e. ground (arith, e, eq_iff s t)

abbrev lib : Lib
lib = record {
  hash_value = λ text. text;
  pkce_challenge = λ text. text;
  marshal = λ p. [];
  urls = record {
    parse = λ text. some (record {
      scheme = b'x' ∷ [];
      has_user = false;
      host = text;
      hostname = text;
      port = [];
      path = [];
      escaped_path = [];
      raw_query = [];
      fragment = [];
    });
    print = λ u. u.host;
    to_lower = λ text. text;
  };
}

-- A moment `t` milliseconds after the start of 1970.
abbrev at : ℕ → ℕ
at t = (62_135_596_800_000 + t) * 1_000_000

abbrev env : ℕ → String → String → Env
env t a r = record {
  created_at = at t;
  pruned_at = at t;
  checked_at = at t;
  pruned_again_at = at t;
  issued_at = at t;
  saved_at = at t;
  access_text = some a;
  family_text = some "family_1";
  refresh_text = some r;
  is_written = true;
}

abbrev verifier : String
verifier = "0123456789012345678901234567890123456789012"

abbrev scopes : List String
scopes = "git.read" ∷ "offline_access" ∷ []

abbrev code : AuthorizationCode
code = record {
  hash = "cl_ac_1";
  client_id = "client";
  redirect_uri = "https://c/cb";
  code_challenge = verifier;
  scopes = scopes;
  workspace_id = "w";
  pairing_id = "p";
  audience = "https://r";
  refresh_allowed = true;
  expires_at = at 5;
}

abbrev empty : Store
empty =
    new_store "w"
      (record {
        access_token_ttl = pos 0;
        refresh_token_ttl = pos 0;
        auth_code_ttl = pos 0;
        max_clients = pos 0;
        max_tokens = pos 0;
        max_authorization_codes = pos 0;
        max_refresh_tombstones = pos 0;
        max_state_bytes = pos 0;
      })
      none

abbrev coded : Store
coded = record empty { codes = ("cl_ac_1", code) ∷ [] }

abbrev issued : Store
issued =
    (exchange_code lib coded "cl_ac_1" "client" "https://c/cb" verifier "https://r"
      (env 2 "at_1" "rt_1")).0

abbrev tokens : TokenSet
tokens = record {
  access_token = "at_1";
  refresh_token = "rt_1";
  expires_in = 3600;
  scopes = scopes;
}

exchanged :
    exchange_code lib coded "cl_ac_1" "client" "https://c/cb" verifier "https://r"
      (env 2 "at_1" "rt_1")
    ≡ (issued, ok tokens)
unfolding program
exchanged = refl

abbrev more : TokenSet
more = record { access_token = "at_2"; refresh_token = "rt_2"; expires_in = 3600; scopes = scopes }

abbrev renewed : Store
renewed = (refresh lib issued "rt_1" "client" "" (env 3 "at_2" "rt_2")).0

refreshed : refresh lib issued "rt_1" "client" "" (env 3 "at_2" "rt_2") ≡ (renewed, ok more)
unfolding program
refreshed = refl

abbrev access_record : TokenRecord
access_record = record {
  hash = "at_1";
  kind = access;
  client_id = "client";
  workspace_id = "w";
  audience = "https://r";
  scopes = scopes;
  family_id = "family_1";
  refresh_allowed = true;
  issued_at = 2;
  expires_at = 3_600_002;
}
