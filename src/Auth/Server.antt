-- ===== src/Auth/Server.antt =====
-- The state of internal/auth/http.go: the store, the pairing manager, the authorizations that wait for a
-- pairing code or were just completed, the client assertions that were used, and the request limiters.
-- A request is what a handler reads of it, a response what it writes; the texts for people are left out.
pub mod Authorize
pub mod Token
pub mod Access
pub mod Calls
pub mod Pending
pub mod Histories
pub mod Untouched
pub mod Coded
pub mod Approved
pub mod Recorded
pub mod Used
pub mod Replay
pub mod Flow
pub mod Forgotten
pub mod Revoked
mod Tests
use codexlink.Prelude.{ℕ, none, some, [], Option, List, ◌∷◌, String, Bool, if◌then◌else◌}
use codexlink.Prelude.Assoc.{lookup, retain}
use codexlink.Prelude.Int.{ℤ}
use codexlink.Prelude.Text.{codes, text, is_empty, trim_space}
use codexlink.Prelude.Time.{before}
use Prim.Native.String.{◌++◌ as append, String}
use codexlink.Auth.Assertion.{Jwt}
use codexlink.Auth.Limits.{OAuthLimits, RequestLimiter, new_request_limiter, normalize_oauth_limits}
use codexlink.Auth.Pairing.{PairingManager, PairingFailure}
use codexlink.Auth.Resource.{trim_slashes, canonical_resource}
use codexlink.Auth.Store.{Client, Store, TokenSet, Principal, Lib, Env}
use codexlink.Auth.Store.Issue.{or_empty}

pub record PendingAuthorization : Type 0 where
  pub id : String
  pub client_id : String
  pub redirect_uri : String
  pub scopes : List String
  pub state : String
  pub code_challenge : String
  pub audience : String
  pub refresh_allowed : Bool
  pub expires_at : ℕ

pub record CompletedAuthorization : Type 0 where
  pub location : String
  pub expires_at : ℕ

pub record Server : Type 0 where
  pub store : Store
  pub pairing : PairingManager
  pub pending : List (String × PendingAuthorization)
  pub completed : List (String × CompletedAuthorization)
  pub assertion_jtis : List (String × ℕ)
  pub limits : OAuthLimits ℕ
  pub register_limiter : RequestLimiter
  pub authorize_limiter : RequestLimiter

-- What the handlers use of the libraries: those of the store and of the assertions, SHA-256 for pairing
-- codes, `net.ParseIP` with its printing, the host of `net.SplitHostPort`, and a redirect URI to whose
-- query the parameters given are set.
pub record Web : Type 0 where
  pub lib : Lib
  pub jwt : Jwt
  pub pairing_hash : List ℕ → List ℕ
  pub parse_ip : List ℕ → Option String
  pub split_host : String → Option String
  pub with_query : String → List (String × String) → String

-- `parameters` are the values of the query or the form by name, `none` if they cannot be read.
pub record Request : Type 0 where
  pub method : String
  pub connecting_ip : String
  pub remote_addr : String
  pub base_url : String
  pub authorization : String
  pub parameters : Option (List (String × String))

-- What a request meets: the clock's readings in the order in which they are used, the random texts, the
-- answer of the metadata resolver, and what the store meets.
pub record Moment : Type 0 where
  pub limited_at : ℕ
  pub made_at : ℕ
  pub pruned_at : ℕ
  pub paired_at : ℕ
  pub completed_at : ℕ
  pub authenticated_at : ℕ
  pub swept_at : ℕ
  pub recorded_at : ℕ
  pub checked_at : ℕ
  pub request_id : Option String
  pub code : Option String
  pub resolved : Option Client
  pub keys : String → Option (List ℕ)
  pub env : Env

-- `fails` is the redirect of `fail`, with the URI, the error and the state; `page` is the pairing page
-- with its status, `continues` the navigation page to a location, `forwarded` a request passed on with its
-- principal.
pub data Response : Type 0 where
  method_not_allowed : List String → Response
  no_content : Response
  plain : ℕ → Response
  oauth_error : ℕ → String → Response
  unauthorized : Response
  fails : String → String → String → Response
  page : ℕ → String → List String → Option PairingFailure → ℕ → Response
  continues : String → Response
  registered : Client → Response
  tokens : TokenSet → Response
  done : Response
  forwarded : Principal → Response

-- `NewOAuthServer`
unfoldable pub new_server : Store → PairingManager → OAuthLimits ℤ → Server
new_server store pairing options =
    let limits : OAuthLimits ℕ = normalize_oauth_limits options in
    record {
      store = store;
      pairing = pairing;
      pending = [];
      completed = [];
      assertion_jtis = [];
      limits = limits;
      register_limiter =
          new_request_limiter limits.registration_per_ip limits.registration_global limits.window
            limits.max_tracked_addresses;
      authorize_limiter =
          new_request_limiter limits.authorization_per_ip limits.authorization_global limits.window
            limits.max_tracked_addresses;
    }

-- `values.Get(name)`
abbrev pub get : List (String × String) → String → String
get parameters name = or_empty (lookup name parameters)

-- The query of a request, which can always be read.
abbrev pub or_nil : Option (List (String × String)) → List (String × String)
or_nil none = []
or_nil (some parameters) = parameters

-- `strings.TrimRight(s.baseURL(request), "/")`
abbrev pub base : Request → String
base request = text (trim_slashes (codes request.base_url))

-- `prunePendingLocked`
unfoldable pub prune_pending : Server → ℕ → Server
prune_pending s now = record s {
  pending = retain (λ (p : PendingAuthorization). before now p.expires_at) s.pending;
  completed = retain (λ (c : CompletedAuthorization). before now c.expires_at) s.completed;
}

unfoldable pub audience_or : String → Option (List ℕ) → String
audience_or fallback none = fallback
audience_or fallback (some resource) = text resource

unfoldable pub remote_ip : Request → Option String → String
remote_ip request (some host) = host
remote_ip request none = request.remote_addr

module _ (web : Web) where
  -- `ClientIP`
  unfoldable pub client_ip : Request → String
  client_ip request =
      let fallback = remote_ip request (web.split_host request.remote_addr) in
      let value = trim_space (codes request.connecting_ip) in
      if is_empty value
      then fallback
      else elim (web.parse_ip value) [ none ↦ fallback | some ip ↦ ip ]

  -- `canonicalAudience`
  unfoldable pub canonical_audience : Request → String
  canonical_audience request =
      let endpoint = append (base request) "/mcp" in
      audience_or endpoint (canonical_resource web.lib.urls endpoint)
