-- ===== src/Auth/Store.antt =====
-- The state of internal/auth/store.go: clients, tokens, authorization codes and the tombstones of used
-- refresh tokens, how expired entries are pruned, and how the state is saved. The clock's readings, the
-- random texts and the outcome of a write are arguments (`Env`). SHA-256, the PKCE challenge, URLs and
-- JSON are parameters (`Lib`). Times are nanoseconds; a token's times are milliseconds.
pub mod Issue
pub mod Refresh
pub mod Access
pub mod Clients
pub mod Loading
pub mod History
pub mod Gone
pub mod Used
pub mod Sound
pub mod Revoked
pub mod Granted
pub mod Bounds
pub mod Kept
pub mod Codes
mod Tests
use codexlink.Prelude.{
  ℕ, zero, suc, ◌+◌, ◌*◌, Bool, true, false, not, ◌&&◌, ◌||◌, Option, none, some, List, [], ◌∷◌,
  ltb, leb, ◌==◌, if◌then◌else◌, length, String, str_eq, Result, ok, err, map,
}
use codexlink.Prelude.Assoc.{lookup, insert, delete, retain}
use codexlink.Prelude.Int.{ℤ, positive_or}
use codexlink.Prelude.Text.{str_lt}
use codexlink.Prelude.Time.{minute, hour, unix_milli, before}
use codexlink.Auth.Resource.{UrlLib}

pub record Client : Type 0 where
  pub id : String
  pub name : String
  pub redirect_uris : List String
  pub token_endpoint_auth_method : String
  pub grant_types : List String
  pub response_types : List String
  pub application_type : String
  pub jwks_uri : String
  pub token_endpoint_signing_alg : String
  pub created_at : String

pub data Kind : Type 0 where
  access refresh : Kind
  other : String → Kind

pub record TokenRecord : Type 0 where
  pub hash : String
  pub kind : Kind
  pub client_id : String
  pub workspace_id : String
  pub audience : String
  pub scopes : List String
  pub family_id : String
  pub refresh_allowed : Bool
  pub issued_at : ℕ
  pub expires_at : ℕ

pub record RefreshTombstone : Type 0 where
  pub hash : String
  pub family_id : String
  pub audience : String
  pub expires_at : ℕ

pub record AuthorizationCode : Type 0 where
  pub hash : String
  pub client_id : String
  pub redirect_uri : String
  pub code_challenge : String
  pub scopes : List String
  pub workspace_id : String
  pub pairing_id : String
  pub audience : String
  pub refresh_allowed : Bool
  pub expires_at : ℕ

pub record PersistedState : Type 0 where
  pub clients : List Client
  pub tokens : List TokenRecord
  pub refresh_tombstones : List RefreshTombstone

pub record StoreOptions (N : Type 0) : Type 0 where
  pub access_token_ttl : N
  pub refresh_token_ttl : N
  pub auth_code_ttl : N
  pub max_clients : N
  pub max_tokens : N
  pub max_authorization_codes : N
  pub max_refresh_tombstones : N
  pub max_state_bytes : N

-- `applyStoreDefaults`
unfoldable pub apply_store_defaults : StoreOptions ℤ → StoreOptions ℕ
apply_store_defaults o = record {
  access_token_ttl = positive_or hour o.access_token_ttl;
  refresh_token_ttl = positive_or (30 * 24 * hour) o.refresh_token_ttl;
  auth_code_ttl = positive_or (5 * minute) o.auth_code_ttl;
  max_clients = positive_or 256 o.max_clients;
  max_tokens = positive_or 4096 o.max_tokens;
  max_authorization_codes = positive_or 256 o.max_authorization_codes;
  max_refresh_tombstones = positive_or 4096 o.max_refresh_tombstones;
  max_state_bytes = positive_or 8_388_608 o.max_state_bytes;
}

-- `disk` is what the file holds, `none` if there is none.
pub record Store : Type 0 where
  pub options : StoreOptions ℕ
  pub open options use *
  pub workspace_id : String
  pub clients : List (String × Client)
  pub tokens : List (String × TokenRecord)
  pub codes : List (String × AuthorizationCode)
  pub tombstones : List (String × RefreshTombstone)
  pub disk : Option PersistedState

pub record TokenSet : Type 0 where
  pub access_token : String
  pub refresh_token : String
  pub expires_in : ℕ
  pub scopes : List String

pub record Principal : Type 0 where
  pub token : String
  pub client_id : String
  pub workspace_id : String
  pub audience : String
  pub scopes : List String
  pub expires_at : ℕ

pub data Error : Type 0 where
  invalid_grant invalid_client invalid_target capacity : Error
  invalid_metadata no_entropy write_failed too_large : Error
  unknown expired wrong_workspace wrong_audience : Error

-- What the store uses of crypto/sha256, encoding/hex, encoding/json and net/url.
pub record Lib : Type 0 where
  pub hash_value : String → String
  pub pkce_challenge : String → String
  pub marshal : PersistedState → List ℕ
  pub urls : UrlLib

-- What a call meets: the readings of `s.now()` in the order in which they are used, the texts of
-- `randomToken` (`none` for its error), and whether the file is written.
pub record Env : Type 0 where
  pub created_at : ℕ
  pub pruned_at : ℕ
  pub checked_at : ℕ
  pub pruned_again_at : ℕ
  pub issued_at : ℕ
  pub saved_at : ℕ
  pub access_text : Option String
  pub family_text : Option String
  pub refresh_text : Option String
  pub is_written : Bool

abbrev pub Outcome : Type 0 → Type 0
Outcome A = Store × Result Error A

abbrev pub is_live_token : ℕ → TokenRecord → Bool
is_live_token now t = ltb (unix_milli now) t.expires_at

abbrev pub is_live_tombstone : ℕ → RefreshTombstone → Bool
is_live_tombstone now t = ltb (unix_milli now) t.expires_at

abbrev pub is_live_code : ℕ → AuthorizationCode → Bool
is_live_code now c = before now c.expires_at

-- `pruneLocked`
unfoldable pub prune : Store → ℕ → Store
prune s now = record s {
  tokens = retain (is_live_token now) s.tokens;
  tombstones = retain (is_live_tombstone now) s.tombstones;
  codes = retain (is_live_code now) s.codes;
}

-- `sort.Slice` by a text.
unfoldable pub insert_sorted : {A : Type 0} → (A → String) → A → List A → List A
insert_sorted key x [] = x ∷ []
insert_sorted key x (y ∷ ys) =
    if str_lt (key y) (key x) then y ∷ insert_sorted key x ys else x ∷ y ∷ ys

unfoldable pub sort_by : {A : Type 0} → (A → String) → List A → List A
sort_by key [] = []
sort_by key (x ∷ xs) = insert_sorted key x (sort_by key xs)

abbrev pub values : {A : Type 0} → List (String × A) → List A
values m = map (λ e. e.1) m

abbrev pub persisted : Store → PersistedState
persisted s = record {
  clients = sort_by (λ (c : Client). c.id) (values s.clients);
  tokens = sort_by (λ (t : TokenRecord). t.hash) (values s.tokens);
  refresh_tombstones = sort_by (λ (t : RefreshTombstone). t.hash) (values s.tombstones);
}

module _ (lib : Lib) where
  -- `saveLocked` after its pruning.
  unfoldable pub write : Store → Bool → Outcome (Unit {0})
  write s is_written =
      if ltb s.max_state_bytes (length (lib.marshal (persisted s)) + 1)
      then (s, err capacity)
      else if is_written
      then (record s { disk = some (persisted s) }, ok tt)
      else (s, err write_failed)

  -- `saveLocked`
  unfoldable pub save : Store → Env → Outcome (Unit {0})
  save s env = write (prune s env.saved_at) env.is_written

abbrev pub new_store : String → StoreOptions ℤ → Option PersistedState → Store
new_store workspace_id o file = record {
  options = apply_store_defaults o;
  workspace_id = workspace_id;
  clients = [];
  tokens = [];
  codes = [];
  tombstones = [];
  disk = file;
}
