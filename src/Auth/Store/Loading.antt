-- ===== src/Auth/Store/Loading.antt =====
-- `NewStore` of internal/auth/store.go: what of a saved state is loaded when the store is opened.
use codexlink.Prelude.{
  ℕ, ◌+◌, Bool, ◌&&◌, ◌||◌, Option, none, some, List, [], ◌∷◌, ltb, leb, if◌then◌else◌, length,
  String, Result, ok, err,
}
use codexlink.Prelude.Assoc.{insert}
use codexlink.Prelude.Int.{ℤ}
use codexlink.Prelude.Time.{unix_milli}
use codexlink.Auth.Store.{
  Client, TokenRecord, RefreshTombstone, PersistedState, StoreOptions, Store, Error, too_large,
  capacity, Lib, new_store,
}
use codexlink.Auth.Store.Issue.{contains}
use codexlink.Auth.Store.Refresh.{is_refresh}

-- Older files did not say whether a refresh token may be used.
abbrev pub migrated : TokenRecord → TokenRecord
migrated t = record t {
  refresh_allowed = t.refresh_allowed || (is_refresh t.kind && contains t.scopes "offline_access");
}

unfoldable pub load_clients : List Client → List (String × Client) → List (String × Client)
load_clients [] m = m
load_clients (c ∷ cs) m = load_clients cs (insert c.id c m)

unfoldable pub load_tokens :
    ℕ → List TokenRecord → List (String × TokenRecord) → List (String × TokenRecord)
load_tokens now [] m = m
load_tokens now (t ∷ ts) m =
    load_tokens now ts (if leb t.expires_at now then m else insert t.hash (migrated t) m)

unfoldable pub load_tombstones :
    ℕ → List RefreshTombstone → List (String × RefreshTombstone) → List (String × RefreshTombstone)
load_tombstones now [] m = m
load_tombstones now (t ∷ ts) m =
    load_tombstones now ts (if ltb now t.expires_at then insert t.hash t m else m)

-- The three tests of the capacity.
abbrev pub exceeds : Store → PersistedState → Bool
exceeds s p =
    ltb s.max_clients (length p.clients)
    || ltb s.max_tokens (length p.tokens)
    || ltb s.max_refresh_tombstones (length p.refresh_tombstones)

module _ (lib : Lib) where
  unfoldable pub load : Store → ℕ → Option PersistedState → Result Error Store
  load s now none = ok s
  load s now (some p) =
      if ltb s.max_state_bytes (length (lib.marshal p) + 1)
      then err too_large
      else if exceeds s p
      then err capacity
      else ok (record s {
        clients = load_clients p.clients s.clients;
        tokens = load_tokens (unix_milli now) p.tokens s.tokens;
        tombstones = load_tombstones (unix_milli now) p.refresh_tombstones s.tombstones;
      })

  -- `NewStore`, when the file is readable and well-formed.
  abbrev pub open_store : String → StoreOptions ℤ → ℕ → Option PersistedState → Result Error Store
  open_store workspace_id o now file = load (new_store workspace_id o file) now file
