-- ===== src/Auth/Store/Clients.antt =====
-- The registration of clients in internal/auth/store.go: room is made by dropping the oldest clients
-- that have neither tokens nor codes.
pub mod InUse
use codexlink.Prelude.{
  ℕ, Bool, false, not, ◌||◌, List, [], ◌∷◌, ltb, leb, if◌then◌else◌, length, String, str_eq, Result,
  ok, err,
}
use codexlink.Prelude.Assoc.{insert, delete, retain}
use codexlink.Prelude.Text.{str_lt}
use codexlink.Auth.Store.{
  Client, TokenRecord, AuthorizationCode, Store, Error, capacity, Lib, Env, Outcome, prune, save,
}

unfoldable pub any_token : String → List (String × TokenRecord) → Bool
any_token client_id [] = false
any_token client_id ((h, t) ∷ tokens) = str_eq t.client_id client_id || any_token client_id tokens

unfoldable pub any_code : String → List (String × AuthorizationCode) → Bool
any_code client_id [] = false
any_code client_id ((h, c) ∷ codes) = str_eq c.client_id client_id || any_code client_id codes

-- Whether the client is in the map `active`.
abbrev pub is_active : Store → String → Bool
is_active s client_id = any_token client_id s.tokens || any_code client_id s.codes

-- The order of the candidates: by the time of creation, then by identifier.
abbrev pub comes_before : Client → Client → Bool
comes_before a b =
    if str_eq a.created_at b.created_at then str_lt a.id b.id else str_lt a.created_at b.created_at

unfoldable pub insert_candidate : Client → List Client → List Client
insert_candidate c [] = c ∷ []
insert_candidate c (d ∷ ds) = if comes_before d c then d ∷ insert_candidate c ds else c ∷ d ∷ ds

unfoldable pub candidates : List (String × Client) → List Client
candidates [] = []
candidates ((id, c) ∷ m) = insert_candidate c (candidates m)

-- The last loop of `makeClientRoomLocked`.
unfoldable pub drop_oldest : ℕ → List Client → List (String × Client) → List (String × Client)
drop_oldest max [] clients = clients
drop_oldest max (c ∷ cs) clients =
    let rest = drop_oldest max cs (delete c.id clients) in
    if ltb (length clients) max then clients else rest

-- `makeClientRoomLocked`
unfoldable pub make_client_room : Store → Store
make_client_room s = if ltb (length s.clients) s.max_clients then s else record s {
  clients =
      drop_oldest s.max_clients
        (candidates (retain (λ (c : Client). not (is_active s c.id)) s.clients)) s.clients;
}

module _ (lib : Lib) where
  unfoldable pub registered : Store → Outcome (Unit {0}) → Client → Outcome Client
  registered previous (s, ok _) client = (s, ok client)
  registered previous (s, err e) client = (record s { clients = previous.clients }, err e)

  -- `RegisterClientMetadata` once the client is built. The metadata that does not normalise, or an
  -- identifier that cannot be drawn, is an error that leaves the store as it is.
  unfoldable pub register : Store → Result Error Client → Env → Outcome Client
  register s (err e) env = (s, err e)
  register s (ok client) env =
      let s1 = prune s env.pruned_at in
      let s2 = make_client_room s1 in
      if leb s2.max_clients (length s2.clients)
      then (s2, err capacity)
      else registered s1 (save lib (record s2 { clients = insert client.id client s2.clients }) env)
          client
