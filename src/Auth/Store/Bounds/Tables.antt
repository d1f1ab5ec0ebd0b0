-- ===== src/Auth/Store/Bounds/Tables.antt =====
-- Changes of one table of internal/auth/store.go that keep within the capacities.
use codexlink.Prelude.{ℕ, ◌≤◌, false, not, List, [], ◌∷◌, ◌≡◌, arith, String, leb, length}
use codexlink.Prelude.Assoc.{insert, delete, retain, IsUnique}
use codexlink.Prelude.Assoc.Laws.{
  insert-IsUnique, delete-IsUnique, length-insert_le, length-delete_le,
}
use codexlink.Auth.Store.{AuthorizationCode, RefreshTombstone, Client, Store}
use codexlink.Auth.Store.Bounds.{IsValid}
use codexlink.Auth.Store.Clients.{make_client_room, drop_oldest, candidates, is_active}

pub with_codes :
    (s : Store) (m : List (String × AuthorizationCode))
    → IsValid s
    → IsUnique m
    → length m ≤ s.max_authorization_codes
    → IsValid (record s { codes = m })
with_codes s m v u l = record {
  unique_tokens = v.unique_tokens;
  unique_codes = u;
  unique_tombstones = v.unique_tombstones;
  unique_clients = v.unique_clients;
  tokens_le = v.tokens_le;
  codes_le = l;
  tombstones_le = v.tombstones_le;
  clients_le = v.clients_le;
}

pub with_tombstones :
    (s : Store) (m : List (String × RefreshTombstone))
    → IsValid s
    → IsUnique m
    → length m ≤ s.max_refresh_tombstones
    → IsValid (record s { tombstones = m })
with_tombstones s m v u l = record {
  unique_tokens = v.unique_tokens;
  unique_codes = v.unique_codes;
  unique_tombstones = u;
  unique_clients = v.unique_clients;
  tokens_le = v.tokens_le;
  codes_le = v.codes_le;
  tombstones_le = l;
  clients_le = v.clients_le;
}

pub with_clients :
    (s : Store) (m : List (String × Client))
    → IsValid s
    → IsUnique m
    → length m ≤ s.max_clients
    → IsValid (record s { clients = m })
with_clients s m v u l = record {
  unique_tokens = v.unique_tokens;
  unique_codes = v.unique_codes;
  unique_tombstones = v.unique_tombstones;
  unique_clients = u;
  tokens_le = v.tokens_le;
  codes_le = v.codes_le;
  tombstones_le = v.tombstones_le;
  clients_le = l;
}

pub insert_code-IsValid :
    (s : Store) (h : String) (c : AuthorizationCode)
    → IsValid s
    → leb s.max_authorization_codes (length s.codes) ≡ false
    → IsValid (record s { codes = insert h c s.codes })
insert_code-IsValid s h c v room =
    with_codes s (insert h c s.codes) v (insert-IsUnique h c s.codes v.unique_codes)
      (ground (arith, room, length-insert_le h c s.codes))

pub drop_oldest-IsUnique :
    (max : ℕ) (cs : List Client) (m : List (String × Client))
    → IsUnique m
    → IsUnique (drop_oldest max cs m)
unfolding drop_oldest
drop_oldest-IsUnique max [] m u = u
drop_oldest-IsUnique max (c ∷ cs) m u =
    let r = drop_oldest-IsUnique max cs (delete c.id m) (delete-IsUnique c.id m u) in ground arith

pub length-drop_oldest :
    (max : ℕ) (cs : List Client) (m : List (String × Client))
    → length (drop_oldest max cs m) ≤ length m
unfolding drop_oldest
length-drop_oldest max [] m = omega arith
length-drop_oldest max (c ∷ cs) m =
    ground (arith, length-drop_oldest max cs (delete c.id m), length-delete_le c.id m)

pub make_client_room-IsValid : (s : Store) → IsValid s → IsValid (make_client_room s)
unfolding make_client_room
make_client_room-IsValid s v =
    let cs = candidates (retain (λ (c : Client). not (is_active s c.id)) s.clients) in
    let w =
      with_clients s (drop_oldest s.max_clients cs s.clients) v
        (drop_oldest-IsUnique s.max_clients cs s.clients v.unique_clients)
        (omega (arith, v.clients_le, length-drop_oldest s.max_clients cs s.clients)) in
    ground arith

pub make_client_room-options : (s : Store) → (make_client_room s).options ≡ s.options
unfolding make_client_room
make_client_room-options s = ground arith
