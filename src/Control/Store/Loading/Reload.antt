-- ===== src/Control/Store/Loading/Reload.antt =====
-- A store of internal/control/store.go that is saved and opened again: `saveLocked` against the loading
-- part of `NewStore`.
use codexlink.Prelude.{
  ℕ, ◌≤◌, ◌<◌, true, Option, none, some, List, [], ◌∷◌, ◌≡◌, ◌≢◌, refl, arith, length, String,
  eq_iff, ok, err, ◌∙◌, ap,
}
use codexlink.Prelude.Assoc.{lookup, insert, IsUnique, All}
use codexlink.Prelude.Assoc.Laws.{lookup-insert}
use codexlink.Prelude.Int.{int_eq_iff}
use codexlink.Control.{Request, state_too_large, Codec, max_active, max_state_bytes}
use codexlink.Control.Validation.{is_record}
use codexlink.Control.Store.{clean, Store, sorted, values, write, save}
use codexlink.Control.Store.Calls.{find_identity}
use codexlink.Control.Store.Identities.{Distinct}
use codexlink.Control.Store.Invariant.{Entry, IsValidMap}
use codexlink.Control.Store.Loading.{load_records, load}
use codexlink.Control.Store.Loading.Apart.{
  Apart, AllOf, AllApart, IsNew, sorted-AllOf, sorted-AllApart, AllOf-IsNew,
}
use codexlink.Control.Store.Maps.{find_id, find_id-sorted, length-values-sorted}

abbrev or_else : Option Request → Option Request → Option Request
or_else none o = o
or_else (some r) o = some r

module _ (c : Codec) (w : String) where
  -- What the loop loads of requests that are valid, apart from each other and new.
  Loads : List Request → List (String × Request) → Type 0
  Loads rs m =
      (n : List (String × Request)) × (load_records c w rs m ≡ ok n)
      × ((id : String) → lookup id n ≡ or_else (lookup id m) (find_id id rs))

  load_records-Loads :
      (rs : List Request) (m : List (String × Request))
      → AllOf (λ r. is_record c w r ≡ true) rs
      → AllApart rs
      → AllOf (IsNew m) rs
      → Loads rs m
  unfolding Loads load_records find_id
  load_records-Loads [] m v a n = (m, refl, λ id. ground arith)
  load_records-Loads (r ∷ rs) m v a n =
      let (k, e, f) =
        load_records-Loads rs (insert r.request_id r m) v.1 a.1 (AllOf-IsNew r rs m a.0 n.1) in
      (
        k,
        ground (arith, e, v.0, n.0),
        λ id. ground (
          arith,
          f id,
          n.0,
          eq_iff r.request_id id,
          ap (λ j. lookup j m),
          lookup-insert id r.request_id r m,
        ),
      )

  Apart-values :
      (t : ℕ) (id : String) (r : Request) (m : List (String × Request))
      → id ≡ r.request_id
      → lookup id m ≡ none
      → find_identity r.task_id r.iteration m ≡ none
      → All (Entry c w t) m
      → AllOf (Apart r) (values m)
  unfolding lookup find_identity
  Apart-values t id r [] e n f a = tt
  Apart-values t id r ((j, q) ∷ m) e n f a = (
    (
      λ same. ground (arith, same, e, n, a.0.own_id, eq_iff j id),
      ground (
        arith,
        f,
        eq_iff r.task_id q.task_id,
        eq_iff q.task_id r.task_id,
        int_eq_iff r.iteration q.iteration,
        int_eq_iff q.iteration r.iteration,
      ),
    ),
    Apart-values t id r m e (ground (arith, n)) (ground (arith, f)) a.1,
  )

  AllApart-values :
      (t : ℕ) (m : List (String × Request))
      → All (Entry c w t) m
      → IsUnique m
      → Distinct m
      → AllApart (values m)
  AllApart-values t [] a u d = tt
  AllApart-values t ((id, r) ∷ m) a u d =
      (Apart-values t id r m a.0.own_id u.0 d.0 a.1, AllApart-values t m a.1 u.1 d.1)

  valid_of :
      (t : ℕ) (m : List (String × Request))
      → All (Entry c w t) m
      → AllOf (λ r. is_record c w r ≡ true) (values m)
  valid_of t [] a = tt
  valid_of t ((id, r) ∷ m) a = (a.0.valid, valid_of t m a.1)

  keyed_of :
      (t : ℕ) (m : List (String × Request))
      → All (Entry c w t) m
      → All (λ id r. id ≡ r.request_id) m
  keyed_of t [] a = tt
  keyed_of t ((id, r) ∷ m) a = (a.0.own_id, keyed_of t m a.1)

  all-IsNew : (rs : List Request) → AllOf (IsNew []) rs
  unfolding lookup find_identity
  all-IsNew [] = tt
  all-IsNew (r ∷ rs) = ((refl, refl), all-IsNew rs)

module _ (c : Codec) where
  write-Loads :
      (w : String) (s : Store) (rs : List Request) {s' : Store}
      → write c s clean rs ≡ ok s'
      → length (c.marshal_records rs) < max_state_bytes
      → length rs ≤ max_active
      → Loads c w rs []
      → (m : List (String × Request)) × (load c w s'.disk ≡ ok m)
        × ((id : String) → lookup id m ≡ find_id id rs)
  unfolding write load Loads lookup
  write-Loads w s [] {s'} q z l (m, e, f) =
      let d : s'.disk ≡ none = ground (arith, q) in
      ([], ap (load c w) d, λ id. unfold find_id in refl)
  write-Loads w s (r ∷ rs) {s'} q z l (m, e, f) =
      let d : s'.disk ≡ some (r ∷ rs) = ground (arith, q, z) in
      (m, ap (load c w) d ∙ ground (arith, z, l, e), f)

  -- A save that succeeds can be loaded: what `NewStore` reads from the file of a valid map is each request
  -- of the map under its identifier, and nothing else; if the encoded requests are shorter than 1 MiB.
  pub load-save :
      (t : ℕ) (s : Store) {s' : Store}
      → IsValidMap c s.workspace_id t s.records
      → length (c.marshal_records (values (sorted s.records))) < max_state_bytes
      → save c s clean ≡ ok s'
      → (m : List (String × Request)) × (load c s.workspace_id s'.disk ≡ ok m)
        × ((id : String) → lookup id m ≡ lookup id s.records)
  unfolding save
  load-save t s {s'} v z q =
      let w = s.workspace_id in
      let rs = values (sorted s.records) in
      let l : length rs ≤ max_active = ground (arith, v.bounded, length-values-sorted s.records) in
      let x =
        load_records-Loads c w rs []
          (sorted-AllOf (λ r. is_record c w r ≡ true) s.records
            (valid_of c w t s.records v.entries))
          (sorted-AllApart s.records
            (AllApart-values c w t s.records v.entries v.unique v.distinct))
          (all-IsNew c w rs) in
      let (m, e, f) = write-Loads w s rs {s' = s'} q z l x in
      (m, e, λ id. f id ∙ find_id-sorted id s.records (keyed_of c w t s.records v.entries) v.unique)

  write_limit :
      (w : String) (s : Store) (rs : List Request)
      → rs ≢ []
      → length (c.marshal_records rs) ≡ max_state_bytes
      → (s' : Store) × (write c s clean rs ≡ ok s') × (load c w s'.disk ≡ err state_too_large)
  unfolding write load
  write_limit w s [] n z = absurd (n refl)
  write_limit w s (r ∷ rs) n z =
      (record s { disk = some (r ∷ rs) }, ground (arith, z), ground (arith, z))

  -- A state with requests that are exactly 1 MiB long when encoded is saved, but the file, which has a
  -- newline after them, is too large for `NewStore`.
  pub load-save_limit :
      (s : Store)
      → values (sorted s.records) ≢ []
      → length (c.marshal_records (values (sorted s.records))) ≡ max_state_bytes
      → (s' : Store) × (save c s clean ≡ ok s')
        × (load c s.workspace_id s'.disk ≡ err state_too_large)
  unfolding save
  load-save_limit s n z = write_limit s.workspace_id s (values (sorted s.records)) n z
