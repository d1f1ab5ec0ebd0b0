-- ===== src/Control/Store/Invariant.antt =====
-- What holds of the store of internal/control/store.go between its calls.
use Prim.Native.String.{String}
use mathlib.Core.Path.{subst₂}
use codexlink.Prelude.{
  ℕ, ◌≤◌, ◌<◌, true, Option, none, some, List, [], ◌∷◌, ◌≡◌, refl, arith, eq_iff, length, Result,
  ok, err, ◌∙◌, sym, str_eq_refl, ap,
}
use codexlink.Prelude.Assoc.{lookup, insert, delete, retain, IsUnique, All}
use codexlink.Prelude.Assoc.Laws.{
  lookup-insert, lookup-delete, insert-IsUnique, delete-IsUnique, retain-IsUnique, All-insert,
  All-delete, All-retain, All-lookup, length-insert_new, length-insert_old, length-delete_le,
  length-delete_old, length-retain_le,
}
use codexlink.Control.{Request, Codec, max_active, Error}
use codexlink.Control.Validation.{is_record}
use codexlink.Control.Store.{Save, Store, sorted, values, is_live, write, save}
use codexlink.Control.Store.Calls.{find_identity}
use codexlink.Control.Store.Identities.{
  Distinct, retain-Distinct, delete-Distinct, insert_new-Distinct, insert_same-Distinct,
  find_identity-delete_own,
}
use codexlink.Control.Store.Maps.{IsKeyed, find_id, find_id-sorted}

-- What the file holds, as a list.
abbrev pub contents : Option (List Request) → List Request
contents none = []
contents (some rs) = rs

-- The file and the map agree, whichever request is looked up.
abbrev pub IsStored : Store → Type 0
IsStored s = (id : String) → find_id id (contents s.disk) ≡ lookup id s.records

module _ (c : Codec) where
  -- A request of the store: under its own identifier, one that `NewStore` would load, and no younger
  -- than `t`.
  pub record Entry (workspace_id : String) (t : ℕ) (id : String) (r : Request) : Type 0 where
    pub own_id : id ≡ r.request_id
    pub valid : is_record c workspace_id r ≡ true
    pub created : r.created_at ≤ t

  -- A map of requests at time `t`.
  pub record IsValidMap (workspace_id : String) (t : ℕ) (m : List (String × Request)) : Type 0 where
    pub unique : IsUnique m
    pub bounded : length m ≤ max_active
    pub entries : All (Entry workspace_id t) m
    pub distinct : Distinct m

  pub record IsValid (t : ℕ) (s : Store) : Type 0 where
    pub map_valid : IsValidMap s.workspace_id t s.records
    pub stored : IsStored s

  entries_mono :
      (w : String) (t u : ℕ) (m : List (String × Request))
      → t ≤ u
      → All (Entry w t) m
      → All (Entry w u) m
  entries_mono w t u [] h a = tt
  entries_mono w t u ((id, r) ∷ m) h a = (
    record { own_id = a.0.own_id; valid = a.0.valid; created = omega (arith, a.0.created) },
    entries_mono w t u m h a.1,
  )

  pub IsValidMap-mono :
      {w : String} {t u : ℕ} {m : List (String × Request)}
      → t ≤ u
      → IsValidMap w t m
      → IsValidMap w u m
  IsValidMap-mono {w} {t} {u} {m} h v = record {
    unique = v.unique;
    bounded = v.bounded;
    entries = entries_mono w t u m h v.entries;
    distinct = v.distinct;
  }

  entries-IsKeyed :
      (w : String) (t : ℕ) (m : List (String × Request)) → All (Entry w t) m → IsKeyed m
  entries-IsKeyed w t [] a = tt
  entries-IsKeyed w t ((id, r) ∷ m) a = (a.0.own_id, entries-IsKeyed w t m a.1)

  pub retain-IsValidMap :
      {w : String} {t : ℕ} {m : List (String × Request)} (now : ℕ)
      → IsValidMap w t m
      → IsValidMap w t (retain (is_live now) m)
  retain-IsValidMap {w} {t} {m} now v = record {
    unique = retain-IsUnique _ _ v.unique;
    bounded = omega (arith, length-retain_le (is_live now) m, v.bounded);
    entries = All-retain _ _ _ v.entries;
    distinct = retain-Distinct _ _ v.distinct;
  }

  pub delete-IsValidMap :
      {w : String} {t : ℕ} {m : List (String × Request)} (id : String)
      → IsValidMap w t m
      → IsValidMap w t (delete id m)
  delete-IsValidMap {w} {t} {m} id v = record {
    unique = delete-IsUnique _ _ v.unique;
    bounded = omega (arith, length-delete_le id m, v.bounded);
    entries = All-delete _ _ _ v.entries;
    distinct = delete-Distinct _ _ v.distinct;
  }

  -- A request that is taken out and put back.
  pub put_back-IsValidMap :
      {w : String} {t : ℕ} {m : List (String × Request)} (id : String) (r : Request)
      → lookup id m ≡ some r
      → IsValidMap w t m
      → IsValidMap w t (insert id r (delete id m))
  put_back-IsValidMap {w} {t} {m} id r e v =
      let gone : lookup id (delete id m) ≡ none =
        ground (arith, lookup-delete id id m, str_eq_refl id) in
      record {
        unique = insert-IsUnique _ _ _ (delete-IsUnique id m v.unique);
        bounded = omega (
          arith,
          length-insert_new id r (delete id m) gone,
          length-delete_old id r m e,
          v.bounded,
        );
        entries =
            All-insert _ _ _ _ (All-lookup _ id r m v.entries e) (All-delete _ id m v.entries);
        distinct =
            insert_new-Distinct id r (delete id m) gone
              (find_identity-delete_own id r m e v.distinct) (delete-Distinct id m v.distinct);
      }

  -- Nothing is seen of that.
  pub lookup-put_back :
      (j id : String) (r : Request) (m : List (String × Request))
      → lookup id m ≡ some r
      → lookup j (insert id r (delete id m)) ≡ lookup j m
  lookup-put_back j id r m e =
      ground (arith, lookup-insert j id r (delete id m), lookup-delete j id m, eq_iff id j)

  pub write_again-IsValidMap :
      {w : String} {t : ℕ} {m : List (String × Request)} (id : String) (r r' : Request)
      → lookup id m ≡ some r
      → r'.task_id ≡ r.task_id
      → r'.iteration ≡ r.iteration
      → Entry w t id r'
      → IsValidMap w t m
      → IsValidMap w t (insert id r' m)
  write_again-IsValidMap {w} {t} {m} id r r' e p q n v = record {
    unique = insert-IsUnique _ _ _ v.unique;
    bounded = omega (arith, length-insert_old id r' r m e, v.bounded);
    entries = All-insert _ _ _ _ n v.entries;
    distinct = insert_same-Distinct id r r' p q m e v.distinct;
  }

  pub add-IsValidMap :
      {w : String} {t : ℕ} {m : List (String × Request)} (id : String) (r : Request)
      → lookup id m ≡ none
      → find_identity r.task_id r.iteration m ≡ none
      → length m < max_active
      → Entry w t id r
      → IsValidMap w t m
      → IsValidMap w t (insert id r m)
  add-IsValidMap {w} {t} {m} id r e f l n v = record {
    unique = insert-IsUnique _ _ _ v.unique;
    bounded = omega (arith, length-insert_new id r m e);
    entries = All-insert _ _ _ _ n v.entries;
    distinct = insert_new-Distinct id r m e f v.distinct;
  }

  -- A save that succeeds leaves the map as it is and writes it.
  abbrev pub Saved : Store → Result Error Store → Type 0
  Saved s (ok s') =
      (s'.records ≡ s.records)
      × (s'.workspace_id ≡ s.workspace_id)
      × (contents s'.disk ≡ values (sorted s.records))
  Saved s (err x) = Unit

  write-Saved :
      (s : Store) (e : Save) (rs : List Request)
      → values (sorted s.records) ≡ rs
      → Saved s (write c s e rs)
  unfolding write
  write-Saved s Save.clean [] h = (refl, refl, sym h)
  write-Saved s Save.refused [] h = tt
  write-Saved s Save.broken [] h = tt
  write-Saved s e (r ∷ rs) h = ground arith

  pub save-Saved : (s : Store) (e : Save) → Saved s (save c s e)
  unfolding save
  save-Saved s Save.clean = write-Saved s Save.clean _ refl
  save-Saved s Save.refused = tt
  save-Saved s Save.broken = write-Saved s Save.broken _ refl

  -- So it makes a valid store of a valid map.
  pub save-IsValid :
      (t : ℕ) (s : Store) (e : Save) {s' : Store}
      → IsValidMap s.workspace_id t s.records
      → save c s e ≡ ok s'
      → IsValid t s' × (s'.records ≡ s.records) × (s'.workspace_id ≡ s.workspace_id)
  save-IsValid t s e {s'} v h =
      let w : Saved s (ok s') = rw h at (save-Saved s e) in
      (
        record {
          map_valid = subst₂ (λ ws m. IsValidMap ws t m) (sym w.1) (sym w.0) v;
          stored = λ id.
              ap (find_id id) w.2
              ∙ find_id-sorted id s.records (entries-IsKeyed _ _ _ v.entries) v.unique
              ∙ ap (lookup id) (sym w.0);
        },
        w.0,
        w.1,
      )
