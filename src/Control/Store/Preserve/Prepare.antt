-- ===== src/Control/Store/Preserve/Prepare.antt =====
-- `Prepare` of internal/control/store.go keeps the store valid.
use mathlib.Core.Path.{subst}
use Prim.Native.String.{String}
use codexlink.Prelude.{
  ℕ, zero, suc, ◌≤◌, ◌<◌, true, Option, none, some, List, ◌≡◌, refl, arith, length, ok, sym,
  Bool-cases, Result-cases, inl, inr, str_eq_refl, leb,
}
use codexlink.Prelude.Assoc.{lookup, insert, delete}
use codexlink.Prelude.Base64.{encode_word, Triples}
use codexlink.Prelude.Int.{ℤ, pos, negsuc, int_eq}
use codexlink.Prelude.Text.{has_prefix}
use codexlink.Control.{Request, Codec, max_active, min_ttl, max_ttl}
use codexlink.Control.Validation.{
  is_record, is_identity, is_request_id, is_status_record, is_pending_record,
}
use codexlink.Control.Store.{Env, Store, prune_and_save}
use codexlink.Control.Store.Calls.{
  find_identity, ttl_of, request_id, new_request, add_request, reuse_or_add, prepare_pruned,
  prepare_ttl, prepare,
}
use codexlink.Control.Store.Invariant.{IsValid, add-IsValidMap}
use codexlink.Control.Store.Maps.{delete-insert_new}
use codexlink.Control.Store.Preserve.{
  IsFresh, save_or-IsValid, Pruned, prune_and_save-Pruned, IsValid-mono,
}

request_id-valid : (bytes : List ℕ) → Triples 8 bytes → is_request_id (request_id bytes) ≡ true
unfolding is_request_id request_id has_prefix
request_id-valid bytes t = let (w, l) = encode_word 8 bytes t in ground arith

ttl_of_bounds : (z : ℤ) (ttl : ℕ) → ttl_of z ≡ some ttl → (min_ttl ≤ ttl) × (ttl ≤ max_ttl)
unfolding ttl_of
ttl_of_bounds (pos zero) ttl h = ground arith
ttl_of_bounds (pos (suc n)) ttl h = ground arith
ttl_of_bounds (negsuc n) ttl h = cc

module _ (c : Codec) where
  new_request-valid :
      (s : Store) (id task_id : String) (iteration : ℤ) (now ttl : ℕ)
      → is_request_id id ≡ true
      → is_identity task_id iteration ≡ true
      → 0 < now
      → min_ttl ≤ ttl
      → ttl ≤ max_ttl
      → is_record c s.workspace_id (new_request s id task_id iteration now ttl) ≡ true
  unfolding is_record is_status_record is_pending_record int_eq
  new_request-valid s id task_id iteration now ttl h i p a b =
      ground (arith, str_eq_refl s.workspace_id)

  add_request-IsValid :
      (t : ℕ) (s : Store) (task_id : String) (iteration : ℤ) (ttl : ℕ) (env : Env)
      (bytes : Option (List ℕ))
      → IsFresh s bytes
      → is_identity task_id iteration ≡ true
      → find_identity task_id iteration s.records ≡ none
      → length s.records < max_active
      → min_ttl ≤ ttl
      → ttl ≤ max_ttl
      → 0 < t
      → t ≤ env.stamped_at
      → IsValid c t s
      → IsValid c env.stamped_at (add_request c s task_id iteration ttl env bytes).0
  unfolding add_request
  add_request-IsValid t s task_id iteration ttl env none f i n l a b z h v = IsValid-mono c h v
  add_request-IsValid t s task_id iteration ttl env (some bytes) f i n l a b z h v =
      let id = request_id bytes in
      let r = new_request s id task_id iteration env.stamped_at ttl in
      let w = IsValid-mono c h v in
      save_or-IsValid c env.stamped_at (record s { records = insert id r s.records })
        env.second_save (record s { records = delete id (insert id r s.records) }) r
        (add-IsValidMap c id r f.1 n l
          (record {
            own_id = refl;
            valid =
                new_request-valid s id task_id iteration env.stamped_at ttl
                  (request_id-valid bytes f.0) i (omega arith) a b;
            created = omega arith;
          })
          w.map_valid)
        (subst (λ m. IsValid c env.stamped_at (record s { records = m }))
          (sym (delete-insert_new id r s.records f.1)) w)

  reuse_or_add-IsValid :
      (t : ℕ) (s : Store) (task_id : String) (iteration : ℤ) (ttl : ℕ) (env : Env)
      (bytes : Option (List ℕ)) (o : Option Request)
      → find_identity task_id iteration s.records ≡ o
      → IsFresh s bytes
      → is_identity task_id iteration ≡ true
      → min_ttl ≤ ttl
      → ttl ≤ max_ttl
      → 0 < t
      → t ≤ env.stamped_at
      → IsValid c t s
      → IsValid c env.stamped_at (reuse_or_add c s task_id iteration ttl env bytes o).0
  unfolding reuse_or_add
  reuse_or_add-IsValid t s task_id iteration ttl env bytes (some r) e f i a b z h v =
      IsValid-mono c h v
  reuse_or_add-IsValid t s task_id iteration ttl env bytes none e f i a b z h v =
      elim (Bool-cases (leb max_active (length s.records))) [
        | inl full ↦ rw full (IsValid-mono c h v)
        | inr room ↦
            rw room (
              add_request-IsValid t s task_id iteration ttl env bytes f i e (ground arith) a b z h
                v)
      ]

  IsFresh-pruned :
      (s s' : Store) (bytes : Option (List ℕ))
      → ((id : String) → lookup id s.records ≡ none → lookup id s'.records ≡ none)
      → IsFresh s bytes
      → IsFresh s' bytes
  IsFresh-pruned s s' none n f = tt
  IsFresh-pruned s s' (some bytes) n f = (f.0, n (request_id bytes) f.1)

  prepare_ttl-IsValid :
      (t : ℕ) (s : Store) (task_id : String) (iteration : ℤ) (env : Env) (bytes : Option (List ℕ))
      (o : Option ℕ)
      → ((ttl : ℕ) → o ≡ some ttl → (min_ttl ≤ ttl) × (ttl ≤ max_ttl))
      → IsFresh s bytes
      → is_identity task_id iteration ≡ true
      → 0 < t
      → t ≤ env.stamped_at
      → IsValid c t s
      → IsValid c env.stamped_at (prepare_ttl c s task_id iteration env bytes o).0
  unfolding prepare_ttl prepare_pruned
  prepare_ttl-IsValid t s task_id iteration env bytes none b f i z h v = IsValid-mono c h v
  prepare_ttl-IsValid t s task_id iteration env bytes (some ttl) b f i z h v =
      let p = prune_and_save-Pruned c t s env.pruned_at env.first_save v in
      let (lo, hi) = b ttl refl in
      elim (Result-cases (prune_and_save c s env.pruned_at env.first_save)) [
        | inl (x, e) ↦ rw (e, prepare_pruned) (IsValid-mono c h v)
        | inr (s', e) ↦
            let q : Pruned c t s (ok s') = rw e at p in
            rw (e, prepare_pruned)
              (reuse_or_add-IsValid t s' task_id iteration ttl env bytes _ refl
                (IsFresh-pruned s s' bytes q.1 f) i lo hi z h q.0)
      ]

  pub prepare-IsValid :
      (t : ℕ) (s : Store) (task_id : String) (iteration ttl : ℤ) (env : Env)
      (bytes : Option (List ℕ))
      → IsFresh s bytes
      → 0 < t
      → t ≤ env.stamped_at
      → IsValid c t s
      → IsValid c env.stamped_at (prepare c s task_id iteration ttl env bytes).0
  unfolding prepare
  prepare-IsValid t s task_id iteration ttl env bytes f z h v =
      elim (Bool-cases (is_identity task_id iteration)) [
        | inr bad ↦ rw bad (IsValid-mono c h v)
        | inl good ↦ rw good (
            prepare_ttl-IsValid t s task_id iteration env bytes (ttl_of ttl) (ttl_of_bounds ttl) f
              good z h v)
      ]
