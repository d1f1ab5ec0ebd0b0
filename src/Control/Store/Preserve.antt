-- ===== src/Control/Store/Preserve.antt =====
-- Every call of the store in internal/control/store.go keeps it valid, whatever the saves meet.
pub mod Submit
pub mod Prepare
use Prim.Native.String.{String}
use codexlink.Prelude.{
  ℕ, zero, suc, ◌+◌, ◌-◌, ◌≤◌, ◌<◌, Bool, true, false, not, ◌&&◌, ◌||◌, Option, none, some, List,
  [], ◌∷◌, ◌≡◌, ◌≢◌, refl, arith, str_eq, eq_iff, if◌then◌else◌, length, Result, ok, err, ◌∙◌, sym,
  ap, Bool-cases, Option-cases, Result-cases, inl, inr, str_eq_refl, leb,
}
use codexlink.Prelude.Assoc.{lookup, insert, delete, retain, IsUnique, All, filter_some}
use codexlink.Prelude.Assoc.Laws.{All-lookup, lookup-retain-none, lookup-insert}
use codexlink.Prelude.Base64.{encode_word, Triples}
use codexlink.Prelude.Int.{ℤ, pos, negsuc, int_eq, int_eq_iff}
use codexlink.Prelude.Text.{has_prefix, all_codes}
use codexlink.Prelude.Time.{before}
use codexlink.Control.{
  Request, Submission, Status, pending, submitted, unknown, Codec, Error, max_active, min_ttl,
  max_ttl, retention, max_response_bytes, State,
}
use codexlink.Control.Validation.{
  is_record, is_identity, is_request_id, is_status_record, is_pending_record, is_submitted_record,
  is_submission,
}
use codexlink.Control.Store.{
  Save, Env, Store, Outcome, sorted, values, is_live, any_expired, save, prune_and_save, save_or,
}
use codexlink.Control.Store.Calls.{
  find_identity, ttl_of, request_id, new_request, add_request, reuse_or_add, prepare_pruned,
  prepare_ttl, prepare, drop_expired, prune_first, expire_first, matching, resubmit, answered,
  accept, submit_status, submit_matched, submit_kept, submit, get_kept, get, cancel_found,
  cancel_status, cancel_locked, cancel, receipt,
}
use codexlink.Control.Store.Invariant.{
  IsStored, Entry, IsValidMap, IsValid, IsValidMap-mono, retain-IsValidMap, delete-IsValidMap,
  put_back-IsValidMap, lookup-put_back, write_again-IsValidMap, add-IsValidMap, save-IsValid,
}
use codexlink.Control.Store.Maps.{delete-insert_new}

-- The clock does not go back: not between calls, nor between the readings of one.
pub record InOrder (t : ℕ) (env : Env) : Type 0 where
  pub checked : t ≤ env.checked_at
  pub pruned : env.checked_at ≤ env.pruned_at
  pub active : env.pruned_at ≤ env.active_at
  pub stamped : env.active_at ≤ env.stamped_at
  pub started : 0 < t

-- What the random source gives: 24 bytes, for an identifier that no request has.
abbrev pub IsFresh : Store → Option (List ℕ) → Type 0
IsFresh s none = Unit {0}
IsFresh s (some bytes) = Triples 8 bytes × (lookup (request_id bytes) s.records ≡ none)

module _ (c : Codec) where
  save_or-IsValid :
      {A : Type 0} (t : ℕ) (s : Store) (e : Save) (undone : Store) (a : A)
      → IsValidMap c s.workspace_id t s.records
      → IsValid c t undone
      → IsValid c t (save_or c s e undone a).0
  save_or-IsValid t s e undone a m u = elim (Result-cases (save c s e)) [
    | inl (x, h) ↦ rw (h, save_or) u
    | inr (s', h) ↦ rw (h, save_or) ((save-IsValid c t s e m h).0)
  ]

  -- What pruning leaves, and that it adds nothing.
  abbrev pub Pruned : ℕ → Store → Result Error Store → Type 0
  Pruned t s (err x) = Unit {0}
  Pruned t s (ok s') =
      IsValid c t s' × ((id : String) → lookup id s.records ≡ none → lookup id s'.records ≡ none)

  pub prune_and_save-Pruned :
      (t : ℕ) (s : Store) (now : ℕ) (e : Save)
      → IsValid c t s
      → Pruned t s (prune_and_save c s now e)
  unfolding prune_and_save
  prune_and_save-Pruned t s now e v = elim (Bool-cases (any_expired now s.records)) [
    | inr same ↦ rw same (v, λ id h. h)
    | inl over ↦
        let s' : Store = record s { records = retain (is_live now) s.records } in
        rw over (elim (Result-cases (save c s' e)) [
          | inl (x, h) ↦ rw h tt
          | inr (p, h) ↦
              let (valid, same, _) =
                save-IsValid c t s' e (retain-IsValidMap c now v.map_valid) h in
              rw h (
                valid,
                λ id n. ap (lookup id) same ∙ lookup-retain-none id (is_live now) s.records n,
              )
        ])
  ]

  prune_first-IsValid :
      (t : ℕ) (s : Store) (env : Env) → IsValid c t s → IsValid c t (prune_first c s env).0
  unfolding prune_first
  prune_first-IsValid t s env v =
      let p = prune_and_save-Pruned t s env.pruned_at env.first_save v in
      elim (Result-cases (prune_and_save c s env.pruned_at env.first_save)) [
        | inl (x, h) ↦ rw (h, prune_first) v
        | inr (s', h) ↦ rw (h, prune_first) ((rw h at p).0)
      ]

  put_back-IsValid :
      (t : ℕ) (s : Store) (id : String) (r : Request)
      → lookup id s.records ≡ some r
      → IsValid c t s
      → IsValid c t (record s { records = insert id r (delete id s.records) })
  put_back-IsValid t s id r e v = record {
    map_valid = put_back-IsValidMap c id r e v.map_valid;
    stored = λ j. v.stored j ∙ sym (lookup-put_back c j id r s.records e);
  }

  drop_expired-IsValid :
      (t : ℕ) (s : Store) (id : String) (r : Request) (env : Env)
      → lookup id s.records ≡ some r
      → IsValid c t s
      → IsValid c t (drop_expired c s id r env).0
  unfolding drop_expired
  drop_expired-IsValid t s id r env e v =
      let d : Store = record s { records = delete id s.records } in
      elim (Result-cases (save c d env.first_save)) [
        | inl (x, h) ↦ rw (h, drop_expired) (put_back-IsValid t s id r e v)
        | inr (s', h) ↦
            rw (h, drop_expired)
              (save-IsValid c t d env.first_save (delete-IsValidMap c id v.map_valid) h).0
      ]

  expire_first-IsValid :
      (t : ℕ) (s : Store) (id : String) (env : Env) (o : Option Request)
      → lookup id s.records ≡ o
      → IsValid c t s
      → IsValid c t (expire_first c s id env o).0
  unfolding expire_first
  expire_first-IsValid t s id env none e v = prune_first-IsValid t s env v
  expire_first-IsValid t s id env (some r) e v = elim (Bool-cases (is_live env.checked_at r)) [
    | inl live ↦ rw live (prune_first-IsValid t s env v)
    | inr over ↦ rw over (drop_expired-IsValid t s id r env e v)
  ]

  get_kept-IsValid :
      (t : ℕ) (id task_id : String) (iteration : ℤ) (o : Outcome (Unit {0}))
      → IsValid c t o.0
      → IsValid c t (get_kept id task_id iteration o).0
  unfolding get_kept
  get_kept-IsValid t id task_id iteration (s, err e) v = v
  get_kept-IsValid t id task_id iteration (s, ok u) v = v

  pub get-IsValid :
      (t : ℕ) (s : Store) (id task_id : String) (iteration : ℤ) (env : Env)
      → IsValid c t s
      → IsValid c t (get c s id task_id iteration env).0
  unfolding get
  get-IsValid t s id task_id iteration env v = elim (Bool-cases (is_identity task_id iteration)) [
    | inl i ↦
        rw i (get_kept-IsValid t id task_id iteration _ (expire_first-IsValid t s id env _ refl v))
    | inr i ↦ rw i v
  ]

  cancel_status-IsValid :
      (t : ℕ) (s : Store) (id : String) (got : Request) (env : Env) (r : Request) (k : Status)
      → lookup id s.records ≡ some r
      → IsValid c t s
      → IsValid c t (cancel_status c s id got env r k).0
  unfolding cancel_status
  cancel_status-IsValid t s id got env r pending e v =
      save_or-IsValid t (record s { records = delete id s.records }) env.second_save
        (record s { records = insert id r (delete id s.records) }) (got, true)
        (delete-IsValidMap c id v.map_valid) (put_back-IsValid t s id r e v)
  cancel_status-IsValid t s id got env r _ e v = v

  cancel_found-IsValid :
      (t : ℕ) (s : Store) (id : String) (got : Request) (env : Env) (o : Option Request)
      → lookup id s.records ≡ o
      → IsValid c t s
      → IsValid c t (cancel_found c s id got env o).0
  unfolding cancel_found
  cancel_found-IsValid t s id got env none e v = v
  cancel_found-IsValid t s id got env (some r) e v =
      cancel_status-IsValid t s id got env r r.status e v

  pub cancel_locked-IsValid :
      (t : ℕ) (s : Store) (id : String) (got : Request) (env : Env)
      → IsValid c t s
      → IsValid c t (cancel_locked c s id got env).0
  cancel_locked-IsValid t s id got env v = cancel_found-IsValid t s id got env _ refl v

  pub IsValid-mono : {t u : ℕ} {s : Store} → t ≤ u → IsValid c t s → IsValid c u s
  IsValid-mono h v = record { map_valid = IsValidMap-mono c h v.map_valid; stored = v.stored }
