-- ===== src/Control/Store/Responses.antt =====
-- A response, once taken by `Submit` of internal/control/store.go, is not changed or cancelled: it is
-- there until its time is over.
pub mod Kept
use Prim.Native.String.{String}
use codexlink.Prelude.{
  ℕ, zero, suc, ◌+◌, ◌≤◌, ◌<◌, Bool, true, false, not, ◌&&◌, ◌||◌, Option, none, some, List, [],
  ◌∷◌, ◌≡◌, ◌≢◌, ◌⊎◌, refl, arith, str_eq, eq_iff, if◌then◌else◌, length, Result, ok, err, ◌∙◌, sym,
  ap, Bool-cases, Option-cases, Result-cases, inl, inr, leb,
}
use codexlink.Prelude.Assoc.{lookup, insert, delete, retain, IsUnique, filter_some}
use codexlink.Prelude.Assoc.Laws.{lookup-insert, lookup-delete, lookup-retain}
use codexlink.Prelude.Int.{ℤ}
use codexlink.Control.{
  Request, Submission, Status, pending, submitted, unknown, Codec, Error, max_active,
  max_response_bytes,
}
use codexlink.Control.Validation.{is_identity, is_submission}
use codexlink.Control.Store.{
  Save, Env, Store, Outcome, is_live, any_expired, save, prune_and_save, save_or,
}
use codexlink.Control.Store.Calls.{
  find_identity, ttl_of, request_id, new_request, add_request, reuse_or_add, prepare_pruned,
  prepare_ttl, prepare, drop_expired, prune_first, expire_first, matching, answered, accept,
  submit_status, submit_matched, submit_kept, submit, get_kept, get, cancel_status, cancel_found,
  cancel_locked, receipt,
}
use codexlink.Control.Store.History.{
  Call, prepares, submits, gets, cancels, env_of, CallIsFresh, step,
}
use codexlink.Control.Store.Invariant.{IsValid, Saved, save-Saved, lookup-put_back}
use codexlink.Control.Store.Maps.{delete-insert_new}
use codexlink.Control.Store.Preserve.{InOrder, IsFresh}
use codexlink.Control.Store.Preserve.Submit.{matching_ok}

module _ (c : Codec) where
  pub save_records :
      (s : Store) (e : Save) {s' : Store} → save c s e ≡ ok s' → s'.records ≡ s.records
  save_records s e {s'} h = let w : Saved c s (ok s') = rw h at (save-Saved c s e) in w.0

  -- What becomes of the request `r` under `id`: it stays, or it goes with its time over by `t`.
  abbrev pub Keeps : String → Request → ℕ → Store → Type 0
  Keeps id r t s =
      (lookup id s.records ≡ some r) ⊎ ((lookup id s.records ≡ none) × (r.expires_at ≤ t))

  module _ (id : String) (r : Request) (s : Store) (here : lookup id s.records ≡ some r) where
    retained :
        (now : ℕ)
        → IsUnique s.records
        → Keeps id r now (record s { records = retain (is_live now) s.records })
    retained now u = ground (arith, lookup-retain id (is_live now) s.records u)

    abbrev PrunedKeeps : ℕ → Result Error Store → Type 0
    PrunedKeeps now (ok s') = Keeps id r now s'
    PrunedKeeps now (err x) = Unit {0}

    prune_and_save-Keeps :
        (now : ℕ) (e : Save) → IsUnique s.records → PrunedKeeps now (prune_and_save c s now e)
    unfolding prune_and_save
    prune_and_save-Keeps now e u =
        let p = record s { records = retain (is_live now) s.records } in
        elim (Bool-cases (any_expired now s.records)) [
          | inr same ↦ rw same (inl here)
          | inl over ↦ rw over (elim (Result-cases (save c p e)) [
            | inl (x, h) ↦ rw h tt
            | inr (s', h) ↦ rw h (ground (arith, save_records p e h, retained now u))
          ])
        ]

    prune_first-Keeps :
        (env : Env) → IsUnique s.records → Keeps id r env.pruned_at (prune_first c s env).0
    unfolding prune_first
    prune_first-Keeps env u =
        let k = prune_and_save-Keeps env.pruned_at env.first_save u in
        elim (Result-cases (prune_and_save c s env.pruned_at env.first_save)) [
          | inl (x, h) ↦ rw (h, prune_first) (inl here)
          | inr (s', h) ↦ rw (h, prune_first) (rw h at k)
        ]

    drop_expired-Keeps :
        (j : String) (q : Request) (env : Env)
        → lookup j s.records ≡ some q
        → is_live env.checked_at q ≡ false
        → Keeps id r env.checked_at (drop_expired c s j q env).0
    unfolding drop_expired
    drop_expired-Keeps j q env e over =
        let d = record s { records = delete j s.records } in
        elim (Result-cases (save c d env.first_save)) [
          | inl (x, h) ↦ rw (h, drop_expired) (inl (lookup-put_back c id j q s.records e ∙ here))
          | inr (s', h) ↦
              let k = save_records d env.first_save h in
              rw (h, drop_expired) (ground (arith, k, lookup-delete id j s.records, eq_iff j id))
        ]

    expire_first-Keeps :
        (j : String) (env : Env) (o : Option Request)
        → lookup j s.records ≡ o
        → env.checked_at ≤ env.pruned_at
        → IsUnique s.records
        → Keeps id r env.pruned_at (expire_first c s j env o).0
    unfolding expire_first
    expire_first-Keeps j env none e h u = prune_first-Keeps env u
    expire_first-Keeps j env (some q) e h u = elim (Bool-cases (is_live env.checked_at q)) [
      | inl live ↦ rw live (prune_first-Keeps env u)
      | inr over ↦ rw over (ground (arith, drop_expired-Keeps j q env e over))
    ]

  -- What the second part of a call does to an identifier: nothing, unless a pending request has it.
  abbrev NotPending : String → Store → Type 0
  NotPending id s = (q : Request) → lookup id s.records ≡ some q → q.status ≢ pending

  abbrev Same : String → Store → Store → Type 0
  Same id s s' = lookup id s'.records ≡ lookup id s.records

  save_or-Same :
      {A : Type 0} (id : String) (s saved : Store) (e : Save) (undone : Store) (a : A)
      → Same id s saved
      → Same id s undone
      → Same id s (save_or c saved e undone a).0
  save_or-Same id s saved e undone a h u = elim (Result-cases (save c saved e)) [
    | inl (x, k) ↦ rw (k, save_or) u
    | inr (s', k) ↦ rw (k, save_or) (ap (lookup id) (save_records saved e k) ∙ h)
  ]

  accept-Same :
      (id : String) (s : Store) (r : Request) (x : Submission) (env : Env)
      → lookup x.request_id s.records ≡ some r
      → x.request_id ≢ id
      → Same id s (accept c s r x env).0
  unfolding accept
  accept-Same id s r x env e n =
      let r' = answered r x env.stamped_at in
      let m = insert x.request_id r' s.records in
      elim (Bool-cases (is_live env.active_at r)) [
        | inr over ↦ rw over refl
        | inl live ↦ rw live (
            save_or-Same id s (record s { records = m }) env.second_save
              (record s { records = insert x.request_id r m }) (receipt r' x env.stamped_at false)
              (ground (arith, lookup-insert id x.request_id r' s.records, eq_iff x.request_id id))
              (ground (
                arith,
                lookup-insert id x.request_id r' s.records,
                lookup-insert id x.request_id r m,
                eq_iff x.request_id id,
              )))
      ]

  submit_status-Same :
      (id : String) (s : Store) (r : Request) (x : Submission) (env : Env) (k : Status)
      → r.status ≡ k
      → lookup x.request_id s.records ≡ some r
      → NotPending id s
      → Same id s (submit_status c s r x env k).0
  unfolding submit_status
  submit_status-Same id s r x env pending p e n =
      accept-Same id s r x env e (λ same. n r (ap (λ j. lookup j s.records) (sym same) ∙ e) p)
  submit_status-Same id s r x env _ p e n = refl

  submit_kept-Same :
      (id : String) (x : Submission) (env : Env) (o : Outcome (Unit {0}))
      → NotPending id o.0
      → Same id o.0 (submit_kept c x env o).0
  unfolding submit_kept submit_matched
  submit_kept-Same id x env (s, err e) n = refl
  submit_kept-Same id x env (s, ok u) n =
      elim (Result-cases (matching x.task_id x.iteration (lookup x.request_id s.records))) [
        | inl (e, m) ↦ rw (m, submit_matched) refl
        | inr (q, m) ↦
            let (found, _, _) = matching_ok c _ _ _ q m in
            rw (m, submit_matched) (submit_status-Same id s q x env q.status refl found n)
      ]

  get_kept-Same :
      (id j task_id : String) (iteration : ℤ) (o : Outcome (Unit {0}))
      → Same id o.0 (get_kept j task_id iteration o).0
  unfolding get_kept
  get_kept-Same id j task_id iteration (s, err e) = refl
  get_kept-Same id j task_id iteration (s, ok u) = refl

  cancel_status-Same :
      (id j : String) (s : Store) (got : Request) (env : Env) (q : Request) (k : Status)
      → q.status ≡ k
      → lookup j s.records ≡ some q
      → NotPending id s
      → Same id s (cancel_status c s j got env q k).0
  unfolding cancel_status
  cancel_status-Same id j s got env q pending p e n =
      let other : j ≢ id = λ same. n q (ap (λ i. lookup i s.records) (sym same) ∙ e) p in
      save_or-Same id s (record s { records = delete j s.records }) env.second_save
        (record s { records = insert j q (delete j s.records) }) (got, true)
        (ground (arith, lookup-delete id j s.records, eq_iff j id))
        (lookup-put_back c id j q s.records e)
  cancel_status-Same id j s got env q _ p e n = refl

  cancel_found-Same :
      (id j : String) (s : Store) (got : Request) (env : Env) (o : Option Request)
      → lookup j s.records ≡ o
      → NotPending id s
      → Same id s (cancel_found c s j got env o).0
  unfolding cancel_found
  cancel_found-Same id j s got env none e n = refl
  cancel_found-Same id j s got env (some q) e n =
      cancel_status-Same id j s got env q q.status refl e n

  -- A new request under another identifier.
  abbrev IsOther : String → Store → Option (List ℕ) → Type 0
  IsOther id s none = Unit {0}
  IsOther id s (some bytes) = (request_id bytes ≢ id) × (lookup (request_id bytes) s.records ≡ none)

  reuse_or_add-Same :
      (id : String) (s : Store) (task_id : String) (iteration : ℤ) (ttl : ℕ) (env : Env)
      (bytes : Option (List ℕ)) (o : Option Request)
      → IsOther id s bytes
      → Same id s (reuse_or_add c s task_id iteration ttl env bytes o).0
  unfolding reuse_or_add add_request
  reuse_or_add-Same id s task_id iteration ttl env bytes (some q) n = refl
  reuse_or_add-Same id s task_id iteration ttl env none none n = ground arith
  reuse_or_add-Same id s task_id iteration ttl env (some bytes) none n =
      let j = request_id bytes in
      let q = new_request s j task_id iteration env.stamped_at ttl in
      let m = insert j q s.records in
      elim (Bool-cases (leb max_active (length s.records))) [
        | inl full ↦ rw full refl
        | inr room ↦ rw room (
            save_or-Same id s (record s { records = m }) env.second_save
              (record s { records = delete j m }) q
              (ground (arith, lookup-insert id j q s.records, eq_iff j id))
              (ap (lookup id) (delete-insert_new j q s.records n.1)))
      ]
